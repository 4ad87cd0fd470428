-- ===== src/Server/Handle.antt =====
-- server/server.go: `HandleStream`, one operation on one stream.
pub mod Ends
pub mod Invariant
use amber_store_iroh.Prelude.{
  Bool, true, false, List, [], ◌∷◌, ◌++◌, Option, none, some, Eq, if◌then◌else◌,
}
use amber_store_iroh.Prelude.Int.{◌==ℤ◌}
use amber_store_iroh.Protocol.Error.{Error, Result, ok, err, message}
use amber_store_iroh.Protocol.Msg.{
  Msg, t_attach, t_ref_list, t_push, t_pull, t_pin, code_bad_request,
}
use amber_store_iroh.Protocol.Stream.{Stream}
use amber_store_iroh.Protocol.Frame.{write_msg, read_msg}
use amber_store_iroh.Wantsync.Library.{Library}
use amber_store_iroh.Wantsync.Send.{err_msg}
use amber_store_iroh.Server.Transfers.{Pending, attach}
use amber_store_iroh.Server.World.{RefLibrary, Config, World, Session, Step, fail}
use amber_store_iroh.Server.Refs.{handle_ref_list, handle_pin}
use amber_store_iroh.Server.Push.{handle_push}
use amber_store_iroh.Server.Pull.{handle_pull}
use amber_store_iroh.Server.Channels.{Surroundings}

module _ {Key : Type 0} (lib : Library Key) (rl : RefLibrary) where
  abbrev pub close_stream : Stream → World lib rl → World lib rl
  close_stream s w = record w { closed = w.closed ++ s ∷ [] }

  -- The deferred closeStream; the handler's error is only logged.
  abbrev pub close_behind : Option (Step lib rl) → Option (World lib rl)
  close_behind none = none
  close_behind (some (x, s)) = some (close_stream s.control s.world)

  -- A stream that a transfer has taken belongs to it; another one is told so, and closed.
  abbrev pub attached : Stream → World lib rl → Bool × Pending Stream → World lib rl
  attached s w (true, pending) = record w { pending = pending }
  attached s w (false, pending) =
      close_stream (write_msg lib.codec (err_msg code_bad_request "unknown transfer token") s).1
        (record w { pending = pending })

module _ {Key : Type 0} ⦃e : Eq Key⦄ (lib : Library Key) (rl : RefLibrary) where
  abbrev pub operate :
      Config Key → Surroundings lib rl → Msg → Session lib rl → Option (Step lib rl)
  operate config around m s =
      if m.type ==ℤ t_ref_list
      then some (handle_ref_list lib rl s)
      else if m.type ==ℤ t_push
      then handle_push lib rl config around m s
      else if m.type ==ℤ t_pull
      then handle_pull lib rl config around m s
      else if m.type ==ℤ t_pin
      then some (handle_pin lib rl config m s)
      else some (
          fail lib rl code_bad_request (message (rl.sprintf_number "unknown operation %d" m.type))
            s)

  abbrev pub dispatch :
      Config Key → Surroundings lib rl → Result Msg × Stream → World lib rl → Option (World lib rl)
  dispatch config around (err x, s) w = some (close_stream lib rl s w)
  dispatch config around (ok m, s) w =
      if m.type ==ℤ t_attach
      then some (attached lib rl s w (attach m.token s w.pending))
      else close_behind lib rl (operate config around m (record { control = s; world = w }))

  unfoldable pub handle_stream :
      Config Key → Surroundings lib rl → Stream → World lib rl → Option (World lib rl)
  handle_stream config around s w = dispatch config around (read_msg lib.codec s) w
