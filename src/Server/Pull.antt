-- ===== src/Server/Pull.antt =====
-- server/server.go: `handlePull`. Its senders run at once, each on its own channel; they only read the store.
pub mod Laws
use amber_store_iroh.Prelude.{ℕ, Bool, List, [], ◌∷◌, Option, none, some, Eq, if◌then◌else◌}
use amber_store_iroh.Prelude.Int.{ℤ, pos, leb_ℤ}
use amber_store_iroh.Protocol.Error.{Bytes, Error, Result, ok, err, message, is_not_found, join}
use amber_store_iroh.Protocol.Msg.{Msg, blank, t_ref, code_unknown_ref, code_internal}
use amber_store_iroh.Protocol.Stream.{Stream}
use amber_store_iroh.Wantsync.Library.{Library}
use amber_store_iroh.Wantsync.Send.{Outcome, send}
use amber_store_iroh.Server.World.{
  RefLibrary, accessed, Config, World, Session, Step, note_if, respond, fail, fail_local,
}
use amber_store_iroh.Server.Channels.{
  Surroundings, Shards, no_shards, register, drop_transfer, gather_extras, release, with_pending,
  offer,
}

abbrev pub and_sent :
    Option Error × Stream
    → Option (List (Option Error) × List Stream)
    → Option (List (Option Error) × List Stream)
and_sent o none = none
and_sent (x, s) (some (xs, ss)) = some (x ∷ xs, s ∷ ss)

module _ {Key : Type 0} ⦃e : Eq Key⦄ (lib : Library Key) (rl : RefLibrary) where
  -- One Send loop per channel, and their errors.
  unfoldable pub send_all : lib.State → List Stream → Option (List (Option Error) × List Stream)
  send_all st [] = some ([], [])
  send_all st (c ∷ cs) = elim (send lib st c) [ none ↦ none | some o ↦ and_sent o (send_all st cs) ]

  abbrev pub report : Option Error → Session lib rl → Step lib rl
  report none s = (none, s)
  report (some x) s = fail_local lib rl x s

  -- The senders have returned: the streams as they leave them, the first is the stream of the operation.
  abbrev pub all_sent :
      Option Bytes → List (Option Error) × List Stream → Session lib rl → Step lib rl
  all_sent token (xs, []) s = report (join xs) s
  all_sent token (xs, c ∷ extras) s =
      let (x, s') = report (join xs) (record s { control = c }) in
      (x, with_pending lib rl (release lib rl token extras) s')

  unfoldable pub serve_channels : Shards × Session lib rl → Option (Step lib rl)
  unfolding send_all
  serve_channels (shards, s) = elim (send_all s.world.objects (s.control ∷ shards.extras)) [
    | none ↦ none
    | some o ↦ some (all_sent shards.token o s)
  ]

  abbrev pub gathered :
      Surroundings lib rl → ℤ → Option Bytes → Session lib rl → Shards × Session lib rl
  gathered around n none s = (no_shards, s)
  gathered around n (some token) s = gather_extras lib rl around token n s

  abbrev pub drop_if : Option Bytes → Session lib rl → Session lib rl
  drop_if none s = s
  drop_if (some token) s = with_pending lib rl (drop_transfer lib rl token) s

  -- The TRef frame has been written.
  abbrev pub answered : Surroundings lib rl → ℤ → Option Bytes → Step lib rl → Option (Step lib rl)
  answered around n token (some x, s) = some (some x, drop_if token s)
  answered around n token (none, s) = serve_channels (gathered around n token s)

  abbrev pub ref_msg : Bytes → Msg
  ref_msg raw = record (blank t_ref) { ref_record = raw }

  -- The reference is known.
  unfoldable pub pull_ref :
      Config Key → Surroundings lib rl → Msg → Bytes → Session lib rl → Option (Step lib rl)
  unfolding serve_channels
  pull_ref config around m raw s =
      if leb_ℤ m.data_conns (pos 0)
      then answered around m.data_conns none (respond lib rl (ref_msg raw) s)
      else elim around.random [
        | err x ↦ some (fail lib rl code_internal x s)
        | ok token ↦ answered around m.data_conns (some token) (
            respond lib rl (offer lib rl config (ref_msg raw) token)
              (with_pending lib rl (register lib rl token) s))
      ]

  unfoldable pub handle_pull :
      Config Key → Surroundings lib rl → Msg → Session lib rl → Option (Step lib rl)
  unfolding pull_ref
  handle_pull config around m s = elim (rl.get s.world.refs m.name) [
    | ok raw ↦ pull_ref config around m raw (note_if lib rl config.on_access (accessed m.name) s)
    | err x ↦ some (
        if is_not_found x
        then fail lib rl code_unknown_ref (message (rl.sprintf "ref %q not found" m.name)) s
        else fail lib rl code_internal x s)
  ]
