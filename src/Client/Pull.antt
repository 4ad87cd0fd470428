-- ===== src/Client/Pull.antt =====
-- cmd/amber/pull.go: `runPull` over a store and a stream that are open. The progress bar and the line that is printed are
-- left out.
use amber_store_iroh.Prelude.{ℕ, ◌-◌, List, [], ◌∷◌, leb, Option, none, some, Eq, if◌then◌else◌}
use amber_store_iroh.Prelude.Int.{pos, ◌==ℤ◌}
use amber_store_iroh.Protocol.Error.{
  Bytes, Error, Result, ok, err, wrapped, message, remote, unexpected_frame,
}
use amber_store_iroh.Protocol.Msg.{Msg, blank, t_pull, t_ref, t_err, remote_from_msg}
use amber_store_iroh.Protocol.Stream.{Stream}
use amber_store_iroh.Protocol.Frame.{write_msg, read_msg}
use amber_store_iroh.Wantsync.Library.{Library}
use amber_store_iroh.Wantsync.Receive.{Item, Received, receive}
use amber_store_iroh.Server.World.{RefLibrary}
use amber_store_iroh.Client.Spec.{tracking_ref, is_tracking}
use amber_store_iroh.Client.Extras.{attach_extras}
use amber_store_iroh.Client.Push.{Request}

-- The command's error, and the local store that it leaves.
pub record Pulled {Key : Type 0} (lib : Library Key) (rl : RefLibrary) : Type 0 where
  pub error : Option Error
  pub objects : lib.State
  pub refs : rl.Refs

module _ {Key : Type 0} (lib : Library Key) (rl : RefLibrary) where
  abbrev pub stopped : Error → lib.State → rl.Refs → Pulled lib rl
  stopped x st refs = record { error = some x; objects = st; refs = refs }

  abbrev pub put_second : Option Error × rl.Refs → lib.State → Pulled lib rl
  put_second (none, refs) st = record { error = none; objects = st; refs = refs }
  put_second (some x, refs) st =
      stopped (wrapped "pull succeeded but recording tracking ref failed: " x) st refs

  abbrev pub put_first : Request → Bytes → Option Error × rl.Refs → lib.State → Pulled lib rl
  put_first req raw (some x, refs) st = stopped x st refs
  put_first req raw (none, refs) st =
      put_second (rl.put refs (tracking_ref req.server req.name) raw) st

  -- The server's record goes verbatim under the local name and under the tracking name.
  unfoldable pub record_pull : Request → Bytes → rl.Refs → lib.State → Pulled lib rl
  record_pull req raw refs st = put_first req raw (rl.put refs req.name raw) st

  abbrev pub channels_for : Request → Msg → Stream → List Stream
  channels_for req m s = elim m.token [
    | [] ↦ s ∷ []
    | b ∷ bs ↦
        if leb req.conns 1
        then s ∷ []
        else s ∷ attach_extras lib.codec (b ∷ bs) (req.conns - 1) req.attempts
  ]

module _ {Key : Type 0} ⦃e : Eq Key⦄ (lib : Library Key) (rl : RefLibrary)
    (merge : ℕ → List (List (Item Key)) → List (Item Key)) where
  abbrev pub after_transfer :
      Request → Bytes → rl.Refs → Option (Received lib) → Option (Pulled lib rl)
  after_transfer req raw refs none = none
  after_transfer req raw refs (some r) = elim r.error [
    | some x ↦ some (stopped lib rl x r.store refs)
    | none ↦ some (record_pull lib rl req raw refs r.store)
  ]

  abbrev pub on_ref : Request → lib.State → rl.Refs → Msg → Stream → Option (Pulled lib rl)
  on_ref req st refs m s = elim (rl.decode m.ref_record) [
    | err x ↦ some (stopped lib rl (wrapped "server ref record: " x) st refs)
    | ok rec ↦ elim (lib.parse rec.key) [
      | err x ↦ some (stopped lib rl (wrapped "server ref record key: " x) st refs)
      | ok root ↦
          after_transfer req m.ref_record refs
            (receive lib merge st (channels_for lib rl req m s) root)
    ]
  ]

  abbrev pub on_reply : Request → lib.State → rl.Refs → Result Msg × Stream → Option (Pulled lib rl)
  on_reply req st refs (err x, s) = some (stopped lib rl x st refs)
  on_reply req st refs (ok m, s) =
      if m.type ==ℤ t_ref
      then on_ref req st refs m s
      else if m.type ==ℤ t_err
      then some (stopped lib rl (remote (remote_from_msg m)) st refs)
      else some (stopped lib rl (unexpected_frame m.type) st refs)

  abbrev pub pull_msg : Request → Msg
  pull_msg req = record (blank t_pull) { name = req.name; data_conns = pos (req.conns - 1) }

  abbrev pub requested :
      Request → lib.State → rl.Refs → Option Error × Stream → Option (Pulled lib rl)
  requested req st refs (some x, s) = some (stopped lib rl x st refs)
  requested req st refs (none, s) = on_reply req st refs (read_msg lib.codec s)

  unfoldable pub run_pull : Request → lib.State → rl.Refs → Stream → Option (Pulled lib rl)
  run_pull req st refs s = elim (rl.validate_name req.name) [
    | some x ↦ some (stopped lib rl x st refs)
    | none ↦
        if is_tracking req.name
        then some (
            stopped lib rl
              (message (
                rl.sprintf "ref %q: the \"remotes/\" namespace is reserved for remote-tracking refs"
                  req.name))
              st refs)
        else requested req st refs (write_msg lib.codec (pull_msg req) s)
  ]
