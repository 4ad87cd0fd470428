-- ===== src/Client/Push.antt =====
-- cmd/amber/push.go: `runPush` over a store and a stream that are open, `runSenders` and `pushError`. The progress bar and
-- the line that is printed are left out.
use amber_store_iroh.Prelude.{
  ℕ, ◌+◌, ◌-◌, String, Bool, not, List, [], ◌∷◌, ◌++◌, length, drop, leb, Option, none, some, Eq,
  str_eq, if◌then◌else◌,
}
use amber_store_iroh.Prelude.Int.{ℤ, pos, ◌==ℤ◌}
use amber_store_iroh.Protocol.Error.{
  Bytes, Error, Result, ok, err, eof, wrapped, message, remote, unexpected_frame, is_not_found,
  as_remote, join,
}
use amber_store_iroh.Protocol.Msg.{
  Msg, blank, max_frame, t_push, t_ok, t_err, t_wants, t_accept, code_cas_mismatch, remote_from_msg,
}
use amber_store_iroh.Protocol.Stream.{Stream}
use amber_store_iroh.Protocol.Frame.{write_msg, read_msg}
use amber_store_iroh.Wantsync.Library.{Library}
use amber_store_iroh.Wantsync.Send.{Outcome, send}
use amber_store_iroh.Server.World.{Reference, RefLibrary}
use amber_store_iroh.Server.Pull.{send_all}
use amber_store_iroh.Client.Spec.{Texts, tracking_ref, is_tracking, resolve_spec}
use amber_store_iroh.Client.Extras.{attach_extras}
use Prim.Native.String.{◌++◌ as text_append}

-- What the command line gives; `attempts` is what opening the extra connections returns.
pub record Request : Type 0 where
  pub server : String
  pub name : String
  pub force : Bool
  pub conns : ℕ
  pub now : ℤ
  pub attempts : List (Result Stream)

-- The command's error, and what it leaves: the stream, and the local references.
abbrev pub Ended : RefLibrary → Type 0
Ended rl = Option Error × Stream × rl.Refs

-- bytes.Buffer, which takes any frame.
abbrev pub buffer : Stream
buffer = record { input = []; ending = eof; output = []; room = 4 + max_frame; failure = eof }

-- io.MultiReader(&replay, ctrl), with the writes going to ctrl.
abbrev pub replayed : Bytes → Stream → Stream
replayed bytes s = record s { input = bytes ++ s.input }

-- The stream behind it: of what is left unread, only what it had itself.
abbrev pub behind : Stream → Option Error × Stream → Option Error × Stream
behind ctrl (e, s) = (e, record s { input = drop (length s.input - length ctrl.input) s.input })

module _ {Key : Type 0} ⦃e : Eq Key⦄ (lib : Library Key) (rl : RefLibrary) (st : lib.State) where
  abbrev pub behind_replay : Stream → Outcome → Outcome
  behind_replay ctrl none = none
  behind_replay ctrl (some o) = some (behind ctrl o)

  -- A server that knows no sharding: the frame that was read is put in front of the stream.
  abbrev pub fall_back : Stream → Option Error × Stream → Outcome
  fall_back s (some x, replay) = some (some x, s)
  fall_back s (none, replay) = behind_replay s (send lib st (replayed replay.output s))

  abbrev pub joined_sends : Stream → Option (List (Option Error) × List Stream) → Outcome
  joined_sends ctrl none = none
  joined_sends ctrl (some (xs, [])) = some (join xs, ctrl)
  joined_sends ctrl (some (xs, s ∷ ss)) = some (join xs, s)

  abbrev pub on_first : Request → Result Msg × Stream → Outcome
  on_first req (err x, s) = some (some x, s)
  on_first req (ok m, s) =
      if m.type ==ℤ t_err
      then some (some (remote (remote_from_msg m)), s)
      else if m.type ==ℤ t_wants
      then fall_back s (write_msg lib.codec m buffer)
      else if m.type ==ℤ t_accept
      then joined_sends s
          (send_all lib rl st (s ∷ attach_extras lib.codec m.token (req.conns - 1) req.attempts))
      else some (some (unexpected_frame m.type), s)

  unfoldable pub run_senders : Request → Stream → Outcome
  run_senders req s = if leb req.conns 1 then send lib st s else on_first req (read_msg lib.codec s)

module _ {Key : Type 0} (lib : Library Key) (rl : RefLibrary) (texts : Texts lib) where
  abbrev pub current_text : Bytes → String
  current_text [] = "absent"
  current_text (b ∷ bs) = elim (lib.parse (b ∷ bs)) [
    | ok k ↦ texts.key_text k
    | err x ↦ texts.hex_encode (b ∷ bs)
  ]

  -- A cas-mismatch becomes a message that says what to do.
  unfoldable pub push_error : String → Error → Error
  push_error name x = elim (as_remote x) [
    | none ↦ x
    | some re ↦
        if str_eq re.code code_cas_mismatch
        then message (
            texts.sprintf_two "remote ref %q changed (now %s): pull first, or push --force" name
              (current_text re.current))
        else x
  ]

  -- The compare-and-swap expectation: what this store last saw on the server, nil for nothing.
  unfoldable pub expected : rl.Refs → String → Result Bytes
  expected refs tname = elim (rl.get refs tname) [
    | ok raw ↦ elim (rl.decode raw) [
      | err x ↦ err (wrapped (rl.sprintf "tracking ref %q: " tname) x)
      | ok rec ↦ ok rec.key
    ]
    | err x ↦ if is_not_found x then ok [] else err x
  ]

  abbrev pub tracking_reference : Request → Key → Reference
  tracking_reference req root = record {
    name = tracking_ref req.server req.name;
    key = lib.to_bytes root;
    created_at = req.now;
    user = "";
  }

  abbrev pub put_tracking : Stream → Option Error × rl.Refs → Ended rl
  put_tracking s (none, refs) = (none, s, refs)
  put_tracking s (some x, refs) =
      (some (wrapped "push succeeded but recording tracking ref failed: " x), s, refs)

  unfoldable pub record_push : Request → Key → Stream → rl.Refs → Ended rl
  record_push req root s refs = elim (rl.encode (tracking_reference req root)) [
    | err x ↦ (some x, s, refs)
    | ok raw ↦ put_tracking s (rl.put refs (tracking_ref req.server req.name) raw)
  ]

  -- The server's last word.
  abbrev pub on_answer : Request → Key → rl.Refs → Result Msg × Stream → Ended rl
  on_answer req root refs (err x, s) = (some x, s, refs)
  on_answer req root refs (ok m, s) =
      if m.type ==ℤ t_ok
      then record_push req root s refs
      else if m.type ==ℤ t_err
      then (some (push_error req.name (remote (remote_from_msg m))), s, refs)
      else (some (unexpected_frame m.type), s, refs)

module _ {Key : Type 0} ⦃e : Eq Key⦄ (lib : Library Key) (rl : RefLibrary) (texts : Texts lib)
    (st : lib.State) where
  abbrev pub after_send : Request → Key → rl.Refs → Outcome → Option (Ended rl)
  after_send req root refs none = none
  after_send req root refs (some (some x, s)) =
      some (some (push_error lib rl texts req.name x), s, refs)
  after_send req root refs (some (none, s)) =
      some (on_answer lib rl texts req root refs (read_msg lib.codec s))

  abbrev pub push_msg : Request → Key → Bytes → Msg
  push_msg req root old = record (blank t_push) {
    name = req.name;
    root = lib.to_bytes root;
    cas = not req.force;
    expected_old = old;
    data_conns = pos (req.conns - 1);
  }

  abbrev pub after_request : Request → Key → rl.Refs → Option Error × Stream → Option (Ended rl)
  after_request req root refs (some x, s) = some (some x, s, refs)
  after_request req root refs (none, s) = after_send req root refs (run_senders lib rl st req s)

  abbrev pub push_root : Request → rl.Refs → Stream → Key × String → Option (Ended rl)
  push_root req refs s (root, path) =
      elim (expected lib rl texts refs (tracking_ref req.server req.name)) [
        | err x ↦ some (some x, s, refs)
        | ok old ↦ after_request req root refs (write_msg lib.codec (push_msg req root old) s)
      ]

  unfoldable pub run_push : Request → rl.Refs → Stream → Option (Ended rl)
  run_push req refs s =
      if is_tracking req.name
      then some (
        some (
            message (
              rl.sprintf "ref %q: the \"remotes/\" namespace is reserved for remote-tracking refs"
                req.name)),
        s,
        refs,
      )
      else elim (resolve_spec lib rl texts refs (text_append "ref:" req.name)) [
        | err x ↦ some (some x, s, refs)
        | ok found ↦ push_root req refs s found
      ]
