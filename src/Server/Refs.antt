-- ===== src/Server/Refs.antt =====
-- server/server.go: `handleRefList`, `handlePin` and `checkCAS`, the operations on the references alone.
pub mod Laws
pub mod Pins
use amber_store_iroh.Prelude.{
  ◌≡◌, String, Bool, true, false, List, [], ◌∷◌, Option, none, some, bytes_equal, if◌then◌else◌,
}
use amber_store_iroh.Protocol.Error.{Bytes, Error, Result, ok, err, wrapped, message, is_not_found}
use amber_store_iroh.Protocol.Msg.{
  Msg, RefInfo, blank, t_ok, t_err, t_refs, code_internal, code_cas_mismatch,
}
use amber_store_iroh.Wantsync.Library.{Library}
use amber_store_iroh.Server.World.{
  Reference, RefRecord, RefLibrary, pinned, Config, World, Session, Step, note_if, respond, fail,
}

abbrev pub ref_info : RefRecord → Reference → RefInfo
ref_info r rec = record {
  name = r.name;
  key = rec.key;
  created_at = rec.created_at;
  user = rec.user;
}

abbrev pub with_info : RefInfo → Result (List RefInfo) → Result (List RefInfo)
with_info i (ok is) = ok (i ∷ is)
with_info i (err e) = err e

-- The loop of handleRefList over the records.
unfoldable pub ref_infos : RefLibrary → List RefRecord → Result (List RefInfo)
ref_infos rl [] = ok []
ref_infos rl (r ∷ rs) = elim (rl.decode r.raw) [
  | err e ↦ err (wrapped (rl.sprintf "reference %q: " r.name) e)
  | ok rec ↦ with_info (ref_info r rec) (ref_infos rl rs)
]

-- What the compare-and-swap looks at: the key that the name has now, nil for no such reference.
unfoldable pub current_key : (rl : RefLibrary) → rl.Refs → String → Result Bytes
current_key rl refs name = elim (rl.get refs name) [
  | ok raw ↦ elim (rl.decode raw) [ err e ↦ err e | ok rec ↦ ok rec.key ]
  | err e ↦ if is_not_found e then ok [] else err e
]

-- Msg{Type: TErr, Code: CodeCASMismatch, ...}.
abbrev pub mismatch_msg : RefLibrary → String → Bytes → Msg
mismatch_msg rl name current = record (blank t_err) {
  code = code_cas_mismatch;
  text = rl.sprintf "remote ref %q changed" name;
  current = current;
}

module _ {Key : Type 0} (lib : Library Key) (rl : RefLibrary) where
  abbrev pub list_refs : Result (List RefInfo) → Session lib rl → Step lib rl
  list_refs (err e) s = fail lib rl code_internal e s
  list_refs (ok is) s = respond lib rl (record (blank t_refs) { refs = is }) s

  unfoldable pub handle_ref_list : Session lib rl → Step lib rl
  handle_ref_list s = elim (rl.all s.world.refs) [
    | err e ↦ fail lib rl code_internal e s
    | ok records ↦ list_refs (ref_infos rl records) s
  ]

  -- A name without a reference is passed over.
  abbrev pub pin_one :
      Config Key
      → String
      → Result Bytes
      → (Session lib rl → Step lib rl)
      → Session lib rl
      → Step lib rl
  pin_one config name (ok raw) rest s = rest (note_if lib rl config.on_pin (pinned name) s)
  pin_one config name (err e) rest s =
      if is_not_found e then rest s else fail lib rl code_internal e s

  unfoldable pub pin_names : Config Key → List String → Session lib rl → Step lib rl
  pin_names config [] s = respond lib rl (blank t_ok) s
  pin_names config (name ∷ names) s =
      pin_one config name (rl.get s.world.refs name) (pin_names config names) s

  unfoldable pub handle_pin : Config Key → Msg → Session lib rl → Step lib rl
  handle_pin config m s = pin_names config m.names s

  abbrev pub compare_key : Msg → Result Bytes → Session lib rl → Step lib rl
  compare_key m (err e) s = fail lib rl code_internal e s
  compare_key m (ok current) s = if bytes_equal current m.expected_old then (none, s) else (
    some (message (rl.sprintf "cas mismatch on %q" m.name)),
    (respond lib rl (mismatch_msg rl m.name current) s).1,
  )

  unfoldable pub check_cas : Msg → Session lib rl → Step lib rl
  check_cas m s = compare_key m (current_key rl s.world.refs m.name) s

  -- if m.CAS { if err := s.checkCAS(rw, m); err != nil { return err } }
  abbrev pub check_if : Bool → Msg → Session lib rl → Step lib rl
  check_if true m s = check_cas m s
  check_if false m s = (none, s)
