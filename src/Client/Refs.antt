-- ===== src/Client/Refs.antt =====
-- cmd/amber/ref.go and cmd/amber/refs.go: the commands on references, local and on the server. What a command prints is a list
-- of lines; writing a line does not fail here.
pub mod Laws
pub mod Wire
use amber_store_iroh.Prelude.{
  String, Bool, true, false, List, [], ◌∷◌, ◌++◌, Option, none, some, str_eq, if◌then◌else◌,
}
use amber_store_iroh.Prelude.Int.{ℤ, ◌==ℤ◌}
use amber_store_iroh.Protocol.Error.{
  Bytes, Error, Result, ok, err, message, wrapped, remote, unexpected_frame,
}
use amber_store_iroh.Protocol.Msg.{Msg, RefInfo, blank, t_ref_list, t_refs, t_err, remote_from_msg}
use amber_store_iroh.Protocol.Stream.{Stream}
use amber_store_iroh.Protocol.Frame.{write_msg, read_msg}
use amber_store_iroh.Wantsync.Library.{Library}
use amber_store_iroh.Server.World.{Reference, RefRecord, RefLibrary}
use amber_store_iroh.Client.Spec.{Texts, is_tracking, parse_hex_key, resolve_spec}
use amber_store_iroh.Client.Store.{Openings, open_store, close_store}
use Prim.Native.String.{◌++◌ as text_append}

-- The lines that a command prints before it ends, and its error.
pub record Printed : Type 0 where
  pub lines : List String
  pub error : Option Error

-- time.Unix(0, ns).UTC().Format(time.RFC3339), and fmt.Sprintf("%s %s %s", ...).
pub record Clock : Type 0 where
  pub rfc3339 : ℤ → String
  pub three_words : String → String → String → String

abbrev pub print_first : String → Printed → Printed
print_first line p = record p { lines = line ∷ p.lines }

abbrev pub stop : Error → Printed
stop e = record { lines = []; error = some e }

abbrev pub with_user : String → String → String
with_user line user = if str_eq user "" then line else text_append line (text_append " " user)

module _ {Key : Type 0} (lib : Library Key) (rl : RefLibrary) (texts : Texts lib)
    (clock : Clock) where
  unfoldable pub ref_line : String → Key → ℤ → String → String
  ref_line name k created user =
      with_user (clock.three_words name (texts.key_text k) (clock.rfc3339 created)) user

  -- The line of a record of the store.
  unfoldable pub record_line : RefRecord → Result String
  unfolding ref_line
  record_line r = elim (rl.decode r.raw) [
    | err e ↦ err (wrapped (rl.sprintf "reference %q: " r.name) e)
    | ok rec ↦ elim (lib.parse rec.key) [
      | err e ↦ err (wrapped (rl.sprintf "reference %q: stored key: " r.name) e)
      | ok k ↦ ok (ref_line rec.name k rec.created_at rec.user)
    ]
  ]

  abbrev pub print_line : Result String → Printed → Printed
  print_line (err e) rest = stop e
  print_line (ok line) rest = print_first line rest

  -- Tracking references are hidden.
  unfoldable pub list_loop : List RefRecord → Printed
  list_loop [] = record { lines = []; error = none }
  list_loop (r ∷ rs) =
      let rest = list_loop rs in
      if is_tracking r.name then rest else print_line (record_line r) rest

  -- runRefList over the opened store.
  unfoldable pub run_ref_list : rl.Refs → Printed
  unfolding list_loop
  run_ref_list refs = elim (rl.all refs) [ err e ↦ stop e | ok records ↦ list_loop records ]

  -- runRefGet over the opened store.
  unfoldable pub run_ref_get : rl.Refs → String → Printed
  run_ref_get refs name = elim (resolve_spec lib rl texts refs (text_append "ref:" name)) [
    | err e ↦ stop e
    | ok found ↦ record { lines = texts.key_text found.0 ∷ []; error = none }
  ]

  unfoldable pub info_line : RefInfo → Result String
  unfolding ref_line
  info_line r = elim (lib.parse r.key) [
    | err e ↦ err (wrapped (rl.sprintf "reference %q: " r.name) e)
    | ok k ↦ ok (ref_line r.name k r.created_at r.user)
  ]

  unfoldable pub print_infos : List RefInfo → Printed
  unfolding info_line
  print_infos [] = record { lines = []; error = none }
  print_infos (r ∷ rs) = print_line (info_line r) (print_infos rs)

  abbrev pub on_refs : Result Msg → Printed
  on_refs (err e) = stop e
  on_refs (ok m) =
      if m.type ==ℤ t_refs
      then print_infos m.refs
      else if m.type ==ℤ t_err
      then stop (remote (remote_from_msg m))
      else stop (unexpected_frame m.type)

  abbrev pub refs_requested : Option Error × Stream → Printed
  refs_requested (some e, s) = stop e
  refs_requested (none, s) = on_refs (read_msg lib.codec s).0

  -- runRefs over the stream to the server.
  unfoldable pub run_refs : Stream → Printed
  unfolding print_infos
  run_refs s = refs_requested (write_msg lib.codec (blank t_ref_list) s)

module _ {Key : Type 0} (lib : Library Key) (rl : RefLibrary) (texts : Texts lib)
    (openings : Openings lib rl) where
  -- The error of a command, and the references on disk behind it.
  abbrev pub then_close : Option Error × rl.Refs → Option Error × rl.Refs
  then_close (some e, refs) = (some e, refs)
  then_close (none, refs) = ((close_store openings).0, refs)

  abbrev pub put_opened :
      String → Bytes → rl.Refs → Result (lib.State × rl.Refs) → Option Error × rl.Refs
  put_opened name raw before (err e) = (some e, before)
  put_opened name raw before (ok (objects, refs)) = then_close (rl.put refs name raw)

  abbrev pub new_ref : String → Key → ℤ → Reference
  new_ref name k now = record { name = name; key = lib.to_bytes k; created_at = now; user = "" }

  -- runRefSet: what the references are on disk is what openStore opens.
  unfoldable pub run_ref_set : String → String → String → ℤ → rl.Refs → Option Error × rl.Refs
  run_ref_set dir name key_arg now before =
      if is_tracking name
      then (
        some (
            message (
              rl.sprintf "ref %q: the \"remotes/\" namespace is reserved for remote-tracking refs"
                name)),
        before,
      )
      else elim (parse_hex_key lib rl texts key_arg) [
        | err e ↦ (some e, before)
        | ok k ↦ elim (rl.encode (new_ref name k now)) [
          | err e ↦ (some e, before)
          | ok raw ↦ put_opened name raw before (open_store openings dir).0
        ]
      ]

  abbrev pub delete_opened :
      String → rl.Refs → Result (lib.State × rl.Refs) → Option Error × rl.Refs
  delete_opened name before (err e) = (some e, before)
  delete_opened name before (ok (objects, refs)) = then_close (rl.delete refs name)

  -- runRefRm.
  unfoldable pub run_ref_rm : String → String → rl.Refs → Option Error × rl.Refs
  run_ref_rm dir name before = delete_opened name before (open_store openings dir).0
