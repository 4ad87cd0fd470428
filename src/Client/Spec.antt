-- ===== src/Client/Spec.antt =====
-- cmd/amber/spec.go, and the names of cmd/amber/ref.go and cmd/amber/dial.go: content specs, and the references that track a
-- server. Go's string functions, hex, key.String and fstree.LookupEntry are the parameter `Texts`.
use amber_store_iroh.Prelude.{
  String, Bool, List, [], ◌∷◌, Option, none, some, str_eq, if◌then◌else◌,
}
use amber_store_iroh.Protocol.Error.{Bytes, Result, ok, err, wrapped, message}
use amber_store_iroh.Wantsync.Library.{Library}
use amber_store_iroh.Server.World.{RefLibrary}
use Prim.Native.String.{◌++◌ as text_append}
use text.Mathlib.Text.{starts_with}

pub record Texts {Key : Type 0} (lib : Library Key) : Type 0 where
  -- strings.Cut without its last result, strings.CutPrefix (none for no such prefix), strings.SplitSeq.
  pub cut : String → String → String × String
  pub cut_prefix : String → String → Option String
  pub split : String → String → List String
  -- hex.DecodeString, hex.EncodeToString and key.String.
  pub hex_decode : String → Result Bytes
  pub hex_encode : Bytes → String
  pub key_text : Key → String
  -- The content key of the entry that fstree.LookupEntry finds.
  pub lookup_entry : lib.State → Key → String → Result Bytes
  -- fmt.Sprintf with a format and two strings.
  pub sprintf_two : String → String → String → String

abbrev pub tracking_prefix : String
tracking_prefix = "remotes/"

unfoldable pub tracking_ref : String → String → String
tracking_ref server name = text_append tracking_prefix (text_append server (text_append "/" name))

-- strings.HasPrefix(name, trackingPrefix).
abbrev pub is_tracking : String → Bool
is_tracking name = starts_with name tracking_prefix

module _ {Key : Type 0} (lib : Library Key) (rl : RefLibrary) (texts : Texts lib) where
  unfoldable pub parse_hex_key : String → Result Key
  parse_hex_key s = elim (texts.hex_decode s) [
    | err e ↦ err (wrapped (rl.sprintf "invalid key %q: " s) e)
    | ok raw ↦ elim (lib.parse raw) [
      | err e ↦ err (wrapped (rl.sprintf "invalid key %q: " s) e)
      | ok k ↦ ok k
    ]
  ]

  unfoldable pub parse_key_path : String → Result (Key × String)
  unfolding parse_hex_key
  parse_key_path s =
      let (key_part, path) = texts.cut s "/" in
      elim (parse_hex_key key_part) [ err e ↦ err e | ok k ↦ ok (k, path) ]

  abbrev pub parse_stored : String → String → Result Key → Result (Key × String)
  parse_stored name path (err e) = err (wrapped (rl.sprintf "reference %q: stored key: " name) e)
  parse_stored name path (ok k) = ok (k, path)

  -- The branch of a spec that names a reference.
  unfoldable pub resolve_ref : rl.Refs → String → String → String → Result (Key × String)
  resolve_ref refs s name path = elim (rl.validate_name name) [
    | some e ↦ err (wrapped (rl.sprintf "invalid reference spec %q: " s) e)
    | none ↦ elim (rl.get refs name) [
      | err e ↦ err e
      | ok raw ↦ elim (rl.decode raw) [
        | err e ↦ err (wrapped (rl.sprintf "reference %q: " name) e)
        | ok rec ↦ parse_stored name path (lib.parse rec.key)
      ]
    ]
  ]

  unfoldable pub resolve_spec : rl.Refs → String → Result (Key × String)
  unfolding parse_key_path resolve_ref
  resolve_spec refs s = elim (texts.cut_prefix s "ref:") [
    | none ↦ parse_key_path s
    | some rest ↦ let (name, path) = texts.cut rest "@" in resolve_ref refs s name path
  ]

  -- One segment of the path.
  abbrev pub step_into : lib.State → String → Key → String → Result Key
  step_into st path k seg = elim (texts.lookup_entry st k seg) [
    | err e ↦ err (wrapped (rl.sprintf "resolving %q: " path) e)
    | ok content ↦ elim (lib.parse content) [
      | err e ↦
          err (message (texts.sprintf_two "resolving %q: %q is not a file or directory" path seg))
      | ok ck ↦ ok ck
    ]
  ]

  abbrev pub step_on : (Key → Result Key) → Result Key → Result Key
  step_on rest (err e) = err e
  step_on rest (ok k) = rest k

  unfoldable pub descend_loop : lib.State → String → List String → Key → Result Key
  descend_loop st path [] k = ok k
  descend_loop st path (seg ∷ segs) k =
      if str_eq seg ""
      then descend_loop st path segs k
      else step_on (descend_loop st path segs) (step_into st path k seg)

  unfoldable pub descend : lib.State → Key → String → Result Key
  unfolding descend_loop
  descend st root path = descend_loop st path (texts.split path "/") root
