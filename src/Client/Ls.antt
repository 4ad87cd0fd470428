-- ===== src/Client/Ls.antt =====
-- cmd/amber/ls.go: the listing of a directory. fstree.ListEntries, Go's formatting and the clock are the parameter `Listing`;
-- times are nanoseconds of Unix time.
pub mod Paging
pub mod Modes
pub mod Columns
use amber_store_iroh.Prelude.{
  ℕ, zero, suc, ◌-◌, ◌^◌, max, bit_and, String, Bool, true, false, not, List, [], ◌∷◌, ◌++◌, ◌||◌,
  length, get_or, ◌==◌, if◌then◌else◌, Option, none, some,
}
use amber_store_iroh.Prelude.Int.{ℤ, leb_ℤ}
use amber_store_iroh.Protocol.Error.{Bytes, Error, Result, ok, err, eof}
use amber_store_iroh.Wantsync.Library.{Library}
use amber_store_iroh.Server.World.{RefLibrary}
use amber_store_iroh.Client.Spec.{Texts, resolve_spec, descend}
use amber_store_iroh.Client.Refs.{Printed, print_first, stop}
use Prim.Native.String.{◌++◌ as text_append}

-- What ls reads of fstree.Entry.
pub record Entry : Type 0 where
  pub name : Bytes
  pub mode : ℕ
  pub uid : ℕ
  pub gid : ℕ
  pub mtime : ℤ
  pub rdev : List ℕ
  pub link_target : Bytes
  pub content_key : Bytes

pub record Row : Type 0 where
  pub mode : Bytes
  pub uid : ℕ
  pub gid : ℕ
  pub size : String
  pub mtime : String
  pub name : String

pub record Listing {Key : Type 0} (lib : Library Key) : Type 0 where
  -- fstree.ListEntries over objects.Get: the directory, the name to go on behind, the size of a page; a page, and whether there is more.
  pub list_entries : (Key → Result Bytes) → Key → Bytes → ℕ → Result (List Entry × Bool)
  -- strconv.FormatUint in base 10, which strconv.Itoa agrees with here, and len of a string.
  pub decimal : ℕ → String
  pub len : String → ℕ
  -- fmt.Sprintf("%d,%d", ...), string of bytes, key.String.
  pub pair : ℕ → ℕ → String
  pub text : Bytes → String
  pub key_text : Key → String
  -- now.AddDate(0, -6, 0), and Time.Format.
  pub six_months_before : ℤ → ℤ
  pub format : String → ℤ → String
  -- The Fprintf of a row with the widths of its columns; it is an error or the line.
  pub line : ℕ → ℕ → ℕ → Row → Result String

abbrev pub page_size : ℕ
page_size = 4096

-- What the loop of runLs comes to: the entries, the error of a page, or the index out of range at a page that has no last entry.
pub data Listed : Type 0 where
  listed : List Entry → Listed
  failed : Error → Listed
  panicked : Listed
  unfinished : Listed

-- page[len(page)-1].Name, none for an empty page.
abbrev pub last_name : Entry → List Entry → Bytes
last_name e [] = e.name
last_name e (e' ∷ es) = last_name e' es

abbrev pub type_char : ℕ → ℕ
type_char t =
    if t == 0x4000
    then b'd'
    else if t == 0xA000
    then b'l'
    else if t == 0x2000
    then b'c'
    else if t == 0x6000
    then b'b'
    else if t == 0x1000
    then b'p'
    else if t == 0xC000
    then b's'
    else if t == 0x8000
    then b'-'
    else b'?'

-- `b[i] = c`.
abbrev pub put_at : ℕ → ℕ → Bytes → Bytes
put_at i c [] = []
put_at zero c (b ∷ bs) = c ∷ bs
put_at (suc i) c (b ∷ bs) = b ∷ put_at i c bs

-- The loop over "rwxrwxrwx" from the index i on.
abbrev pub permissions : ℕ → ℕ → Bytes → Bytes
permissions mode i [] = []
permissions mode i (c ∷ cs) =
    (if bit_and mode (2 ^ (8 - i)) == 0 then b'-' else c) ∷ permissions mode (suc i) cs

abbrev pub rwx : Bytes
rwx = b'r' ∷ b'w' ∷ b'x' ∷ b'r' ∷ b'w' ∷ b'x' ∷ b'r' ∷ b'w' ∷ b'x' ∷ []

abbrev pub set_bit : ℕ → ℕ → ℕ → ℕ → ℕ → Bytes → Bytes
set_bit mode pos bit with_x without_x b =
    if bit_and mode bit == 0
    then b
    else put_at pos (if get_or b pos 0 == b'x' then with_x else without_x) b

unfoldable pub mode_string : ℕ → Bytes
mode_string mode =
    let b = type_char (bit_and mode 0xF000) ∷ permissions mode 0 rwx in
    set_bit mode 9 0x200 b't' b'T'
      (set_bit mode 6 0x400 b's' b'S' (set_bit mode 3 0x800 b's' b'S' b))

module _ {Key : Type 0} (lib : Library Key) (listing : Listing lib) where
  -- What a page leads to: `go_on` is the rest of the loop, behind a name, with the entries so far.
  abbrev pub on_page :
      (Bytes → List Entry → Listed) → List Entry → Result (List Entry × Bool) → Listed
  on_page go_on entries (err e) = failed e
  on_page go_on entries (ok (page, false)) = listed (entries ++ page)
  on_page go_on entries (ok ([], true)) = panicked
  on_page go_on entries (ok (e ∷ page, true)) = go_on (last_name e page) (entries ++ e ∷ page)

  -- The loop of runLs, with fuel for so many pages.
  unfoldable pub page_loop : ℕ → lib.State → Key → ℕ → Bytes → List Entry → Listed
  page_loop zero objects dir size after entries = unfinished
  page_loop (suc fuel) objects dir size after entries =
      on_page (page_loop fuel objects dir size) entries
        (listing.list_entries (lib.get objects) dir after size)

  -- The content length that the key carries, and without a key the length of the link's target.
  abbrev pub content_size : Entry → Result Key → String
  content_size e (err x) = listing.decimal (length e.link_target)
  content_size e (ok k) = listing.decimal (lib.key_length k)

  abbrev pub parsed_key : Bytes → Result Key
  parsed_key [] = err eof
  parsed_key (b ∷ bs) = lib.parse (b ∷ bs)

  abbrev pub size_of : Entry → List ℕ → String
  size_of e (major ∷ minor ∷ []) = listing.pair major minor
  size_of e other = content_size e (parsed_key e.content_key)

  unfoldable pub size_string : Entry → String
  size_string e = size_of e e.rdev

  abbrev pub linked : Entry → Bytes → String
  linked e [] = listing.text e.name
  linked e (b ∷ bs) = text_append (listing.text e.name) (text_append " -> " (listing.text (b ∷ bs)))

  abbrev pub with_key : String → Result Key → String
  with_key name (err x) = name
  with_key name (ok k) = text_append name (text_append " " (listing.key_text k))

  unfoldable pub row_name : Bool → Entry → String
  row_name true e = with_key (linked e e.link_target) (parsed_key e.content_key)
  row_name false e = linked e e.link_target

  -- `t.After(now)` is `now < t`.
  unfoldable pub format_mtime : ℤ → ℤ → String
  format_mtime t now =
      if not (leb_ℤ t now) || not (leb_ℤ (listing.six_months_before now) t)
      then listing.format "Jan _2  2006" t
      else listing.format "Jan _2 15:04" t

  -- The widths of the three columns.
  unfoldable pub widths : List Entry → ℕ → ℕ → ℕ → ℕ × ℕ × ℕ
  unfolding size_string
  widths [] uid gid size = (uid, gid, size)
  widths (e ∷ es) uid gid size =
      widths es (max uid (listing.len (listing.decimal e.uid)))
        (max gid (listing.len (listing.decimal e.gid))) (max size (listing.len (size_string e)))

  unfoldable pub row : ℤ → Bool → Entry → Row
  unfolding size_string row_name format_mtime
  row now show_keys e = record {
    mode = mode_string e.mode;
    uid = e.uid;
    gid = e.gid;
    size = size_string e;
    mtime = format_mtime e.mtime now;
    name = row_name show_keys e;
  }

  abbrev pub print_row : Result String → Printed → Printed
  print_row (err e) rest = stop e
  print_row (ok line) rest = print_first line rest

  unfoldable pub print_rows : ℤ → Bool → ℕ × ℕ × ℕ → List Entry → Printed
  unfolding row
  print_rows now show_keys (uid, gid, size) [] = record { lines = []; error = none }
  print_rows now show_keys (uid, gid, size) (e ∷ es) =
      let rest = print_rows now show_keys (uid, gid, size) es in
      print_row (listing.line uid gid size (row now show_keys e)) rest

  unfoldable pub render_ls : List Entry → ℤ → Bool → Printed
  unfolding widths print_rows
  render_ls entries now show_keys = print_rows now show_keys (widths entries 0 0 0) entries

  -- What runLs comes to after the loop; none for a panic or for too little fuel.
  abbrev pub then_render : ℤ → Bool → Listed → Option Printed
  then_render now show_keys (listed entries) = some (render_ls entries now show_keys)
  then_render now show_keys (failed e) = some (stop e)
  then_render now show_keys panicked = none
  then_render now show_keys unfinished = none

  -- runLs over the opened store.
  unfoldable pub run_ls :
      (rl : RefLibrary) → Texts lib → ℕ → lib.State → rl.Refs → String → ℤ → Bool → Option Printed
  unfolding page_loop render_ls
  run_ls rl texts fuel objects refs spec now show_keys =
      elim (resolve_spec lib rl texts refs spec) [
        | err e ↦ some (stop e)
        | ok (k, path) ↦ elim (descend lib rl texts objects k path) [
          | err e ↦ some (stop e)
          | ok dir ↦ then_render now show_keys (page_loop fuel objects dir page_size [] [])
        ]
      ]
