-- ===== src/Tests/Commands.antt =====
-- Witnesses of the theorems about the commands on the local store.
use amber_store_iroh.Prelude.{
  ◌==◌, ◌%◌, ℕ, suc, bytes_equal, ◌+◌, ◌*◌, ◌/◌, ◌≤◌, ◌<◌, ◌≡◌, ◌≢◌, refl, ltb, String, Bool, true,
  false, List, [], ◌∷◌, ◌++◌, map, take, length, none, some, ◌⊎◌, str_eq, if◌then◌else◌, arith,
}
use amber_store_iroh.Prelude.Int.{pos}
use amber_store_iroh.Protocol.Error.{Bytes, Result, ok, join}
use amber_store_iroh.Client.Spec.{Texts, parse_hex_key}
use amber_store_iroh.Client.Store.{Openings, open_store, close_store}
use amber_store_iroh.Client.Refs.{Clock, run_ref_get, run_ref_set}
use amber_store_iroh.Client.Refs.Laws.{CutsSpec, run_ref_set-run_ref_get}
use amber_store_iroh.Client.Ls.{Entry, Listing, listed, page_loop, mode_string}
use amber_store_iroh.Client.Ls.Paging.{Pages, page_loop_lem}
use amber_store_iroh.Client.Ls.Modes.{
  read_permissions, has, permission_bits, read_permissions-mode_string,
}
use amber_store_iroh.Client.Progress.{Display, human_bytes, split_duration}
use amber_store_iroh.Client.Progress.Units.{scaled, Suits, human_bytes_lem}
use amber_store_iroh.Client.Progress.Durations.{total_of, split_duration_lem}
use amber_store_iroh.Client.Xfer.{
  XferProgress, Call, requested, transferred, wire, Atomic, add_req_objs, add_done_objs,
  add_done_bytes, add_wire_bytes, new_xfer_progress, called, apply_all,
}
use amber_store_iroh.Client.Progress.{word}
use amber_store_iroh.Client.Xfer.Counters.{
  first, second, both_done, Interleaves, no_goroutine, beside, reported, objects_requested,
  objects_moved, bytes_moved, bytes_on_wire, finishes, apply_all-Interleaves,
}
use amber_store_iroh.Client.Import.{IngestConfig, Ingest, run_import}
use amber_store_iroh.Client.Import.Laws.{ClosesStore, HasImported, run_import-run_ref_get}
use amber_store_iroh.Client.Export.{Tar, run_export}
use amber_store_iroh.Client.Export.Laws.{ClosesFile, Whole, run_export_lem}
use amber_store_iroh.Serve.Key.{missing, KeyLibrary, load_or_create_secret_key}
use amber_store_iroh.Serve.Key.Laws.{ReadsBack, load_or_create_secret_key_lem}
use amber_store_iroh.Tests.Toy.{toy}
use amber_store_iroh.Tests.ToyRefs.{toy_refs, toy-RefLaws, toy-ParsesBack, texts}

abbrev cli_texts : Texts toy
cli_texts = record texts { hex_decode = λ s. ok (1 ∷ []) }

abbrev clock : Clock
clock = record { rfc3339 = λ t. "now"; three_words = λ a b c. a }

abbrev openings : Openings toy toy_refs
openings = record {
  join_path = λ a b. a;
  open_objects = λ dir. ok [];
  open_refs = λ dir. ok [];
  close_objects = none;
  close_refs = none;
}

n-CutsSpec : CutsSpec cli_texts "n"
n-CutsSpec = record { prefix = refl; no_path = refl }

run_ref_set-run_ref_get_example :
    (k : ℕ) × (parse_hex_key toy toy_refs cli_texts "01" ≡ ok k)
    × (run_ref_get toy toy_refs cli_texts clock (("n", 0 ∷ 1 ∷ []) ∷ []) "n"
        ≡ record { lines = cli_texts.key_text k ∷ []; error = none })
    × ((other : String)
        → other ≢ "n"
        → toy_refs.get (("n", 0 ∷ 1 ∷ []) ∷ []) other ≡ toy_refs.get [] other)
unfolding run_ref_set parse_hex_key open_store close_store join
run_ref_set-run_ref_get_example =
    run_ref_set-run_ref_get toy toy_refs toy-RefLaws toy-ParsesBack cli_texts clock openings "dir"
      "n" "01" (pos 0) [] [] (("n", 0 ∷ 1 ∷ []) ∷ []) n-CutsSpec refl refl refl

abbrev ingest : Ingest toy
ingest = record {
  stat = λ path. ok (true, pos 9);
  scan = λ path no_ignore jobs. ok (pos 2, pos 9);
  dir = λ objects path opts. (ok 1, 1 ∷ objects);
  ref_failed = λ root name e. e;
}

abbrev import_config : IngestConfig
import_config = record {
  chunk = record {
    min = pos 0;
    avg = pos 0;
    max = pos 0;
    item_bits = pos 6;
    xattr_inline_max = pos 8;
  };
  ref = "n";
  jobs = pos 2;
  no_ignore = false;
  no_progress = false;
}

run_import-run_ref_get_example :
    let o =
      run_import toy toy_refs cli_texts openings ingest import_config "dir" "tree"
        (pos 0)
        ([], []) in
    ClosesStore toy toy_refs toy-RefLaws toy-ParsesBack cli_texts clock openings ingest o.events
    × (o.error ≡ none
        → HasImported toy toy_refs toy-RefLaws toy-ParsesBack cli_texts clock openings ingest
            import_config "dir" "tree" o)
run_import-run_ref_get_example =
    run_import-run_ref_get toy toy_refs toy-RefLaws toy-ParsesBack cli_texts clock openings ingest
      import_config "dir" "tree" (pos 0) ([], []) n-CutsSpec

-- Entries with names of one byte, which is their place in the directory, from 1 on.
abbrev entry : ℕ → Entry
entry n = record {
  name = n ∷ [];
  mode = 0x81ED;
  uid = 0;
  gid = 0;
  mtime = pos 0;
  rdev = [];
  link_target = [];
  content_key = [];
}

abbrev two_files : List Entry
two_files = entry 1 ∷ entry 2 ∷ []

abbrev page_of : List Entry → ℕ → Result (List Entry × Bool)
page_of l size = ok (take size l, ltb size (length l))

abbrev rest_behind : Bytes → List Entry
rest_behind [] = two_files
rest_behind (b ∷ bs) = if b == 1 then entry 2 ∷ [] else []

abbrev listing : Listing toy
listing = record {
  list_entries = λ get dir after size. page_of (rest_behind after) size;
  decimal = λ n. "0";
  len = λ s. 1;
  pair = λ a b. "0,0";
  text = λ b. "name";
  key_text = λ k. "key";
  six_months_before = λ t. t;
  format = λ f t. f;
  line = λ u g s r. ok "line";
}

two_files-next :
    (front : List Entry) (e : Entry) (rest : List Entry) (size : ℕ)
    → two_files ≡ front ++ e ∷ rest
    → page_of (rest_behind e.name) (suc size) ≡ page_of rest (suc size)
two_files-next [] e rest size h = ground arith
two_files-next (x ∷ []) e rest size h = ground arith
two_files-next (x ∷ y ∷ []) e rest size h = absurd (ground arith)
two_files-next (x ∷ y ∷ z ∷ front) e rest size h = absurd (ground arith)

two_files-Pages : Pages toy listing [] 1 two_files
two_files-Pages = record { first = λ size. refl; next = two_files-next }

-- Two pages of one entry.
page_loop_lem_example : page_loop toy listing 3 [] 1 1 [] [] ≡ listed two_files
page_loop_lem_example = page_loop_lem toy listing [] 1 0 two_files two_files-Pages 3 (omega arith)

-- A program with setuid.
read_permissions-mode_string_example :
    read_permissions (mode_string 0x89ED) ≡ map (has 0x89ED) permission_bits
read_permissions-mode_string_example = read_permissions-mode_string 0x89ED

abbrev display : Display
display = record {
  F = ℕ;
  zero_f = 0;
  hundred = 100;
  nearly_unit = 1023;
  of_ℕ = λ n. n;
  div = λ a b. a / b;
  mul = λ a b. a * b;
  lt = ltb;
  to_uint64 = λ n. n;
  to_int = λ n. n;
  to_duration = pos;
  seconds = λ d. 1;
  hours_text = λ h m s. "h";
  minutes_text = λ m s. "m";
  bytes_text = λ n. "B";
  units_text = λ f e. "iB";
}

-- 1048575 bytes are shown as 1.0 MiB.
human_bytes_lem_example :
    ((1048575 < 1024) × (human_bytes display 1048575 ≡ some (display.bytes_text 1048575)))
    ⊎ ((1024 ≤ 1048575)
        × ((e : ℕ) × Suits display 1048575 e
            × (human_bytes display 1048575
                ≡ some (display.units_text (scaled display 1048575 (suc e)) e))))
human_bytes_lem_example = human_bytes_lem display 1048575 (omega arith)

split_duration_lem_example :
    ((split_duration (pos 3725500000000)).1 < 60)
    × ((split_duration (pos 3725500000000)).2 < 60)
    × (total_of (split_duration (pos 3725500000000)) ≤ 3725500000000 + 500000000)
    × (3725500000000 < total_of (split_duration (pos 3725500000000)) + 500000000)
split_duration_lem_example = split_duration_lem 3725500000000 (omega arith)

abbrev tracker : XferProgress
tracker = new_xfer_progress "push" (pos 9)

-- Two goroutines: the adds of the one's Transferred stand around those of the other.
abbrev goroutines : List (List Call)
goroutines =
    (transferred (pos 1) (pos 5) ∷ []) ∷ (requested (pos 2) (pos 9) ∷ wire (pos 7) ∷ []) ∷ []

abbrev order : List Atomic
order =
    add_done_objs (pos 1)
    ∷ add_req_objs (pos 2)
    ∷ add_wire_bytes (pos 7)
    ∷ add_done_bytes (pos 5)
    ∷ []

order-Interleaves : Interleaves tracker goroutines order
unfolding called
order-Interleaves =
    beside (beside no_goroutine (first (first both_done)))
      (first (second (second (first both_done))))

apply_all-Interleaves_example :
    let y = apply_all order tracker in
    (y.req_objs ≡ reported objects_requested goroutines % word)
    × (y.done_objs ≡ reported objects_moved goroutines % word)
    × (y.done_bytes ≡ reported bytes_moved goroutines % word)
    × (y.wire_bytes ≡ reported bytes_on_wire goroutines % word)
    × (y.finished ≡ ltb 0 (reported finishes goroutines))
apply_all-Interleaves_example =
    apply_all-Interleaves "push" (pos 9) goroutines order order-Interleaves

-- Two keys, which a line tells apart.
abbrev keys : KeyLibrary
keys = record {
  SecretKey = Bool;
  parse = λ s. if str_eq s "1\n" then ok true else ok false;
  to_bytes = λ k. if k then 1 ∷ [] else 2 ∷ [];
  hex_encode = λ b. if bytes_equal b (1 ∷ []) then "1" else "2";
  trim_space = λ s. s;
  parse_failed = λ s. s;
}

keys-ReadsBack : ReadsBack keys
keys-ReadsBack true = refl
keys-ReadsBack false = refl

-- The first start of a server makes a key, and the second one finds it.
load_or_create_secret_key_lem_example :
    let o = load_or_create_secret_key keys (ok true) none missing "server.key" missing in
    (missing ≢ missing → o.1 ≡ missing)
    × ((sk : Bool)
        → o.0 ≡ ok sk
        → load_or_create_secret_key keys (ok false) none missing "server.key" o.1 ≡ (ok sk, o.1))
load_or_create_secret_key_lem_example =
    load_or_create_secret_key_lem keys keys-ReadsBack (ok true) (ok false) none none missing missing
      "server.key" missing

-- An export of the tree of the reference to key 1 into a file. The tar of a tree is its key.
abbrev tar : Tar toy
tar = record {
  export = λ get dir writer. (dir ∷ [], writer);
  create = λ f. none;
  file_writer = λ f. none;
  close = λ f. none;
  stdout = none;
  extract = λ dir bytes ending. ending;
}

run_export_lem_example :
    let o = run_export toy toy_refs cli_texts tar [] (("n", 0 ∷ 1 ∷ []) ∷ []) "tree.tar" "ref:n" in
    ClosesFile toy toy_refs cli_texts tar "tree.tar" o
    × (o.error ≡ none
        → Whole toy toy_refs cli_texts tar [] (("n", 0 ∷ 1 ∷ []) ∷ []) "tree.tar" "ref:n" o)
run_export_lem_example =
    run_export_lem toy toy_refs cli_texts tar [] (("n", 0 ∷ 1 ∷ []) ∷ []) "tree.tar" "ref:n"
