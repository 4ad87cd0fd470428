-- ===== src/Client/Import.antt =====
-- cmd/amber/import.go, cmd/amber/chunk.go: importing a tree into the local store. os.Stat and the ingest package are the parameter
-- `Ingest`. The goroutine that draws the progress does not touch the store; whether there is one is in what ingest.Dir is given.
pub mod Laws
use amber_store_iroh.Prelude.{
  String, Bool, true, false, ◌&&◌, ◌||◌, List, [], ◌∷◌, ◌++◌, Option, none, some, str_eq,
  if◌then◌else◌,
}
use amber_store_iroh.Prelude.Int.{ℤ, pos, ◌==ℤ◌, leb_ℤ}
use amber_store_iroh.Protocol.Error.{Bytes, Error, Result, ok, err, message, wrapped}
use amber_store_iroh.Wantsync.Library.{Library}
use amber_store_iroh.Server.World.{Reference, RefLibrary}
use amber_store_iroh.Client.Spec.{Texts, is_tracking}
use amber_store_iroh.Client.Store.{Openings, StoreEvent, open_store, close_store}
use amber_store_iroh.Client.Refs.{new_ref}
use amber_store_iroh.Client.Progress.{Progress, new_progress}

pub record ChunkConfig : Type 0 where
  pub min : ℤ
  pub avg : ℤ
  pub max : ℤ
  pub item_bits : ℤ
  pub xattr_inline_max : ℤ

pub record ByteOpts : Type 0 where
  pub min_size : ℤ
  pub normal_size : ℤ
  pub max_size : ℤ

pub record ChunkOpts : Type 0 where
  pub item_bits : ℤ
  pub xattr_inline_max : ℤ
  pub byte : Option ByteOpts

-- The sizes are set together or not at all.
unfoldable pub chunk_opts : ChunkConfig → Result ChunkOpts
chunk_opts cc =
    let opts : ChunkOpts = record {
      item_bits = cc.item_bits;
      xattr_inline_max = cc.xattr_inline_max;
      byte = none;
    } in
    if (cc.min ==ℤ pos 0) && ((cc.avg ==ℤ pos 0) && (cc.max ==ℤ pos 0))
    then ok opts
    else if leb_ℤ cc.min (pos 0) || (leb_ℤ cc.avg (pos 0) || leb_ℤ cc.max (pos 0))
    then err (message "--min, --avg and --max must all be set together")
    else ok (record opts {
      byte = some (record { min_size = cc.min; normal_size = cc.avg; max_size = cc.max });
    })

pub record IngestConfig : Type 0 where
  pub chunk : ChunkConfig
  pub ref : String
  pub jobs : ℤ
  pub no_ignore : Bool
  pub no_progress : Bool

pub record Opts : Type 0 where
  pub jobs : ℤ
  pub chunk : ChunkOpts
  pub no_ignore : Bool
  pub progress : Option Progress

pub record Ingest {Key : Type 0} (lib : Library Key) : Type 0 where
  -- os.Stat: whether it is a directory, and the size. ingest.Scan: files and bytes.
  pub stat : String → Result (Bool × ℤ)
  pub scan : String → Bool → ℤ → Result (ℤ × ℤ)
  -- ingest.Dir: the root or an error, and what the store holds then.
  pub dir : lib.State → String → Opts → Result Key × lib.State
  -- The Errorf of a reference that could not be written: the root, the name, the error.
  pub ref_failed : String → String → Error → Error

-- What an import leaves: the lines printed, the error, the halves of the store on disk, and how they were opened and closed.
pub record Imported {Key : Type 0} (lib : Library Key) (rl : RefLibrary) : Type 0 where
  pub lines : List String
  pub error : Option Error
  pub objects : lib.State
  pub refs : rl.Refs
  pub events : List StoreEvent

module _ {Key : Type 0} (lib : Library Key) (rl : RefLibrary) (texts : Texts lib)
    (openings : Openings lib rl) (ingest : Ingest lib) where
  -- The name that --ref gives, if any.
  unfoldable pub check_ref_name : String → Option Error
  check_ref_name name = if str_eq name "" then none else elim (rl.validate_name name) [
    | some e ↦ some e
    | none ↦
        if is_tracking name
        then some (
            message (
              rl.sprintf "ref %q: the \"remotes/\" namespace is reserved for remote-tracking refs"
                name))
        else none
  ]

  abbrev pub totals : IngestConfig → String → Bool × ℤ → Result (ℤ × ℤ)
  totals cfg path (true, size) = ingest.scan path cfg.no_ignore cfg.jobs
  totals cfg path (false, size) = ok (pos 1, size)

  abbrev pub sized : Result (ℤ × ℤ) → Result (Option Progress)
  sized (err e) = err e
  sized (ok (files, bytes)) = ok (some (new_progress files bytes))

  unfoldable pub pre_scan : IngestConfig → String → Bool × ℤ → Result (Option Progress)
  pre_scan cfg path info = if cfg.no_progress then ok none else sized (totals cfg path info)

  -- What is settled before the store is opened.
  unfoldable pub prepare : IngestConfig → String → Result Opts
  unfolding check_ref_name chunk_opts pre_scan
  prepare cfg path = elim (check_ref_name cfg.ref) [
    | some e ↦ err e
    | none ↦ elim (chunk_opts cfg.chunk) [
      | err e ↦ err e
      | ok chunk ↦ elim (ingest.stat path) [
        | err e ↦ err (wrapped "PATH argument: " e)
        | ok info ↦ elim (pre_scan cfg path info) [
          | err e ↦ err e
          | ok progress ↦ ok (record {
            jobs = cfg.jobs;
            chunk = chunk;
            no_ignore = cfg.no_ignore;
            progress = progress;
          })
        ]
      ]
    ]
  ]

  -- The reference of --ref.
  unfoldable pub record_ref : String → Key → ℤ → rl.Refs → Option Error × rl.Refs
  record_ref name root now refs =
      if str_eq name ""
      then (none, refs)
      else elim (rl.encode (new_ref lib rl texts openings name root now)) [
        | err e ↦ (some e, refs)
        | ok raw ↦ rl.put refs name raw
      ]

  abbrev pub leave_with : List String → Option Error → lib.State → rl.Refs → Imported lib rl
  leave_with lines e objects refs = record {
    lines = lines;
    error = e;
    objects = objects;
    refs = refs;
    events = [];
  }

  abbrev pub after_events : List StoreEvent → Imported lib rl → Imported lib rl
  after_events evs o = record o { events = evs ++ o.events }

  -- closeStore behind a failure, whose own error is dropped.
  abbrev pub close_and_fail : Error → lib.State → rl.Refs → Imported lib rl
  close_and_fail e objects refs =
      after_events (close_store openings).1 (leave_with [] (some e) objects refs)

  -- The end of runImport: closeStore, and the root printed if it returns no error.
  abbrev pub printed : Key → lib.State → rl.Refs → Option Error × List StoreEvent → Imported lib rl
  printed root objects refs (some e, evs) = after_events evs (leave_with [] (some e) objects refs)
  printed root objects refs (none, evs) =
      after_events evs (leave_with (texts.key_text root ∷ []) none objects refs)

  abbrev pub recorded : String → Key → lib.State → Option Error × rl.Refs → Imported lib rl
  recorded name root objects (some e, refs) =
      close_and_fail (ingest.ref_failed (texts.key_text root) name e) objects refs
  recorded name root objects (none, refs) = printed root objects refs (close_store openings)

  abbrev pub ingested : String → ℤ → rl.Refs → Result Key × lib.State → Imported lib rl
  ingested name now refs (err e, objects) = close_and_fail e objects refs
  ingested name now refs (ok root, objects) =
      recorded name root objects (record_ref name root now refs)

  abbrev pub in_store : String → Opts → String → ℤ → lib.State × rl.Refs → Imported lib rl
  in_store path opts name now (objects, refs) =
      ingested name now refs (ingest.dir objects path opts)

  abbrev pub opened :
      String
      → Opts
      → String
      → ℤ
      → lib.State × rl.Refs
      → Result (lib.State × rl.Refs) × List StoreEvent
      → Imported lib rl
  opened path opts name now (objects, refs) (err e, evs) =
      after_events evs (leave_with [] (some e) objects refs)
  opened path opts name now before (ok store, evs) =
      after_events evs (in_store path opts name now store)

  -- runImport: `before` is what is on disk.
  unfoldable pub run_import :
      IngestConfig → String → String → ℤ → lib.State × rl.Refs → Imported lib rl
  unfolding prepare record_ref
  run_import cfg dir path now before = elim (prepare cfg path) [
    | err e ↦ leave_with [] (some e) before.0 before.1
    | ok opts ↦ opened path opts cfg.ref now before (open_store openings dir)
  ]
