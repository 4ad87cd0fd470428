-- ===== src/Client/Export.antt =====
-- cmd/amber/export.go and cmd/amber/restore.go over the opened store: a tree as a tar file, and back into a directory. tarexport,
-- tarextract and the files are the parameter `Tar`.
pub mod Laws
use amber_store_iroh.Prelude.{
  String, Bool, true, false, List, [], ◌∷◌, Option, none, some, str_eq, if◌then◌else◌,
}
use amber_store_iroh.Protocol.Error.{Bytes, Error, Result, ok, err}
use amber_store_iroh.Wantsync.Library.{Library}
use amber_store_iroh.Server.World.{RefLibrary}
use amber_store_iroh.Client.Spec.{Texts, resolve_spec, descend}

-- A writer is the error that its Write returns once, none for a writer that takes everything.
pub record Tar {Key : Type 0} (lib : Library Key) : Type 0 where
  -- tarexport.Write over objects.Get: what it has written, and its error.
  pub export : (Key → Result Bytes) → Key → Option Error → Bytes × Option Error
  -- os.Create, the writer of the file, and its Close, each none for nil.
  pub create : String → Option Error
  pub file_writer : String → Option Error
  pub close : String → Option Error
  pub stdout : Option Error
  -- tarextract.Extract into a directory, from a reader with these bytes, which ends at io.EOF (none) or with an error.
  pub extract : String → Bytes → Option Error → Option Error

-- os.Create that has made a file, and a call of its Close.
pub data FileEvent : Type 0 where
  file_created : String → FileEvent
  file_closed : String → FileEvent

-- What goes to standard output, what is in the file that was created, what happened to files, and the error.
pub record Exported : Type 0 where
  pub printed : Bytes
  pub file : Option Bytes
  pub events : List FileEvent
  pub error : Option Error

abbrev pub exported : Bytes → Option Bytes → Option Error → Exported
exported printed file e = record { printed = printed; file = file; events = []; error = e }

abbrev pub after_event : FileEvent → Exported → Exported
after_event ev o = record o { events = ev ∷ o.events }

module _ {Key : Type 0} (lib : Library Key) (rl : RefLibrary) (texts : Texts lib)
    (tar : Tar lib) where
  -- The directory of a spec.
  unfoldable pub find_tree : lib.State → rl.Refs → String → Result Key
  find_tree objects refs spec = elim (resolve_spec lib rl texts refs spec) [
    | err e ↦ err e
    | ok (k, path) ↦ descend lib rl texts objects k path
  ]

  -- f.Close() behind a failed export, whose own error is dropped, or behind the whole tar.
  abbrev pub into_file : String → Bytes × Option Error → Exported
  into_file output (bytes, some e) =
      after_event (file_closed output) (exported [] (some bytes) (some e))
  into_file output (bytes, none) =
      after_event (file_closed output) (exported [] (some bytes) (tar.close output))

  abbrev pub created_file : lib.State → Key → String → Option Error → Exported
  created_file objects dir output (some e) = exported [] none (some e)
  created_file objects dir output none =
      after_event (file_created output)
        (into_file output (tar.export (lib.get objects) dir (tar.file_writer output)))

  abbrev pub to_stdout : Bytes × Option Error → Exported
  to_stdout (bytes, e) = exported bytes none e

  abbrev pub export_tree : lib.State → String → Result Key → Exported
  export_tree objects output (err e) = exported [] none (some e)
  export_tree objects output (ok dir) =
      if str_eq output ""
      then to_stdout (tar.export (lib.get objects) dir tar.stdout)
      else created_file objects dir output (tar.create output)

  unfoldable pub run_export : lib.State → rl.Refs → String → String → Exported
  unfolding find_tree
  run_export objects refs output spec = export_tree objects output (find_tree objects refs spec)

  -- The export goes into the pipe, which ends with its error, or at io.EOF.
  abbrev pub through_pipe : String → Bytes × Option Error → Option Error
  through_pipe target (bytes, e) = tar.extract target bytes e

  abbrev pub restore_tree : lib.State → String → Result Key → Option Error
  restore_tree objects target (err e) = some e
  restore_tree objects target (ok dir) = through_pipe target (tar.export (lib.get objects) dir none)

  -- The error of runRestore.
  unfoldable pub run_restore : lib.State → rl.Refs → String → String → Option Error
  unfolding find_tree
  run_restore objects refs spec target = restore_tree objects target (find_tree objects refs spec)
