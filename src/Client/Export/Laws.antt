-- ===== src/Client/Export/Laws.antt =====
-- cmd/amber/export.go: the file that an export makes, and what it holds.
use amber_store_iroh.Prelude.{
  ◌≡◌, ◌≢◌, String, Bool-cases, [], ◌∷◌, Option, none, some, Option-cases, inl, inr, ◌⊎◌, arith,
  str_eq, eq_iff,
}
use amber_store_iroh.Protocol.Error.{Bytes, Error, ok, Result-cases}
use amber_store_iroh.Wantsync.Library.{Library}
use amber_store_iroh.Server.World.{RefLibrary}
use amber_store_iroh.Client.Spec.{Texts}
use amber_store_iroh.Client.Export.{Tar, file_created, file_closed, Exported, find_tree, run_export}

module _ {Key : Type 0} (lib : Library Key) (rl : RefLibrary) (texts : Texts lib)
    (tar : Tar lib) where
  -- The whole tar of the tree of the spec.
  abbrev pub IsTarOf : lib.State → rl.Refs → String → Option Error → Bytes → Type 0
  IsTarOf objects refs spec writer bytes =
      (dir : Key) × (find_tree lib rl texts tar objects refs spec ≡ ok dir)
      × (tar.export (lib.get objects) dir writer ≡ (bytes, none))

  abbrev pub Whole : lib.State → rl.Refs → String → String → Exported → Type 0
  Whole objects refs output spec o =
      ((output ≡ "") × (o.file ≡ none) × IsTarOf objects refs spec tar.stdout o.printed)
      ⊎ ((output ≢ "")
          × (o.printed ≡ [])
          × ((bytes : Bytes) × (o.file ≡ some bytes)
              × (tar.close output ≡ none)
              × IsTarOf objects refs spec (tar.file_writer output) bytes))

  -- Either no file was made, or the file with the output's name was made, and closed once behind that.
  abbrev pub ClosesFile : String → Exported → Type 0
  ClosesFile output o =
      ((o.file ≡ none) × (o.events ≡ []))
      ⊎ ((bytes : Bytes) × (o.file ≡ some bytes)
          × (o.events ≡ file_created output ∷ file_closed output ∷ []))

  -- Whatever fails, an export that has made a file calls its Close exactly once. If it returns no error, then the whole tar of the tree
  -- is on standard output and no file is made, if no output is named; else it is in the file, which was closed without an error, and
  -- nothing is printed.
  pub run_export_lem :
      (objects : lib.State) (refs : rl.Refs) (output spec : String)
      → let o = run_export lib rl texts tar objects refs output spec in
        ClosesFile output o × (o.error ≡ none → Whole objects refs output spec o)
  unfolding run_export
  run_export_lem objects refs output spec =
      elim (Result-cases (find_tree lib rl texts tar objects refs spec)) [
        | inl (x, failed) ↦ (inl (ground arith, ground arith), λ h. absurd (ground arith))
        | inr (dir, found) ↦ elim (Bool-cases (str_eq output "")) [
          | inl plain ↦ (
            inl (ground arith, ground arith),
            λ h. inl (ground (arith, eq_iff output ""), ground arith, (dir, found, ground arith)),
          )
          | inr named ↦ elim (Option-cases (tar.create output)) [
            | inr (x, failed) ↦ (inl (ground arith, ground arith), λ h. absurd (ground arith))
            | inl made ↦
                let bytes = (tar.export (lib.get objects) dir (tar.file_writer output)).0 in
                elim (Option-cases (tar.export (lib.get objects) dir (tar.file_writer output)).1) [
                  | inr (x, failed) ↦
                      (inr (bytes, ground arith, ground arith), λ h. absurd (ground arith))
                  | inl fine ↦ (
                    inr (bytes, ground arith, ground arith),
                    λ h. inr (
                      λ e. absurd (ground (arith, eq_iff output "")),
                      ground arith,
                      (
                        (tar.export (lib.get objects) dir (tar.file_writer output)).0,
                        ground arith,
                        ground arith,
                        (dir, found, ground arith),
                      ),
                    ),
                  )
                ]
          ]
        ]
      ]
