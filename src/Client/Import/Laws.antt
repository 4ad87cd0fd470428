-- ===== src/Client/Import/Laws.antt =====
-- cmd/amber/import.go: what an import leaves.
use amber_store_iroh.Prelude.{
  subst, append-nil, ◌⊎◌, ◌≡◌, ◌≢◌, sym, ap, ◌∙◌, String, Bool-cases, List, [], ◌∷◌, none,
  Option-cases, inl, inr, arith, str_eq, eq_iff,
}
use amber_store_iroh.Prelude.Int.{ℤ}
use amber_store_iroh.Protocol.Error.{Error, ok, err, message, join, Result-cases}
use amber_store_iroh.Wantsync.Library.{Library}
use amber_store_iroh.Server.World.{RefLibrary, RefLaws}
use amber_store_iroh.Server.Push.Invariant.{ParsesBack}
use amber_store_iroh.Client.Spec.{Texts}
use amber_store_iroh.Client.Store.{
  Openings, StoreEvent, half_opened, half_closed, objects_half, refs_half, open_store, close_store,
}
use amber_store_iroh.Client.Refs.{Clock, new_ref, run_ref_get}
use amber_store_iroh.Client.Refs.Laws.{CutsSpec, get_put}
use amber_store_iroh.Client.Import.{
  IngestConfig, Opts, Ingest, Imported, check_ref_name, prepare, record_ref, run_import,
}

module _ {Key : Type 0} (lib : Library Key) (rl : RefLibrary) (laws : RefLaws rl)
    (parses : ParsesBack lib) (texts : Texts lib) (clock : Clock) (openings : Openings lib rl)
    (ingest : Ingest lib) where
  valid_name :
      (name : String)
      → name ≢ ""
      → check_ref_name lib rl texts openings ingest name ≡ none
      → rl.validate_name name ≡ none
  unfolding check_ref_name
  valid_name name named h = elim (Option-cases (rl.validate_name name)) [
    | inl fine ↦ fine
    | inr (x, bad) ↦ absurd (ground (arith, eq_iff name ""))
  ]

  checked_name :
      (cfg : IngestConfig) (path : String) (opts : Opts)
      → prepare lib rl texts openings ingest cfg path ≡ ok opts
      → check_ref_name lib rl texts openings ingest cfg.ref ≡ none
  unfolding prepare
  checked_name cfg path opts h =
      elim (Option-cases (check_ref_name lib rl texts openings ingest cfg.ref)) [
        | inl fine ↦ fine
        | inr (x, bad) ↦ absurd (ground arith)
      ]

  -- The references behind an import of a root under a name, which may be empty for none.
  abbrev pub Named : String → Key → rl.Refs → rl.Refs → Type 0
  Named name root before after =
      (name ≡ "" → after ≡ before)
      × (name ≢ ""
          → run_ref_get lib rl texts clock after name
            ≡ record { lines = texts.key_text root ∷ []; error = none })
      × ((other : String) → other ≢ name → rl.get after other ≡ rl.get before other)

  record_ref_lem :
      (name : String) (root : Key) (now : ℤ) (before : rl.Refs)
      → CutsSpec texts name
      → (name ≢ "" → rl.validate_name name ≡ none)
      → (record_ref lib rl texts openings ingest name root now before).0 ≡ none
      → Named name root before (record_ref lib rl texts openings ingest name root now before).1
  unfolding record_ref
  record_ref_lem name root now before cuts valid h = elim (Bool-cases (str_eq name "")) [
    | inl unnamed ↦ (
      λ e. ground arith,
      λ named. absurd (ground (arith, eq_iff name "")),
      λ other d. ground arith,
    )
    | inr named ↦ elim (Result-cases (rl.encode (new_ref lib rl texts openings name root now))) [
      | inl (x, failed) ↦ absurd (ground arith)
      | inr (raw, encoded) ↦
          let same : record_ref lib rl texts openings ingest name root now before
              ≡ rl.put before name raw =
            ground arith in
          let fine : (rl.put before name raw).0 ≡ none = ap (λ o. o.0) (sym same) ∙ h in
          (
            λ e. absurd (ground (arith, eq_iff name "")),
            λ n.
                get_put lib rl laws parses texts clock openings name root now raw _ cuts (valid n)
                  encoded (ap (λ o. rl.get o.1 name) same ∙ laws.put_get before name raw fine),
            λ other d. ap (λ o. rl.get o.1 other) same ∙ laws.put_other before name other raw d,
          )
    ]
  ]

  -- Nothing was opened; or the objects alone, where the references could not be, and they were closed; or both halves were opened, and
  -- each was closed once behind that.
  abbrev pub ClosesStore : List StoreEvent → Type 0
  ClosesStore evs =
      (evs ≡ [])
      ⊎ ((evs ≡ half_opened objects_half ∷ half_closed objects_half ∷ [])
          ⊎ (evs
              ≡ half_opened objects_half
                ∷ half_opened refs_half
                ∷ half_closed refs_half
                ∷ half_closed objects_half
                ∷ []))

  open_store-cases :
      (dir : String)
      → ((x : Error) × ((open_store openings dir).0 ≡ err x)
          × ClosesStore (open_store openings dir).1)
        ⊎ ((objects : lib.State) × (refs : rl.Refs) × (open_store openings dir
              ≡ (ok (objects, refs), half_opened objects_half ∷ half_opened refs_half ∷ [])))
  unfolding open_store
  open_store-cases dir = elim (Bool-cases (str_eq dir "")) [
    | inl empty ↦ inl (
      message "no store directory: set --store or $AMBER_STORE",
      ground arith,
      inl (ground arith),
    )
    | inr named ↦ elim (Result-cases (openings.open_objects (openings.join_path dir "packstore"))) [
      | inl (x, failed) ↦ inl (x, ground arith, inl (ground arith))
      | inr (objects, fine) ↦
          elim (Result-cases (openings.open_refs (openings.join_path dir "refs"))) [
            | inl (x, failed) ↦ inl (x, ground arith, inr (inl (ground arith)))
            | inr (refs, fine') ↦ inr (objects, refs, ground arith)
          ]
    ]
  ]

  -- What an import without an error has done, on the halves that were opened.
  abbrev pub HasImported : IngestConfig → String → String → Imported lib rl → Type 0
  HasImported cfg dir path o =
      (objects : lib.State) × (refs : rl.Refs) × ((open_store openings dir).0 ≡ ok (objects, refs))
      × ((opts : Opts) × (root : Key) × (prepare lib rl texts openings ingest cfg path ≡ ok opts)
          × ((ingest.dir objects path opts).0 ≡ ok root)
          × (o.lines ≡ texts.key_text root ∷ [])
          × Named cfg.ref root refs o.refs)

  -- On every way an import closes each half of the store that it has opened, once. If it returns no error, it prints the root that the
  -- ingest has returned, and nothing else; with a name given, `ref get` of the name prints the same key; and no other reference has
  -- changed. This asks that the string functions of Go take `ref:NAME` apart as they are documented to do.
  pub run_import-run_ref_get :
      (cfg : IngestConfig) (dir path : String) (now : ℤ) (before : lib.State × rl.Refs)
      → CutsSpec texts cfg.ref
      → let o = run_import lib rl texts openings ingest cfg dir path now before in
        ClosesStore o.events × (o.error ≡ none → HasImported cfg dir path o)
  unfolding run_import close_store
  run_import-run_ref_get cfg dir path now before cuts =
      elim (Result-cases (prepare lib rl texts openings ingest cfg path)) [
        | inl (x, failed) ↦ (inl (ground arith), λ h. absurd (ground arith))
        | inr (opts, ready) ↦ elim (open_store-cases dir) [
          | inl (x, failed, shut) ↦ (
            subst ClosesStore (ground (arith, append-nil (open_store openings dir).1)) shut,
            λ h. absurd (ground arith),
          )
          | inr (objects, refs, is_open) ↦ elim (Result-cases (ingest.dir objects path opts).0) [
            | inl (x, failed) ↦ (inr (inr (ground arith)), λ h. absurd (ground arith))
            | inr (root, fine) ↦
                elim (Option-cases
                  (record_ref lib rl texts openings ingest cfg.ref root now refs).0) [
                    | inr (x, failed) ↦ (inr (inr (ground arith)), λ h. absurd (ground arith))
                    | inl written ↦
                        elim (Option-cases
                          (join (openings.close_refs ∷ openings.close_objects ∷ []))) [
                            | inr (x, failed) ↦
                                (inr (inr (ground arith)), λ h. absurd (ground arith))
                            | inl closed ↦
                                let named =
                                  record_ref_lem cfg.ref root now refs cuts
                                    (λ n. valid_name cfg.ref n (checked_name cfg path opts ready))
                                    written in
                                let same : (run_import lib rl texts openings ingest cfg dir path now
                                      before).refs
                                    ≡ (record_ref lib rl texts openings ingest cfg.ref root now
                                        refs).1 =
                                  ground arith in
                                (
                                  inr (inr (ground arith)),
                                  λ h. (
                                    objects,
                                    refs,
                                    ground arith,
                                    (opts, root, ready, fine, ground arith, rw same named),
                                  ),
                                )
                          ]
                  ]
          ]
        ]
      ]
