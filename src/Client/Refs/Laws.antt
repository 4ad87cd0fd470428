-- ===== src/Client/Refs/Laws.antt =====
-- What the local commands on references print and leave.
use amber_store_iroh.Prelude.{
  ◌≡◌, ◌≢◌, sym, ap, ◌∙◌, subst, String, true, false, Bool-cases, List, [], ◌∷◌, none, some,
  Option-cases, inl, inr, Member, arith,
}
use amber_store_iroh.Prelude.Int.{ℤ}
use amber_store_iroh.Protocol.Error.{Bytes, ok, Result-cases}
use amber_store_iroh.Wantsync.Library.{Library}
use amber_store_iroh.Server.World.{RefRecord, RefLibrary, RefLaws}
use amber_store_iroh.Server.Push.Invariant.{ParsesBack}
use amber_store_iroh.Client.Spec.{Texts, is_tracking, parse_hex_key, resolve_spec, resolve_ref}
use amber_store_iroh.Client.Store.{Openings, open_store}
use amber_store_iroh.Client.Refs.{
  Clock, record_line, list_loop, run_ref_list, run_ref_get, new_ref, run_ref_set,
}
use Prim.Native.String.{◌++◌ as text_append}

-- The records whose names are not reserved.
abbrev pub shown : List RefRecord → List RefRecord
shown [] = []
shown (r ∷ rs) = elim (is_tracking r.name) [ true ↦ shown rs | false ↦ r ∷ shown rs ]

pub shown-Member :
    (rs : List RefRecord) (r : RefRecord)
    → Member r (shown rs)
    → Member r rs × (is_tracking r.name ≡ false)
shown-Member [] r m = absurd m
shown-Member (x ∷ rs) r m = elim (Bool-cases (is_tracking x.name)) [
  | inl hidden ↦
      let (there, plain) =
        shown-Member rs r
          (subst (λ b. Member r (elim b [ true ↦ shown rs | false ↦ x ∷ shown rs ])) hidden m) in
      (inr there, plain)
  | inr plain ↦
      elim (subst (λ b. Member r (elim b [ true ↦ shown rs | false ↦ x ∷ shown rs ])) plain m) [
        | inl same ↦ (inl same, subst (λ y. is_tracking y.name ≡ false) (sym same) plain)
        | inr later ↦ let (there, plain') = shown-Member rs r later in (inr there, plain')
      ]
]

module _ {Key : Type 0} (lib : Library Key) (rl : RefLibrary) (texts : Texts lib)
    (clock : Clock) where
  -- One line for each record, in order.
  abbrev pub Prints : List RefRecord → List String → Type 0
  Prints [] [] = Unit
  Prints (r ∷ rs) (l ∷ ls) = (record_line lib rl texts clock r ≡ ok l) × Prints rs ls
  Prints _ _ = ⊥

  list_loop-Prints :
      (rs : List RefRecord)
      → (list_loop lib rl texts clock rs).error ≡ none
      → Prints (shown rs) (list_loop lib rl texts clock rs).lines
  unfolding list_loop
  list_loop-Prints [] h = tt
  list_loop-Prints (r ∷ rs) h = elim (Bool-cases (is_tracking r.name)) [
    | inl hidden ↦
        let printed : list_loop lib rl texts clock (r ∷ rs) ≡ list_loop lib rl texts clock rs =
          ground arith in
        let left : shown (r ∷ rs) ≡ shown rs = ground arith in
        subst (λ p. Prints (shown (r ∷ rs)) p.lines) (sym printed)
          (subst (λ l. Prints l (list_loop lib rl texts clock rs).lines) (sym left)
            (list_loop-Prints rs (ap (λ p. p.error) (sym printed) ∙ h)))
    | inr plain ↦ elim (Result-cases (record_line lib rl texts clock r)) [
      | inl (x, failed) ↦ absurd (ground arith)
      | inr (l, known) ↦
          let rest = list_loop lib rl texts clock rs in
          let printed : list_loop lib rl texts clock (r ∷ rs)
              ≡ record rest { lines = l ∷ rest.lines } =
            ground arith in
          let left : shown (r ∷ rs) ≡ r ∷ shown rs = ground arith in
          subst (λ p. Prints (shown (r ∷ rs)) p.lines) (sym printed)
            (subst (λ k. Prints k (l ∷ rest.lines)) (sym left)
              (known, list_loop-Prints rs (ap (λ p. p.error) (sym printed) ∙ h)))
    ]
  ]

  -- If `ref list` returns no error, it has printed one line for each reference of the store whose name is not in the reserved
  -- namespace, in the store's order, and none for the others.
  pub run_ref_list-Prints :
      (refs : rl.Refs)
      → (run_ref_list lib rl texts clock refs).error ≡ none
      → (rs : List RefRecord) × (rl.all refs ≡ ok rs)
        × Prints (shown rs) (run_ref_list lib rl texts clock refs).lines
        × ((r : RefRecord) → Member r (shown rs) → Member r rs × (is_tracking r.name ≡ false))
  unfolding run_ref_list
  run_ref_list-Prints refs h = elim (Result-cases (rl.all refs)) [
    | inl (x, failed) ↦ absurd (ground arith)
    | inr (rs, all) ↦
        let same : run_ref_list lib rl texts clock refs ≡ list_loop lib rl texts clock rs =
          ground arith in
        (
          rs,
          all,
          subst (λ p. Prints (shown rs) p.lines) (sym same)
              (list_loop-Prints rs (ap (λ p. p.error) (sym same) ∙ h)),
          shown-Member rs,
        )
  ]

-- What strings.CutPrefix and strings.Cut do to a spec of a reference without a path.
pub record CutsSpec {Key : Type 0} {lib : Library Key} (texts : Texts lib) (name : String)
    : Type 0 where
  pub prefix : texts.cut_prefix (text_append "ref:" name) "ref:" ≡ some name
  pub no_path : texts.cut name "@" ≡ (name, "")

module _ {Key : Type 0} (lib : Library Key) (rl : RefLibrary) (laws : RefLaws rl)
    (parses : ParsesBack lib) (texts : Texts lib) (clock : Clock) (openings : Openings lib rl) where
  pub get_put :
      (name : String) (k : Key) (now : ℤ) (raw : Bytes) (refs : rl.Refs)
      → CutsSpec texts name
      → rl.validate_name name ≡ none
      → rl.encode (new_ref lib rl texts openings name k now) ≡ ok raw
      → rl.get refs name ≡ ok raw
      → run_ref_get lib rl texts clock refs name
        ≡ record { lines = texts.key_text k ∷ []; error = none }
  unfolding run_ref_get resolve_spec resolve_ref
  get_put name k now raw refs cuts valid encoded got =
      let decoded = laws.read_back (new_ref lib rl texts openings name k now) raw encoded in
      ground (arith, cuts.prefix, cuts.no_path, parses k)

  -- After a `ref set` that returns no error, on a store that it could open, the key argument was a key, `ref get` of the name
  -- prints this key, and every other reference is as it was. This asks that the name is valid, that Go's string functions
  -- take `ref:NAME` apart as they are documented to do, and that records and keys are read back as they were written.
  pub run_ref_set-run_ref_get :
      (dir name key_arg : String) (now : ℤ) (objects : lib.State) (before after : rl.Refs)
      → CutsSpec texts name
      → rl.validate_name name ≡ none
      → (open_store openings dir).0 ≡ ok (objects, before)
      → run_ref_set lib rl texts openings dir name key_arg now before ≡ (none, after)
      → (k : Key) × (parse_hex_key lib rl texts key_arg ≡ ok k)
        × (run_ref_get lib rl texts clock after name
            ≡ record { lines = texts.key_text k ∷ []; error = none })
        × ((other : String) → other ≢ name → rl.get after other ≡ rl.get before other)
  unfolding run_ref_set
  run_ref_set-run_ref_get dir name key_arg now objects before after cuts valid opened h =
      elim (Bool-cases (is_tracking name)) [
        | inl reserved ↦ absurd (ground arith)
        | inr plain ↦ elim (Result-cases (parse_hex_key lib rl texts key_arg)) [
          | inl (x, failed) ↦ absurd (ground arith)
          | inr (k, parsed) ↦
              elim (Result-cases (rl.encode (new_ref lib rl texts openings name k now))) [
                | inl (x, failed) ↦ absurd (ground arith)
                | inr (raw, encoded) ↦ elim (Option-cases (rl.put before name raw).0) [
                  | inr (x, failed) ↦ absurd (ground arith)
                  | inl fine ↦
                      let same : (rl.put before name raw).1 ≡ after = ground arith in
                      (
                        k,
                        parsed,
                        get_put name k now raw after cuts valid encoded (
                            ap (λ r. rl.get r name) (sym same) ∙ laws.put_get before name raw fine),
                        λ other d.
                            ap (λ r. rl.get r other) (sym same)
                            ∙ laws.put_other before name other raw d,
                      )
                ]
              ]
        ]
      ]
