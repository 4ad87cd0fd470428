-- ===== src/Wantsync/Wants/Answers.antt =====
-- wantsync/wantsync.go, Wants: which keys it returns, and what its errors are.
use amber_store_iroh.Prelude.{
  ◌≡◌, refl, sym, ◌∙◌, subst, ◌⊎◌, ◌↔◌, inl, inr, true, false, Bool-cases, List, [], ◌∷◌, none,
  some, Option-cases, Eq, contains, contains→Member, Member→contains, Member, arith,
}
use amber_store_iroh.Prelude.{String}
use amber_store_iroh.Protocol.Error.{
  Error, Result, ok, err, not_found, missing_object, wrapped, joined, is_missing, Result-cases,
}
use amber_store_iroh.Wantsync.Library.{Library}
use amber_store_iroh.Wantsync.Keys.{dedupe_keys}
use amber_store_iroh.Wantsync.Keys.Laws.{IsNodup, dedupe_keys_lem}
use amber_store_iroh.Wantsync.Wants.{is_wanted, wants}
use amber_store_iroh.Wantsync.Wants.Laws.{
  wanted_of, wanted_of_cons, wanted_of_sound, wants_lem, wants_sound,
}

-- An error that tells of an absent object, wherever it stands in the tree of wrapped errors.
pub data TellsAbsence : Error → Type 0 where
  no_object : TellsAbsence missing_object
  not_in_store : TellsAbsence not_found
  within : (text : String) {e : Error} → TellsAbsence e → TellsAbsence (wrapped text e)
  left : {e f : Error} → TellsAbsence e → TellsAbsence (joined e f)
  right : {e f : Error} → TellsAbsence f → TellsAbsence (joined e f)

TellsAbsence-is_missing : {e : Error} → TellsAbsence e → is_missing e ≡ true
unfolding is_missing
TellsAbsence-is_missing no_object = refl
TellsAbsence-is_missing not_in_store = refl
TellsAbsence-is_missing (within text t) = TellsAbsence-is_missing t
TellsAbsence-is_missing (left t) = ground (arith, TellsAbsence-is_missing t)
TellsAbsence-is_missing (right t) = ground (arith, TellsAbsence-is_missing t)

is_missing-TellsAbsence : (e : Error) → is_missing e ≡ true → TellsAbsence e
unfolding is_missing
is_missing-TellsAbsence missing_object h = no_object
is_missing-TellsAbsence not_found h = not_in_store
is_missing-TellsAbsence (wrapped text e) h = within text (is_missing-TellsAbsence e h)
is_missing-TellsAbsence (joined e f) h = elim (Bool-cases (is_missing e)) [
  | inl yes_left ↦ left (is_missing-TellsAbsence e yes_left)
  | inr no_left ↦ right (is_missing-TellsAbsence f (ground arith))
]
is_missing-TellsAbsence other h = absurd (ground arith)

module _ {Key : Type 0} (lib : Library Key) (st : lib.State) where
  -- The object is absent, or something below it is.
  abbrev pub Needed : Key → Type 0
  Needed k =
      (lib.has st k ≡ ok false)
      ⊎ ((lib.has st k ≡ ok true)
          × ((e : Error) × (lib.check_complete st k ≡ some e) × TellsAbsence e))

  abbrev pub Stored : Key → Type 0
  Stored k = (lib.has st k ≡ ok true) × (lib.check_complete st k ≡ none)

  -- The store fails: at the object, or at the check of what is below it, with an error that tells of no absence.
  abbrev pub Fails : Key → Error → Type 0
  Fails k x =
      (lib.has st k ≡ err x)
      ⊎ ((lib.has st k ≡ ok true) × (lib.check_complete st k ≡ some x) × (¬ TellsAbsence x))

  is_wanted-Needed : (k : Key) → is_wanted lib st k ≡ ok true → Needed k
  unfolding is_wanted
  is_wanted-Needed k h = elim (Result-cases (lib.has st k)) [
    | inl (x, failed) ↦ absurd (ground arith)
    | inr (false, absent) ↦ inl absent
    | inr (true, there) ↦ elim (Option-cases (lib.check_complete st k)) [
      | inl fine ↦ absurd (ground arith)
      | inr (x, broken) ↦ inr (there, (x, broken, is_missing-TellsAbsence x (ground arith)))
    ]
  ]

  not_both : (k : Key) → Stored k → Needed k → ⊥
  not_both k (there, complete) (inl absent) = absurd (ground arith)
  not_both k (there, complete) (inr (there', (x, broken, tells))) = absurd (ground arith)

  is_wanted-Stored : (k : Key) → is_wanted lib st k ≡ ok false → Stored k
  unfolding is_wanted
  is_wanted-Stored k h = elim (Result-cases (lib.has st k)) [
    | inl (x, failed) ↦ absurd (ground arith)
    | inr (false, absent) ↦ absurd (ground arith)
    | inr (true, there) ↦ (there, ground arith)
  ]

  is_wanted-Fails : (k : Key) (x : Error) → is_wanted lib st k ≡ err x → Fails k x
  unfolding is_wanted
  is_wanted-Fails k x h = elim (Result-cases (lib.has st k)) [
    | inl (y, failed) ↦ inl (ground arith)
    | inr (false, absent) ↦ absurd (ground arith)
    | inr (true, there) ↦ elim (Option-cases (lib.check_complete st k)) [
      | inl fine ↦ absurd (ground arith)
      | inr (y, broken) ↦
          inr (there, ground arith, λ tells. absurd (ground (arith, TellsAbsence-is_missing tells)))
    ]
  ]

  wanted_of-Fails :
      (ks : List Key) (x : Error)
      → wanted_of lib st ks ≡ err x
      → (k : Key) × Member k ks × Fails k x
  wanted_of-Fails [] x h = absurd (ground arith)
  wanted_of-Fails (y ∷ ks) x h = elim (Result-cases (is_wanted lib st y)) [
    | inl (e, failed) ↦ (y, inl refl, is_wanted-Fails y x (ground arith))
    | inr (true, want) ↦ elim (Result-cases (wanted_of lib st ks)) [
      | inl (e, failed) ↦ let (k, m, f) = wanted_of-Fails ks x (ground arith) in (k, inr m, f)
      | inr (rest, found) ↦ absurd (ground arith)
    ]
    | inr (false, pruned) ↦ let (k, m, f) = wanted_of-Fails ks x (ground arith) in (k, inr m, f)
  ]

  -- A key that is not among the wants is stored whole.
  wanted_of-splits :
      (ks ws : List Key)
      → wanted_of lib st ks ≡ ok ws
      → (k : Key) → Member k ks
      → (Member k ws × Needed k) ⊎ Stored k
  wanted_of-splits [] ws h k m = absurd m
  wanted_of-splits (x ∷ ks) ws h k m = elim (wanted_of_cons lib st x ks ws h) [
    | inl (rest, found, same, want) ↦ elim m [
      | inl here ↦ inl (
        subst (λ l. Member k l) (sym same) (inl here),
        subst Needed (sym here) (is_wanted-Needed x want),
      )
      | inr later ↦ elim (wanted_of-splits ks rest found k later) [
        | inl (l, n) ↦ inl (subst (λ l. Member k l) (sym same) (inr l), n)
        | inr c ↦ inr c
      ]
    ]
    | inr (found, pruned) ↦ elim m [
      | inl here ↦ inr (subst Stored (sym here) (is_wanted-Stored x pruned))
      | inr later ↦ wanted_of-splits ks ws found k later
    ]
  ]

module _ {Key : Type 0} ⦃e : Eq Key⦄ (lib : Library Key) (st : lib.State) where
  wanted_of-IsNodup : (ks ws : List Key) → IsNodup ks → wanted_of lib st ks ≡ ok ws → IsNodup ws
  wanted_of-IsNodup [] ws once h = let same : [] ≡ ws = ground arith in subst IsNodup same tt
  wanted_of-IsNodup (x ∷ ks) ws (new, once) h = elim (wanted_of_cons lib st x ks ws h) [
    | inr (found, pruned) ↦ wanted_of-IsNodup ks ws once found
    | inl (rest, found, same, want) ↦ subst IsNodup (sym same) (
      elim (Bool-cases (contains rest x)) [
        | inr absent ↦ absent
        | inl again ↦ absurd (
            let m = wanted_of_sound lib st ks rest found x (contains→Member rest x again) in
            ground (arith, Member→contains ks x m.0))
      ],
      wanted_of-IsNodup ks rest once found,
    )
  ]

  -- What Wants may answer for a frontier.
  abbrev pub Answers : List Key → Result (List Key) → Type 0
  Answers frontier (ok ws) =
      IsNodup ws
      × ((k : Key) → Member k ws ↔ (Member k frontier × Needed lib st k))
      × ((k : Key) → Member k frontier → Needed lib st k ⊎ Stored lib st k)
  Answers frontier (err x) = (k : Key) × Member k frontier × Fails lib st k x

  from_dedupe :
      (frontier : List Key) (k : Key) → Member k (dedupe_keys frontier) → Member k frontier
  from_dedupe frontier k m =
      contains→Member frontier k
        (sym ((dedupe_keys_lem frontier).2 k) ∙ Member→contains (dedupe_keys frontier) k m)

  to_dedupe : (frontier : List Key) (k : Key) → Member k frontier → Member k (dedupe_keys frontier)
  to_dedupe frontier k m =
      contains→Member (dedupe_keys frontier) k
        ((dedupe_keys_lem frontier).2 k ∙ Member→contains frontier k m)

  -- Without an error, Wants returns exactly the keys of the frontier whose object is absent, or below which the check finds an object
  -- absent, each once; and every other key of the frontier is stored and has passed the check. An error is that of the store at a key of the
  -- frontier, or that of a check that fails for another reason than an absent object.
  pub wants-Answers : (frontier : List Key) → Answers frontier (wants lib st frontier)
  wants-Answers frontier = elim (Result-cases (wants lib st frontier)) [
    | inl (x, failed) ↦
        let (k, m, f) =
          wanted_of-Fails lib st (dedupe_keys frontier) x
            (sym (wants_lem lib st frontier) ∙ failed) in
        subst (Answers frontier) (sym failed) (k, from_dedupe frontier k m, f)
    | inr (ws, fine) ↦
        let found = sym (wants_lem lib st frontier) ∙ fine in
        subst (Answers frontier) (sym fine) (
          wanted_of-IsNodup (dedupe_keys frontier) ws (dedupe_keys_lem frontier).0 found,
          λ k. (
            λ m.
                let (there, needed) = wants_sound lib st frontier ws fine k m in
                (there, is_wanted-Needed lib st k needed),
            λ h.
                elim (wanted_of-splits lib st (dedupe_keys frontier) ws found k
                  (to_dedupe frontier k h.0)) [
                    | inl (m, n) ↦ m
                    | inr (there, complete) ↦ absurd (not_both lib st k (there, complete) h.1)
                  ],
          ),
          λ k m.
              elim (wanted_of-splits lib st (dedupe_keys frontier) ws found k
                (to_dedupe frontier k m)) [ inl (l, n) ↦ inl n | inr stored ↦ inr stored ],
        )
  ]
