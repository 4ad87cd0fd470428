-- ===== src/Wantsync/Wants/Laws.antt =====
-- What `wants` returns: exactly the keys of the frontier that are not complete below themselves.
use amber_store_iroh.Prelude.{
  ◌≡◌, refl, sym, ap, ◌∙◌, subst, ◌⊎◌, inl, inr, Bool, true, false, List, [], ◌∷◌, ◌++◌,
  append_assoc, append-nil, none, Eq, contains→Member, Member→contains, Member, arith,
}
use amber_store_iroh.Protocol.Error.{Result, ok, err, Result-cases}
use amber_store_iroh.Wantsync.Library.{Library}
use amber_store_iroh.Wantsync.Keys.{dedupe_loop, dedupe_keys}
use amber_store_iroh.Wantsync.Keys.Laws.{dedupe_keys_lem}
use amber_store_iroh.Wantsync.Wants.{is_wanted, wants_loop, wants}

module _ {Key : Type 0} (lib : Library Key) (st : lib.State) where
  abbrev extend : Result Bool → Key → Result (List Key) → Result (List Key)
  extend (err x) k rest = err x
  extend (ok true) k (ok ks) = ok (k ∷ ks)
  extend (ok true) k (err x) = err x
  extend (ok false) k rest = rest

  -- The wanted ones among the keys, in order, or the first error.
  abbrev pub wanted_of : List Key → Result (List Key)
  wanted_of [] = ok []
  wanted_of (k ∷ ks) = extend (is_wanted lib st k) k (wanted_of ks)

  -- A key that is not wanted has passed CheckComplete.
  not_wanted : (k : Key) → is_wanted lib st k ≡ ok false → lib.check_complete st k ≡ none
  unfolding is_wanted
  not_wanted k h = ground arith

  -- The first key is wanted, or it is pruned.
  pub wanted_of_cons :
      (x : Key) (ks ws : List Key)
      → wanted_of (x ∷ ks) ≡ ok ws
      → ((rest : List Key) × (wanted_of ks ≡ ok rest)
          × (ws ≡ x ∷ rest)
          × (is_wanted lib st x ≡ ok true))
        ⊎ ((wanted_of ks ≡ ok ws) × (is_wanted lib st x ≡ ok false))
  wanted_of_cons x ks ws h = elim (Result-cases (is_wanted lib st x)) [
    | inl (e, failed) ↦ absurd (ground arith)
    | inr (true, want) ↦ elim (Result-cases (wanted_of ks)) [
      | inl (e, failed) ↦ absurd (ground arith)
      | inr (rest, found) ↦ inl (rest, found, ground arith, want)
    ]
    | inr (false, pruned) ↦ inr (ground arith, pruned)
  ]

  wanted_of_covers :
      (ks ws : List Key)
      → wanted_of ks ≡ ok ws
      → (k : Key) → Member k ks
      → Member k ws ⊎ (lib.check_complete st k ≡ none)
  wanted_of_covers [] ws h k m = absurd m
  wanted_of_covers (x ∷ ks) ws h k m = elim (wanted_of_cons x ks ws h) [
    | inl (rest, found, same, want) ↦ elim m [
      | inl here ↦ inl (subst (λ l. Member k l) (sym same) (inl here))
      | inr later ↦ elim (wanted_of_covers ks rest found k later) [
        | inl l ↦ inl (subst (λ l. Member k l) (sym same) (inr l))
        | inr c ↦ inr c
      ]
    ]
    | inr (found, pruned) ↦ elim m [
      | inl here ↦
          inr (subst (λ y. lib.check_complete st y ≡ none) (sym here) (not_wanted x pruned))
      | inr later ↦ wanted_of_covers ks ws found k later
    ]
  ]

  pub wanted_of_sound :
      (ks ws : List Key)
      → wanted_of ks ≡ ok ws
      → (k : Key) → Member k ws
      → Member k ks × (is_wanted lib st k ≡ ok true)
  wanted_of_sound [] ws h k m =
      let none_left : ws ≡ [] = ground arith in absurd (subst (λ l. Member k l) none_left m)
  wanted_of_sound (x ∷ ks) ws h k m = elim (wanted_of_cons x ks ws h) [
    | inl (rest, found, same, want) ↦ elim (subst (λ l. Member k l) same m) [
      | inl here ↦ (inl here, subst (λ y. is_wanted lib st y ≡ ok true) (sym here) want)
      | inr later ↦ let (from, needed) = wanted_of_sound ks rest found k later in (inr from, needed)
    ]
    | inr (found, pruned) ↦
        let (from, needed) = wanted_of_sound ks ws found k m in (inr from, needed)
  ]

module _ {Key : Type 0} ⦃e : Eq Key⦄ (lib : Library Key) (st : lib.State) where
  abbrev after : List Key → Result (List Key) → Result (List Key)
  after acc (ok ks) = ok (acc ++ ks)
  after acc (err x) = err x

  after-extend :
      (acc : List Key) (k : Key) (rest : Result (List Key))
      → after (acc ++ k ∷ []) rest ≡ after acc (extend lib st (ok true) k rest)
  after-extend acc k (ok ks) = ap ok (append_assoc acc (k ∷ []) ks)
  after-extend acc k (err x) = refl

  wants_loop_lem :
      (frontier seen acc : List Key)
      → wants_loop lib st frontier seen acc
        ≡ after acc (wanted_of lib st (dedupe_loop seen frontier))
  unfolding wants_loop dedupe_loop
  wants_loop_lem [] seen acc = ap ok (sym (append-nil acc))
  wants_loop_lem (k ∷ frontier) seen acc = ground (
    arith,
    wants_loop_lem frontier seen acc,
    wants_loop_lem frontier (k ∷ seen) acc,
    wants_loop_lem frontier (k ∷ seen) (acc ++ k ∷ []),
    after-extend acc k (wanted_of lib st (dedupe_loop (k ∷ seen) frontier)),
  )

  -- Each key of the frontier is looked at once, in order: the wants are the keys whose object is absent or
  -- whose subtree is incomplete, and the first error of the store ends the loop.
  pub wants_lem :
      (frontier : List Key) → wants lib st frontier ≡ wanted_of lib st (dedupe_keys frontier)
  unfolding wants dedupe_keys
  wants_lem frontier = ground (arith, wants_loop_lem frontier [] [])

  -- A key of the frontier is wanted or has passed CheckComplete, and what is wanted is of the
  -- frontier and needed.
  pub wants_covers :
      (frontier ws : List Key)
      → wants lib st frontier ≡ ok ws
      → (k : Key) → Member k frontier
      → Member k ws ⊎ (lib.check_complete st k ≡ none)
  wants_covers frontier ws h k m =
      wanted_of_covers lib st (dedupe_keys frontier) ws (sym (wants_lem frontier) ∙ h) k (
        contains→Member (dedupe_keys frontier) k
          ((dedupe_keys_lem frontier).2 k ∙ Member→contains frontier k m))

  pub wants_sound :
      (frontier ws : List Key)
      → wants lib st frontier ≡ ok ws
      → (k : Key) → Member k ws
      → Member k frontier × (is_wanted lib st k ≡ ok true)
  wants_sound frontier ws h k m =
      let (from, needed) =
        wanted_of_sound lib st (dedupe_keys frontier) ws (sym (wants_lem frontier) ∙ h) k m in
      (
        contains→Member frontier k
            (sym ((dedupe_keys_lem frontier).2 k) ∙ Member→contains (dedupe_keys frontier) k from),
        needed,
      )
