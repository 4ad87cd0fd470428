-- ===== src/Wantsync/Keys/Laws.antt =====
-- Deduplication, the split of a round's wants, the keys of a TWants frame and the check of a delivery.
use native.Mathlib.Numerals.{add-one}
use amber_store_iroh.Prelude.{
  ℕ, zero, suc, ◌+◌, ◌<◌, ◌≡◌, refl, sym, subst, append-nil, inl, inr, true, false, Bool-cases,
  List, [], ◌∷◌, ◌++◌, length, take-append-drop, length-take, min, Option, none, some, Eq, Member,
  contains, contains→Member, arith, if◌then◌else◌,
}
use amber_store_iroh.Protocol.Error.{ok}
use amber_store_iroh.Wantsync.Library.{Library}
use amber_store_iroh.Wantsync.Keys.{
  split_wants, encode_keys, decode_keys, dedupe_loop, dedupe_keys, missing_loop, check_delivered,
  Omitted,
}

-- A round's wants are cut into what is asked for now, at most `max` keys and none only if there is
-- none, and the rest, with no key lost and the order kept.
pub split_wants_lem {ℓ} :
    {Key : Type ℓ} (wants : List Key) (max : ℕ)
    → 0 < max
    → ((split_wants wants max).0 ++ (split_wants wants max).1 ≡ wants)
      × (length (split_wants wants max).0 ≡ min max (length wants))
unfolding split_wants
split_wants_lem wants max h = (
  ground (arith, take-append-drop max wants, append-nil wants),
  ground (arith, length-take max wants),
)

-- Nothing is put off to the next round while nothing is asked for.
pub split_wants-nil {ℓ} :
    {Key : Type ℓ} (wants : List Key) (max : ℕ)
    → 0 < max
    → (split_wants wants max).0 ≡ []
    → (split_wants wants max).1 ≡ []
unfolding split_wants
split_wants-nil [] max h e = ground arith
split_wants-nil (k ∷ wants) zero h e = absurd (omega arith)
split_wants-nil (k ∷ wants) (suc max) h e = ground arith

module _ {Key : Type 0} (lib : Library Key) where
  -- If key.Parse reads back the bytes of every key, then decoding what `encode_keys` made of some keys gives these keys.
  pub decode_keys-encode_keys :
      (ks : List Key)
      → ((k : Key) → lib.parse (lib.to_bytes k) ≡ ok k)
      → decode_keys lib (encode_keys lib ks) ≡ ok ks
  unfolding decode_keys encode_keys
  decode_keys-encode_keys [] h = refl
  decode_keys-encode_keys (k ∷ ks) h = ground (arith, h k, decode_keys-encode_keys ks h)

module _ {Key : Type 0} ⦃e : Eq Key⦄ where
  -- No two of the keys are the same.
  abbrev pub IsNodup : List Key → Type 0
  IsNodup [] = Unit
  IsNodup (k ∷ ks) = (contains ks k ≡ false) × IsNodup ks

  -- What deduplication leaves: the keys of the list that have not been seen.
  contains-dedupe_loop :
      (seen ks : List Key) (k : Key)
      → contains (dedupe_loop seen ks) k ≡ (if contains seen k then false else contains ks k)
  unfolding dedupe_loop
  contains-dedupe_loop seen [] k = ground arith
  contains-dedupe_loop seen (x ∷ ks) k =
      ground
        (arith, e.beq_iff k x, contains-dedupe_loop seen ks k, contains-dedupe_loop (x ∷ seen) ks k)

  dedupe_loop-IsNodup : (seen ks : List Key) → IsNodup (dedupe_loop seen ks)
  unfolding dedupe_loop
  dedupe_loop-IsNodup seen [] = tt
  dedupe_loop-IsNodup seen (x ∷ ks) = ground (
    arith,
    e.beq_iff x x,
    contains-dedupe_loop (x ∷ seen) ks x,
    dedupe_loop-IsNodup seen ks,
    dedupe_loop-IsNodup (x ∷ seen) ks,
  )

  -- The list with keys left out, the rest in order.
  pub data Kept : List Key → List Key → Type 0 where
    nil : Kept [] []
    keep : {k : Key} {xs ys : List Key} → Kept xs ys → Kept (k ∷ xs) (k ∷ ys)
    skip : {k : Key} {xs ys : List Key} → Kept xs ys → Kept xs (k ∷ ys)

  dedupe_loop-Kept : (seen ks : List Key) → Kept (dedupe_loop seen ks) ks
  unfolding dedupe_loop
  dedupe_loop-Kept seen [] = nil
  dedupe_loop-Kept seen (x ∷ ks) =
      elim (contains seen x)
        as (λ b.
          Kept (elim b [ true ↦ dedupe_loop seen ks | false ↦ x ∷ dedupe_loop (x ∷ seen) ks ])
            (x ∷ ks)) [
              | true ↦ skip (dedupe_loop-Kept seen ks)
              | false ↦ keep (dedupe_loop-Kept (x ∷ seen) ks)
            ]

  -- Deduplication keeps exactly the keys that are there, each once, in the order of the list.
  pub dedupe_keys_lem :
      (ks : List Key)
      → IsNodup (dedupe_keys ks)
        × Kept (dedupe_keys ks) ks
        × ((k : Key) → contains (dedupe_keys ks) k ≡ contains ks k)
  unfolding dedupe_keys
  dedupe_keys_lem ks =
      (dedupe_loop-IsNodup [] ks, dedupe_loop-Kept [] ks, λ k. contains-dedupe_loop [] ks k)

  -- The wants that were not received.
  abbrev pub unreceived : List Key → List Key → List Key
  unreceived received [] = []
  unreceived received (k ∷ wants) =
      if contains received k then unreceived received wants else k ∷ unreceived received wants

  abbrev first_of_missing : List Key → Option Key
  first_of_missing [] = none
  first_of_missing (k ∷ ks) = some k

  missing_loop_later :
      (received wants : List Key) (n : ℕ) (k : Key)
      → missing_loop received wants (suc n) (some k)
        ≡ (suc n + length (unreceived received wants), some k)
  unfolding missing_loop
  missing_loop_later received [] n k = ground arith
  missing_loop_later received (x ∷ wants) n k = ground (
    arith,
    missing_loop_later received wants n k,
    missing_loop_later received wants (suc n) k,
    add-one (suc n),
  )

  missing_loop_first :
      (received wants : List Key)
      → missing_loop received wants 0 none
        ≡ (length (unreceived received wants), first_of_missing (unreceived received wants))
  unfolding missing_loop
  missing_loop_first received [] = refl
  missing_loop_first received (x ∷ wants) =
      ground (arith, missing_loop_first received wants, missing_loop_later received wants 0 x)

  abbrev pub omission : ℕ → List Key → Option (Omitted Key)
  omission wanted [] = none
  omission wanted (k ∷ ks) =
      some (record { missing = length (k ∷ ks); wanted = wanted; example = k })

  -- The check of a delivery reports the wants that were not received: none if there are none, and
  -- otherwise how many they are of how many, with the first of them.
  pub check_delivered_lem :
      (received wants : List Key)
      → check_delivered received wants ≡ omission (length wants) (unreceived received wants)
  unfolding check_delivered
  check_delivered_lem received wants = ground (arith, missing_loop_first received wants)

  unreceived-nil :
      (received wants : List Key)
      → unreceived received wants ≡ []
      → (k : Key) → Member k wants
      → Member k received
  unreceived-nil received [] h k m = absurd m
  unreceived-nil received (x ∷ wants) h k m = elim (Bool-cases (contains received x)) [
    | inl got ↦ elim m [
      | inl same ↦ subst (λ y. Member y received) (sym same) (contains→Member received x got)
      | inr later ↦ unreceived-nil received wants (ground arith) k later
    ]
    | inr lost ↦ absurd (ground arith)
  ]

  -- So a delivery that passes the check has every want.
  pub check_delivered_complete :
      (received wants : List Key)
      → check_delivered received wants ≡ none
      → (k : Key) → Member k wants
      → Member k received
  check_delivered_complete received wants h k m =
      unreceived-nil received wants (ground (arith, check_delivered_lem received wants)) k m
