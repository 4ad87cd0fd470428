-- ===== src/Wantsync/Deal/Laws.antt =====
-- Dealing loses no key and makes up none: every want stands in exactly one shard, for any weights.
use mathlib.Core.List.{Perm, perm_middle}
use mathlib.Core.List.Perm
use native.Mathlib.Nat.{mod-lt}
use amber_store_iroh.Prelude.{
  ℕ, zero, suc, ◌+◌, ◌-◌, ◌%◌, ◌≤◌, ◌<◌, ◌≡◌, refl, sym, ap, ◌∙◌, subst, List, [], ◌∷◌, ◌++◌,
  append_assoc, append-nil, map, length, replicate, length-replicate, arith,
}
use amber_store_iroh.Prelude.Int.{ℤ}
use amber_store_iroh.Protocol.Error.{Result, ok}
use amber_store_iroh.Wantsync.Library.{Library}
use amber_store_iroh.Wantsync.Deal.{
  append_at, modify_at, shard_loop, shard_wants, floor_weight, weigh, best_loop, deal_loop,
  deal_wants,
}

abbrev pub concat {ℓ} : {A : Type ℓ} → List (List A) → List A
concat [] = []
concat (s ∷ ss) = s ++ concat ss

module _ {Key : Type 0} where
  length-append_at :
      (shards : List (List Key)) (i : ℕ) (k : Key) → length (append_at shards i k) ≡ length shards
  length-append_at [] i k = refl
  length-append_at (s ∷ ss) zero k = refl
  length-append_at (s ∷ ss) (suc i) k = ap suc (length-append_at ss i k)

  append_at-perm :
      (shards : List (List Key)) (i : ℕ) (k : Key)
      → i < length shards
      → Perm (concat (append_at shards i k)) (k ∷ concat shards)
  append_at-perm [] i k h = absurd (omega arith)
  append_at-perm (s ∷ ss) zero k h =
      rw (append_assoc s (k ∷ []) (concat ss)) (perm_middle s (concat ss))
  append_at-perm (s ∷ ss) (suc i) k h =
      Perm.trans (Perm.append_left s (append_at-perm ss i k (omega arith)))
        (perm_middle s (concat ss))

  concat-replicate : (n : ℕ) → concat (replicate {A = List Key} n []) ≡ []
  concat-replicate zero = refl
  concat-replicate (suc n) = concat-replicate n

-- Every key stands in exactly one of the shards, as often as among the wants, and there is a shard
-- for each of `n` channels.
abbrev pub IsDealt : {Key : Type 0} → List Key → ℕ → List (List Key) → Type 0
IsDealt wants n shards = (length shards ≡ n) × Perm (concat shards) wants

module _ {Key : Type 0} where
  shard_loop-IsDealt :
      (n i : ℕ) (wants : List Key) (shards : List (List Key))
      → 0 < n
      → length shards ≡ n
      → IsDealt (concat shards ++ wants) n (shard_loop n i wants shards)
  unfolding shard_loop
  shard_loop-IsDealt n i [] shards h e = (e, rw (append-nil (concat shards)) (Perm.refl _))
  shard_loop-IsDealt n i (k ∷ wants) shards h e =
      let (count, same) =
        shard_loop-IsDealt n (i + 1) wants (append_at shards (i % n) k) h
          (length-append_at shards (i % n) k ∙ e) in
      let below : i % n < length shards = subst (λ m. i % n < m) (sym e) (mod-lt i h) in
      (
        count,
        Perm.trans same (
            Perm.trans (Perm.append_right wants (append_at-perm shards (i % n) k below))
              (Perm.symm (perm_middle (concat shards) wants))),
      )

  -- Round-robin dealing over `n` shards, for a positive `n`.
  pub shard_wants-IsDealt :
      (wants : List Key) (n : ℕ) → 0 < n → IsDealt wants n (shard_wants wants n)
  unfolding shard_wants
  shard_wants-IsDealt wants n h =
      let (count, same) = shard_loop-IsDealt n 0 wants (replicate n []) h (length-replicate n []) in
      (
        count,
        subst (λ l. Perm (concat (shard_loop n 0 wants (replicate n []))) (l ++ wants))
            (concat-replicate n) same,
      )

module _ {Key : Type 0} (lib : Library Key) where
  open lib use {floats}
  open floats use {Carrier}

  best_loop-lt :
      (rounds i best n : ℕ) (assigned w : List Carrier)
      → best < n
      → i + rounds ≤ n
      → best_loop lib rounds i best assigned w < n
  unfolding best_loop
  best_loop-lt zero i best n assigned w h k = h
  best_loop-lt (suc rounds) i best n assigned w h k =
      best_loop-lt rounds (i + 1) _ n assigned w (ground arith) (omega arith)

  deal_loop-IsDealt :
      (wants : List Key) (assigned w : List Carrier) (shards : List (List Key))
      → 0 < length w
      → length shards ≡ length w
      → IsDealt (concat shards ++ wants) (length w) (deal_loop lib wants assigned w shards)
  unfolding deal_loop
  deal_loop-IsDealt [] assigned w shards h e = (e, rw (append-nil (concat shards)) (Perm.refl _))
  deal_loop-IsDealt (k ∷ wants) assigned w shards h e =
      let best = best_loop lib (length w - 1) 1 0 assigned w in
      let below : best < length w =
        best_loop-lt (length w - 1) 1 0 (length w) assigned w h (omega arith) in
      let (count, same) =
        deal_loop-IsDealt wants (modify_at assigned best (λ a. floats.add a (weigh lib k))) w
          (append_at shards best k) h (length-append_at shards best k ∙ e) in
      (
        count,
        Perm.trans same (
            Perm.trans (Perm.append_right wants (append_at-perm shards best k (omega arith)))
              (Perm.symm (perm_middle (concat shards) wants))),
      )

  abbrev float_weights : List ℤ → List Carrier
  float_weights = map (λ z. floats.of_ℕ (floor_weight z))

  length-float_weights : (weights : List ℤ) → length (float_weights weights) ≡ length weights
  length-float_weights [] = refl
  length-float_weights (x ∷ weights) = ap suc (length-float_weights weights)

  dealt :
      (wants : List Key) (weights : List ℤ)
      → 0 < length weights
      → (shards : List (List Key)) × (◌≡◌ {A = Result (List (List Key))}
          (ok (
            deal_loop lib wants
              (replicate (length (float_weights weights)) (floats.of_ℕ 0))
              (float_weights weights)
              (replicate (length (float_weights weights)) [])))
          (ok shards))
        × IsDealt wants (length weights) shards
  dealt wants weights h =
      let w = float_weights weights in
      let (count, same) =
        deal_loop-IsDealt wants (replicate (length w) (floats.of_ℕ 0)) w (replicate (length w) [])
          (omega (arith, length-float_weights weights)) (length-replicate (length w) []) in
      (
        deal_loop lib wants (replicate (length w) (floats.of_ℕ 0)) w (replicate (length w) []),
        refl,
        (
          count ∙ length-float_weights weights,
          subst
              (λ l.
                Perm
                  (concat (
                    deal_loop lib wants (replicate (length w) (floats.of_ℕ 0)) w
                      (replicate (length w) [])))
                  (l ++ wants))
              (concat-replicate (length w)) same,
        ),
      )

  -- With at least one channel the dealing succeeds: there is a shard for each channel, and together
  -- the shards hold the wants, each as often as it is wanted, whatever the weights and whatever the
  -- floating-point comparisons say.
  pub deal_wants-IsDealt :
      (wants : List Key) (weights : List ℤ)
      → 0 < length weights
      → (shards : List (List Key)) × (deal_wants lib wants weights ≡ ok shards)
        × IsDealt wants (length weights) shards
  unfolding deal_wants
  deal_wants-IsDealt wants [] h = absurd (omega arith)
  deal_wants-IsDealt [] (x ∷ []) h = ([] ∷ [], refl, (refl, Perm.refl []))
  deal_wants-IsDealt (k ∷ wants) (x ∷ []) h =
      ((k ∷ wants) ∷ [], refl, (refl, rw (append-nil wants) (Perm.refl (k ∷ wants))))
  deal_wants-IsDealt [] (x ∷ y ∷ weights) h = dealt [] (x ∷ y ∷ weights) h
  deal_wants-IsDealt (k ∷ wants) (x ∷ y ∷ weights) h = dealt (k ∷ wants) (x ∷ y ∷ weights) h
