-- ===== src/Wantsync/Deal.antt =====
-- wantsync/wantsync.go: `dealWants` and `shardWants`, which deal a round's wants over the channels.
pub mod Laws
use amber_store_iroh.Prelude.{
  ℕ, zero, suc, ◌+◌, ◌-◌, ◌%◌, ◌==◌, ltb, Bool, true, false, List, [], ◌∷◌, ◌++◌, map, length,
  get_or, replicate, if◌then◌else◌,
}
use amber_store_iroh.Prelude.Int.{ℤ, pos, negsuc}
use amber_store_iroh.Protocol.Error.{Error, Result, ok, err, panic}
use amber_store_iroh.Wantsync.Library.{Library, Float64}

-- shards[i] = append(shards[i], k), at an index within the shards.
abbrev pub append_at {ℓ} : {A : Type ℓ} → List (List A) → ℕ → A → List (List A)
append_at [] i k = []
append_at (s ∷ ss) zero k = (s ++ k ∷ []) ∷ ss
append_at (s ∷ ss) (suc i) k = s ∷ append_at ss i k

-- assigned[i] += x.
abbrev pub modify_at {ℓ} : {A : Type ℓ} → List A → ℕ → (A → A) → List A
modify_at [] i f = []
modify_at (x ∷ xs) zero f = f x ∷ xs
modify_at (x ∷ xs) (suc i) f = x ∷ modify_at xs i f

shard_loop {ℓ} : {Key : Type ℓ} → ℕ → ℕ → List Key → List (List Key) → List (List Key)
shard_loop n i [] shards = shards
shard_loop n i (k ∷ wants) shards = shard_loop n (i + 1) wants (append_at shards (i % n) k)

-- shardWants, for a positive number of shards.
unfoldable pub shard_wants {ℓ} : {Key : Type ℓ} → List Key → ℕ → List (List Key)
unfolding shard_loop
shard_wants wants n = shard_loop n 0 wants (replicate n [])

-- Weights below 1 count as 1.
abbrev pub floor_weight : ℤ → ℕ
floor_weight (pos n) = if ltb n 1 then 1 else n
floor_weight (negsuc n) = 1

module _ {Key : Type 0} (lib : Library Key) where
  open lib use {floats, key_length}
  open floats use {Carrier, of_ℕ, add, div, lt}

  abbrev pub ratio : List Carrier → List Carrier → ℕ → Carrier
  ratio assigned w i = div (get_or assigned i (of_ℕ 0)) (get_or w i (of_ℕ 0))

  -- for i := from; i < from + rounds; i++: the index with the lowest ratio, the lower one on a tie.
  unfoldable pub best_loop : ℕ → ℕ → ℕ → List Carrier → List Carrier → ℕ
  best_loop zero i best assigned w = best
  best_loop (suc rounds) i best assigned w =
      best_loop rounds (i + 1) (if lt (ratio assigned w i) (ratio assigned w best) then i else best)
        assigned w

  -- A key's bytes, at least 1.
  abbrev pub weigh : Key → Carrier
  weigh k = let bytes = of_ℕ (key_length k) in if lt bytes (of_ℕ 1) then of_ℕ 1 else bytes

  unfoldable pub deal_loop :
      List Key → List Carrier → List Carrier → List (List Key) → List (List Key)
  deal_loop [] assigned w shards = shards
  deal_loop (k ∷ wants) assigned w shards =
      let best = best_loop (length w - 1) 1 0 assigned w in
      deal_loop wants (modify_at assigned best (λ a. add a (weigh k))) w (append_at shards best k)

  -- With no weights there is no shard to put a key in: the index is out of range.
  unfoldable pub deal_wants : List Key → List ℤ → Result (List (List Key))
  unfolding deal_loop best_loop
  deal_wants [] [] = ok []
  deal_wants (k ∷ wants) [] = err panic
  deal_wants wants (x ∷ []) = ok (wants ∷ [])
  deal_wants wants (x ∷ y ∷ weights) =
      let w = map (λ z. of_ℕ (floor_weight z)) (x ∷ y ∷ weights) in
      ok (deal_loop wants (replicate (length w) (of_ℕ 0)) w (replicate (length w) []))
