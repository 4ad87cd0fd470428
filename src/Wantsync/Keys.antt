-- ===== src/Wantsync/Keys.antt =====
-- wantsync/wantsync.go: the operations on lists of keys.
pub mod Laws
use amber_store_iroh.Prelude.{
  ℕ, zero, suc, ◌+◌, ◌*◌, ◌%◌, ◌^◌, Bool, true, false, List, [], ◌∷◌, ◌++◌, length, take, drop,
  Option, none, some, Eq, contains, if◌then◌else◌, leb, ◌==◌,
}
use amber_store_iroh.Protocol.Error.{Bytes, Error, Result, ok, err}
use amber_store_iroh.Wantsync.Library.{Library}

abbrev pub max_wants_per_round : ℕ
max_wants_per_round = 32 * 2 ^ 10

unfoldable pub split_wants {ℓ} : {Key : Type ℓ} → List Key → ℕ → List Key × List Key
split_wants wants max =
    if leb (length wants) max then (wants, []) else (take max wants, drop max wants)

module _ {Key : Type 0} (lib : Library Key) where
  unfoldable pub encode_keys : List Key → List Bytes
  encode_keys [] = []
  encode_keys (k ∷ ks) = lib.to_bytes k ∷ encode_keys ks

  -- The first key that does not parse ends the loop.
  unfoldable pub decode_keys : List Bytes → Result (List Key)
  decode_keys [] = ok []
  decode_keys (b ∷ bs) =
      let rest = decode_keys bs in
      elim (lib.parse b) [
        | err e ↦ err e
        | ok k ↦ elim rest [ err e ↦ err e | ok ks ↦ ok (k ∷ ks) ]
      ]

  -- A sum in int64, as a bit pattern.
  key_bytes_loop : List Key → ℕ → ℕ
  key_bytes_loop [] n = n
  key_bytes_loop (k ∷ ks) n = key_bytes_loop ks ((n + lib.key_length k) % 2 ^ 64)

  unfoldable pub key_bytes : List Key → ℕ
  unfolding key_bytes_loop
  key_bytes ks = key_bytes_loop ks 0

-- What checkDelivered reports: how many of the wants are missing, and the first of them.
pub record Omitted (Key : Type 0) : Type 0 where
  pub missing : ℕ
  pub wanted : ℕ
  pub example : Key

module _ {Key : Type 0} ⦃e : Eq Key⦄ where
  -- The loop of `dedupeKeys`; `seen` holds the keys of the map.
  unfoldable pub dedupe_loop : List Key → List Key → List Key
  dedupe_loop seen [] = []
  dedupe_loop seen (k ∷ ks) = elim (contains seen k) [
    | true ↦ dedupe_loop seen ks
    | false ↦ k ∷ dedupe_loop (k ∷ seen) ks
  ]

  unfoldable pub dedupe_keys : List Key → List Key
  unfolding dedupe_loop
  dedupe_keys = dedupe_loop []

  -- The loop of `checkDelivered`.
  unfoldable pub missing_loop : List Key → List Key → ℕ → Option Key → ℕ × Option Key
  missing_loop received [] missing example = (missing, example)
  missing_loop received (k ∷ wants) missing example = elim (contains received k) [
    | true ↦ missing_loop received wants missing example
    | false ↦ missing_loop received wants (missing + 1) (if missing == 0 then some k else example)
  ]

  abbrev pub report : ℕ → ℕ × Option Key → Option (Omitted Key)
  report wanted (zero, example) = none
  report wanted (suc n, none) = none
  report wanted (suc n, some k) = some (record { missing = suc n; wanted = wanted; example = k })

  unfoldable pub check_delivered : List Key → List Key → Option (Omitted Key)
  unfolding missing_loop
  check_delivered received wants = report (length wants) (missing_loop received wants 0 none)
