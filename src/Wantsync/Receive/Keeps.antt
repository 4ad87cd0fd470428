-- ===== src/Wantsync/Receive/Keeps.antt =====
-- However a transfer ends, the store still holds what it held.
use amber_store_iroh.Prelude.{
  ℕ, zero, suc, ◌+◌, ◌≡◌, subst, List, [], ◌∷◌, ◌++◌, map, length, take, Option, some, Eq,
  Option-cases, inl, inr, arith,
}
use amber_store_iroh.Protocol.Error.{Bytes, ok, Result-cases}
use amber_store_iroh.Protocol.Stream.{Stream}
use amber_store_iroh.Wantsync.Library.{Library, StoreLaws}
use amber_store_iroh.Wantsync.Keys.{split_wants, max_wants_per_round, dedupe_keys}
use amber_store_iroh.Wantsync.Wants.{wants}
use amber_store_iroh.Wantsync.Deal.{deal_wants}
use amber_store_iroh.Wantsync.Receive.{
  Stats, Channel, Item, Decoded, Received, objects, item_keys, all_kids, decode_all, ask, end_all,
  sampled, weights, round_error, settle, request, round, counted, receive_loop, receive,
  open_channels, no_stats, total_input,
}

-- What the store `st` holds, `st'` holds.
abbrev pub Keeps : {Key : Type 0} (lib : Library Key) → lib.State → lib.State → Type 0
Keeps {Key} lib st st' =
    (k : Key) (bytes : Bytes) → lib.get st k ≡ ok bytes → lib.get st' k ≡ ok bytes

module _ {Key : Type 0} ⦃e : Eq Key⦄ (lib : Library Key) (laws : StoreLaws lib)
    (merge : ℕ → List (List (Item Key)) → List (Item Key)) where
  Preserves : (lib.State → List Channel → List Key → Stats → Option (Received lib)) → Type 0
  Preserves continue =
      (st : lib.State) (cs : List Channel) (frontier : List Key) (stats : Stats) (r : Received lib)
      → continue st cs frontier stats ≡ some r
      → Keeps lib st r.store

  Keeps-same : (st : lib.State) (r : Received lib) → st ≡ r.store → Keeps lib st r.store
  Keeps-same st r same = subst (λ x. Keeps lib st x) same (λ k bytes held. held)

  settle-Keeps :
      (continue : lib.State → List Channel → List Key → Stats → Option (Received lib))
      → Preserves continue
      → (st : lib.State) (cs : List Channel) (decoded : List (Decoded Key)) (send carry : List Key)
        (stats : Stats) (r : Received lib)
      → settle lib merge continue st cs decoded send carry stats ≡ some r
      → Keeps lib st r.store
  unfolding Preserves
  settle-Keeps continue ih st cs decoded send carry stats r h k bytes held =
      let items = merge stats.rounds (map (λ (d : Decoded Key). d.items) decoded) in
      let written = lib.write_parallel st (objects items) in
      let taken = take written.taken items in
      let there = laws.kept st (objects items) k bytes held in
      elim (Option-cases (round_error lib decoded written.error (item_keys taken) send)) [
        | inr (x, failed) ↦
            let same : written.store ≡ r.store = ground arith in
            subst (λ x. lib.get x k ≡ ok bytes) same there
        | inl passed ↦
            let stats' : Stats = record stats {
              received = stats.received + length (dedupe_keys (item_keys taken));
            } in
            let goes : continue written.store cs (all_kids taken ++ carry) stats' ≡ some r =
              ground arith in
            ih written.store cs (all_kids taken ++ carry) stats' r goes k bytes there
      ]

  request-Keeps :
      (continue : lib.State → List Channel → List Key → Stats → Option (Received lib))
      → Preserves continue
      → (st : lib.State) (cs : List Channel) (send carry : List Key) (stats : Stats)
        (r : Received lib)
      → request lib merge continue st cs send carry stats ≡ some r
      → Keeps lib st r.store
  request-Keeps continue ih st cs send carry stats r h =
      elim (Result-cases (deal_wants lib send (weights cs))) [
        | inl (x, failed) ↦ Keeps-same st r (ground arith)
        | inr (shards, dealt) ↦ elim (Option-cases (ask lib shards (sampled cs)).0) [
          | inr (x, failed) ↦ Keeps-same st r (ground arith)
          | inl asked ↦
              let cs' = (ask lib shards (sampled cs)).1 in
              let (decoded, after) = decode_all lib shards cs' in
              settle-Keeps continue ih st after decoded send carry stats r (ground arith)
        ]
      ]

  round-Keeps :
      (continue : lib.State → List Channel → List Key → Stats → Option (Received lib))
      → Preserves continue
      → (st : lib.State) (cs : List Channel) (send carry : List Key) (stats : Stats)
        (r : Received lib)
      → round lib merge continue st cs (send, carry) stats ≡ some r
      → Keeps lib st r.store
  round-Keeps continue ih st cs (k ∷ send) carry stats r h =
      request-Keeps continue ih st cs (k ∷ send) carry stats r h
  round-Keeps continue ih st cs [] carry stats r h =
      Keeps-same st r (ground (arith, Option-cases (end_all lib cs).0))

  receive_loop-Keeps : (fuel : ℕ) → Preserves (receive_loop lib merge fuel)
  unfolding receive_loop Preserves
  receive_loop-Keeps zero st cs frontier stats r h = absurd (cc)
  receive_loop-Keeps (suc fuel) st cs frontier stats r h =
      elim (Result-cases (wants lib st frontier)) [
        | inl (x, failed) ↦ Keeps-same st r (ground arith)
        | inr (ws, found) ↦
            let (send, carry) = split_wants ws max_wants_per_round in
            round-Keeps (receive_loop lib merge fuel) (receive_loop-Keeps fuel) st cs send carry
              (counted send stats) r (ground arith)
      ]

  -- However `receive` ends, with an error or without, every object that was in the store is there still, with the same bytes.
  pub receive-Keeps :
      (st : lib.State) (streams : List Stream) (root : Key) (r : Received lib)
      → receive lib merge st streams root ≡ some r
      → Keeps lib st r.store
  unfolding receive Preserves
  receive-Keeps st streams root r h =
      receive_loop-Keeps (suc (total_input (open_channels streams))) st (open_channels streams)
        (root ∷ []) no_stats r h
