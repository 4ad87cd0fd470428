-- ===== src/Wantsync/Receive/Complete.antt =====
-- A transfer that returns without an error leaves a complete tree, whatever the peer has sent.
use amber_store_iroh.Prelude.{
  ℕ, zero, suc, ◌+◌, ◌<◌, ◌≡◌, refl, sym, ap, subst, inl, inr, List, [], ◌∷◌, ◌++◌, map, length,
  take, Option, none, some, Eq, Option-cases, Member, Member-append, Member-append_left,
  Member-append_right, arith,
}
use amber_store_iroh.Protocol.Error.{Bytes, Error, ok, Result-cases}
use amber_store_iroh.Protocol.Stream.{Stream}
use amber_store_iroh.Wantsync.Library.{
  Library, Unpacked, finished, broken, object, StoreLaws, Complete, whole,
}
use amber_store_iroh.Wantsync.Keys.{split_wants, max_wants_per_round, check_delivered, dedupe_keys}
use amber_store_iroh.Wantsync.Keys.Laws.{split_wants_lem, split_wants-nil, check_delivered_complete}
use amber_store_iroh.Wantsync.Wants.{wants}
use amber_store_iroh.Wantsync.Wants.Laws.{wants_covers}
use amber_store_iroh.Wantsync.Deal.{deal_wants}
use amber_store_iroh.Wantsync.Receive.{
  Stats, Channel, Item, Decoded, Received, objects, item_keys, all_kids, decode_items,
  decode_channel, decode_all, ask, end_all, sampled, weights, round_error, settle, request, round,
  counted, receive_loop, receive, open_channels, no_stats, total_input,
}

-- The merge of the decoders' items delivers nothing but items that a decoder has sent.
abbrev pub MergesOnly : {Key : Type 0} → (ℕ → List (List (Item Key)) → List (Item Key)) → Type 0
MergesOnly {Key} merge =
    (n : ℕ) (ls : List (List (Item Key))) (i : Item Key)
    → Member i (merge n ls)
    → (l : List (Item Key)) × Member l ls × Member i l

module _ {Key : Type 0} (lib : Library Key) where
  -- An item holds the children of its object.
  abbrev IsTrue : Item Key → Type 0
  IsTrue i = lib.child_keys i.obj.key i.obj.bytes ≡ ok i.kids

  decode_items-IsTrue :
      (ending : Option Error) (u : Unpacked Key) (i : Item Key)
      → Member i (decode_items lib ending u).items
      → IsTrue i
  unfolding decode_items
  decode_items-IsTrue ending (finished seen) i m = absurd m
  decode_items-IsTrue ending (broken e seen) i m = absurd m
  decode_items-IsTrue ending (object o seen rest) i m =
      elim (Result-cases (lib.child_keys o.key o.bytes)) [
        | inl (e, failed) ↦ absurd (ground arith)
        | inr (kids, known) ↦
            let split : (decode_items lib ending (object o seen rest)).items
                ≡ record { obj = o; kids = kids } ∷ (decode_items lib ending rest).items =
              ground arith in
            elim (subst (λ l. Member i l) split m) [
              | inl same ↦ subst IsTrue (sym same) known
              | inr later ↦ decode_items-IsTrue ending rest i later
            ]
      ]

  decode_all-IsTrue :
      (shards : List (List Key)) (cs : List Channel) (l : List (Item Key)) (i : Item Key)
      → Member l (map (λ d. d.items) (decode_all lib shards cs).0)
      → Member i l
      → IsTrue i
  unfolding decode_all decode_channel
  decode_all-IsTrue [] cs l i m n = absurd m
  decode_all-IsTrue (shard ∷ shards) [] l i m n = absurd m
  decode_all-IsTrue ([] ∷ shards) (c ∷ cs) l i m n = decode_all-IsTrue shards cs l i m n
  decode_all-IsTrue ((k ∷ ks) ∷ shards) (c ∷ cs) l i (inl same) n =
      decode_items-IsTrue _ _ i (subst (λ x. Member i x) same n)
  decode_all-IsTrue ((k ∷ ks) ∷ shards) (c ∷ cs) l i (inr later) n =
      decode_all-IsTrue shards cs l i later n

  -- A store keeps what another one holds.
  abbrev Keeps : lib.State → lib.State → Type 0
  Keeps st st' = (k : Key) (bytes : Bytes) → lib.get st k ≡ ok bytes → lib.get st' k ≡ ok bytes

  pub Complete-Keeps :
      {st st' : lib.State} (k : Key) → Keeps st st' → Complete lib st k → Complete lib st' k
  Complete-Keeps k keeps (whole _ bytes kids held told below) =
      whole k bytes kids (keeps k bytes held) told (λ c m. Complete-Keeps c keeps (below c m))

  -- A key that was received is the key of an item, whose children are among the new frontier.
  pub received_item :
      (items : List (Item Key)) (k : Key)
      → Member k (item_keys items)
      → (i : Item Key) × Member i items × (k ≡ i.obj.key)
  received_item [] k m = absurd m
  received_item (i ∷ is) k (inl e) = (i, inl refl, e)
  received_item (i ∷ is) k (inr m) = let (j, n, e) = received_item is k m in (j, inr n, e)

  kid_of_item :
      (items : List (Item Key)) (i : Item Key) (c : Key)
      → Member i items
      → Member c i.kids
      → Member c (all_kids items)
  kid_of_item [] i c m n = absurd m
  kid_of_item (j ∷ is) i c (inl e) n =
      Member-append_left c j.kids (all_kids is) (subst (λ x. Member c x.kids) e n)
  kid_of_item (j ∷ is) i c (inr m) n =
      Member-append_right c j.kids (all_kids is) (kid_of_item is i c m n)

  object_of_item :
      (items : List (Item Key)) (i : Item Key) → Member i items → Member i.obj (objects items)
  object_of_item [] i m = absurd m
  object_of_item (j ∷ is) i (inl e) = inl (ap (λ x. x.obj) e)
  object_of_item (j ∷ is) i (inr m) = inr (object_of_item is i m)

  pub Member-take :
      (n : ℕ) (items : List (Item Key)) (i : Item Key) → Member i (take n items) → Member i items
  Member-take zero items i m = absurd m
  Member-take (suc n) [] i m = absurd m
  Member-take (suc n) (j ∷ is) i (inl e) = inl e
  Member-take (suc n) (j ∷ is) i (inr m) = inr (Member-take n is i m)

module _ {Key : Type 0} ⦃e : Eq Key⦄ (lib : Library Key) (laws : StoreLaws lib)
    (merge : ℕ → List (List (Item Key)) → List (Item Key)) (only : MergesOnly merge) where
  -- What a successful transfer ends with: the keys of its frontier are complete, and nothing that
  -- the store held is lost.
  abbrev Delivers : lib.State → List Key → Received lib → Type 0
  Delivers st frontier r =
      ((k : Key) → Member k frontier → Complete lib r.store k) × Keeps lib st r.store

  abbrev Succeeds : (lib.State → List Channel → List Key → Stats → Option (Received lib)) → Type 0
  Succeeds continue =
      (st : lib.State) (cs : List Channel) (frontier : List Key) (stats : Stats) (r : Received lib)
      → continue st cs frontier stats ≡ some r
      → r.error ≡ none
      → Delivers st frontier r

  -- A key that was asked for and received is complete once its children are.
  received_Complete :
      (st : lib.State) (final : lib.State) (items : List (Item Key)) (k : Key)
      → ((i : Item Key) → Member i items → IsTrue lib i)
      → (lib.write_parallel st (objects items)).error ≡ none
      → Keeps lib (lib.write_parallel st (objects items)).store final
      → (n : ℕ) → ((c : Key) → Member c (all_kids (take n items)) → Complete lib final c)
      → Member k (item_keys (take n items))
      → Complete lib final k
  received_Complete st final items k honest fine keeps n below m =
      let (i, among, same) = received_item lib (take n items) k m in
      let there = Member-take lib n items i among in
      subst (λ x. Complete lib final x) (sym same)
        (whole i.obj.key i.obj.bytes i.kids
          (keeps i.obj.key i.obj.bytes
            (laws.stored st (objects items) fine i.obj (object_of_item lib items i there)))
          (honest i there) (λ c kid. below c (kid_of_item lib (take n items) i c among kid)))

  settle_sound :
      (continue : lib.State → List Channel → List Key → Stats → Option (Received lib))
      → Succeeds continue
      → (st : lib.State) (cs : List Channel) (decoded : List (Decoded Key)) (send carry : List Key)
        (stats : Stats) (r : Received lib)
      → ((i : Item Key) → Member i (merge stats.rounds (map (λ d. d.items) decoded)) → IsTrue lib i)
      → settle lib merge continue st cs decoded send carry stats ≡ some r
      → r.error ≡ none
      → Delivers st (send ++ carry) r
  settle_sound continue ih st cs decoded send carry stats r honest h good =
      let items = merge stats.rounds (map (λ (d : Decoded Key). d.items) decoded) in
      let written = lib.write_parallel st (objects items) in
      let taken = take written.taken items in
      elim (Option-cases (round_error lib decoded written.error (item_keys taken) send)) [
        | inr (x, failed) ↦ absurd (ground arith)
        | inl passed ↦
            let fine : written.error ≡ none = ground arith in
            let all_there : check_delivered (item_keys taken) send ≡ none = ground arith in
            let stats' : Stats = record stats {
              received = stats.received + length (dedupe_keys (item_keys taken));
            } in
            let goes : continue written.store cs (all_kids taken ++ carry) stats' ≡ some r =
              ground arith in
            let (complete, kept) =
              ih written.store cs (all_kids taken ++ carry) stats' r goes good in
            (
              λ k m. elim (Member-append k send carry m) [
                | inl asked ↦
                    received_Complete st r.store items k honest fine kept written.taken
                      (λ c n. complete c (Member-append_left c (all_kids taken) carry n))
                      (check_delivered_complete (item_keys taken) send all_there k asked)
                | inr left ↦ complete k (Member-append_right k (all_kids taken) carry left)
              ],
              λ k bytes held. kept k bytes (laws.kept st (objects items) k bytes held),
            )
      ]

  request_sound :
      (continue : lib.State → List Channel → List Key → Stats → Option (Received lib))
      → Succeeds continue
      → (st : lib.State) (cs : List Channel) (send carry : List Key) (stats : Stats)
        (r : Received lib)
      → request lib merge continue st cs send carry stats ≡ some r
      → r.error ≡ none
      → Delivers st (send ++ carry) r
  request_sound continue ih st cs send carry stats r h good =
      elim (Result-cases (deal_wants lib send (weights cs))) [
        | inl (x, failed) ↦ absurd (ground arith)
        | inr (shards, dealt) ↦ elim (Option-cases (ask lib shards (sampled cs)).0) [
          | inr (x, failed) ↦ absurd (ground arith)
          | inl asked ↦
              let cs' = (ask lib shards (sampled cs)).1 in
              let (decoded, after) = decode_all lib shards cs' in
              settle_sound continue ih st after decoded send carry stats r
                (λ i m.
                  let (l, among, n) =
                    only stats.rounds (map (λ (d : Decoded Key). d.items) decoded) i m in
                  decode_all-IsTrue lib shards cs' l i among n)
                (ground arith) good
        ]
      ]

  conclude_sound :
      (continue : lib.State → List Channel → List Key → Stats → Option (Received lib))
      → Succeeds continue
      → (st : lib.State) (cs : List Channel) (send carry : List Key) (stats : Stats)
        (r : Received lib)
      → ((send ≡ []) → carry ≡ [])
      → round lib merge continue st cs (send, carry) stats ≡ some r
      → r.error ≡ none
      → Delivers st (send ++ carry) r
  conclude_sound continue ih st cs (k ∷ send) carry stats r empty h good =
      request_sound continue ih st cs (k ∷ send) carry stats r h good
  conclude_sound continue ih st cs [] carry stats r empty h good =
      elim (Option-cases (end_all lib cs).0) [
        | inr (x, failed) ↦ absurd (ground arith)
        | inl ended ↦
            let same : st ≡ r.store = ground arith in
            let nothing : carry ≡ [] = empty refl in
            subst (λ (l : List Key). Delivers st l r) (sym nothing)
              (λ k m. absurd m, subst (λ x. Keeps lib st x) same (λ k bytes held. held))
      ]

  receive_loop_sound : (fuel : ℕ) → Succeeds (receive_loop lib merge fuel)
  unfolding receive_loop
  receive_loop_sound zero st cs frontier stats r h good = absurd (cc)
  receive_loop_sound (suc fuel) st cs frontier stats r h good =
      elim (Result-cases (wants lib st frontier)) [
        | inl (x, failed) ↦ absurd (ground arith)
        | inr (ws, found) ↦
            let some_room : 0 < max_wants_per_round = omega arith in
            let (whole_list, size) = split_wants_lem ws max_wants_per_round some_room in
            let (send, carry) = split_wants ws max_wants_per_round in
            let go : round lib merge (receive_loop lib merge fuel) st cs (send, carry)
                  (counted send stats)
                ≡ some r =
              ground arith in
            let (complete, kept) =
              conclude_sound (receive_loop lib merge fuel) (receive_loop_sound fuel) st cs send
                carry (counted send stats) r (split_wants-nil ws max_wants_per_round some_room) go
                good in
            (
              λ k m. elim (wants_covers lib st frontier ws found k m) [
                | inl wanted ↦ complete k (subst (λ l. Member k l) (sym whole_list) wanted)
                | inr checked ↦ Complete-Keeps lib k kept (laws.checked st k checked)
              ],
              kept,
            )
      ]

  -- Whatever bytes the peer has sent on however many channels, if `receive` returns without an error then the whole
  -- tree below the root is in the store that it leaves, and every object that was in the store before is there still. This rests on
  -- what the store documents (`StoreLaws`), and on the merge of the decoders delivering only what they sent.
  pub receive-Complete :
      (st : lib.State) (streams : List Stream) (root : Key) (r : Received lib)
      → receive lib merge st streams root ≡ some r
      → r.error ≡ none
      → Complete lib r.store root
        × ((k : Key) (bytes : Bytes) → lib.get st k ≡ ok bytes → lib.get r.store k ≡ ok bytes)
  unfolding receive
  receive-Complete st streams root r h good =
      let (complete, kept) =
        receive_loop_sound (suc (total_input (open_channels streams))) st (open_channels streams)
          (root ∷ []) no_stats r h good in
      (complete root (inl refl), kept)
