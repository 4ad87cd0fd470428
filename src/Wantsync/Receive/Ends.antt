-- ===== src/Wantsync/Receive/Ends.antt =====
-- A transfer always ends: every round that does not end it has taken bytes off a channel.
use amber_store_iroh.Prelude.{
  ℕ, zero, suc, ◌+◌, ◌≤◌, ◌<◌, ◌≡◌, refl, sym, ap, subst, inl, inr, List, [], ◌∷◌, ◌++◌, map,
  length, take, Option, none, some, Eq, Option-cases, Member, arith,
}
use amber_store_iroh.Protocol.Error.{Error, Result-cases}
use amber_store_iroh.Protocol.Stream.{Stream}
use amber_store_iroh.Protocol.Frame.Laws.{write_msg-input}
use amber_store_iroh.Protocol.Pack.{new_pack_reader, drain}
use amber_store_iroh.Protocol.Pack.Consumes.{drain-lt, drain-le}
use amber_store_iroh.Wantsync.Library.{Library, Unpacked, finished, broken, object}
use amber_store_iroh.Wantsync.Keys.{split_wants, max_wants_per_round, dedupe_keys, encode_keys}
use amber_store_iroh.Wantsync.Keys.Laws.{check_delivered_complete}
use amber_store_iroh.Wantsync.Wants.{wants}
use amber_store_iroh.Wantsync.Deal.{deal_wants}
use amber_store_iroh.Wantsync.Receive.{
  Stats, Channel, Item, Decoded, Received, objects, item_keys, all_kids, decode_items,
  decode_channel, advance, decode_all, ask, end_all, wants_msg, sampled, weights, round_error,
  settle, request, round, counted, receive_loop, receive, open_channels, no_stats, total_input,
  total_count,
}
use amber_store_iroh.Wantsync.Receive.Complete.{MergesOnly, received_item, Member-take}

abbrev HoldsNothing : {Key : Type 0} → Unpacked Key → Type 0
HoldsNothing (finished seen) = Unit
HoldsNothing (broken e seen) = Unit
HoldsNothing (object o seen rest) = ⊥

-- No object is read out of no bytes.
abbrev pub EmptyPack : {Key : Type 0} → Library Key → Type 0
EmptyPack lib = (e : Option Error) → HoldsNothing (lib.unpack [] e)

module _ {Key : Type 0} (lib : Library Key) where
  decode_items-nil :
      (ending : Option Error) (u : Unpacked Key)
      → HoldsNothing u
      → (decode_items lib ending u).items ≡ []
  unfolding decode_items
  decode_items-nil ending (finished seen) h = refl
  decode_items-nil ending (broken e seen) h = refl
  decode_items-nil ending (object o seen rest) h = absurd h

  advance-le : (c : Channel) → length (advance lib c).stream.input ≤ length c.stream.input
  unfolding advance
  advance-le c = drain-le lib.codec c.stream

  -- A channel that brought an item has been read from.
  advance-lt :
      EmptyPack lib
      → (c : Channel) (i : Item Key) → Member i (decode_channel lib c.stream).items
      → length (advance lib c).stream.input < length c.stream.input
  unfolding advance decode_channel
  advance-lt empty c i m = drain-lt lib.codec c.stream (λ none_read.
      subst (λ l. Member i l)
        (decode_items-nil _ _ (
          subst
            (λ b. HoldsNothing (lib.unpack b (drain lib.codec (new_pack_reader c.stream)).error))
            (sym none_read) (empty _)))
        m)

  decode_all-le :
      (shards : List (List Key)) (cs : List Channel)
      → total_input (decode_all lib shards cs).1 ≤ total_input cs
  unfolding decode_all
  decode_all-le [] cs = omega arith
  decode_all-le (shard ∷ shards) [] = omega arith
  decode_all-le ([] ∷ shards) (c ∷ cs) = omega (arith, decode_all-le shards cs)
  decode_all-le ((k ∷ ks) ∷ shards) (c ∷ cs) = omega (arith, decode_all-le shards cs, advance-le c)

  decode_all-lt :
      EmptyPack lib
      → (shards : List (List Key)) (cs : List Channel) (l : List (Item Key)) (i : Item Key)
      → Member l (map (λ d. d.items) (decode_all lib shards cs).0)
      → Member i l
      → total_input (decode_all lib shards cs).1 < total_input cs
  unfolding decode_all
  decode_all-lt empty [] cs l i m n = absurd m
  decode_all-lt empty (shard ∷ shards) [] l i m n = absurd m
  decode_all-lt empty ([] ∷ shards) (c ∷ cs) l i m n =
      omega (arith, decode_all-lt empty shards cs l i m n)
  decode_all-lt empty ((k ∷ ks) ∷ shards) (c ∷ cs) l i (inl same) n =
      omega (arith, decode_all-le shards cs, advance-lt empty c i (subst (λ x. Member i x) same n))
  decode_all-lt empty ((k ∷ ks) ∷ shards) (c ∷ cs) l i (inr later) n =
      omega (arith, decode_all-lt empty shards cs l i later n, advance-le c)

  ask-total :
      (shards : List (List Key)) (cs : List Channel)
      → (ask lib shards cs).0 ≡ none
      → total_input (ask lib shards cs).1 ≤ total_input cs
  unfolding ask
  ask-total [] cs h = omega arith
  ask-total (shard ∷ shards) [] h = omega arith
  ask-total ([] ∷ shards) (c ∷ cs) h = omega (arith, ask-total shards cs h)
  ask-total ((k ∷ ks) ∷ shards) (c ∷ cs) h = ground (
    arith,
    ask-total shards cs,
    write_msg-input lib.codec (wants_msg (encode_keys lib (k ∷ ks))) c.stream,
  )

  sampled-total : (cs : List Channel) → total_input (sampled cs) ≡ total_input cs
  sampled-total [] = refl
  sampled-total (c ∷ cs) = ap (λ n. length c.stream.input + n) (sampled-total cs)

module _ {Key : Type 0} ⦃e : Eq Key⦄ (lib : Library Key) (empty : EmptyPack lib)
    (merge : ℕ → List (List (Item Key)) → List (Item Key)) (only : MergesOnly merge) where
  abbrev Loop : Type 0
  Loop = lib.State → List Channel → List Key → Stats → Option (Received lib)

  -- The loop ends on channels with less than `n` bytes of input.
  abbrev EndsBelow : ℕ → Loop → Type 0
  EndsBelow n continue =
      (st : lib.State) (cs : List Channel) (frontier : List Key) (stats : Stats)
      → total_input cs < n
      → (r : Received lib) × (continue st cs frontier stats ≡ some r)

  settle_ends :
      (continue : Loop) (n : ℕ)
      → EndsBelow n continue
      → (st : lib.State) (cs : List Channel) (shards : List (List Key)) (k : Key)
        (send carry : List Key) (stats : Stats)
      → total_input cs ≤ n
      → (r : Received lib) × (settle lib merge continue st
            (decode_all lib shards cs).1
            (decode_all lib shards cs).0
            (k ∷ send)
            carry
            stats
          ≡ some r)
  settle_ends continue n ih st cs shards k send carry stats room =
      let decoded = (decode_all lib shards cs).0 in
      let cs' = (decode_all lib shards cs).1 in
      let items = merge stats.rounds (map (λ (d : Decoded Key). d.items) decoded) in
      let written = lib.write_parallel st (objects items) in
      let taken = take written.taken items in
      let stats' : Stats = record stats {
        received = stats.received + length (dedupe_keys (item_keys taken));
      } in
      elim (Option-cases (round_error lib decoded written.error (item_keys taken) (k ∷ send))) [
        | inr (x, failed) ↦ (
          record { stats = stats'; error = some x; channels = cs'; store = written.store },
          ground arith,
        )
        | inl passed ↦
            let got =
              check_delivered_complete (item_keys taken) (k ∷ send) (ground arith) k (inl refl) in
            let (i, among, _) = received_item lib taken k got in
            let (l, sent, n_l) =
              only stats.rounds (map (λ (d : Decoded Key). d.items) decoded) i
                (Member-take lib written.taken items i among) in
            let less = decode_all-lt lib empty shards cs l i sent n_l in
            let (r, rest) =
              ih written.store cs' (all_kids taken ++ carry) stats' (omega (arith, less)) in
            (r, ground arith)
      ]

  request_ends :
      (continue : Loop) (n : ℕ)
      → EndsBelow n continue
      → (st : lib.State) (cs : List Channel) (k : Key) (send carry : List Key) (stats : Stats)
      → total_input cs ≤ n
      → (r : Received lib) × (request lib merge continue st cs (k ∷ send) carry stats ≡ some r)
  request_ends continue n ih st cs k send carry stats room =
      elim (Result-cases (deal_wants lib (k ∷ send) (weights cs))) [
        | inl (x, failed) ↦
            (record { stats = stats; error = some x; channels = cs; store = st }, ground arith)
        | inr (shards, dealt) ↦ elim (Option-cases (ask lib shards (sampled cs)).0) [
          | inr (x, failed) ↦ (
            record {
              stats = stats;
              error = some x;
              channels = (ask lib shards (sampled cs)).1;
              store = st;
            },
            ground arith,
          )
          | inl asked ↦
              let cs' = (ask lib shards (sampled cs)).1 in
              let (r, rest) =
                settle_ends continue n ih st cs' shards k send carry stats
                  (omega (arith, ask-total lib shards (sampled cs) asked, sampled-total lib cs)) in
              (r, ground arith)
        ]
      ]

  round_ends :
      (continue : Loop) (n : ℕ)
      → EndsBelow n continue
      → (st : lib.State) (cs : List Channel) (send carry : List Key) (stats : Stats)
      → total_input cs ≤ n
      → (r : Received lib) × (round lib merge continue st cs (send, carry) stats ≡ some r)
  round_ends continue n ih st cs (k ∷ send) carry stats room =
      request_ends continue n ih st cs k send carry stats room
  round_ends continue n ih st cs [] carry stats room = elim (Option-cases (end_all lib cs).0) [
    | inr (x, failed) ↦ (
      record { stats = stats; error = some x; channels = (end_all lib cs).1; store = st },
      ground arith,
    )
    | inl ended ↦ (
      record {
        stats = record stats { bytes = total_count (end_all lib cs).1 };
        error = none;
        channels = (end_all lib cs).1;
        store = st;
      },
      ground arith,
    )
  ]

  receive_loop_ends : (fuel : ℕ) → EndsBelow fuel (receive_loop lib merge fuel)
  unfolding receive_loop
  receive_loop_ends zero st cs frontier stats room = absurd (omega arith)
  receive_loop_ends (suc fuel) st cs frontier stats room =
      elim (Result-cases (wants lib st frontier)) [
        | inl (x, failed) ↦
            (record { stats = stats; error = some x; channels = cs; store = st }, ground arith)
        | inr (ws, found) ↦
            let cut = split_wants ws max_wants_per_round in
            let (r, rest) =
              round_ends (receive_loop lib merge fuel) fuel (receive_loop_ends fuel) st cs cut.0
                cut.1 (counted cut.0 stats) (omega arith) in
            (r, ground arith)
      ]

  -- `receive` always returns, with a result or with an error: the fuel that the model gives it, one round for each
  -- byte of input and one more, is enough whatever the peer sends. This rests on the pack format (no
  -- object is read out of no bytes), and on the merge of the decoders delivering only what they sent.
  pub receive_ends :
      (st : lib.State) (streams : List Stream) (root : Key)
      → (r : Received lib) × (receive lib merge st streams root ≡ some r)
  unfolding receive
  receive_ends st streams root =
      let cs = open_channels streams in
      receive_loop_ends (suc (total_input cs)) st cs (root ∷ []) no_stats (omega arith)
