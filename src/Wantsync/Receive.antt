-- ===== src/Wantsync/Receive.antt =====
-- wantsync/wantsync.go: `Receive`. The decoders of a round run at once and send into one channel;
-- in what order their items come out is the parameter `merge`, by the number of the round. A decoder
-- that fails is modelled as if its pack had been read to the end: the transfer ends with an error then,
-- and nothing more is read. The callbacks of `Progress` are left out.
pub mod Complete
pub mod Ends
pub mod Keeps
use amber_store_iroh.Prelude.{
  ℕ, zero, suc, ◌+◌, ◌-◌, Bool, true, false, List, [], ◌∷◌, ◌++◌, map, length, take, Option, none,
  some, Eq, if◌then◌else◌,
}
use amber_store_iroh.Prelude.Int.{ℤ, sub_ℕ}
use amber_store_iroh.Protocol.Error.{
  Bytes, Error, Result, ok, err, omitted, as_remote, or_else, join, ◌and_then◌,
}
use amber_store_iroh.Protocol.Msg.{Msg, blank, t_wants}
use amber_store_iroh.Protocol.Stream.{Stream}
use amber_store_iroh.Protocol.Frame.{write_msg}
use amber_store_iroh.Protocol.Pack.{new_pack_reader, Drained, drain}
use amber_store_iroh.Wantsync.Library.{Library, Object, Unpacked, finished, broken, object, Written}
use amber_store_iroh.Wantsync.Keys.{
  encode_keys, dedupe_keys, split_wants, max_wants_per_round, check_delivered, Omitted,
}
use amber_store_iroh.Wantsync.Wants.{wants}
use amber_store_iroh.Wantsync.Deal.{deal_wants}

pub record Stats : Type 0 where
  pub rounds : ℕ
  pub requested : ℕ
  pub received : ℕ
  pub bytes : ℕ

-- A channel with the count of its countingReader and its entry of prevWire.
pub record Channel : Type 0 where
  pub stream : Stream
  pub count : ℕ
  pub prev : ℕ

pub record Item (Key : Type 0) : Type 0 where
  pub obj : Object Key
  pub kids : List Key

-- What a decoder goroutine leaves behind: its items, its entry of decodeErrs, and what its
-- errTrackingReader remembers.
pub record Decoded (Key : Type 0) : Type 0 where
  pub items : List (Item Key)
  pub error : Option Error
  pub tracked : Option Error

-- Msg{Type: TWants, Keys: keys}.
abbrev pub wants_msg : List Bytes → Msg
wants_msg keys = record (blank t_wants) { keys = keys }

abbrev pub total_count : List Channel → ℕ
total_count [] = 0
total_count (c ∷ cs) = c.count + total_count cs

-- Each round's byte deltas are the weights of the next dealing.
abbrev pub weights : List Channel → List ℤ
weights = map (λ c. sub_ℕ c.count c.prev)

abbrev pub sampled : List Channel → List Channel
sampled [] = []
sampled (c ∷ cs) = record c { prev = c.count } ∷ sampled cs

abbrev pub with_rest {ℓ} : {A : Type ℓ} → A → Option Error × List A → Option Error × List A
with_rest c (e, cs) = (e, c ∷ cs)

-- A tracked error that came from the peer.
abbrev pub if_remote : Option Error → Option Error
if_remote none = none
if_remote (some e) = elim (as_remote e) [ none ↦ none | some re ↦ some e ]

module _ {Key : Type 0} where
  abbrev pub first_remote : List (Decoded Key) → Option Error
  first_remote [] = none
  first_remote (d ∷ ds) = or_else (if_remote d.tracked) (first_remote ds)

  -- The counts of a round are taken before anything is sent.
  abbrev pub counted : List Key → Stats → Stats
  counted send stats = record stats {
    rounds = stats.rounds + 1;
    requested = stats.requested + length send;
  }

  abbrev pub objects : List (Item Key) → List (Object Key)
  objects = map (λ i. i.obj)

  abbrev pub item_keys : List (Item Key) → List Key
  item_keys = map (λ i. i.obj.key)

  abbrev pub all_kids : List (Item Key) → List Key
  all_kids [] = []
  all_kids (i ∷ is) = i.kids ++ all_kids is

  abbrev pub omission_error : Option (Omitted Key) → Option Error
  omission_error none = none
  omission_error (some o) = some (omitted o.missing o.wanted)

  abbrev pub with_decoded :
      Decoded Key → Channel → List (Decoded Key) × List Channel → List (Decoded Key) × List Channel
  with_decoded d c (ds, cs) = (d ∷ ds, c ∷ cs)

  abbrev pub passed_over :
      Channel → List (Decoded Key) × List Channel → List (Decoded Key) × List Channel
  passed_over c (ds, cs) = (ds, c ∷ cs)

module _ {Key : Type 0} (lib : Library Key) where
  abbrev pub keep_error : Bool → Option Error → Option Error
  keep_error true e = e
  keep_error false e = none

  abbrev pub with_item : Item Key → Decoded Key → Decoded Key
  with_item i d = record d { items = i ∷ d.items }

  -- The loop over the objects of a pack, and the drain behind it. `ending` is how the pack reader
  -- ends. An object whose children cannot be told ends the loop.
  unfoldable pub decode_items : Option Error → Unpacked Key → Decoded Key
  decode_items ending (finished seen) = record {
    items = [];
    error = ending;
    tracked = keep_error seen ending;
  }
  decode_items ending (broken e seen) = record {
    items = [];
    error = some e;
    tracked = keep_error seen ending;
  }
  decode_items ending (object o seen rest) = elim (lib.child_keys o.key o.bytes) [
    | err e ↦ record { items = []; error = some e; tracked = keep_error seen ending }
    | ok kids ↦ with_item (record { obj = o; kids = kids }) (decode_items ending rest)
  ]

  unfoldable pub decode_channel : Stream → Decoded Key
  unfolding decode_items
  decode_channel s =
      let d = drain lib.codec (new_pack_reader s) in
      decode_items d.error (lib.unpack d.bytes d.error)

  -- The channel behind its pack, with the bytes counted that were read.
  unfoldable pub advance : Channel → Channel
  advance c =
      let s' = (drain lib.codec (new_pack_reader c.stream)).reader.r in
      record c { stream = s'; count = c.count + (length c.stream.input - length s'.input) }

  -- The TWants frames of a round: none to a channel whose shard is empty.
  unfoldable pub ask : List (List Key) → List Channel → Option Error × List Channel
  ask [] cs = (none, cs)
  ask (shard ∷ shards) [] = (none, [])
  ask ([] ∷ shards) (c ∷ cs) = with_rest c (ask shards cs)
  ask ((k ∷ ks) ∷ shards) (c ∷ cs) =
      let rest = ask shards cs in
      let (e, s') = write_msg lib.codec (wants_msg (encode_keys lib (k ∷ ks))) c.stream in
      let c' = record c { stream = s' } in
      elim e [ none ↦ with_rest c' rest | some x ↦ (some x, c' ∷ cs) ]

  -- What the decoders of the active channels leave behind, and all channels after the round.
  unfoldable pub decode_all : List (List Key) → List Channel → List (Decoded Key) × List Channel
  unfolding decode_channel advance
  decode_all [] cs = ([], cs)
  decode_all (shard ∷ shards) [] = ([], [])
  decode_all ([] ∷ shards) (c ∷ cs) = passed_over c (decode_all shards cs)
  decode_all ((k ∷ ks) ∷ shards) (c ∷ cs) =
      with_decoded (decode_channel c.stream) (advance c) (decode_all shards cs)

  -- The final, empty TWants on every channel.
  unfoldable pub end_all : List Channel → Option Error × List Channel
  end_all [] = (none, [])
  end_all (c ∷ cs) =
      let rest = end_all cs in
      let (e, s') = write_msg lib.codec (wants_msg []) c.stream in
      let c' = record c { stream = s' } in
      elim e [ none ↦ with_rest c' rest | some x ↦ (some x, c' ∷ cs) ]

  -- What `Receive` returns, with the channels and the store that it leaves.
  pub record Received : Type 0 where
    pub stats : Stats
    pub error : Option Error
    pub channels : List Channel
    pub store : lib.State

module _ {Key : Type 0} ⦃e : Eq Key⦄ (lib : Library Key) where
  -- The error of a round, in the order in which the code looks.
  abbrev pub round_error : List (Decoded Key) → Option Error → List Key → List Key → Option Error
  round_error decoded write_error received send = or_else (first_remote decoded) (
      or_else (join (map (λ d. d.error) decoded))
        (or_else write_error (omission_error (check_delivered received send))))

module _ {Key : Type 0} ⦃e : Eq Key⦄ (lib : Library Key)
    (merge : ℕ → List (List (Item Key)) → List (Item Key)) where
  -- The rest of the loop: the store, the channels, the frontier and the statistics of a new round.
  abbrev pub Continue : Type 0
  Continue = lib.State → List Channel → List Key → Stats → Option (Received lib)

  -- Storing what a round brought, and its checks.
  abbrev pub settle :
      Continue
      → lib.State
      → List Channel
      → List (Decoded Key)
      → List Key
      → List Key
      → Stats
      → Option (Received lib)
  settle continue st channels decoded send carry stats =
      let items = merge stats.rounds (map (λ d. d.items) decoded) in
      let written = lib.write_parallel st (objects items) in
      let taken = take written.taken items in
      let received = item_keys taken in
      let stats' = record stats { received = stats.received + length (dedupe_keys received) } in
      elim (round_error lib decoded written.error received send) [
        | some x ↦
            some (record {
              stats = stats';
              error = some x;
              channels = channels;
              store = written.store;
            })
        | none ↦ continue written.store channels (all_kids taken ++ carry) stats'
      ]

  abbrev pub after_ask :
      Continue
      → lib.State
      → List (List Key)
      → Option Error × List Channel
      → List Key
      → List Key
      → Stats
      → Option (Received lib)
  after_ask continue st shards (some x, channels) send carry stats =
      some (record { stats = stats; error = some x; channels = channels; store = st })
  after_ask continue st shards (none, channels) send carry stats =
      let (decoded, channels') = decode_all lib shards channels in
      settle continue st channels' decoded send carry stats

  -- A round that asks for keys.
  abbrev pub request :
      Continue → lib.State → List Channel → List Key → List Key → Stats → Option (Received lib)
  request continue st channels send carry stats = elim (deal_wants lib send (weights channels)) [
    | err x ↦ some (record { stats = stats; error = some x; channels = channels; store = st })
    | ok shards ↦ after_ask continue st shards (ask lib shards (sampled channels)) send carry stats
  ]

  -- The last round, which asks for nothing.
  abbrev pub conclude : lib.State → Option Error × List Channel → Stats → Option (Received lib)
  conclude st (some x, channels) stats =
      some (record { stats = stats; error = some x; channels = channels; store = st })
  conclude st (none, channels) stats = some (record {
    stats = record stats { bytes = total_count channels };
    error = none;
    channels = channels;
    store = st;
  })

  abbrev pub round :
      Continue → lib.State → List Channel → List Key × List Key → Stats → Option (Received lib)
  round continue st channels ([], carry) stats = conclude st (end_all lib channels) stats
  round continue st channels (k ∷ send, carry) stats =
      request continue st channels (k ∷ send) carry stats

  -- none stands for fuel that has run out.
  unfoldable pub receive_loop :
      ℕ → lib.State → List Channel → List Key → Stats → Option (Received lib)
  receive_loop zero st channels frontier stats = none
  receive_loop (suc fuel) st channels frontier stats = elim (wants lib st frontier) [
    | err x ↦ some (record { stats = stats; error = some x; channels = channels; store = st })
    | ok ws ↦
        let cut = split_wants ws max_wants_per_round in
        round (receive_loop fuel) st channels cut (counted cut.0 stats)
  ]

abbrev pub total_input : List Channel → ℕ
total_input [] = 0
total_input (c ∷ cs) = length c.stream.input + total_input cs

abbrev pub open_channels : List Stream → List Channel
open_channels = map (λ s. record { stream = s; count = 0; prev = 0 })

abbrev pub no_stats : Stats
no_stats = record { rounds = 0; requested = 0; received = 0; bytes = 0 }

module _ {Key : Type 0} ⦃e : Eq Key⦄ (lib : Library Key)
    (merge : ℕ → List (List (Item Key)) → List (Item Key)) where
  unfoldable pub receive : lib.State → List Stream → Key → Option (Received lib)
  unfolding receive_loop
  receive st streams root =
      let channels = open_channels streams in
      receive_loop lib merge (suc (total_input channels)) st channels (root ∷ []) no_stats
