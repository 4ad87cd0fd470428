-- ===== src/Tests/Toy.antt =====
-- A small instance of `Library`: keys are numbers, the object of a key is fixed, and a pack is the list of its keys.
use amber_store_iroh.Prelude.{
  ℕ, suc, ◌+◌, ◌/◌, ◌≡◌, refl, sym, ap, subst, ltb, ◌==◌, Bool, true, false, Bool-cases, List, [],
  ◌∷◌, ◌++◌, map, length, Option, none, some, inl, inr, Member, Member-append, contains,
  bytes_equal, bytes_equal_iff, if◌then◌else◌, arith, nat_eq,
}
use amber_store_iroh.Prelude.Int.{◌==ℤ◌}
use amber_store_iroh.Protocol.Error.{
  Bytes, Error, Result, ok, err, eof, library, not_found, missing_object, Result-cases,
}
use amber_store_iroh.Protocol.Msg.{
  Msg, blank, t_push, t_pull, t_ref, t_wants, t_data, t_data_end, t_ok,
}
use amber_store_iroh.Protocol.Frame.{Codec, frame}
use amber_store_iroh.Protocol.Stream.{Stream}
use amber_store_iroh.Protocol.Pack.{PackWriter, data_msg, end_msg}
use amber_store_iroh.Protocol.Pack.Wire.{ReadsPacks}
use amber_store_iroh.Wantsync.Library.{
  Library, Object, Unpacked, finished, broken, object, Written, Float64, StoreLaws, Complete, whole,
}
use amber_store_iroh.Wantsync.Receive.{Item}
use amber_store_iroh.Wantsync.Receive.Complete.{MergesOnly}
use amber_store_iroh.Wantsync.Receive.Ends.{EmptyPack}

abbrev pub flat : List Bytes → Bytes
flat [] = []
flat (k ∷ ks) = k ++ flat ks

-- A frame's first byte is its type; what is needed of the fields follows.
abbrev pub marshal : Msg → Result Bytes
marshal m =
    if m.type ==ℤ t_data
    then ok (7 ∷ m.payload)
    else if m.type ==ℤ t_data_end
    then ok (8 ∷ [])
    else if m.type ==ℤ t_wants
    then ok (6 ∷ flat m.keys)
    else if m.type ==ℤ t_push
    then ok (1 ∷ m.root)
    else if m.type ==ℤ t_pull
    then ok (2 ∷ [])
    else if m.type ==ℤ t_ref
    then ok (4 ∷ m.ref_record)
    else if m.type ==ℤ t_ok
    then ok (9 ∷ m.key)
    else err (library 0)

abbrev unmarshal_type : ℕ → Bytes → Result Msg
unmarshal_type t p =
    if t == 7
    then ok (data_msg p)
    else if t == 8
    then ok end_msg
    else if t == 6
    then ok (record (blank t_wants) { keys = map (λ k. k ∷ []) p })
    else if t == 1
    then ok (record (blank t_push) { name = "n"; root = p })
    else if t == 2
    then ok (record (blank t_pull) { name = "n" })
    else if t == 4
    then ok (record (blank t_ref) { ref_record = p })
    else if t == 9
    then ok (record (blank t_ok) { key = p })
    else err (library 1)

abbrev pub unmarshal : Bytes → Result Msg
unmarshal [] = err (library 1)
unmarshal (t ∷ p) = unmarshal_type t p

abbrev pub codec : Codec
codec = record { marshal = marshal; unmarshal = unmarshal }

pub codec-ReadsPacks : ReadsPacks codec
codec-ReadsPacks = record { chunks = λ d p h. ground arith; ends = λ p h. ground arith }

abbrev pub pack_writer : PackWriter Bytes
pack_writer = record { State = ℕ; start = (0, []); add = λ r n. ok (suc n, r); close = λ n. ok [] }

abbrev pub floats : Float64
floats = record { Carrier = ℕ; of_ℕ = λ n. n; add = λ a b. a + b; div = λ a b. a / b; lt = ltb }

-- The object of key 1 has the child 2, the others have none.
abbrev pub content : ℕ → Bytes
content k = if k == 1 then 2 ∷ [] else []

abbrev pub parse : Bytes → Result ℕ
parse (k ∷ []) = ok k
parse _ = err (library 2)

abbrev pub get : List ℕ → ℕ → Result Bytes
get st k = if contains st k then ok (content k) else err not_found

abbrev pub is_leaf : Result Bytes → Option Error
is_leaf (ok []) = none
is_leaf _ = some missing_object

-- A write fails unless each object is the one of its key.
abbrev pub all_true : List (Object ℕ) → Bool
all_true [] = true
all_true (o ∷ os) = if bytes_equal o.bytes (content o.key) then all_true os else false

abbrev pub keys_of : List (Object ℕ) → List ℕ
keys_of = map (λ o. o.key)

abbrev pub write_all : List ℕ → List (Object ℕ) → Written (List ℕ)
write_all st os =
    if all_true os
    then record { taken = length os; error = none; store = keys_of os ++ st }
    else record { taken = 0; error = some (library 3); store = st }

abbrev pub unpack : Bytes → Option Error → Unpacked ℕ
unpack [] none = finished true
unpack [] (some e) = broken e true
unpack (k ∷ ks) e = object (record { key = k; bytes = content k }) false (unpack ks e)

abbrev pub toy : Library ℕ
toy = record {
  codec = codec;
  floats = floats;
  error_text = λ e. "error";
  parse = parse;
  to_bytes = λ k. k ∷ [];
  key_length = λ k. 1;
  child_keys = λ k bytes. ok bytes;
  State = List ℕ;
  has = λ st k. ok (contains st k);
  get = get;
  check_complete = λ st k. is_leaf (get st k);
  write_parallel = write_all;
  sort_by_location = λ st ks. ks;
  get_record = λ st k. if contains st k then ok (k ∷ []) else err not_found;
  pack_writer = pack_writer;
  parse_record = λ r. ok 1;
  unpack = unpack;
}

toy-checked : (st : List ℕ) (k : ℕ) → is_leaf (get st k) ≡ none → Complete toy st k
toy-checked st k h = elim (Result-cases (get st k)) [
  | inl (e, absent) ↦ absurd (ground arith)
  | inr ([], held) ↦ whole k [] [] held refl (λ c m. absurd m)
  | inr (b ∷ bs, held) ↦ absurd (ground arith)
]

contains-append : (xs ys : List ℕ) (k : ℕ) → contains ys k ≡ true → contains (xs ++ ys) k ≡ true
contains-append [] ys k h = h
contains-append (x ∷ xs) ys k h = ground (arith, contains-append xs ys k h)

contains-keys_of :
    (os : List (Object ℕ)) (st : List ℕ) (o : Object ℕ)
    → Member o os
    → contains (keys_of os ++ st) o.key ≡ true
contains-keys_of [] st o m = absurd m
contains-keys_of (x ∷ os) st o (inl same) =
    subst (λ y. contains (x.key ∷ (keys_of os ++ st)) y ≡ true) (ap (λ y. y.key) (sym same))
      (ground arith)
contains-keys_of (x ∷ os) st o (inr later) = ground (arith, contains-keys_of os st o later)

all_true-Member :
    (os : List (Object ℕ)) (o : Object ℕ)
    → all_true os ≡ true
    → Member o os
    → content o.key ≡ o.bytes
all_true-Member [] o h m = absurd m
all_true-Member (x ∷ os) o h (inl same) =
    subst (λ y. content y.key ≡ y.bytes) (sym same)
      (ground (arith, bytes_equal_iff x.bytes (content x.key)))
all_true-Member (x ∷ os) o h (inr later) = all_true-Member os o (ground arith) later

pub toy-StoreLaws : StoreLaws toy
toy-StoreLaws = record {
  checked = toy-checked;
  stored = λ st os fine o m. elim (Bool-cases (all_true os)) [
    | inr bad ↦ absurd (ground arith)
    | inl good ↦ ground (arith, contains-keys_of os st o m, all_true-Member os o good m)
  ];
  kept = λ st os k bytes held. elim (Bool-cases (all_true os)) [
    | inr bad ↦ ground arith
    | inl good ↦ ground (arith, contains-append (keys_of os) st k)
  ];
}

pub toy-EmptyPack : EmptyPack toy
toy-EmptyPack none = tt
toy-EmptyPack (some e) = tt

-- The decoders one after another.
abbrev pub in_turn : ℕ → List (List (Item ℕ)) → List (Item ℕ)
in_turn n [] = []
in_turn n (l ∷ ls) = l ++ in_turn n ls

Member-in_turn :
    (n : ℕ) (ls : List (List (Item ℕ))) (i : Item ℕ)
    → Member i (in_turn n ls)
    → (l : List (Item ℕ)) × Member l ls × Member i l
Member-in_turn n [] i m = absurd m
Member-in_turn n (l ∷ ls) i m = elim (Member-append i l (in_turn n ls) m) [
  | inl here ↦ (l, inl refl, here)
  | inr later ↦ let (l', among, there) = Member-in_turn n ls i later in (l', inr among, there)
]

pub in_turn-MergesOnly : MergesOnly in_turn
in_turn-MergesOnly = Member-in_turn

-- A connection on which the peer has sent these bytes.
abbrev pub open_stream : Bytes → Stream
open_stream input = record {
  input = input;
  ending = eof;
  output = [];
  room = 1000;
  failure = library 9;
}

-- What a sender answers to a transfer of the tree of key 1 into an empty store: the pack of key 1, and the pack of key 2.
abbrev pub packs_of_tree : Bytes
packs_of_tree = frame (7 ∷ 1 ∷ []) ++ frame (8 ∷ []) ++ frame (7 ∷ 2 ∷ []) ++ frame (8 ∷ [])
