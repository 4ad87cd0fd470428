-- ===== src/Wantsync/Send/Round.antt =====
-- wantsync/wantsync.go, Send: one round of the exchange, which is the pack for the keys of a TWants frame.
use amber_store_iroh.Prelude.{
  ℕ, suc, ◌≤◌, ◌<◌, ◌≡◌, refl, sym, ap, ◌∙◌, subst, inl, inr, Bool-cases, List, [], ◌∷◌, ◌++◌,
  length, none, Eq, All, contains, false, arith, if◌then◌else◌,
}
use amber_store_iroh.Protocol.Error.{Bytes, ok, Result-cases}
use amber_store_iroh.Protocol.Msg.{chunk_size}
use amber_store_iroh.Protocol.Stream.{Stream}
use amber_store_iroh.Protocol.Pack.{Records, done, yield, send_pack}
use amber_store_iroh.Protocol.Pack.Chunks.{concat}
use amber_store_iroh.Protocol.Pack.Wire.{
  PackWire, ReadsPacks, records_bytes, pack_bytes, send_pack_sound,
}
use amber_store_iroh.Protocol.Pack.Input.{send_pack-input}
use amber_store_iroh.Wantsync.Library.{Library}
use amber_store_iroh.Wantsync.Keys.{decode_keys, dedupe_keys}
use amber_store_iroh.Wantsync.Keys.Laws.{IsNodup, dedupe_keys_lem}
use amber_store_iroh.Wantsync.Send.{records_for, answer}

module _ {Key : Type 0} ⦃e : Eq Key⦄ where
  -- How often a key is in a list.
  abbrev pub times : Key → List Key → ℕ
  times k [] = 0
  times k (x ∷ xs) = if e.beq k x then suc (times k xs) else times k xs

  times-IsNodup :
      (ks : List Key) (k : Key) → IsNodup ks → times k ks ≡ (if contains ks k then 1 else 0)
  times-IsNodup [] k once = refl
  times-IsNodup (x ∷ ks) k (new, once) =
      let rest = times-IsNodup ks k once in
      elim (Bool-cases (e.beq k x)) [
        | inr other ↦ ground arith
        | inl same ↦
            let absent : contains ks k ≡ false = ap (contains ks) ((e.beq_iff k x).0 same) ∙ new in
            ground arith
      ]

-- The pack of these records, all of which could be read.
abbrev pub all_of : List Bytes → Records Bytes
all_of [] = done
all_of (r ∷ rs) = yield r (all_of rs)

module _ {Key : Type 0} ⦃e : Eq Key⦄ (lib : Library Key) (st : lib.State) where
  -- Sorting by location keeps how often each key is there.
  abbrev pub Permutes : Type 0
  Permutes = (ks : List Key) (k : Key) → times k (lib.sort_by_location st ks) ≡ times k ks

  -- The keys that these bytes are, in order.
  abbrev pub Parse : List Bytes → List Key → Type 0
  Parse [] [] = Unit
  Parse (b ∷ bs) (k ∷ ks) = (lib.parse b ≡ ok k) × Parse bs ks
  Parse _ _ = ⊥

  -- The stored records of these keys, in order, each of which is well formed.
  abbrev pub Stored : List Key → List Bytes → Type 0
  Stored [] [] = Unit
  Stored (k ∷ ks) (rec ∷ recs) =
      (lib.get_record st k ≡ ok rec)
      × ((ulen : ℕ) × (lib.parse_record rec ≡ ok ulen))
      × Stored ks recs
  Stored _ _ = ⊥

  -- One round of the exchange, for these keys: the pack of their records stands on the output.
  pub record Round (raw : List Bytes) (s s' : Stream) : Type 0 where
    pub keys : List Key
    pub parsed : Parse raw keys
    pub served : List Key
    pub once : (k : Key) → times k served ≡ (if contains keys k then 1 else 0)
    pub recs : List Bytes
    pub stored : Stored served recs
    pub bytes : Bytes
    pub packed : pack_bytes lib.pack_writer (all_of recs) ≡ ok bytes
    pub wire : Bytes
    pub sent : List Bytes
    pub framed : PackWire lib.codec wire sent
    pub carried : concat sent ≡ bytes
    pub sized : All (λ d. (0 < length d) × (length d ≤ chunk_size)) sent
    pub written : s'.output ≡ s.output ++ wire
    pub unread : s'.input ≡ s.input

  -- Inversion of a round that went well.
  pub answer_ok :
      (raw : List Bytes) (s s' : Stream)
      → answer lib st raw s ≡ (none, s')
      → (keys : List Key) × (decode_keys lib raw ≡ ok keys)
        × (send_pack lib.codec lib.pack_writer
              (records_for lib st (lib.sort_by_location st (dedupe_keys keys)))
              s
            ≡ (none, s'))
  unfolding answer
  answer_ok raw s s' h = elim (Result-cases (decode_keys lib raw)) [
    | inl (x, failed) ↦ absurd (ground arith)
    | inr (keys, parsed) ↦ (keys, parsed, ground arith)
  ]

  decode_keys-Parse :
      (raw : List Bytes) (keys : List Key) → decode_keys lib raw ≡ ok keys → Parse raw keys
  unfolding decode_keys
  decode_keys-Parse [] [] h = tt
  decode_keys-Parse [] (k ∷ ks) h = absurd (ground arith)
  decode_keys-Parse (b ∷ bs) ks h = elim (Result-cases (lib.parse b)) [
    | inl (x, failed) ↦ absurd (ground arith)
    | inr (k, one) ↦ elim (Result-cases (decode_keys lib bs)) [
      | inl (x, failed) ↦ absurd (ground arith)
      | inr (rest, more) ↦
          let same : k ∷ rest ≡ ks = ground arith in
          subst (Parse (b ∷ bs)) same (one, decode_keys-Parse bs rest more)
    ]
  ]

  -- A pack that is made without an error has read every record.
  records_for-Stored :
      (ks : List Key) (pst : lib.pack_writer.State) (bytes : Bytes)
      → records_bytes lib.pack_writer (records_for lib st ks) pst ≡ ok bytes
      → (recs : List Bytes) × Stored ks recs × (records_for lib st ks ≡ all_of recs)
  unfolding records_for records_bytes
  records_for-Stored [] pst bytes h = ([], tt, refl)
  records_for-Stored (x ∷ ks) pst bytes h = elim (Result-cases (lib.get_record st x)) [
    | inl (e, absent) ↦ absurd (ground arith)
    | inr (rec, there) ↦ elim (Result-cases (lib.parse_record rec)) [
      | inl (e, broken) ↦ absurd (ground arith)
      | inr (ulen, parsed) ↦ elim (Result-cases (lib.pack_writer.add rec pst)) [
        | inl (e, refused) ↦ absurd (ground arith)
        | inr ((pst', added), put) ↦
            elim (Result-cases (records_bytes lib.pack_writer (records_for lib st ks) pst')) [
              | inl (e, failed) ↦ absurd (ground arith)
              | inr (more, went) ↦
                  let (recs, stored, same) = records_for-Stored ks pst' more went in
                  (rec ∷ recs, (there, (ulen, parsed), stored), ground arith)
            ]
      ]
    ]
  ]

  pack_bytes-Stored :
      (ks : List Key) (bytes : Bytes)
      → pack_bytes lib.pack_writer (records_for lib st ks) ≡ ok bytes
      → (recs : List Bytes) × Stored ks recs × (records_for lib st ks ≡ all_of recs)
  unfolding pack_bytes
  pack_bytes-Stored ks bytes h =
      elim (Result-cases
        (records_bytes lib.pack_writer (records_for lib st ks) lib.pack_writer.start.0)) [
          | inl (x, failed) ↦ absurd (ground arith)
          | inr (more, went) ↦ records_for-Stored ks lib.pack_writer.start.0 more went
        ]

  pub answer-Round :
      ReadsPacks lib.codec
      → Permutes
      → (raw : List Bytes) (s s' : Stream) → answer lib st raw s ≡ (none, s')
      → Round raw s s'
  answer-Round reads sorts raw s s' h =
      let (keys, parsed, went) = answer_ok raw s s' h in
      let asked = dedupe_keys keys in
      let served = lib.sort_by_location st asked in
      let rs = records_for lib st served in
      let (bytes, wire, sent, packed, framed, carried, sized, written) =
        send_pack_sound lib.codec lib.pack_writer rs s s' reads went in
      let (recs, stored, same) = pack_bytes-Stored served bytes packed in
      record {
        keys = keys;
        parsed = decode_keys-Parse raw keys parsed;
        served = served;
        once = λ k.
            sorts asked k
            ∙ times-IsNodup asked k (dedupe_keys_lem keys).0
            ∙ ap (λ b. if b then 1 else 0) ((dedupe_keys_lem keys).2 k);
        recs = recs;
        stored = stored;
        bytes = bytes;
        packed = ap (pack_bytes lib.pack_writer) (sym same) ∙ packed;
        wire = wire;
        sent = sent;
        framed = framed;
        carried = carried;
        sized = sized;
        written = written;
        unread = ap (λ x. x.1.input) (sym went) ∙ send_pack-input lib.codec lib.pack_writer rs s;
      }
