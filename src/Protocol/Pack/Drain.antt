-- ===== src/Protocol/Pack/Drain.antt =====
-- The pack reader: it hands out exactly what a pack carries, and stops behind TDataEnd.
use amber_store_iroh.Prelude.{
  ℕ, zero, suc, ◌+◌, ◌≤◌, ◌<◌, ◌≡◌, refl, sym, ◌∙◌, ap, subst, true, false, Bool-cases, List, [],
  ◌∷◌, ◌++◌, append_assoc, length, length-append, none, All, arith, inl, inr, take, drop,
}
use amber_store_iroh.Protocol.Error.{Bytes, ok, Result-cases}
use amber_store_iroh.Protocol.Msg.{max_frame, chunk_size}
use amber_store_iroh.Protocol.Stream.{Stream}
use amber_store_iroh.Protocol.Frame.{Codec, frame, read_msg, put_uint32}
use amber_store_iroh.Protocol.Frame.Laws.{read_msg-frame, read_msg_consumes, length-put_uint32}
use amber_store_iroh.Protocol.Pack.{
  PackWriter, Records, PackReader, data_msg, end_msg, on_frame, has_stopped, next, new_pack_reader,
  Drained, drain_from, drain_loop, drain, send_pack,
}
use amber_store_iroh.Protocol.Pack.Chunks.{concat}
use amber_store_iroh.Protocol.Pack.Wire.{
  PackWire, last, chunk, ReadsPacks, pack_bytes, send_pack_sound,
}

pub next_stopped :
    (fuel : ℕ) (codec : Codec) (p : PackReader) → has_stopped p ≡ true → next fuel codec p ≡ p
unfolding next
next_stopped zero codec p h = refl
next_stopped (suc fuel) codec p h = ground arith

-- A round that does not end the loop has taken a frame off the input.
on_frame_consumes :
    (codec : Codec) (p : PackReader)
    → has_stopped p ≡ false
    → has_stopped (on_frame (read_msg codec p.r) p) ≡ false
    → length (on_frame (read_msg codec p.r) p).r.input + 4 ≤ length p.r.input
on_frame_consumes codec p h h' = elim (Result-cases (read_msg codec p.r).0) [
  | inl (e, failed) ↦ absurd (ground arith)
  | inr (m, got) ↦ ground (arith, read_msg_consumes codec m p.r (read_msg codec p.r).1)
]

pub next_going :
    (fuel : ℕ) (codec : Codec) (p : PackReader)
    → has_stopped p ≡ false
    → next (suc fuel) codec p ≡ next fuel codec (on_frame (read_msg codec p.r) p)
unfolding next
next_going fuel codec p h = ground arith

-- More fuel than bytes of input changes nothing.
next_fuel :
    (f g : ℕ) (codec : Codec) (p : PackReader)
    → length p.r.input < f
    → length p.r.input < g
    → next f codec p ≡ next g codec p
next_fuel zero g codec p hf hg = absurd (omega arith)
next_fuel (suc f) zero codec p hf hg = absurd (omega arith)
next_fuel (suc f) (suc g) codec p hf hg =
    let q = on_frame (read_msg codec p.r) p in
    elim (Bool-cases (has_stopped p)) [
      | inl h ↦ next_stopped (suc f) codec p h ∙ sym (next_stopped (suc g) codec p h)
      | inr h ↦ elim (Bool-cases (has_stopped q)) [
        | inl h' ↦ cc (
          next_going f codec p h,
          next_going g codec p h,
          next_stopped f codec q h',
          next_stopped g codec q h',
        )
        | inr h' ↦
            let less = on_frame_consumes codec p h h' in
            cc (
              next_going f codec p h,
              next_going g codec p h,
              next_fuel f g codec q (omega (arith, less)) (omega (arith, less)),
            )
      ]
    ]

-- With more fuel than bytes of input the loop of `Read` ends by its own test: there are bytes to
-- hand out, or an error to return, or the pack has ended.
pub next_stops :
    (f : ℕ) (codec : Codec) (p : PackReader)
    → length p.r.input < f
    → has_stopped (next f codec p) ≡ true
next_stops zero codec p hf = absurd (omega arith)
next_stops (suc f) codec p hf =
    let q = on_frame (read_msg codec p.r) p in
    elim (Bool-cases (has_stopped p)) [
      | inl h ↦ rw (next_stopped (suc f) codec p h) h
      | inr h ↦ rw (next_going f codec p h) (elim (Bool-cases (has_stopped q)) [
        | inl h' ↦ rw (next_stopped f codec q h') h'
        | inr h' ↦ next_stops f codec q (omega (arith, on_frame_consumes codec p h h'))
      ])
    ]

take_all : (d : Bytes) → take (length d) d ≡ d
take_all [] = refl
take_all (b ∷ bs) = ap (λ r. b ∷ r) (take_all bs)

drop_all : (d : Bytes) → drop (length d) d ≡ []
drop_all [] = refl
drop_all (b ∷ bs) = drop_all bs

-- The loop of `Read` at the frame that ends a pack, and at one that brings bytes.
next-last :
    (fuel : ℕ) (codec : Codec) (p rest : Bytes) (s : Stream)
    → codec.unmarshal p ≡ ok end_msg
    → length p ≤ max_frame
    → s.input ≡ frame p ++ rest
    → next (suc fuel) codec (new_pack_reader s)
      ≡ record (new_pack_reader (record s { input = rest })) { done = true }
next-last fuel codec p rest s coded fits e =
    next_going fuel codec (new_pack_reader s) refl
    ∙ (rw (read_msg-frame codec end_msg p rest s coded fits e) (next_stopped fuel codec _ refl))

next-chunk :
    (fuel : ℕ) (codec : Codec) (p rest : Bytes) (b : ℕ) (bs : Bytes) (s : Stream)
    → codec.unmarshal p ≡ ok (data_msg (b ∷ bs))
    → length p ≤ max_frame
    → s.input ≡ frame p ++ rest
    → next (suc fuel) codec (new_pack_reader s)
      ≡ record (new_pack_reader (record s { input = rest })) { cur = b ∷ bs }
next-chunk fuel codec p rest b bs s coded fits e =
    next_going fuel codec (new_pack_reader s) refl
    ∙ (rw (read_msg-frame codec (data_msg (b ∷ bs)) p rest s coded fits e)
        (next_stopped fuel codec _ refl))

abbrev pub prepend : Bytes → Drained → Drained
prepend bytes rest = record rest { bytes = bytes ++ rest.bytes }

-- All that a frame brought is handed out before anything else is read.
pub drain_from-cur :
    (continue : PackReader → Drained) (q : PackReader) (b : ℕ) (bs : Bytes)
    → q.cur ≡ b ∷ bs
    → drain_from continue q ≡ prepend (b ∷ bs) (continue (record q { cur = [] }))
drain_from-cur continue q b bs h = ground (arith, take_all bs, drop_all bs)

-- Reading the frames of a pack.
drain_wire :
    (fuel : ℕ) (codec : Codec) (ds : List Bytes) (wire rest : Bytes) (s : Stream)
    → PackWire codec wire ds
    → All (λ d. (0 < length d) × (length d ≤ chunk_size)) ds
    → s.input ≡ wire ++ rest
    → length wire < fuel
    → drain_loop fuel codec (new_pack_reader s) ≡ record {
      bytes = concat ds;
      error = none;
      reader = record (new_pack_reader (record s { input = rest })) { done = true };
    }
unfolding drain_loop
drain_wire zero codec ds wire rest s packed sized e enough = absurd (omega arith)
drain_wire (suc fuel) codec _ _ rest s (last p coded fits) sized e enough =
    ap (drain_from (drain_loop fuel codec)) (next-last (length s.input) codec p rest s coded fits e)
drain_wire (suc fuel) codec _ _ rest s (chunk p [] w ds coded fits packed) sized e enough =
    absurd (omega arith)
drain_wire (suc fuel) codec _ _ rest s (chunk p (b ∷ bs) w ds coded fits packed) sized e enough =
    let ih =
      drain_wire fuel codec ds w rest (record s { input = w ++ rest }) packed sized.1 refl
        (omega (
          arith,
          length-append (frame p) w,
          length-append (put_uint32 (length p)) p,
          length-put_uint32 (length p),
        )) in
    let q : PackReader = record (new_pack_reader (record s { input = w ++ rest })) {
      cur = b ∷ bs;
    } in
    ap (drain_from (drain_loop fuel codec)) (
      next-chunk (length s.input) codec p (w ++ rest) b bs s coded fits
        (e ∙ append_assoc (frame p) w rest))
    ∙ drain_from-cur (drain_loop fuel codec) q b bs refl
    ∙ ap (prepend (b ∷ bs)) ih

module _ {R : Type 0} (codec : Codec) (pw : PackWriter R) where
  -- The round trip of a pack: if the codec reads its frames back, then what `send_pack` wrote
  -- without an error, on an output that was empty, is read by a pack reader as the bytes of the
  -- pack, with no error, and the reader stops at what stands behind the pack.
  pub drain-send_pack :
      (rs : Records R) (s s' r : Stream) (rest : Bytes)
      → ReadsPacks codec
      → send_pack codec pw rs s ≡ (none, s')
      → s.output ≡ []
      → r.input ≡ s'.output ++ rest
      → (bytes : Bytes) × (pack_bytes pw rs ≡ ok bytes)
        × (drain codec (new_pack_reader r) ≡ record {
          bytes = bytes;
          error = none;
          reader = record (new_pack_reader (record r { input = rest })) { done = true };
        })
  unfolding drain
  drain-send_pack rs s s' r rest reads h fresh e =
      let (bytes, wire, sent, spec, packed, spelled, sized, out) =
        send_pack_sound codec pw rs s s' reads h in
      let e' : r.input ≡ wire ++ rest = e ∙ ap (λ o. o ++ rest) (out ∙ ap (λ o. o ++ wire) fresh) in
      (
        bytes,
        spec,
        subst
            (λ b. drain_loop (suc (suc (length r.input))) codec (new_pack_reader r) ≡ record {
              bytes = b;
              error = none;
              reader = record (new_pack_reader (record r { input = rest })) { done = true };
            })
            spelled
            (drain_wire (suc (suc (length r.input))) codec sent wire rest r packed sized e'
              (omega (arith, ap (length {A = ℕ}) e', length-append wire rest))),
      )
