-- ===== src/Protocol/Pack/Chunks.antt =====
-- The chunk writer: how it cuts the bytes that it is given into TData frames.
use amber_store_iroh.Prelude.{
  ℕ, zero, suc, ◌-◌, ◌≤◌, ◌<◌, ◌≡◌, refl, sym, ◌∙◌, ap, subst, ◌≡⟨◌⟩◌, ◌∎, ◌==◌, min, Bool-cases,
  inl, inr, List, [], ◌∷◌, ◌++◌, append-nil, append_assoc, length, take, drop, length-take,
  length-drop, length-append, take-append-drop, Option, none, some, All, All-append, arith,
}
use amber_store_iroh.Protocol.Error.{Bytes, Error, ◌and_then◌}
use amber_store_iroh.Protocol.Msg.{chunk_size}
use amber_store_iroh.Protocol.Stream.{Stream}
use amber_store_iroh.Protocol.Frame.{Codec, write_msg}
use amber_store_iroh.Protocol.Pack.{ChunkWriter, data_msg, flush, fill, write_loop, write}

-- TData frames with these payloads took the stream from one state to the next, one after another.
pub data Sent (codec : Codec) : Stream → List Bytes → Stream → Type 0 where
  here : {s : Stream} → Sent codec s [] s
  then :
      {s t u : Stream} {d : Bytes} {ds : List Bytes}
      → write_msg codec (data_msg d) s ≡ (none, t)
      → Sent codec t ds u
      → Sent codec s (d ∷ ds) u

abbrev pub concat : List Bytes → Bytes
concat [] = []
concat (d ∷ ds) = d ++ concat ds

pub Sent-append :
    {codec : Codec} {s t u : Stream} {ds es : List Bytes}
    → Sent codec s ds t
    → Sent codec t es u
    → Sent codec s (ds ++ es) u
Sent-append here q = q
Sent-append (then h p) q = then h (Sent-append p q)

pub concat-append : (ds es : List Bytes) → concat (ds ++ es) ≡ concat ds ++ concat es
concat-append [] es = refl
concat-append (d ∷ ds) es = rw (concat-append ds es) (sym (append_assoc d (concat ds) (concat es)))

-- What a successful operation of the chunk writer did with the bytes `given`: the frames it sent are
-- `sent`, none of them larger than a chunk, and with what is left in the buffer they spell what stood there
-- and what was given.
pub record Wrote (codec : Codec) (c c' : ChunkWriter) (given : Bytes) : Type 0 where
  pub sent : List Bytes
  pub steps : Sent codec c.w sent c'.w
  pub spelled : concat sent ++ c'.buf ≡ c.buf ++ given
  pub sized : All (λ d. (0 < length d) × (length d ≤ chunk_size)) sent

flush_buffer_sound :
    (codec : Codec) (w : Stream) (buf : Bytes) (c' : ChunkWriter)
    → length buf ≤ chunk_size
    → flush codec (record { w = w; buf = buf }) ≡ (none, c')
    → Wrote codec (record { w = w; buf = buf }) c' [] × (c'.buf ≡ [])
unfolding flush
flush_buffer_sound codec w [] c' room h =
    subst (λ (x : ChunkWriter). Wrote codec (record { w = w; buf = [] }) x [] × (x.buf ≡ []))
      (ap (λ x. x.1) h) (record { sent = []; steps = here; spelled = refl; sized = tt }, refl)
flush_buffer_sound codec w (b ∷ bs) c' room h =
    subst (λ (x : ChunkWriter). Wrote codec (record { w = w; buf = b ∷ bs }) x [] × (x.buf ≡ []))
      (ap (λ x. x.1) h)
      (
        record {
          sent = (b ∷ bs) ∷ [];
          steps = then (ground arith) here;
          spelled = append-nil _;
          sized = (omega arith, tt);
        },
        refl,
      )

pub flush_sound :
    (codec : Codec) (c c' : ChunkWriter)
    → length c.buf ≤ chunk_size
    → flush codec c ≡ (none, c')
    → Wrote codec c c' [] × (c'.buf ≡ [])
flush_sound codec c c' room h = flush_buffer_sound codec c.w c.buf c' room h

-- An operation that sends nothing.
Wrote-refl : (codec : Codec) (c : ChunkWriter) → Wrote codec c c []
Wrote-refl codec c = record {
  sent = [];
  steps = here;
  spelled = sym (append-nil c.buf);
  sized = tt;
}

fill_sound :
    (codec : Codec) (c c' : ChunkWriter)
    → length c.buf ≤ chunk_size
    → fill codec c ≡ (none, c')
    → Wrote codec c c' [] × (length c'.buf < chunk_size)
fill_sound codec c c' room h = elim (Bool-cases (length c.buf == chunk_size)) [
  | inl full ↦
      let (wrote, emptied) = flush_sound codec c c' room (ground arith) in
      (wrote, rw emptied (omega arith))
  | inr free ↦
      let same : c ≡ c' = ground arith in
      (subst (λ x. Wrote codec c x []) same (Wrote-refl codec c), ground arith)
]

-- One operation behind another.
pub Wrote-trans :
    {codec : Codec} {a b c : ChunkWriter} (p q : Bytes)
    → Wrote codec a b p
    → Wrote codec b c q
    → Wrote codec a c (p ++ q)
Wrote-trans {a} {b} {c} p q f g = record {
  sent = f.sent ++ g.sent;
  steps = Sent-append f.steps g.steps;
  spelled =
      concat (f.sent ++ g.sent) ++ c.buf
      ≡⟨ rw concat-append (append_assoc (concat f.sent) (concat g.sent) c.buf) ⟩
        concat f.sent ++ (concat g.sent ++ c.buf)
      ≡⟨ ap (λ r. concat f.sent ++ r) g.spelled ⟩ concat f.sent ++ (b.buf ++ q)
      ≡⟨ sym (append_assoc (concat f.sent) b.buf q) ⟩ (concat f.sent ++ b.buf) ++ q
      ≡⟨ ap (λ r. r ++ q) f.spelled ⟩ (a.buf ++ p) ++ q
      ≡⟨ append_assoc a.buf p q ⟩ a.buf ++ (p ++ q) ∎;
  sized = All-append _ f.sent g.sent f.sized g.sized;
}

-- Bytes put into the buffer, before any is sent.
Wrote-buffer :
    {codec : Codec} {c c' : ChunkWriter} (p : Bytes)
    → Wrote codec (record c { buf = c.buf ++ p }) c' []
    → Wrote codec c c' p
Wrote-buffer {c} p f = record {
  sent = f.sent;
  steps = f.steps;
  spelled = f.spelled ∙ append-nil (c.buf ++ p);
  sized = f.sized;
}

-- Inversion of a step and what follows it.
pub and_then-eq_none {ℓ} :
    {S : Type ℓ} (x : Option Error × S) (rest : S → Option Error × S) {s' : S}
    → (x and_then rest) ≡ (none, s')
    → (s : S) × (x ≡ (none, s)) × (rest s ≡ (none, s'))
and_then-eq_none (none, s) rest h = (s, refl, h)
and_then-eq_none (some e, s) rest h = absurd (cc)

pub write_loop_sound :
    (fuel : ℕ) (codec : Codec) (p : Bytes) (c c' : ChunkWriter)
    → length c.buf < chunk_size
    → write_loop fuel codec p c ≡ (none, c')
    → Wrote codec c c' p × (length c'.buf < chunk_size)
unfolding write_loop
write_loop_sound zero codec p c c' room h = absurd (cc)
write_loop_sound (suc fuel) codec [] c c' room h =
    let same : c ≡ c' = ap (λ x. x.1) h in
    (
      subst (λ x. Wrote codec c x []) same (Wrote-refl codec c),
      subst (λ x. length x.buf < chunk_size) same room,
    )
write_loop_sound (suc fuel) codec (b ∷ bs) c c' room h =
    let p : Bytes = b ∷ bs in
    let n : ℕ = min (chunk_size - length c.buf) (length p) in
    let (mid, filled, rest) =
      and_then-eq_none (fill codec (record c { buf = c.buf ++ take n p }))
        (write_loop fuel codec (drop n p)) h in
    let (first, free) =
      fill_sound codec (record c { buf = c.buf ++ take n p }) mid
        (ground (arith, length-append c.buf (take n p), length-take n p)) filled in
    let (later, free') = write_loop_sound fuel codec (drop n p) mid c' free rest in
    (
      rw (← take-append-drop n p)
          (Wrote-trans (take n p) (drop n p) (Wrote-buffer (take n p) first) later),
      free',
    )

and_then-congr {ℓ} :
    {S : Type ℓ} (x : Option Error × S) (f g : S → Option Error × S)
    → ((s : S) → x ≡ (none, s) → f s ≡ g s)
    → (x and_then f) ≡ (x and_then g)
and_then-congr (none, s) f g h = h s refl
and_then-congr (some e, s) f g h = refl

-- More fuel than bytes changes nothing, so `write` never runs out of it.
pub write_loop_fuel :
    (f g : ℕ) (codec : Codec) (p : Bytes) (c : ChunkWriter)
    → length p < f
    → length p < g
    → length c.buf < chunk_size
    → write_loop f codec p c ≡ write_loop g codec p c
unfolding write_loop
write_loop_fuel zero g codec p c hf hg room = absurd (omega arith)
write_loop_fuel (suc f) zero codec p c hf hg room = absurd (omega arith)
write_loop_fuel (suc f) (suc g) codec [] c hf hg room = refl
write_loop_fuel (suc f) (suc g) codec (b ∷ bs) c hf hg room =
    let p : Bytes = b ∷ bs in
    let n : ℕ = min (chunk_size - length c.buf) (length p) in
    let filled : ChunkWriter = record c { buf = c.buf ++ take n p } in
    let fits : length filled.buf ≤ chunk_size =
      ground (arith, length-append c.buf (take n p), length-take n p) in
    and_then-congr (fill codec filled) (write_loop f codec (drop n p))
      (write_loop g codec (drop n p))
      λ mid h.
        write_loop_fuel f g codec (drop n p) mid (ground (arith, length-drop n p))
          (ground (arith, length-drop n p)) ((fill_sound codec filled mid fits h).1)

-- One round of the loop of `write`, with no fuel: cut off what fits, flush a full buffer, and go on.
pub write-cons :
    (codec : Codec) (b : ℕ) (bs : Bytes) (c : ChunkWriter)
    → length c.buf < chunk_size
    → write codec (b ∷ bs) c ≡ (
        fill codec (record c {
          buf = c.buf ++ take (min (chunk_size - length c.buf) (length (b ∷ bs))) (b ∷ bs);
        })
        and_then write codec (drop (min (chunk_size - length c.buf) (length (b ∷ bs))) (b ∷ bs)))
unfolding write write_loop
write-cons codec b bs c room =
    let p : Bytes = b ∷ bs in
    let n : ℕ = min (chunk_size - length c.buf) (length p) in
    let filled : ChunkWriter = record c { buf = c.buf ++ take n p } in
    let fits : length filled.buf ≤ chunk_size =
      ground (arith, length-append c.buf (take n p), length-take n p) in
    and_then-congr (fill codec filled) (write_loop (length p) codec (drop n p))
      (write codec (drop n p))
      λ mid h.
        write_loop_fuel (length p) (suc (length (drop n p))) codec (drop n p) mid
          (ground (arith, length-drop n p)) (omega arith) ((fill_sound codec filled mid fits h).1)
