-- ===== src/Protocol/Pack/Consumes.antt =====
-- A pack reader that hands out bytes has taken a frame off its stream.
use amber_store_iroh.Prelude.{
  ℕ, zero, suc, ◌≤◌, ◌<◌, ◌≡◌, ◌≢◌, refl, sym, ◌∙◌, Bool-cases, Option-cases, List-cases, ap, inl,
  inr, [], ◌∷◌, length, arith,
}
use amber_store_iroh.Protocol.Error.{Bytes, Error, Result-cases}
use amber_store_iroh.Protocol.Stream.{Stream}
use amber_store_iroh.Protocol.Frame.{Codec, read_msg}
use amber_store_iroh.Protocol.Frame.Laws.{read_msg_consumes, read_msg-le}
use amber_store_iroh.Protocol.Pack.{
  PackReader, on_frame, has_stopped, next, new_pack_reader, Drained, drain_from, end_drain,
  drain_loop, drain,
}
use amber_store_iroh.Protocol.Pack.Drain.{next_stopped, next_going, drain_from-cur}

on_frame-le :
    (codec : Codec) (p : PackReader)
    → length (on_frame (read_msg codec p.r) p).r.input ≤ length p.r.input
on_frame-le codec p = elim (Result-cases (read_msg codec p.r).0) [
  | inl (e, failed) ↦ ground (arith, read_msg-le codec p.r)
  | inr (m, got) ↦ ground (arith, read_msg-le codec p.r)
]

next-le :
    (f : ℕ) (codec : Codec) (p : PackReader) → length (next f codec p).r.input ≤ length p.r.input
next-le zero codec p = unfold next in omega arith
next-le (suc f) codec p = elim (Bool-cases (has_stopped p)) [
  | inl h ↦ rw (next_stopped (suc f) codec p h) (omega arith)
  | inr h ↦
      rw (next_going f codec p h)
        (omega (arith, next-le f codec (on_frame (read_msg codec p.r) p), on_frame-le codec p))
]

-- A frame that brings bytes has been taken off the input.
on_frame-lt :
    (codec : Codec) (p : PackReader) (b : ℕ) (bs : Bytes)
    → p.cur ≡ []
    → (on_frame (read_msg codec p.r) p).cur ≡ b ∷ bs
    → length (on_frame (read_msg codec p.r) p).r.input < length p.r.input
on_frame-lt codec p b bs h h' = elim (Result-cases (read_msg codec p.r).0) [
  | inl (e, failed) ↦ absurd (ground arith)
  | inr (m, got) ↦ ground (arith, read_msg_consumes codec m p.r (read_msg codec p.r).1)
]

next-lt :
    (f : ℕ) (codec : Codec) (p : PackReader) (b : ℕ) (bs : Bytes)
    → p.cur ≡ []
    → (next f codec p).cur ≡ b ∷ bs
    → length (next f codec p).r.input < length p.r.input
next-lt zero codec p b bs h h' = unfold next in absurd (cc)
next-lt (suc f) codec p b bs h h' =
    let q = on_frame (read_msg codec p.r) p in
    elim (Bool-cases (has_stopped p)) [
      | inl stopped ↦ absurd (cc (next_stopped (suc f) codec p stopped))
      | inr going ↦ elim (List-cases q.cur) [
        | inl empty ↦
            let step = next_going f codec p going in
            rw step (
              omega (
                arith,
                next-lt f codec q b bs empty (ap (λ x. x.cur) (sym step) ∙ h'),
                on_frame-le codec p,
              ))
        | inr (c, cs, full) ↦
            rw (next_going f codec p going ∙ next_stopped f codec q (ground arith))
              (on_frame-lt codec p c cs h full)
      ]
    ]

drain_loop-suc :
    (f : ℕ) (codec : Codec) (p : PackReader)
    → drain_loop (suc f) codec p
      ≡ drain_from (drain_loop f codec) (next (suc (length p.r.input)) codec p)
unfolding drain_loop
drain_loop-suc f codec p = refl

end_drain-reader : (e : Error) (p : PackReader) → (end_drain e p).reader ≡ p
end_drain-reader Error.eof p = refl
end_drain-reader _ p = refl

drain_from-le :
    (continue : PackReader → Drained)
    → ((p : PackReader) → length (continue p).reader.r.input ≤ length p.r.input)
    → (q : PackReader) → length (drain_from continue q).reader.r.input ≤ length q.r.input
drain_from-le continue less q = elim (List-cases q.cur) [
  | inl empty ↦ elim (Option-cases q.error) [
    | inl fine ↦ ground (arith, end_drain-reader Error.eof q)
    | inr (e, failed) ↦ ground (arith, end_drain-reader e q)
  ]
  | inr (b, bs, full) ↦ rw (drain_from-cur continue q b bs full) (less (record q { cur = [] }))
]

drain_loop-le :
    (fuel : ℕ) (codec : Codec) (p : PackReader)
    → length (drain_loop fuel codec p).reader.r.input ≤ length p.r.input
drain_loop-le zero codec p = unfold drain_loop in omega arith
drain_loop-le (suc fuel) codec p = rw (drain_loop-suc fuel codec p) (
    omega (
      arith,
      drain_from-le (drain_loop fuel codec) (drain_loop-le fuel codec)
          (next (suc (length p.r.input)) codec p),
      next-le (suc (length p.r.input)) codec p,
    ))

end_drain-bytes : (e : Error) (p : PackReader) → (end_drain e p).bytes ≡ []
end_drain-bytes Error.eof p = refl
end_drain-bytes _ p = refl

drain_from-nil :
    (continue : PackReader → Drained) (q : PackReader)
    → q.cur ≡ []
    → (drain_from continue q).bytes ≡ []
drain_from-nil continue q empty = elim (Option-cases q.error) [
  | inl fine ↦ ground (arith, end_drain-bytes Error.eof q)
  | inr (e, failed) ↦ ground (arith, end_drain-bytes e q)
]

-- A drain that brought bytes has taken something off the input.
pub drain-lt :
    (codec : Codec) (s : Stream)
    → (drain codec (new_pack_reader s)).bytes ≢ []
    → length (drain codec (new_pack_reader s)).reader.r.input < length s.input
unfolding drain
drain-lt codec s h =
    let p = new_pack_reader s in
    let q = next (suc (length s.input)) codec p in
    let continue = drain_loop (suc (length s.input)) codec in
    let all : drain_loop (suc (suc (length s.input))) codec p ≡ drain_from continue q =
      drain_loop-suc (suc (length s.input)) codec p in
    elim (List-cases q.cur) [
      | inl empty ↦ absurd (h (ap (λ d. d.bytes) all ∙ drain_from-nil continue q empty))
      | inr (b, bs, full) ↦ rw (all ∙ drain_from-cur continue q b bs full) (
          omega (
            arith,
            drain_loop-le (suc (length s.input)) codec (record q { cur = [] }),
            next-lt (suc (length s.input)) codec p b bs refl full,
          ))
    ]

pub drain-le :
    (codec : Codec) (s : Stream)
    → length (drain codec (new_pack_reader s)).reader.r.input ≤ length s.input
unfolding drain
drain-le codec s = drain_loop-le (suc (suc (length s.input))) codec (new_pack_reader s)
