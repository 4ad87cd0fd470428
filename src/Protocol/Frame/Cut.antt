-- ===== src/Protocol/Frame/Cut.antt =====
-- A stream that ends inside a frame.
use amber_store_iroh.Prelude.{
  if◌then◌else◌, ℕ, ◌-◌, ◌≤◌, ◌<◌, ◌≡◌, refl, ◌||◌, ◌==◌, List, [], ◌∷◌, ◌++◌, length, take, arith,
  length-take, length-append, Bool-cases, inl, inr, zero, suc, ap, ◌∙◌, ltb,
}
use amber_store_iroh.Protocol.Error.{
  Bytes, Error, err, eof, wrapped, is_eof, unexpected_eof, is_unexpected_eof,
}
use amber_store_iroh.Protocol.Msg.{max_frame}
use amber_store_iroh.Protocol.Stream.{Stream, read_full, end_of}
use amber_store_iroh.Protocol.Frame.{Codec, put_uint32, frame, read_msg}
use amber_store_iroh.Protocol.Frame.Laws.{length-put_uint32, uint32-put_uint32, read_full-append}

take_append {ℓ} :
    {A : Type ℓ} (xs ys : List A) (n : ℕ)
    → length xs ≤ n
    → take n (xs ++ ys) ≡ xs ++ take (n - length xs) ys
take_append [] ys n h = let e : n - 0 ≡ n = omega arith in rw e
take_append (x ∷ xs) ys zero h = absurd (omega arith)
take_append (x ∷ xs) ys (suc n) h =
    let e : suc n - suc (length xs) ≡ n - length xs = omega arith in
    rw e (ap (λ r. x ∷ r) (take_append xs ys n (omega arith)))

-- Does the error of a read that ends early stand for a clean end?
is_eof-end_of : (bs : Bytes) → is_eof (end_of bs eof) ≡ (length bs == 0)
unfolding is_eof
is_eof-end_of [] = refl
is_eof-end_of (b ∷ bs) = ground arith

-- An end inside the header is the bare io.ErrUnexpectedEOF, and no other error is changed.
header_error-end_of :
    (bs : Bytes)
    → (if is_unexpected_eof (end_of bs eof) then unexpected_eof else end_of bs eof) ≡ end_of bs eof
unfolding is_unexpected_eof
header_error-end_of [] = refl
header_error-end_of (b ∷ bs) = ground arith

read_full_short :
    (n : ℕ) (s : Stream)
    → length s.input < n
    → read_full n s ≡ (err (end_of s.input s.ending), record s { input = [] })
unfolding read_full
read_full_short n s h = ground arith

-- A frame cut off after `k` of its bytes is never read as a message, and its error is io.EOF, by
-- `errors.Is`, exactly where the stream ends before the frame or right behind its header.
pub read_msg_cut :
    (codec : Codec) (p : Bytes) (k : ℕ) (s : Stream)
    → length p ≤ max_frame
    → k < length (frame p)
    → s.input ≡ take k (frame p)
    → s.ending ≡ eof
    → (e : Error) × ((read_msg codec s).0 ≡ err e) × (is_eof e ≡ (k == 0 || k == 4))
unfolding read_msg is_eof
read_msg_cut codec p k s fits short e ends = elim (Bool-cases (ltb k 4)) [
  | inl h ↦
      let cut : length s.input ≡ k = omega (
        arith,
        ap (length {A = ℕ}) e,
        length-take k (frame p),
        length-append (put_uint32 (length p)) p,
        length-put_uint32 (length p),
      ) in
      (
        end_of s.input eof,
        ground (arith, read_full_short 4 s, header_error-end_of s.input),
        ground (arith, is_eof-end_of s.input),
      )
  | inr h ↦
      let header =
        read_full-append (put_uint32 (length p)) (take (k - length (put_uint32 (length p))) p) s (
          e
          ∙ take_append (put_uint32 (length p)) p k
              (ground (arith, length-put_uint32 (length p)))) in
      let body : Bytes = take (k - length (put_uint32 (length p))) p in
      let cut : length body ≡ k - 4 = omega (
        arith,
        length-take (k - length (put_uint32 (length p))) p,
        length-append (put_uint32 (length p)) p,
        length-put_uint32 (length p),
      ) in
      let short_body : length body < length p =
        ground
          (arith, cut, length-append (put_uint32 (length p)) p, length-put_uint32 (length p)) in
      (
        wrapped "protocol: short frame: " (end_of body eof),
        ground (
          arith,
          header,
          length-put_uint32 (length p),
          uint32-put_uint32 (length p),
          read_full_short (length p) (record s { input = body }),
        ),
        ground (arith, is_eof-end_of body, cut),
      )
]
