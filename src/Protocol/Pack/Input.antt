-- ===== src/Protocol/Pack/Input.antt =====
-- Sending a pack reads nothing: the input of the stream stays as it is, on every branch.
use amber_store_iroh.Prelude.{
  ℕ, zero, suc, ◌-◌, ◌≡◌, refl, ◌∙◌, List-cases, inl, inr, [], ◌∷◌, ◌++◌, length, take, drop, min,
  Option, none, some, arith,
}
use amber_store_iroh.Protocol.Error.{Bytes, Error, Result, ok, err, Result-cases, ◌and_then◌}
use amber_store_iroh.Protocol.Msg.{chunk_size}
use amber_store_iroh.Protocol.Stream.{Stream}
use amber_store_iroh.Protocol.Frame.{Codec}
use amber_store_iroh.Protocol.Frame.Laws.{write_msg-input}
use amber_store_iroh.Protocol.Pack.{
  ChunkWriter, PackWriter, Records, done, fail, yield, data_msg, end_msg, flush, fill, write_loop,
  write, finish, end_pack, close_pack, send_records, send_pack,
}

-- A step that leaves a part of the state alone, and a rest that does so too.
and_then-keeps {ℓ κ} :
    {S : Type ℓ} {A : Type κ} (f : S → A) (x : Option Error × S) (rest : S → Option Error × S)
    (a : A)
    → f x.1 ≡ a
    → ((s : S) → f (rest s).1 ≡ f s)
    → f (x and_then rest).1 ≡ a
and_then-keeps f (none, s) rest a h k = k s ∙ h
and_then-keeps f (some e, s) rest a h k = h

abbrev input_of : ChunkWriter → Bytes
input_of c = c.w.input

flush-input : (codec : Codec) (c : ChunkWriter) → input_of (flush codec c).1 ≡ input_of c
unfolding flush
flush-input codec c = elim (List-cases c.buf) [
  | inl empty ↦ ground arith
  | inr (b, bs, full) ↦ ground (arith, write_msg-input codec (data_msg (b ∷ bs)) c.w)
]

fill-input : (codec : Codec) (c : ChunkWriter) → input_of (fill codec c).1 ≡ input_of c
fill-input codec c = ground (arith, flush-input codec c)

write_loop-input :
    (fuel : ℕ) (codec : Codec) (p : Bytes) (c : ChunkWriter)
    → input_of (write_loop fuel codec p c).1 ≡ input_of c
unfolding write_loop
write_loop-input zero codec p c = refl
write_loop-input (suc fuel) codec [] c = refl
write_loop-input (suc fuel) codec (b ∷ bs) c =
    let n = min (chunk_size - length c.buf) (length (b ∷ bs)) in
    let filled : ChunkWriter = record c { buf = c.buf ++ take n (b ∷ bs) } in
    and_then-keeps input_of (fill codec filled) (write_loop fuel codec (drop n (b ∷ bs)))
      (input_of c) (fill-input codec filled) (write_loop-input fuel codec (drop n (b ∷ bs)))

write-input :
    (codec : Codec) (p : Bytes) (c : ChunkWriter) → input_of (write codec p c).1 ≡ input_of c
unfolding write
write-input codec p c = write_loop-input (suc (length p)) codec p c

finish-input : (codec : Codec) (c : ChunkWriter) → input_of (finish codec c).1 ≡ input_of c
unfolding finish
finish-input codec c =
    and_then-keeps input_of (flush codec c) (end_pack codec) (input_of c) (flush-input codec c)
      (λ d. write_msg-input codec end_msg d.w)

module _ {R : Type 0} (codec : Codec) (pw : PackWriter R) where
  open pw use {State, start, add, close}

  close_pack-input :
      (trailer : Result Bytes) (c : ChunkWriter)
      → input_of (close_pack codec pw trailer c).1 ≡ input_of c
  close_pack-input (err e) c = refl
  close_pack-input (ok trailer) c =
      and_then-keeps input_of (write codec trailer c) (finish codec) (input_of c)
        (write-input codec trailer c) (finish-input codec)

  send_records-input :
      (rs : Records R) (st : State) (c : ChunkWriter)
      → input_of (send_records codec pw rs st c).1 ≡ input_of c
  unfolding send_records
  send_records-input done st c = close_pack-input (close st) c
  send_records-input (fail e) st c = refl
  send_records-input (yield r rs) st c = elim (Result-cases (add r st)) [
    | inl (e, failed) ↦ ground arith
    | inr ((st', bytes), added) ↦
        let kept =
          and_then-keeps input_of (write codec bytes c) (send_records codec pw rs st') (input_of c)
            (write-input codec bytes c) (send_records-input rs st') in
        ground (arith, kept)
  ]

  pub send_pack-input : (rs : Records R) (s : Stream) → (send_pack codec pw rs s).1.input ≡ s.input
  unfolding send_pack
  send_pack-input rs s =
      and_then-keeps input_of (write codec start.1 (record { w = s; buf = [] }))
        (send_records codec pw rs start.0) s.input
        (write-input codec start.1 (record { w = s; buf = [] })) (send_records-input rs start.0)
