-- ===== src/Protocol/Pack/Wire.antt =====
-- A pack as it stands on the wire, and that `send_pack` puts it there.
use amber_store_iroh.Prelude.{
  suc, ◌≤◌, ◌<◌, ◌≡◌, refl, sym, ◌∙◌, ap, ◌≡⟨◌⟩◌, ◌∎, List, [], ◌∷◌, ◌++◌, append-nil, append_assoc,
  length, Option, none, All, All-append, arith, inl, inr,
}
use amber_store_iroh.Protocol.Error.{Bytes, Error, Result, ok, err, Result-cases, ◌and_then◌}
use amber_store_iroh.Protocol.Msg.{max_frame, chunk_size}
use amber_store_iroh.Protocol.Stream.{Stream}
use amber_store_iroh.Protocol.Frame.{Codec, ReadsBack, frame, write_msg}
use amber_store_iroh.Protocol.Frame.Laws.{write_msg_sound}
use amber_store_iroh.Protocol.Pack.{
  ChunkWriter, PackWriter, Records, done, fail, yield, data_msg, end_msg, write, flush, finish,
  end_pack, close_pack, send_records, send_pack,
}
use amber_store_iroh.Protocol.Pack.Chunks.{
  Sent, here, then, concat, Wrote, Sent-append, concat-append, flush_sound, write_loop_sound,
  and_then-eq_none,
}

-- The frames of a whole pack, TData frames with these payloads and TDataEnd behind them.
pub data PackWire (codec : Codec) : Bytes → List Bytes → Type 0 where
  last :
      (p : Bytes)
      → codec.unmarshal p ≡ ok end_msg
      → length p ≤ max_frame
      → PackWire codec (frame p) []
  chunk :
      (p d w : Bytes) (ds : List Bytes)
      → codec.unmarshal p ≡ ok (data_msg d)
      → length p ≤ max_frame
      → PackWire codec w ds
      → PackWire codec (frame p ++ w) (d ∷ ds)

-- The codec reads back the two kinds of frame that a pack is made of.
pub record ReadsPacks (codec : Codec) : Type 0 where
  pub chunks : (d : Bytes) → ReadsBack codec (data_msg d)
  pub ends : ReadsBack codec end_msg

-- The bytes of a pack, as the pack writer makes them: an independent description of what is sent.
module _ {R : Type 0} (pw : PackWriter R) where
  open pw use {State, start, add, close}

  abbrev pub and_bytes : Bytes → Result Bytes → Result Bytes
  and_bytes bytes (ok more) = ok (bytes ++ more)
  and_bytes bytes (err e) = err e

  unfoldable pub records_bytes : Records R → State → Result Bytes
  records_bytes done st = close st
  records_bytes (fail e) st = err e
  records_bytes (yield r rs) st = elim (add r st) [
    | err e ↦ err e
    | ok (st', bytes) ↦ and_bytes bytes (records_bytes rs st')
  ]

  unfoldable pub pack_bytes : Records R → Result Bytes
  unfolding records_bytes
  pack_bytes rs = and_bytes start.1 (records_bytes rs start.0)

-- What the frames sent and a final TDataEnd look like on the output.
Sent-PackWire :
    {codec : Codec} {s t u : Stream} {ds : List Bytes}
    → ReadsPacks codec
    → Sent codec s ds t
    → write_msg codec end_msg t ≡ (none, u)
    → (wire : Bytes) × PackWire codec wire ds × (u.output ≡ s.output ++ wire)
Sent-PackWire {codec} {s} reads here h =
    let (p, coded, fits, out, _) = write_msg_sound codec end_msg _ _ h in
    (frame p, last p (reads.ends p coded) fits, out)
Sent-PackWire {codec} {s} reads (then {t = t} {d = d} {ds = ds} h rest) h' =
    let (p, coded, fits, out, _) = write_msg_sound codec (data_msg d) s t h in
    let (wire, packed, out') = Sent-PackWire reads rest h' in
    (
      frame p ++ wire,
      chunk p d wire ds (reads.chunks d p coded) fits packed,
      (out' ∙ ap (λ o. o ++ wire) out) ∙ append_assoc s.output (frame p) wire,
    )

write_sound :
    (codec : Codec) (p : Bytes) (c c' : ChunkWriter)
    → length c.buf < chunk_size
    → write codec p c ≡ (none, c')
    → Wrote codec c c' p × (length c'.buf < chunk_size)
unfolding write
write_sound codec p c c' room h = write_loop_sound (suc (length p)) codec p c c' room h

-- A writer that is finished has sent all that it was given, in chunks, and then TDataEnd.
record Finished (codec : Codec) (c c' : ChunkWriter) (given : Bytes) : Type 0 where
  sent : List Bytes
  middle : Stream
  steps : Sent codec c.w sent middle
  ended : write_msg codec end_msg middle ≡ (none, c'.w)
  spelled : concat sent ≡ c.buf ++ given
  sized : All (λ d. (0 < length d) × (length d ≤ chunk_size)) sent

finish_sound :
    (codec : Codec) (c c' : ChunkWriter)
    → length c.buf < chunk_size
    → finish codec c ≡ (none, c')
    → Finished codec c c' []
unfolding finish
finish_sound codec c c' room h =
    let (mid, flushed, ended) = and_then-eq_none (flush codec c) (end_pack codec) h in
    let (wrote, emptied) = flush_sound codec c mid (omega arith) flushed in
    record {
      sent = wrote.sent;
      middle = mid.w;
      steps = wrote.steps;
      ended = ground arith;
      spelled =
          (sym (append-nil _) ∙ ap (λ b. concat wrote.sent ++ b) (sym emptied)) ∙ wrote.spelled;
      sized = wrote.sized;
    }

Finished-trans :
    {codec : Codec} {a b c : ChunkWriter} (p q : Bytes)
    → Wrote codec a b p
    → Finished codec b c q
    → Finished codec a c (p ++ q)
Finished-trans {a} {b} {c} p q f g = record {
  sent = f.sent ++ g.sent;
  middle = g.middle;
  steps = Sent-append f.steps g.steps;
  ended = g.ended;
  spelled =
      concat (f.sent ++ g.sent)
      ≡⟨ concat-append f.sent g.sent ⟩ concat f.sent ++ concat g.sent
      ≡⟨ ap (λ r. concat f.sent ++ r) g.spelled ⟩ concat f.sent ++ (b.buf ++ q)
      ≡⟨ sym (append_assoc (concat f.sent) b.buf q) ⟩ (concat f.sent ++ b.buf) ++ q
      ≡⟨ ap (λ r. r ++ q) f.spelled ⟩ (a.buf ++ p) ++ q
      ≡⟨ append_assoc a.buf p q ⟩ a.buf ++ (p ++ q) ∎;
  sized = All-append _ f.sent g.sent f.sized g.sized;
}

module _ {R : Type 0} (codec : Codec) (pw : PackWriter R) where
  open pw use {State, start, add, close}

  close_pack_sound :
      (trailer : Result Bytes) (c c' : ChunkWriter)
      → length c.buf < chunk_size
      → close_pack codec pw trailer c ≡ (none, c')
      → (bytes : Bytes) × (trailer ≡ ok bytes) × Finished codec c c' bytes
  close_pack_sound (err e) c c' room h = absurd (cc)
  close_pack_sound (ok trailer) c c' room h =
      let (mid, written, finished) = and_then-eq_none (write codec trailer c) (finish codec) h in
      let (wrote, room') = write_sound codec trailer c mid room written in
      (
        trailer,
        refl,
        rw (← append-nil trailer)
            (Finished-trans trailer [] wrote (finish_sound codec mid c' room' finished)),
      )

  send_records_sound :
      (rs : Records R) (st : State) (c c' : ChunkWriter)
      → length c.buf < chunk_size
      → send_records codec pw rs st c ≡ (none, c')
      → (bytes : Bytes) × (records_bytes pw rs st ≡ ok bytes) × Finished codec c c' bytes
  unfolding send_records records_bytes
  send_records_sound done st c c' room h = close_pack_sound (close st) c c' room h
  send_records_sound (fail e) st c c' room h = absurd (cc)
  send_records_sound (yield r rs) st c c' room h = elim (Result-cases (add r st)) [
    | inl (e, failed) ↦ absurd (ground arith)
    | inr ((st', bytes), added) ↦
        let h' : (write codec bytes c and_then send_records codec pw rs st') ≡ (none, c') =
          ground arith in
        let (mid, written, rest) =
          and_then-eq_none (write codec bytes c) (send_records codec pw rs st') h' in
        let (wrote, room') = write_sound codec bytes c mid room written in
        let (more, spec, finished) = send_records_sound rs st' mid c' room' rest in
        (bytes ++ more, ground arith, Finished-trans {b = mid} bytes more wrote finished)
  ]

  -- A pack that was sent without an error stands on the output, whole, as TData frames of at most a
  -- chunk each with TDataEnd behind them, and they carry the bytes of the pack and nothing else.
  pub send_pack_sound :
      (rs : Records R) (s s' : Stream)
      → ReadsPacks codec
      → send_pack codec pw rs s ≡ (none, s')
      → (bytes : Bytes) × (wire : Bytes) × (sent : List Bytes) × (pack_bytes pw rs ≡ ok bytes)
        × PackWire codec wire sent
        × (concat sent ≡ bytes)
        × All (λ d. (0 < length d) × (length d ≤ chunk_size)) sent
        × (s'.output ≡ s.output ++ wire)
  unfolding send_pack pack_bytes
  send_pack_sound rs s s' reads h =
      let c : ChunkWriter = record { w = s; buf = [] } in
      let run : Option Error × ChunkWriter =
        (write codec start.1 c and_then send_records codec pw rs start.0) in
      let h' : run ≡ (none, run.1) = ground arith in
      let (mid, written, rest) =
        and_then-eq_none (write codec start.1 c) (send_records codec pw rs start.0) h' in
      let (wrote, room) = write_sound codec start.1 c mid (omega arith) written in
      let (bytes, spec, finished) = send_records_sound rs start.0 mid run.1 room rest in
      let f = Finished-trans start.1 bytes wrote finished in
      let (wire, packed, out) = Sent-PackWire reads f.steps f.ended in
      (start.1 ++ bytes, wire, f.sent, rw spec, packed, f.spelled, f.sized, ground arith)
