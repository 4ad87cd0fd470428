-- ===== src/Protocol/Pack.antt =====
-- protocol/pack.go: a pack's bytes in TData frames, with TDataEnd behind them.
pub mod Chunks
pub mod Wire
pub mod Drain
pub mod Input
pub mod Consumes
use amber_store_iroh.Prelude.{
  ℕ, zero, suc, ◌+◌, ◌-◌, ◌==◌, min, Bool, true, false, List, [], ◌∷◌, ◌++◌, length, take, drop,
  Option, none, some, if◌then◌else◌,
}
use amber_store_iroh.Prelude.Int.{◌==ℤ◌}
use amber_store_iroh.Protocol.Error.{
  Bytes, Error, Result, ok, err, eof, remote, wrapped, unexpected_frame, ◌and_then◌,
}
use amber_store_iroh.Protocol.Msg.{
  Msg, blank, t_data, t_data_end, t_err, chunk_size, remote_from_msg,
}
use amber_store_iroh.Protocol.Stream.{Stream}
use amber_store_iroh.Protocol.Frame.{Codec, write_msg, read_msg}

-- Msg{Type: TData, Data: bytes} and Msg{Type: TDataEnd}.
abbrev pub data_msg : Bytes → Msg
data_msg bytes = record (blank t_data) { payload = bytes }

abbrev pub end_msg : Msg
end_msg = blank t_data_end

pub record ChunkWriter : Type 0 where
  pub w : Stream
  pub buf : Bytes

unfoldable pub flush : Codec → ChunkWriter → Option Error × ChunkWriter
flush codec c = elim c.buf [
  | [] ↦ (none, c)
  | b ∷ bs ↦
      let (e, w') = write_msg codec (data_msg (b ∷ bs)) c.w in (e, record { w = w'; buf = [] })
]

-- The rest of a round of the loop, with the buffer as it was filled: a full one is flushed.
abbrev pub fill : Codec → ChunkWriter → Option Error × ChunkWriter
fill codec c = if length c.buf == chunk_size then flush codec c else (none, c)

-- The loop of `Write`, on fuel.
unfoldable pub write_loop : ℕ → Codec → Bytes → ChunkWriter → Option Error × ChunkWriter
write_loop zero codec p c = (some (Error.message "out of fuel"), c)
write_loop (suc fuel) codec [] c = (none, c)
write_loop (suc fuel) codec (b ∷ bs) c =
    let p = b ∷ bs in
    let n = min (chunk_size - length c.buf) (length p) in
    fill codec (record c { buf = c.buf ++ take n p }) and_then write_loop fuel codec (drop n p)

unfoldable pub write : Codec → Bytes → ChunkWriter → Option Error × ChunkWriter
write codec p c = write_loop (suc (length p)) codec p c

-- Sends TDataEnd behind what was flushed.
abbrev pub end_pack : Codec → ChunkWriter → Option Error × ChunkWriter
end_pack codec c = let (e, w') = write_msg codec end_msg c.w in (e, record c { w = w' })

unfoldable pub finish : Codec → ChunkWriter → Option Error × ChunkWriter
finish codec c = flush codec c and_then end_pack codec

-- amberpack's Writer: NewWriter, AddRecord (or Add) and Close, by the bytes that each gives to its
-- io.Writer, or the error that it returns by itself. An error of that io.Writer is passed on.
pub record PackWriter (R : Type 0) : Type 1 where
  pub State : Type 0
  pub start : State × Bytes
  pub add : R → State → Result (State × Bytes)
  pub close : State → Result Bytes

-- What the iterator yields, in order: records, and an error where it breaks off.
pub data Records (R : Type 0) : Type 0 where
  done : Records R
  fail : Error → Records R
  yield : R → Records R → Records R

module _ {R : Type 0} (codec : Codec) (pw : PackWriter R) where
  open pw use {State, start, add, close}

  abbrev pub close_pack : Result Bytes → ChunkWriter → Option Error × ChunkWriter
  close_pack (err e) c = (some e, c)
  close_pack (ok trailer) c = write codec trailer c and_then finish codec

  unfoldable pub send_records : Records R → State → ChunkWriter → Option Error × ChunkWriter
  send_records done st c = close_pack (close st) c
  send_records (fail e) st c = (some e, c)
  send_records (yield r rs) st c = elim (add r st) [
    | err e ↦ (some e, c)
    | ok (st', bytes) ↦ write codec bytes c and_then send_records rs st'
  ]

  -- SendPack and SendPackRecords.
  unfoldable pub send_pack : Records R → Stream → Option Error × Stream
  unfolding send_records
  send_pack rs s =
      let (e, c) =
        write codec start.1 (record { w = s; buf = [] }) and_then send_records rs start.0 in
      (e, c.w)

pub record PackReader : Type 0 where
  pub r : Stream
  pub cur : Bytes
  pub done : Bool
  pub error : Option Error

-- One frame of the loop of `Read`, by its type.
abbrev pub on_frame : Result Msg × Stream → PackReader → PackReader
on_frame (err e, s) p = record p { r = s; error = some e }
on_frame (ok m, s) p =
    if m.type ==ℤ t_data
    then record p { r = s; cur = m.payload }
    else if m.type ==ℤ t_data_end
    then record p { r = s; done = true }
    else if m.type ==ℤ t_err
    then record p { r = s; error = some (remote (remote_from_msg m)) }
    else record p { r = s; error = some (unexpected_frame m.type) }

-- Does the loop of `Read` end here?
abbrev pub has_stopped : PackReader → Bool
has_stopped p = elim p.cur [ b ∷ bs ↦ true | [] ↦ elim p.error [ some e ↦ true | none ↦ p.done ] ]

-- The loop of `Read`, on fuel: every round reads one frame.
unfoldable pub next : ℕ → Codec → PackReader → PackReader
next zero codec p = p
next (suc fuel) codec p = elim (has_stopped p) [
  | true ↦ p
  | false ↦ next fuel codec (on_frame (read_msg codec p.r) p)
]

-- What `Read` returns once the loop has ended, into a buffer of `n` bytes.
abbrev pub hand_out : ℕ → PackReader → Result Bytes × PackReader
hand_out n p = elim p.cur [
  | b ∷ bs ↦ (ok (take n p.cur), record p { cur = drop n p.cur })
  | [] ↦ elim p.error [ some e ↦ (err e, p) | none ↦ (err eof, p) ]
]

-- packReader.Read.
unfoldable pub read : Codec → ℕ → PackReader → Result Bytes × PackReader
unfolding next
read codec n p = hand_out n (next (suc (length p.r.input)) codec p)

abbrev pub new_pack_reader : Stream → PackReader
new_pack_reader s = record { r = s; cur = []; done = false; error = none }

pub record Drained : Type 0 where
  pub bytes : Bytes
  pub error : Option Error
  pub reader : PackReader

-- A read that failed ends the drain; io.EOF is no error there.
abbrev pub end_drain : Error → PackReader → Drained
end_drain eof p = record { bytes = []; error = none; reader = p }
end_drain e p = record { bytes = []; error = some e; reader = p }

-- A `Read` with a buffer that takes all that a frame brought, and then the rest of the reads.
abbrev pub drain_from : (PackReader → Drained) → PackReader → Drained
drain_from continue q =
    let (r, q') = hand_out (length q.cur) q in
    elim r [
      | err e ↦ end_drain e q'
      | ok bytes ↦ let rest = continue q' in record rest { bytes = bytes ++ rest.bytes }
    ]

-- Reading to the end, as amberpack's decoder and io.Copy do, on fuel.
unfoldable pub drain_loop : ℕ → Codec → PackReader → Drained
drain_loop zero codec p = record {
  bytes = [];
  error = some (Error.message "out of fuel");
  reader = p;
}
drain_loop (suc fuel) codec p =
    drain_from (drain_loop fuel codec) (next (suc (length p.r.input)) codec p)

unfoldable pub drain : Codec → PackReader → Drained
unfolding drain_loop next
drain codec p = drain_loop (suc (suc (length p.r.input))) codec p
