-- ===== src/Protocol/Stream.antt =====
-- An io.ReadWriter as its two directions: the bytes that the peer will have sent, the error that a
-- read returns behind them, and the bytes written so far, with the room that is left before writes
-- fail. The reads and writes are those of Go's `io` package.
use amber_store_iroh.Prelude.{
  ℕ, ◌-◌, [], ◌∷◌, ◌++◌, length, take, drop, leb, Option, none, some, if◌then◌else◌,
}
use amber_store_iroh.Protocol.Error.{Bytes, Error, eof, unexpected_eof, Result, ok, err}

pub record Stream : Type 0 where
  pub input : Bytes
  pub ending : Error
  pub output : Bytes
  pub room : ℕ
  pub failure : Error

-- What io.ReadFull returns when the input ends after some of the bytes.
abbrev pub cut_short : Error → Error
cut_short eof = unexpected_eof
cut_short e = e

-- What io.ReadFull returns when the input ends: io.EOF itself only before the first byte.
abbrev pub end_of : Bytes → Error → Error
end_of [] e = e
end_of (b ∷ bs) e = cut_short e

-- io.ReadFull(r, make([]byte, n)).
unfoldable pub read_full : ℕ → Stream → Result Bytes × Stream
read_full n s =
    if leb n (length s.input)
    then (ok (take n s.input), record s { input = drop n s.input })
    else (err (end_of s.input s.ending), record s { input = [] })

-- w.Write(p), with nil for no error. A failing write may have passed on a first part.
unfoldable pub write : Bytes → Stream → Option Error × Stream
write p s =
    if leb (length p) s.room
    then (none, record s { output = s.output ++ p; room = s.room - length p })
    else (some s.failure, record s { output = s.output ++ take s.room p; room = 0 })
