-- ===== src/Protocol/Frame.antt =====
-- protocol/protocol.go: `WriteMsg` and `ReadMsg`. The CBOR library is the parameter `Codec`.
pub mod Cut
pub mod Laws
use amber_store_iroh.Prelude.{
  ℕ, ◌+◌, ◌*◌, ◌/◌, ◌%◌, ◌^◌, ◌≡◌, List, [], ◌∷◌, ◌++◌, length, ltb, Option, none, some,
  if◌then◌else◌,
}
use amber_store_iroh.Protocol.Error.{
  Bytes, Error, Result, ok, err, unexpected_eof, wrapped, frame_too_big, is_unexpected_eof,
  ◌and_then◌,
}
use amber_store_iroh.Protocol.Msg.{Msg, max_frame}
use amber_store_iroh.Protocol.Stream.{Stream, read_full, write}

-- encMode.Marshal and decMode.Unmarshal of fxamacker/cbor.
pub record Codec : Type 0 where
  pub marshal : Msg → Result Bytes
  pub unmarshal : Bytes → Result Msg

-- The codec reads back what it wrote for `m`.
abbrev pub ReadsBack : Codec → Msg → Type 0
ReadsBack codec m = (p : Bytes) → codec.marshal m ≡ ok p → codec.unmarshal p ≡ ok m

-- binary.BigEndian.PutUint32.
unfoldable pub put_uint32 : ℕ → Bytes
put_uint32 n = n / 2 ^ 24 % 256 ∷ n / 2 ^ 16 % 256 ∷ n / 2 ^ 8 % 256 ∷ n % 256 ∷ []

-- binary.BigEndian.Uint32, which is given four bytes.
unfoldable pub uint32 : Bytes → ℕ
uint32 (a ∷ b ∷ c ∷ d ∷ rest) = ((a * 256 + b) * 256 + c) * 256 + d
uint32 _ = 0

-- The bytes of one frame.
abbrev pub frame : Bytes → Bytes
frame payload = put_uint32 (length payload) ++ payload

abbrev write_frame : Result Bytes → Stream → Option Error × Stream
write_frame (err e) s = (some (wrapped "protocol: encode frame: " e), s)
write_frame (ok payload) s =
    if ltb max_frame (length payload)
    then (some (frame_too_big (length payload)), s)
    else write (put_uint32 (length payload)) s and_then write payload

unfoldable pub write_msg : Codec → Msg → Stream → Option Error × Stream
write_msg codec m s = write_frame (codec.marshal m) s

abbrev decode_frame : Result Msg → Result Msg
decode_frame (ok m) = ok m
decode_frame (err e) = err (wrapped "protocol: decode frame: " e)

abbrev read_payload : Codec → Result Bytes × Stream → Result Msg × Stream
read_payload codec (err e, s) = (err (wrapped "protocol: short frame: " e), s)
read_payload codec (ok payload, s) = (decode_frame (codec.unmarshal payload), s)

-- The error of a header: a cut is the bare io.ErrUnexpectedEOF, any other error is passed on as it is.
abbrev header_error : Error → Error
header_error e = if is_unexpected_eof e then unexpected_eof else e

abbrev after_header : Codec → Result Bytes × Stream → Result Msg × Stream
after_header codec (err e, s) = (err (header_error e), s)
after_header codec (ok header, s) =
    let n = uint32 header in
    if ltb max_frame n then (err (frame_too_big n), s) else read_payload codec (read_full n s)

unfoldable pub read_msg : Codec → Stream → Result Msg × Stream
unfolding is_unexpected_eof
read_msg codec s = after_header codec (read_full 4 s)
