-- ===== src/Client/Extras.antt =====
-- cmd/amber/dial.go: `connsFlag` and `attachExtras`. What Extra and OpenStreamConn return at each attempt is a parameter.
use amber_store_iroh.Prelude.{ℕ, zero, suc, List, [], ◌∷◌, Option, none, some, if◌then◌else◌}
use amber_store_iroh.Prelude.Int.{ℤ, pos, leb_ℤ, pos_part}
use amber_store_iroh.Protocol.Error.{Bytes, Error, Result, ok, err}
use amber_store_iroh.Protocol.Msg.{Msg, blank, t_attach}
use amber_store_iroh.Protocol.Stream.{Stream}
use amber_store_iroh.Protocol.Frame.{Codec, write_msg}

unfoldable pub conns_flag : ℤ → ℕ
conns_flag n = if leb_ℤ n (pos 0) then 1 else if leb_ℤ n (pos 16) then pos_part n else 16

abbrev pub attach_msg : Bytes → Msg
attach_msg token = record (blank t_attach) { token = token }

abbrev pub keep_stream : Option Error × Stream → List Stream → List Stream
keep_stream (some e, s) rest = []
keep_stream (none, s) rest = s ∷ rest

-- The streams that have attached: the first attempt that fails is the last one.
unfoldable pub attach_extras : Codec → Bytes → ℕ → List (Result Stream) → List Stream
attach_extras codec token zero attempts = []
attach_extras codec token (suc n) [] = []
attach_extras codec token (suc n) (err e ∷ attempts) = []
attach_extras codec token (suc n) (ok s ∷ attempts) =
    keep_stream (write_msg codec (attach_msg token) s) (attach_extras codec token n attempts)
