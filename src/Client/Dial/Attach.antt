-- ===== src/Client/Dial/Attach.antt =====
-- cmd/amber/dial.go: `attachExtras` over the connections that `Extra` opens, with the closer that it returns.
use amber_store_iroh.Prelude.{ℕ, zero, suc, ◌+◌, List, [], ◌∷◌, ◌++◌, Option, none, some}
use amber_store_iroh.Protocol.Error.{Bytes, Error, Result, ok, err}
use amber_store_iroh.Protocol.Stream.{Stream}
use amber_store_iroh.Protocol.Frame.{Codec, write_msg}
use amber_store_iroh.Client.Extras.{attach_msg}
use amber_store_iroh.Client.Dial.{closed, Iroh, Log, ServerConn, extra}

-- conn.OpenStreamConn.
abbrev pub OpenStream : Iroh → Type 0
OpenStream iroh = Log iroh → iroh.Conn → Result Stream

module _ (iroh : Iroh) (codec : Codec) (open_stream : OpenStream iroh) (token : Bytes)
    (ports : List ℕ) where
  -- The streams that are attached, each with its connection, and what is left.
  abbrev pub Attached : Type 0
  Attached = List (Stream × iroh.Conn) × (ServerConn iroh × Log iroh)

  abbrev pub with_stream : Stream → iroh.Conn → Attached → Attached
  with_stream s conn (streams, rest) = ((s, conn) ∷ streams, rest)

  -- A stream that cannot be opened or written to takes its connection with it, and ends the loop.
  abbrev pub give_up : iroh.Conn → ServerConn iroh × Log iroh → Attached
  give_up conn (s, log) = ([], (s, log ++ closed conn ∷ []))

  abbrev pub Rest : Type 0
  Rest = ServerConn iroh → Log iroh → Attached

  abbrev pub on_written :
      iroh.Conn → ServerConn iroh × Log iroh → Rest → Option Error × Stream → Attached
  on_written conn left rest (some e, stream) = give_up conn left
  on_written conn (s, log) rest (none, stream) = with_stream stream conn (rest s log)

  abbrev pub on_opened : iroh.Conn → ServerConn iroh × Log iroh → Rest → Result Stream → Attached
  on_opened conn left rest (err e) = give_up conn left
  on_opened conn left rest (ok stream) =
      on_written conn left rest (write_msg codec (attach_msg token) stream)

  abbrev pub on_extra : Rest → Result iroh.Conn × (ServerConn iroh × Log iroh) → Attached
  on_extra rest (err e, left) = ([], left)
  on_extra rest (ok conn, (s, log)) = on_opened conn (s, log) rest (open_stream log conn)

  -- The loop, from the i-th connection on.
  unfoldable pub attach_loop : ℕ → ℕ → ServerConn iroh → Log iroh → Attached
  attach_loop zero i s log = ([], (s, log))
  attach_loop (suc n) i s log = on_extra (attach_loop n (i + 1)) (extra iroh i ports s log)

-- The closer that attachExtras returns.
unfoldable pub close_attached : (iroh : Iroh) → List (Stream × iroh.Conn) → Log iroh
close_attached iroh [] = []
close_attached iroh ((s, conn) ∷ streams) = closed conn ∷ close_attached iroh streams
