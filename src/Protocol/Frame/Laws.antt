-- ===== src/Protocol/Frame/Laws.antt =====
-- One frame on the wire: what `write_msg` puts there is what `read_msg` takes off.
use amber_store_iroh.Prelude.{
  ℕ, ◌+◌, ◌^◌, ◌≤◌, ◌<◌, ◌≡◌, refl, ◌∙◌, ◌++◌, length, none, some, take, drop, take-length-append,
  drop-length-append, length-append, length-drop, arith, append_assoc,
}
use amber_store_iroh.Protocol.Error.{Bytes, Result, ok, err, frame_too_big}
use amber_store_iroh.Protocol.Msg.{Msg, max_frame}
use amber_store_iroh.Protocol.Stream.{Stream, read_full, write}
use amber_store_iroh.Protocol.Frame.{
  Codec, put_uint32, uint32, frame, write_msg, read_msg, write_frame,
}

pub uint32-put_uint32 : (n : ℕ) → n < 2 ^ 32 → uint32 (put_uint32 n) ≡ n
unfolding uint32 put_uint32
uint32-put_uint32 n h = omega arith

pub length-put_uint32 : (n : ℕ) → length (put_uint32 n) ≡ 4
unfolding put_uint32
length-put_uint32 n = refl

-- A read of as many bytes as the first part has returns that part.
pub read_full-append :
    (p rest : Bytes) (s : Stream)
    → s.input ≡ p ++ rest
    → read_full (length p) s ≡ (ok p, record s { input = rest })
unfolding read_full
read_full-append p rest s h =
    rw h
      (ground (arith, take-length-append p rest, drop-length-append p rest, length-append p rest))

-- A successful `write_msg` appends exactly one frame, of a payload within the limit.
write_frame_sound :
    (r : Result Bytes) (s s' : Stream)
    → write_frame r s ≡ (none, s')
    → (p : Bytes) × (r ≡ ok p)
      × (length p ≤ max_frame)
      × (s'.output ≡ s.output ++ frame p)
      × (s'.input ≡ s.input)
unfolding write
write_frame_sound (err e) s s' h = absurd (cc)
write_frame_sound (ok p) s s' h = (
  p,
  refl,
  ground arith,
  ground (arith, append_assoc s.output (put_uint32 (length p)) p),
  ground arith,
)

-- A successful `write_msg` appends exactly one frame, whose payload is what the codec made of the
-- message and is within the limit, and leaves the input alone.
pub write_msg_sound :
    (codec : Codec) (m : Msg) (s s' : Stream)
    → write_msg codec m s ≡ (none, s')
    → (p : Bytes) × (codec.marshal m ≡ ok p)
      × (length p ≤ max_frame)
      × (s'.output ≡ s.output ++ frame p)
      × (s'.input ≡ s.input)
unfolding write_msg
write_msg_sound codec m s s' h = write_frame_sound (codec.marshal m) s s' h

-- A frame over the limit is refused before anything is written.
pub write_msg_too_big :
    (codec : Codec) (m : Msg) (s : Stream) (p : Bytes)
    → codec.marshal m ≡ ok p
    → max_frame < length p
    → write_msg codec m s ≡ (some (frame_too_big (length p)), s)
unfolding write_msg
write_msg_too_big codec m s p h big = rw h (ground arith)

-- If the codec reads a payload as a message, and the payload is within the limit, then a stream that begins with its frame is
-- read as that message, and what stands behind the frame is left for the next read.
pub read_msg-frame :
    (codec : Codec) (m : Msg) (p rest : Bytes) (s : Stream)
    → codec.unmarshal p ≡ ok m
    → length p ≤ max_frame
    → s.input ≡ frame p ++ rest
    → read_msg codec s ≡ (ok m, record s { input = rest })
unfolding read_msg
read_msg-frame codec m p rest s h fits e =
    let header =
      read_full-append (put_uint32 (length p)) (p ++ rest) s
        (e ∙ append_assoc (put_uint32 (length p)) p rest) in
    let body = read_full-append p rest (record s { input = p ++ rest }) refl in
    ground (arith, header, body, h, length-put_uint32 (length p), uint32-put_uint32 (length p))

-- A header that announces more than the limit ends the read: nothing behind it is read.
pub read_msg_too_big :
    (codec : Codec) (n : ℕ) (rest : Bytes) (s : Stream)
    → max_frame < n
    → n < 2 ^ 32
    → s.input ≡ put_uint32 n ++ rest
    → read_msg codec s ≡ (err (frame_too_big n), record s { input = rest })
unfolding read_msg
read_msg_too_big codec n rest s big small e =
    let header = read_full-append (put_uint32 n) rest s e in
    ground (arith, header, length-put_uint32 n, uint32-put_uint32 n)

-- Each frame that is read takes at least its header off the input.
pub read_msg_consumes :
    (codec : Codec) (m : Msg) (s s' : Stream)
    → read_msg codec s ≡ (ok m, s')
    → length s'.input + 4 ≤ length s.input
unfolding read_msg read_full
read_msg_consumes codec m s s' h =
    ground (arith, length-drop 4 s.input, length-drop (uint32 (take 4 s.input)) (drop 4 s.input))

-- A read never adds to the input.
pub read_msg-le : (codec : Codec) (s : Stream) → length (read_msg codec s).1.input ≤ length s.input
unfolding read_msg read_full
read_msg-le codec s =
    ground (arith, length-drop 4 s.input, length-drop (uint32 (take 4 s.input)) (drop 4 s.input))

-- A write leaves the input alone.
pub write_msg-input :
    (codec : Codec) (m : Msg) (s : Stream) → (write_msg codec m s).1.input ≡ s.input
unfolding write_msg write
write_msg-input codec m s = ground arith
