-- ===== src/Tests/Protocol.antt =====
-- Witnesses of the theorems about frames and packs.
use amber_store_iroh.Prelude.{
  ◌≡◌, ◌≤◌, ◌==◌, ◌||◌, refl, true, [], ◌∷◌, ◌++◌, length, take, Option, none, arith,
}
use amber_store_iroh.Protocol.Error.{Bytes, Error, ok, err, is_eof}
use amber_store_iroh.Protocol.Msg.{max_frame}
use amber_store_iroh.Protocol.Stream.{Stream, write}
use amber_store_iroh.Protocol.Frame.{frame, put_uint32, write_msg, read_msg}
use amber_store_iroh.Protocol.Frame.Laws.{write_msg_sound, read_msg-frame}
use amber_store_iroh.Protocol.Frame.Cut.{read_msg_cut}
use amber_store_iroh.Protocol.Pack.{
  Records, done, yield, send_pack, send_records, finish, flush, write_loop, drain, new_pack_reader,
  data_msg,
}
use amber_store_iroh.Protocol.Pack.Wire.{pack_bytes}
use amber_store_iroh.Protocol.Pack.Drain.{drain-send_pack}
use amber_store_iroh.Tests.Toy.{codec, pack_writer, codec-ReadsPacks, open_stream}

abbrev two_records : Records Bytes
two_records = yield (4 ∷ 5 ∷ []) (yield (6 ∷ []) done)

abbrev written_pack : Option Error × Stream
written_pack = send_pack codec pack_writer two_records (open_stream [])

drain-send_pack_example :
    (bytes : Bytes) × (pack_bytes pack_writer two_records ≡ ok bytes)
    × (drain codec (new_pack_reader (open_stream (written_pack.1.output ++ 9 ∷ []))) ≡ record {
      bytes = bytes;
      error = none;
      reader = record (new_pack_reader (open_stream (9 ∷ []))) { done = true };
    })
unfolding send_pack write put_uint32 write_msg amber_store_iroh.Protocol.Pack.write write_loop
    finish flush
drain-send_pack_example =
    drain-send_pack codec pack_writer two_records (open_stream []) written_pack.1
      (open_stream (written_pack.1.output ++ 9 ∷ [])) (9 ∷ []) codec-ReadsPacks refl refl refl

abbrev small : Stream
small = open_stream []

write_msg_sound_example :
    (p : Bytes) × (codec.marshal (data_msg (3 ∷ [])) ≡ ok p)
    × (length p ≤ max_frame)
    × ((write_msg codec (data_msg (3 ∷ [])) small).1.output ≡ small.output ++ frame p)
    × ((write_msg codec (data_msg (3 ∷ [])) small).1.input ≡ small.input)
unfolding write put_uint32 write_msg
write_msg_sound_example =
    write_msg_sound codec (data_msg (3 ∷ [])) small (write_msg codec (data_msg (3 ∷ [])) small).1
      refl

read_msg-frame_example :
    read_msg codec (open_stream (frame (7 ∷ 3 ∷ []) ++ 8 ∷ []))
    ≡ (ok (data_msg (3 ∷ [])), open_stream (8 ∷ []))
read_msg-frame_example =
    read_msg-frame codec (data_msg (3 ∷ [])) (7 ∷ 3 ∷ []) (8 ∷ [])
      (open_stream (frame (7 ∷ 3 ∷ []) ++ 8 ∷ [])) refl (omega arith) refl

read_msg_cut_example :
    (e : Error) × ((read_msg codec (open_stream (take 4 (frame (7 ∷ 3 ∷ []))))).0 ≡ err e)
    × (is_eof e ≡ (4 == 0 || 4 == 4))
unfolding put_uint32
read_msg_cut_example =
    read_msg_cut codec (7 ∷ 3 ∷ []) 4 (open_stream (take 4 (frame (7 ∷ 3 ∷ [])))) (omega arith)
      (omega arith) refl refl
