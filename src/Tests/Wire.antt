-- ===== src/Tests/Wire.antt =====
-- Witness of the theorem about a list of references that crosses the wire.
use amber_store_iroh.Prelude.{
  ◌≡◌, refl, List, [], ◌∷◌, zero, suc, ℕ, Bool, true, false, str_eq, eq_iff, if◌then◌else◌, arith,
}
use amber_store_iroh.Prelude.Int.{pos, ◌==ℤ◌}
use amber_store_iroh.Protocol.Error.{Bytes, Result, ok, err, library}
use amber_store_iroh.Protocol.Msg.{Msg, RefInfo, blank, t_ref_list, t_refs}
use amber_store_iroh.Protocol.Stream.{Stream, write, read_full}
use amber_store_iroh.Protocol.Frame.{Codec, ReadsBack, put_uint32, uint32, write_msg, read_msg}
use amber_store_iroh.Wantsync.Library.{Library}
use amber_store_iroh.Server.World.{RefRecord, World, Session}
use amber_store_iroh.Server.Refs.{ref_infos, handle_ref_list}
use amber_store_iroh.Server.Refs.Pins.{Lists}
use amber_store_iroh.Client.Spec.{Texts}
use amber_store_iroh.Client.Refs.{Clock, run_refs}
use amber_store_iroh.Client.Refs.Wire.{Shows, run_refs-handle_ref_list}
use amber_store_iroh.Tests.Toy.{toy, open_stream}
use amber_store_iroh.Tests.ToyRefs.{toy_refs, texts}

-- The request is a byte, and a list of at most one reference with the name "n" is its key behind a byte.
abbrev known : RefInfo → Bool
known r =
    if str_eq r.name "n"
    then (if str_eq r.user "" then r.created_at ==ℤ pos 0 else false)
    else false

abbrev marshal_refs : List RefInfo → Result Bytes
marshal_refs [] = ok (1 ∷ [])
marshal_refs (r ∷ []) = if known r then ok (2 ∷ r.key) else err (library 0)
marshal_refs (r ∷ r' ∷ rs) = err (library 0)

abbrev the_ref : Bytes → RefInfo
the_ref k = record { name = "n"; key = k; created_at = pos 0; user = "" }

abbrev with_refs : List RefInfo → Msg
with_refs rs = record (blank t_refs) { refs = rs }

abbrev unmarshal : Bytes → Result Msg
unmarshal (zero ∷ p) = ok (blank t_ref_list)
unmarshal (suc zero ∷ p) = ok (with_refs [])
unmarshal (suc (suc n) ∷ p) = ok (with_refs (the_ref p ∷ []))
unmarshal [] = err (library 1)

abbrev codec : Codec
codec = record {
  marshal = λ m. if m.type ==ℤ t_ref_list then ok (0 ∷ []) else marshal_refs m.refs;
  unmarshal = unmarshal;
}

abbrev lib : Library ℕ
lib = record toy { codec = codec }

abbrev wire_texts : Texts lib
wire_texts = record {
  cut = texts.cut;
  cut_prefix = texts.cut_prefix;
  split = texts.split;
  hex_decode = texts.hex_decode;
  hex_encode = texts.hex_encode;
  key_text = texts.key_text;
  lookup_entry = texts.lookup_entry;
  sprintf_two = texts.sprintf_two;
}

request-ReadsBack : ReadsBack codec (blank t_ref_list)
request-ReadsBack p h = ground arith

known_lem : (r : RefInfo) → known r ≡ true → the_ref r.key ≡ r
known_lem r h = ground (arith, eq_iff r.name "n", eq_iff r.user "")

refs-ReadsBack : (is : List RefInfo) → ReadsBack codec (with_refs is)
refs-ReadsBack [] p h = ground arith
refs-ReadsBack (r ∷ []) p h = ground (arith, known_lem r)
refs-ReadsBack (r ∷ r' ∷ rs) p h = absurd (ground arith)

abbrev world : World lib toy_refs
world = record {
  objects = [];
  refs = ("n", 0 ∷ 1 ∷ []) ∷ [];
  pending = [];
  calls = [];
  closed = [];
}

abbrev asked : Stream
asked = (write_msg codec (blank t_ref_list) (open_stream [])).1

abbrev server_end : Stream
server_end = open_stream asked.output

abbrev replied : Session lib toy_refs
replied =
    (handle_ref_list lib toy_refs
      (record { control = (read_msg codec server_end).1; world = world })).1

-- The client's stream brings what the server answers.
abbrev client_end : Stream
client_end = open_stream replied.control.output

abbrev clock : Clock
clock = record { rfc3339 = λ t. "now"; three_words = λ a b c. a }

run_refs-handle_ref_list_example :
    ((read_msg codec server_end).0 ≡ ok (blank t_ref_list))
    × ((rs : List RefRecord) × (is : List RefInfo) × (toy_refs.all world.refs ≡ ok rs)
        × Lists lib toy_refs rs is
        × Shows lib toy_refs wire_texts clock is
            (run_refs lib toy_refs wire_texts clock client_end))
unfolding handle_ref_list read_msg write_msg write put_uint32 uint32 read_full ref_infos
run_refs-handle_ref_list_example =
    run_refs-handle_ref_list lib toy_refs wire_texts clock client_end
      (write_msg codec (blank t_ref_list) client_end).1 server_end world replied request-ReadsBack
      refs-ReadsBack refl refl refl refl refl refl
