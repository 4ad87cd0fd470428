-- ===== src/Tests/Client.antt =====
-- Witnesses of the theorems about the client and about the addresses of the server.
use amber_store_iroh.Prelude.{
  Member, ◌↔◌, ℕ, nat_eq, ◌==◌, ◌≡◌, refl, String, true, false, List, [], ◌∷◌, ◌++◌, Option, none,
  some, ◌⊎◌,
}
use amber_store_iroh.Prelude.Int.{pos}
use amber_store_iroh.Protocol.Error.{Bytes, Error, ok, err, join, library, is_not_found}
use amber_store_iroh.Protocol.Stream.{Stream, read_full, write}
use amber_store_iroh.Protocol.Frame.{frame, put_uint32, uint32, write_msg, read_msg}
use amber_store_iroh.Protocol.Pack.{drain}
use amber_store_iroh.Wantsync.Keys.{split_wants, encode_keys, check_delivered}
use amber_store_iroh.Wantsync.Wants.{wants, is_wanted}
use amber_store_iroh.Wantsync.Deal.{deal_wants}
use amber_store_iroh.Wantsync.Send.{send}
use amber_store_iroh.Wantsync.Receive.{receive, ask, decode_all, end_all}
use amber_store_iroh.Client.Spec.{tracking_ref, resolve_spec}
use amber_store_iroh.Client.Push.{Request, Ended, run_senders, record_push, expected, run_push}
use amber_store_iroh.Client.Pull.{Pulled, record_pull, run_pull}
use amber_store_iroh.Client.Laws.{HasPulled, pull-HasPulled}
use amber_store_iroh.Client.Tracks.{Tracks, push-Tracks}
use amber_store_iroh.Serve.Addrs.{NetLibrary, IfaceAddrs, with_port, advertised_addr_ports}
use amber_store_iroh.Serve.Addrs.Laws.{Distinct, OnInterface, Usable, advertised_addr_ports_lem}
use amber_store_iroh.Tests.Toy.{
  toy, toy-StoreLaws, in_turn, in_turn-MergesOnly, open_stream, packs_of_tree,
}
use amber_store_iroh.Tests.ToyRefs.{toy_refs, toy-RefLaws, texts}

abbrev request : Request
request = record { server = "s"; name = "n"; force = false; conns = 1; now = pos 0; attempts = [] }

-- A server that answers with a reference to key 1 and then sends its tree.
abbrev answering : Stream
answering = open_stream (frame (4 ∷ 0 ∷ 1 ∷ []) ++ packs_of_tree)

abbrev pulled : Option (Pulled toy toy_refs) → Pulled toy toy_refs
pulled none = record { error = none; objects = []; refs = [] }
pulled (some p) = p

pull-HasPulled_example :
    HasPulled toy toy_refs toy-StoreLaws toy-RefLaws in_turn in_turn-MergesOnly request
      (pulled (run_pull toy toy_refs in_turn request [] [] answering))
unfolding run_pull receive read_full write put_uint32 uint32 write_msg read_msg drain wants
    is_wanted split_wants deal_wants ask encode_keys decode_all join check_delivered end_all
    record_pull
pull-HasPulled_example =
    pull-HasPulled toy toy_refs toy-StoreLaws toy-RefLaws in_turn in_turn-MergesOnly request [] []
      answering (pulled (run_pull toy toy_refs in_turn request [] [] answering)) refl refl

-- A server that wants nothing and says that it has the reference.
abbrev satisfied : Stream
satisfied = open_stream (frame (6 ∷ []) ++ frame (9 ∷ 1 ∷ []))

abbrev local_refs : List (String × Bytes)
local_refs = ("n", 0 ∷ 1 ∷ []) ∷ []

abbrev ended : Option (Ended toy_refs) → Ended toy_refs
ended none = (none, satisfied, local_refs)
ended (some o) = o

abbrev after_push : Ended toy_refs
after_push = ended (run_push toy toy_refs texts (1 ∷ 2 ∷ []) request local_refs satisfied)

push-Tracks_example :
    ((after_push.0 ≡ none)
      × ((root : ℕ) × (path : String) × (resolve_spec toy toy_refs texts local_refs "ref:n"
            ≡ ok (root, path))
          × Tracks toy toy_refs toy-RefLaws texts
              (1 ∷ 2 ∷ [])
              request
              root
              local_refs
              after_push.2))
    ⊎ ((after_push.2 ≡ local_refs) × ((x : Error) × (after_push.0 ≡ some x)))
unfolding run_push read_full write put_uint32 uint32 write_msg read_msg resolve_spec expected
    run_senders send record_push tracking_ref is_not_found
push-Tracks_example =
    push-Tracks toy toy_refs toy-RefLaws texts (1 ∷ 2 ∷ []) request local_refs satisfied after_push
      refl

-- Addresses as numbers: 0 is unspecified, 1 is loopback.
abbrev net : NetLibrary
net = record {
  Addr = ℕ;
  NetAddr = ℕ;
  TransportAddr = ℕ;
  from_net = λ a. some a;
  unmap = λ a. a;
  is_loopback = λ a. a == 1;
  is_link_local_unicast = λ a. false;
  is_link_local_multicast = λ a. false;
  is_valid = λ a. true;
  is_unspecified = λ a. a == 0;
  parse_addr_port = λ s. err (library 8);
  parse_addr = λ s. ok 5;
  socket_of = λ a. some (some a);
}

abbrev ifaces : List (IfaceAddrs net)
ifaces =
    record { name = "eth0"; up = true; addrs = 5 ∷ 1 ∷ 5 ∷ [] }
    ∷ record { name = "docker0"; up = true; addrs = 6 ∷ [] }
    ∷ record { name = "eth1"; up = true; addrs = 7 ∷ [] }
    ∷ []

advertised_addr_ports_example :
    (ips : List ℕ) × (advertised_addr_ports net ifaces 80 ≡ with_port 80 ips)
    × Distinct net ips
    × ((a : ℕ) → Member a ips ↔ (OnInterface net ifaces a × Usable net a))
advertised_addr_ports_example = advertised_addr_ports_lem net ifaces 80
