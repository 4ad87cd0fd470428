-- ===== src/Tests/Serve.antt =====
-- Witnesses of the theorems about the action of the server's command.
use amber_store_iroh.Prelude.{
  if◌then◌else◌, ℕ, nat_eq, ◌≤◌, ◌==◌, [], ◌∷◌, none, some, length, false, true,
}
use amber_store_iroh.Prelude.Int.{pos}
use amber_store_iroh.Protocol.Error.{ok, err, library}
use amber_store_iroh.Relay.{RelayLibrary}
use amber_store_iroh.Serve.Addrs.{NetLibrary}
use amber_store_iroh.Serve.Key.{KeyLibrary, missing}
use amber_store_iroh.Serve.Main.{Flags, Host, data_endpoint_count, main_action}
use amber_store_iroh.Serve.Main.Laws.{Unwinds, AllBind, Idles, main_action-Unwinds}

abbrev net : NetLibrary
net = record {
  Addr = ℕ;
  NetAddr = ℕ;
  TransportAddr = ℕ;
  from_net = λ a. some a;
  unmap = λ a. a;
  is_loopback = λ a. a == 1;
  is_link_local_unicast = λ a. false;
  is_link_local_multicast = λ a. false;
  is_valid = λ a. true;
  is_unspecified = λ a. a == 0;
  parse_addr_port = λ s. ok (5, 80);
  parse_addr = λ s. ok 5;
  socket_of = λ a. some (some a);
}

abbrev relay : RelayLibrary
relay = record {
  Mode = ℕ;
  Url = ℕ;
  RelayMap = ℕ;
  mode_default = 0;
  mode_custom = λ m. m;
  map_from_urls = λ us. length us;
  parse_url = λ s. ok 1;
  prefer_nearest = ok 2;
  sprintf = λ f s. f;
}

abbrev keys : KeyLibrary
keys = record {
  SecretKey = ℕ;
  parse = λ s. ok 3;
  to_bytes = λ k. k ∷ [];
  hex_encode = λ b. "03";
  trim_space = λ s. s;
  parse_failed = λ s. s;
}

-- An endpoint is its port.
abbrev host : Host net relay keys
host = record {
  Endpoint = ℕ;
  join_path = λ a b. a;
  sprintf = λ f s. f;
  open_objects = λ dir. none;
  open_refs = λ dir. none;
  fresh_key = ok 3;
  write_error = none;
  torn = missing;
  key_file = λ path. missing;
  bind = λ sk mode. ok 80;
  bind_data = λ i sk. ok i;
  online = λ ep. none;
  local_port = λ ep. ep;
  advertised = λ ep direct. ep ∷ [];
  local_iface_addrs = err (library 1);
  publisher_error = none;
  serve = λ ports ep. none;
}

abbrev flags : Flags
flags = record {
  store = "dir";
  key = "server.key";
  relay = "";
  advertise_addr = "a" ∷ [];
  data_endpoints = pos 3;
}

main_action-Unwinds_example :
    Unwinds (data_endpoint_count flags.data_endpoints) [] (main_action host flags).1 []
    × (AllBind host flags → Idles [] (main_action host flags).1 [])
    × (data_endpoint_count flags.data_endpoints ≤ 15)
main_action-Unwinds_example = main_action-Unwinds host flags

-- The second data endpoint cannot be bound.
abbrev short_of_ports : Host net relay keys
short_of_ports = record host { bind_data = λ i sk. if i == 0 then ok 7 else err (library 2) }
