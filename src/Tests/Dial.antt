-- ===== src/Tests/Dial.antt =====
-- Witnesses of the theorems about dialing.
use amber_store_iroh.Prelude.{
  ℕ, nat_eq, ◌+◌, ◌*◌, ◌==◌, ◌≡◌, refl, str_eq, [], ◌∷◌, ◌++◌, map, length, none, some,
  if◌then◌else◌,
}
use amber_store_iroh.Protocol.Error.{ok, err, library}
use amber_store_iroh.Protocol.Msg.{blank, t_ok}
use amber_store_iroh.Protocol.Frame.{Codec}
use amber_store_iroh.Relay.{RelayLibrary}
use amber_store_iroh.Client.Dial.{Iroh, race_connect}
use amber_store_iroh.Client.Dial.Race.{successes, failures, race_of, race_connect_lem}
use amber_store_iroh.Client.Dial.Ledger.{Open, tally}
use amber_store_iroh.Client.Dial.Attach.{OpenStream}
use amber_store_iroh.Client.Dial.Discover.{Discovery, dial_server}
use amber_store_iroh.Client.Dial.Session.{session_log, dial_session-Open}
use amber_store_iroh.Tests.Toy.{open_stream}

-- A candidate is a port. Nothing answers on port 0, and each connection has a number of its own.
abbrev iroh : Iroh
iroh = record {
  EndpointId = ℕ;
  Ip = ℕ;
  Endpoint = ℕ;
  Conn = ℕ;
  Candidate = ℕ;
  bind = λ log. ok (length log);
  connects = λ log ep id cands.
      map (λ c. if c == 0 then err (library 1) else ok (length log * 10 + c)) cands;
  remote_addr = λ c. some (1 ∷ []);
  addr_from_slice = λ b. some 1;
  unmap = λ a. a;
  ip_candidate = λ ip port. port;
  id_text = λ id. "id";
  sprintf = λ f s. f;
}

race_connect_lem_example :
    let race =
      race_of iroh
        (successes (iroh.connects [] 7 1 (0 ∷ 3 ∷ 4 ∷ [])))
        (failures (iroh.connects [] 7 1 (0 ∷ 3 ∷ 4 ∷ []))) in
    race_connect iroh 7 1 (0 ∷ 3 ∷ 4 ∷ []) [] ≡ (race.0, [] ++ race.1)
race_connect_lem_example = race_connect_lem iroh 7 1 0 (3 ∷ 4 ∷ []) [] refl

abbrev net : Discovery iroh
net = record {
  parse_id = λ s. ok 1;
  parse_addr_port = λ s. ok (1, if str_eq s "a" then 0 else 4);
  split_host_port = λ s. err (library 2);
  parse_port = λ s. err (library 2);
  lookup_ip = λ s. err (library 2);
  generate_key = none;
  pkarr_resolver = none;
  resolve = λ id. [];
  sprintf_error = λ f s e. f;
  with_addrs = λ xs ys. xs ++ ys;
}

abbrev relay : RelayLibrary
relay = record {
  Mode = ℕ;
  Url = ℕ;
  RelayMap = ℕ;
  mode_default = 0;
  mode_custom = λ m. m;
  map_from_urls = λ us. length us;
  parse_url = λ s. ok 1;
  prefer_nearest = ok 2;
  sprintf = λ f s. f;
}

abbrev codec : Codec
codec = record { marshal = λ m. ok (1 ∷ []); unmarshal = λ b. ok (blank t_ok) }

abbrev streams : OpenStream iroh
streams log conn = ok (open_stream [])

empty_log-Open : Open iroh [] [] []
unfolding tally
empty_log-Open = record { endpoints = λ ep. refl; connections = λ conn. refl }

-- A command with two addresses, one of them dead, and two extra streams.
dial_session-Open_example : Open iroh [] [] (
    session_log iroh net relay codec streams
      (5 ∷ [])
      (9 ∷ 0 ∷ [])
      2
      (dial_server iroh net relay "s" ("a" ∷ "b" ∷ []) "" []))
dial_session-Open_example =
    dial_session-Open iroh net relay codec streams (5 ∷ []) (9 ∷ 0 ∷ []) 2 "s" ("a" ∷ "b" ∷ []) ""
      [] empty_log-Open
