-- ===== src/Client/Dial/Discover.antt =====
-- cmd/amber/dial.go: `parseDirectAddrs` and `dialServer`. Go's net package, and the address lookup services of go-iroh, are the
-- parameter `Discovery`.
use amber_store_iroh.Prelude.{ℕ, String, List, [], ◌∷◌, ◌++◌, map, Option, none, some}
use amber_store_iroh.Protocol.Error.{Error, Result, ok, err, message, wrapped}
use amber_store_iroh.Relay.{RelayLibrary, from_flag}
use amber_store_iroh.Client.Dial.{bound, shut, Iroh, Log, race_connect, ServerConn}

pub record Discovery (iroh : Iroh) : Type 0 where
  pub parse_id : String → Result iroh.EndpointId
  pub parse_addr_port : String → Result (iroh.Ip × ℕ)
  pub split_host_port : String → Result (String × String)
  pub parse_port : String → Result ℕ
  pub lookup_ip : String → Result (List iroh.Ip)
  -- The errors of GenerateSecretKey and N0PkarrResolver, none for nil.
  pub generate_key : Option Error
  pub pkarr_resolver : Option Error
  -- What Resolve yields: the candidates of an item, or an error.
  pub resolve : iroh.EndpointId → List (Result (List iroh.Candidate))
  -- fmt.Sprintf with a string and an error.
  pub sprintf_error : String → String → Error → String
  -- WithAddrs of an EndpointAddr, by its addresses.
  pub with_addrs : List iroh.Candidate → List iroh.Candidate → List iroh.Candidate

module _ (iroh : Iroh) (net : Discovery iroh) where
  -- The addresses of one --addr value.
  unfoldable pub parse_direct : String → Result (List (iroh.Ip × ℕ))
  parse_direct s = elim (net.parse_addr_port s) [
    | ok ap ↦ ok (ap ∷ [])
    | err no_literal ↦ elim (net.split_host_port s) [
      | err e ↦ err (wrapped (iroh.sprintf "parse --addr %q: " s) e)
      | ok (host, port_text) ↦ elim (net.parse_port port_text) [
        | err e ↦ err (wrapped (iroh.sprintf "parse --addr %q: bad port: " s) e)
        | ok port ↦ elim (net.lookup_ip host) [
          | err e ↦ err (wrapped (iroh.sprintf "resolve --addr host %q: " host) e)
          | ok ips ↦ ok (map (λ ip. (iroh.unmap ip, port)) ips)
        ]
      ]
    ]
  ]

  abbrev pub put_before :
      Result (List (iroh.Ip × ℕ)) → List (iroh.Ip × ℕ) → Result (List (iroh.Ip × ℕ))
  put_before (err e) aps = err e
  put_before (ok rest) aps = ok (aps ++ rest)

  unfoldable pub parse_direct_addrs : List String → Result (List (iroh.Ip × ℕ))
  unfolding parse_direct
  parse_direct_addrs [] = ok []
  parse_direct_addrs (s ∷ more) = elim (parse_direct s) [
    | err e ↦ err e
    | ok aps ↦ put_before (parse_direct_addrs more) aps
  ]

  -- The loop over what the resolvers yield: the candidates so far if there was an item, and the last error.
  unfoldable pub resolve_loop :
      List (Result (List iroh.Candidate))
      → Option (List iroh.Candidate)
      → Option Error
      → Option (List iroh.Candidate) × Option Error
  resolve_loop [] found last_err = (found, last_err)
  resolve_loop (err e ∷ items) found last_err = resolve_loop items found (some e)
  resolve_loop (ok cands ∷ items) none last_err =
      resolve_loop items (some (net.with_addrs [] cands)) last_err
  resolve_loop (ok cands ∷ items) (some so_far) last_err =
      resolve_loop items (some (net.with_addrs so_far cands)) last_err

  abbrev pub Dialed : Type 0
  Dialed = Result (ServerConn iroh) × Log iroh

  abbrev pub server_conn :
      iroh.Endpoint → iroh.EndpointId → List iroh.Candidate → iroh.Conn → ServerConn iroh
  server_conn ep id cands conn = record {
    conn = conn;
    ep = ep;
    id = id;
    cands = cands;
    extra_eps = [];
  }

  -- The connection wins, or the endpoint is shut down.
  abbrev pub finish_dial :
      iroh.Endpoint → iroh.EndpointId → List iroh.Candidate → Result iroh.Conn × Log iroh → Dialed
  finish_dial ep id cands (ok conn, log) = (ok (server_conn ep id cands conn), log)
  finish_dial ep id cands (err e, log) = (err (wrapped "connect: " e), log ++ shut ep ∷ [])

  abbrev pub bound_direct :
      iroh.EndpointId → List (iroh.Ip × ℕ) → Log iroh → Result iroh.Endpoint → Dialed
  bound_direct id aps log (err e) = (err (wrapped "bind: " e), log)
  bound_direct id aps log (ok ep) =
      let cands = map (λ ap. iroh.ip_candidate ap.0 ap.1) aps in
      finish_dial ep id cands (race_connect iroh ep id cands (log ++ bound ep ∷ []))

  abbrev pub parsed_direct : iroh.EndpointId → Log iroh → Result (List (iroh.Ip × ℕ)) → Dialed
  parsed_direct id log (err e) = (err e, log)
  parsed_direct id log (ok aps) = bound_direct id aps log (iroh.bind log)

  abbrev pub no_address : iroh.EndpointId → Option Error → Error
  no_address id none = message (iroh.sprintf "no address found for endpoint %s" (iroh.id_text id))
  no_address id (some e) = message (
      net.sprintf_error "no address found for endpoint %s (last resolver error: %v)"
        (iroh.id_text id) e)

  abbrev pub dial_found :
      iroh.Endpoint
      → iroh.EndpointId
      → Log iroh
      → Option (List iroh.Candidate) × Option Error
      → Dialed
  dial_found ep id log (none, last_err) = (err (no_address id last_err), log ++ shut ep ∷ [])
  dial_found ep id log (some cands, last_err) =
      finish_dial ep id cands (race_connect iroh ep id cands log)

  abbrev pub bound_found : iroh.EndpointId → Log iroh → Result iroh.Endpoint → Dialed
  bound_found id log (err e) = (err (wrapped "bind: " e), log)
  bound_found id log (ok ep) =
      dial_found ep id (log ++ bound ep ∷ []) (resolve_loop (net.resolve id) none none)

module _ (iroh : Iroh) (net : Discovery iroh) (relay : RelayLibrary) where
  -- The key, the resolver and the relay mode come before the endpoint.
  abbrev pub prepared :
      iroh.EndpointId → Log iroh → Option Error → Option Error → Result relay.Mode → Dialed iroh net
  prepared id log (some e) resolver mode = (err (wrapped "generate key: " e), log)
  prepared id log none (some e) mode = (err (wrapped "pkarr resolver: " e), log)
  prepared id log none none (err e) = (err e, log)
  prepared id log none none (ok mode) = bound_found iroh net id log (iroh.bind log)

  -- With direct addresses there is no discovery.
  abbrev pub dial_id : List String → String → Log iroh → Result iroh.EndpointId → Dialed iroh net
  dial_id addrs relay_url log (err e) = (err (wrapped "parse endpoint id: " e), log)
  dial_id [] relay_url log (ok id) =
      prepared id log net.generate_key net.pkarr_resolver (from_flag relay relay_url)
  dial_id (a ∷ addrs) relay_url log (ok id) =
      parsed_direct iroh net id log (parse_direct_addrs iroh net (a ∷ addrs))

  unfoldable pub dial_server : String → List String → String → Log iroh → Dialed iroh net
  unfolding resolve_loop parse_direct_addrs
  dial_server server addrs relay_url log = dial_id addrs relay_url log (net.parse_id server)
