-- ===== src/Serve/Main.antt =====
-- cmd/amber-serve/main.go: the action of amber-serve, from opening the stores to the end of Serve. Packages and services are the
-- parameter `Host`; what the action does to them is a list of events, in which a deferred call stands at the end of what it encloses.
pub mod Laws
pub mod Early
use amber_store_iroh.Prelude.{
  ℕ, zero, suc, ◌+◌, String, List, [], ◌∷◌, ◌++◌, Option, none, some, Eq, leb, str_eq,
  if◌then◌else◌,
}
use amber_store_iroh.Prelude.Int.{ℤ, pos, negsuc}
use amber_store_iroh.Protocol.Error.{Error, Result, ok, err, message, wrapped}
use amber_store_iroh.Relay.{RelayLibrary, server_relay_mode}
use amber_store_iroh.Serve.Addrs.{
  NetLibrary, IfaceAddrs, advertised_addr_ports, parse_advertise_addrs, publishable_addrs,
}
use amber_store_iroh.Serve.Key.{File, KeyLibrary, load_or_create_secret_key}

pub record Flags : Type 0 where
  pub store : String
  pub key : String
  pub relay : String
  pub advertise_addr : List String
  pub data_endpoints : ℤ

pub data Resource (Endpoint : Type 0) : Type 0 where
  objects_store : Resource Endpoint
  refs_store : Resource Endpoint
  endpoint : Endpoint → Resource Endpoint
  publisher : Resource Endpoint

-- Opened and released, the addresses given to iroh and to mDNS, those that pkarr publishes, the goroutine that serves a data endpoint
-- started, Serve of the server's endpoint called and returned, dataWG.Wait returned, SetDataPorts called.
pub data Event (Endpoint : Type 0) (net : NetLibrary) : Type 0 where
  opened : Resource Endpoint → Event Endpoint net
  released : Resource Endpoint → Event Endpoint net
  announced : List (net.Addr × ℕ) → Event Endpoint net
  published : List net.TransportAddr → Event Endpoint net
  launched : Endpoint → Event Endpoint net
  serving : Endpoint → Event Endpoint net
  served : Endpoint → Event Endpoint net
  waited : Event Endpoint net
  told_ports : List ℕ → Event Endpoint net

pub record Host (net : NetLibrary) (relay : RelayLibrary) (keys : KeyLibrary) : Type 1 where
  pub Endpoint : Type 0
  pub join_path : String → String → String
  pub sprintf : String → String → String
  -- packstore.Open and refstore.Open, none for nil.
  pub open_objects : String → Option Error
  pub open_refs : String → Option Error
  -- What loadOrCreateSecretKey meets: GenerateSecretKey, WriteFile and what a failed one leaves, and the file.
  pub fresh_key : Result keys.SecretKey
  pub write_error : Option Error
  pub torn : File
  pub key_file : String → File
  -- iroh.Bind of the endpoint of the server, and of the i-th data endpoint; Online; the port of LocalAddr.
  pub bind : keys.SecretKey → relay.Mode → Result Endpoint
  pub bind_data : ℕ → keys.SecretKey → Result Endpoint
  pub online : Endpoint → Option Error
  pub local_port : Endpoint → ℕ
  -- Addr of the endpoint WithIP of each of the addresses, as its Addrs.
  pub advertised : Endpoint → List (net.Addr × ℕ) → List net.TransportAddr
  pub local_iface_addrs : Result (List (IfaceAddrs net))
  -- N0PkarrPublisher, none for nil.
  pub publisher_error : Option Error
  -- What srv.Serve of the server's endpoint returns, with these data ports.
  pub serve : List ℕ → Endpoint → Option Error

abbrev pub max_data_endpoints : ℕ
max_data_endpoints = 15

-- The number of data endpoints that the flag stands for.
unfoldable pub data_endpoint_count : ℤ → ℕ
data_endpoint_count (negsuc n) = 0
data_endpoint_count (pos n) = if leb n max_data_endpoints then n else max_data_endpoints

module _ {net : NetLibrary} ⦃eq_addr : Eq net.Addr⦄ {relay : RelayLibrary} {keys : KeyLibrary}
    (host : Host net relay keys) where
  abbrev pub Run : Type 0
  Run = Option Error × List (Event host.Endpoint net)

  abbrev pub and_before : Event host.Endpoint net → Run → Run
  and_before ev (e, log) = (e, ev ∷ log)

  abbrev pub return_error : Error → Run
  return_error e = (some e, [])

  -- What is opened is released by a deferred call.
  abbrev pub with_defer : Resource host.Endpoint → Run → Run
  with_defer r (e, log) = (e, opened r ∷ log ++ released r ∷ [])

  abbrev pub serve_all : host.Endpoint → List ℕ → Run
  serve_all ep ports =
      (host.serve ports ep, told_ports ports ∷ serving ep ∷ served ep ∷ waited ∷ [])

  -- The loop over the data endpoints, with the ports so far.
  abbrev pub on_data_endpoint : (List ℕ → Run) → List ℕ → Result host.Endpoint → Run
  on_data_endpoint rest ports (err e) = return_error (wrapped "bind data endpoint: " e)
  on_data_endpoint rest ports (ok dep) =
      with_defer (endpoint dep)
        (and_before (launched dep) (rest (ports ++ host.local_port dep ∷ [])))

  unfoldable pub bind_loop : ℕ → ℕ → keys.SecretKey → host.Endpoint → List ℕ → Run
  bind_loop zero i sk ep ports = serve_all ep ports
  bind_loop (suc n) i sk ep ports =
      on_data_endpoint (bind_loop n (i + 1) sk ep) ports (host.bind_data i sk)

  abbrev pub publish_and_serve : Flags → keys.SecretKey → host.Endpoint → List (net.Addr × ℕ) → Run
  publish_and_serve flags sk ep direct =
      and_before (published (publishable_addrs net host.sprintf (host.advertised ep direct)))
        (bind_loop (data_endpoint_count flags.data_endpoints) 0 sk ep [])

  abbrev pub announce :
      Flags → keys.SecretKey → host.Endpoint → Option Error → List (net.Addr × ℕ) → Run
  announce flags sk ep (some e) direct =
      and_before (announced direct) (return_error (wrapped "pkarr publisher: " e))
  announce flags sk ep none direct =
      and_before (announced direct) (with_defer publisher (publish_and_serve flags sk ep direct))

  -- The operator's list of addresses, or those of the interfaces.
  unfoldable pub direct_addrs : Flags → host.Endpoint → Result (List (net.Addr × ℕ))
  direct_addrs flags ep = elim flags.advertise_addr [
    | v ∷ vals ↦ parse_advertise_addrs net host.sprintf (v ∷ vals) (host.local_port ep)
    | [] ↦ elim host.local_iface_addrs [
      | err e ↦ err (wrapped "interface addresses: " e)
      | ok ifaces ↦ ok (advertised_addr_ports net ifaces (host.local_port ep))
    ]
  ]

  abbrev pub addressed : Flags → keys.SecretKey → host.Endpoint → Result (List (net.Addr × ℕ)) → Run
  addressed flags sk ep (err e) = return_error e
  addressed flags sk ep (ok direct) = announce flags sk ep host.publisher_error direct

  abbrev pub on_online : Flags → keys.SecretKey → host.Endpoint → Option Error → Run
  on_online flags sk ep (some e) = return_error (wrapped "connect to relay: " e)
  on_online flags sk ep none = addressed flags sk ep (direct_addrs flags ep)

  abbrev pub on_endpoint : Flags → keys.SecretKey → Result host.Endpoint → Run
  on_endpoint flags sk (err e) = return_error (wrapped "bind: " e)
  on_endpoint flags sk (ok ep) = with_defer (endpoint ep) (on_online flags sk ep (host.online ep))

  abbrev pub on_mode : Flags → keys.SecretKey → Result relay.Mode → Run
  on_mode flags sk (err e) = return_error e
  on_mode flags sk (ok mode) = on_endpoint flags sk (host.bind sk mode)

  abbrev pub on_key : Flags → Result keys.SecretKey → Run
  on_key flags (err e) = return_error (wrapped "load secret key: " e)
  on_key flags (ok sk) = on_mode flags sk (server_relay_mode relay flags.relay)

  abbrev pub on_refs_open : Flags → Option Error → Run
  on_refs_open flags (some e) = return_error e
  on_refs_open flags none = with_defer refs_store (
      on_key flags
        (load_or_create_secret_key keys host.fresh_key host.write_error host.torn flags.key
          (host.key_file flags.key)).0)

  abbrev pub on_objects_open : Flags → Option Error → Run
  on_objects_open flags (some e) = return_error e
  on_objects_open flags none =
      with_defer objects_store
        (on_refs_open flags (host.open_refs (host.join_path flags.store "refs")))

  unfoldable pub main_action : Flags → Run
  unfolding direct_addrs bind_loop data_endpoint_count server_relay_mode load_or_create_secret_key
  main_action flags =
      if str_eq flags.store ""
      then return_error (message "no store directory: set --store or $AMBER_STORE")
      else on_objects_open flags (host.open_objects (host.join_path flags.store "packstore"))
