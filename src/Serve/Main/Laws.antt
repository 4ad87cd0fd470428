-- ===== src/Serve/Main/Laws.antt =====
-- cmd/amber-serve/main.go: what the action holds while it serves, and what it leaves.
use amber_store_iroh.Prelude.{
  ℕ, zero, suc, ◌+◌, ◌≤◌, ◌≡◌, refl, sym, subst, List, [], ◌∷◌, ◌++◌, length, length-append, Option,
  none, some, Eq, Member, inl, inr, str_eq, Bool-cases, arith,
}
use amber_store_iroh.Prelude.Int.{ℤ, pos, negsuc}
use amber_store_iroh.Protocol.Error.{Error, Result, ok, err, Result-cases}
use amber_store_iroh.Relay.{RelayLibrary, server_relay_mode}
use amber_store_iroh.Serve.Addrs.{NetLibrary}
use amber_store_iroh.Serve.Key.{KeyLibrary, load_or_create_secret_key}
use amber_store_iroh.Serve.Main.{
  Flags, Resource, objects_store, refs_store, endpoint, publisher, Event, opened, released,
  announced, published, launched, serving, served, waited, told_ports, Host, data_endpoint_count,
  Run, with_defer, bind_loop, announce, publish_and_serve, direct_addrs, addressed, on_online,
  on_endpoint, on_mode, on_key, on_refs_open, on_objects_open, main_action,
}

module _ {Endpoint : Type 0} {net : NetLibrary} (limit : ℕ) where
  -- From the resources that are held, through the events, to those that are held then. The last one that was opened is the first to be
  -- released. Serve of an endpoint begins while it and both stores are held, and as many data ports are set as the limit says.
  abbrev pub Unwinds :
      List (Resource Endpoint) → List (Event Endpoint net) → List (Resource Endpoint) → Type 0
  Unwinds held [] left = held ≡ left
  Unwinds held (opened r ∷ log) left = Unwinds (r ∷ held) log left
  Unwinds held (released r ∷ log) left =
      (rest : List (Resource Endpoint)) × (held ≡ r ∷ rest) × Unwinds rest log left
  Unwinds held (announced addrs ∷ log) left = Unwinds held log left
  Unwinds held (published addrs ∷ log) left = Member publisher held × Unwinds held log left
  Unwinds held (launched ep ∷ log) left =
      (Member objects_store held × Member refs_store held × Member (endpoint ep) held)
      × Unwinds held log left
  Unwinds held (serving ep ∷ log) left =
      (Member objects_store held × Member refs_store held × Member (endpoint ep) held)
      × Unwinds held log left
  Unwinds held (served ep ∷ log) left = Unwinds held log left
  Unwinds held (waited ∷ log) left = Unwinds held log left
  Unwinds held (told_ports ports ∷ log) left = (length ports ≡ limit) × Unwinds held log left

  Unwinds-append :
      (log log' : List (Event Endpoint net)) (held between left : List (Resource Endpoint))
      → Unwinds held log between
      → Unwinds between log' left
      → Unwinds held (log ++ log') left
  Unwinds-append [] log' held between left u u' = subst (λ h. Unwinds h log' left) (sym u) u'
  Unwinds-append (opened r ∷ log) log' held between left u u' =
      Unwinds-append log log' (r ∷ held) between left u u'
  Unwinds-append (released r ∷ log) log' held between left (rest, e, u) u' =
      (rest, e, Unwinds-append log log' rest between left u u')
  Unwinds-append (announced addrs ∷ log) log' held between left u u' =
      Unwinds-append log log' held between left u u'
  Unwinds-append (published addrs ∷ log) log' held between left (m, u) u' =
      (m, Unwinds-append log log' held between left u u')
  Unwinds-append (launched ep ∷ log) log' held between left (m, u) u' =
      (m, Unwinds-append log log' held between left u u')
  Unwinds-append (serving ep ∷ log) log' held between left (m, u) u' =
      (m, Unwinds-append log log' held between left u u')
  Unwinds-append (served ep ∷ log) log' held between left u u' =
      Unwinds-append log log' held between left u u'
  Unwinds-append (waited ∷ log) log' held between left u u' =
      Unwinds-append log log' held between left u u'
  Unwinds-append (told_ports ports ∷ log) log' held between left (e, u) u' =
      (e, Unwinds-append log log' held between left u u')

module _ {Endpoint : Type 0} {net : NetLibrary} where
  -- From the endpoints whose Serve has begun and is not known to have returned, through the events, to those of which this holds then.
  -- dataWG.Wait returns when every Serve of a data endpoint has. While there is any, nothing is released.
  abbrev pub Idles : List Endpoint → List (Event Endpoint net) → List Endpoint → Type 0
  Idles active [] left = active ≡ left
  Idles active (opened r ∷ log) left = Idles active log left
  Idles active (released r ∷ log) left = (active ≡ []) × Idles active log left
  Idles active (announced addrs ∷ log) left = Idles active log left
  Idles active (published addrs ∷ log) left = Idles active log left
  Idles active (launched ep ∷ log) left = Idles (ep ∷ active) log left
  Idles active (serving ep ∷ log) left = Idles (ep ∷ active) log left
  Idles active (served ep ∷ log) left =
      (rest : List Endpoint) × (active ≡ ep ∷ rest) × Idles rest log left
  Idles active (waited ∷ log) left = Idles [] log left
  Idles active (told_ports ports ∷ log) left = Idles active log left

  Idles-append :
      (log log' : List (Event Endpoint net)) (active between left : List Endpoint)
      → Idles active log between
      → Idles between log' left
      → Idles active (log ++ log') left
  Idles-append [] log' active between left i i' = subst (λ h. Idles h log' left) (sym i) i'
  Idles-append (opened r ∷ log) log' active between left i i' =
      Idles-append log log' active between left i i'
  Idles-append (released r ∷ log) log' active between left (e, i) i' =
      (e, Idles-append log log' active between left i i')
  Idles-append (announced addrs ∷ log) log' active between left i i' =
      Idles-append log log' active between left i i'
  Idles-append (published addrs ∷ log) log' active between left i i' =
      Idles-append log log' active between left i i'
  Idles-append (launched ep ∷ log) log' active between left i i' =
      Idles-append log log' (ep ∷ active) between left i i'
  Idles-append (serving ep ∷ log) log' active between left i i' =
      Idles-append log log' (ep ∷ active) between left i i'
  Idles-append (served ep ∷ log) log' active between left (rest, e, i) i' =
      (rest, e, Idles-append log log' rest between left i i')
  Idles-append (waited ∷ log) log' active between left i i' =
      Idles-append log log' [] between left i i'
  Idles-append (told_ports ports ∷ log) log' active between left i i' =
      Idles-append log log' active between left i i'

few : (n : ℤ) → data_endpoint_count n ≤ 15
unfolding data_endpoint_count
few (pos n) = ground arith
few (negsuc n) = ground arith

module _ {net : NetLibrary} ⦃eq_addr : Eq net.Addr⦄ {relay : RelayLibrary} {keys : KeyLibrary}
    (host : Host net relay keys) (flags : Flags) where
  -- Every data endpoint can be bound.
  abbrev pub AllBind : Type 0
  AllBind = (i : ℕ) (sk : keys.SecretKey) → (dep : host.Endpoint) × (host.bind_data i sk ≡ ok dep)

  abbrev Fine : List (Resource host.Endpoint) → Run host → Type 0
  Fine held run =
      Unwinds (data_endpoint_count flags.data_endpoints) held run.1 held
      × (AllBind → Idles [] run.1 [])

  with_defer-Fine :
      (r : Resource host.Endpoint) (held : List (Resource host.Endpoint)) (run : Run host)
      → Fine (r ∷ held) run
      → Fine held (with_defer host r run)
  with_defer-Fine r held run (u, i) = (
    Unwinds-append (data_endpoint_count flags.data_endpoints) run.1 (released r ∷ []) (r ∷ held)
        (r ∷ held) held u (held, refl, refl),
    λ all. Idles-append run.1 (released r ∷ []) [] [] [] (i all) (refl, refl),
  )

  -- Both stores and the endpoint of the server are held.
  abbrev Ready : host.Endpoint → List (Resource host.Endpoint) → Type 0
  Ready ep held = Member objects_store held × Member refs_store held × Member (endpoint ep) held

  bind_loop-Unwinds :
      (n i : ℕ) (sk : keys.SecretKey) (ep : host.Endpoint) (ports : List ℕ)
      (held : List (Resource host.Endpoint))
      → Ready ep held
      → length ports + n ≡ data_endpoint_count flags.data_endpoints
      → Unwinds
          (data_endpoint_count flags.data_endpoints)
          held
          (bind_loop host n i sk ep ports).1
          held
  unfolding bind_loop
  bind_loop-Unwinds zero i sk ep ports held ready count = (omega (arith, count), (ready, refl))
  bind_loop-Unwinds (suc n) i sk ep ports held ready count =
      elim (Result-cases (host.bind_data i sk)) [
        | inl (x, failed) ↦ rw failed refl
        | inr (dep, fine) ↦
            let log = (bind_loop host n (i + 1) sk ep (ports ++ host.local_port dep ∷ [])).1 in
            let rest =
              bind_loop-Unwinds n (i + 1) sk ep (ports ++ host.local_port dep ∷ [])
                (endpoint dep ∷ held) (inr ready.0, inr ready.1, inr ready.2)
                (omega (arith, count, length-append ports (host.local_port dep ∷ []))) in
            rw fine (
              Unwinds-append (data_endpoint_count flags.data_endpoints) (launched dep ∷ log)
                (released (endpoint dep) ∷ []) (endpoint dep ∷ held) (endpoint dep ∷ held) held
                ((inr ready.0, inr ready.1, inl refl), rest) (held, refl, refl))
      ]

  bind_loop-Idles :
      AllBind
      → (n i : ℕ) (sk : keys.SecretKey) (ep : host.Endpoint) (ports : List ℕ)
        (active : List host.Endpoint)
      → Idles active (bind_loop host n i sk ep ports).1 []
  unfolding bind_loop
  bind_loop-Idles all zero i sk ep ports active = (active, refl, refl)
  bind_loop-Idles all (suc n) i sk ep ports active =
      let (dep, fine) = all i sk in
      let log = (bind_loop host n (i + 1) sk ep (ports ++ host.local_port dep ∷ [])).1 in
      rw fine (
        Idles-append (launched dep ∷ log) (released (endpoint dep) ∷ []) active [] []
          (bind_loop-Idles all n (i + 1) sk ep (ports ++ host.local_port dep ∷ []) (dep ∷ active))
          (refl, refl))

  announce-Fine :
      (sk : keys.SecretKey) (ep : host.Endpoint) (e : Option Error) (direct : List (net.Addr × ℕ))
      (held : List (Resource host.Endpoint))
      → Ready ep held
      → Fine held (announce host flags sk ep e direct)
  announce-Fine sk ep (some e) direct held ready = (refl, λ all. refl)
  announce-Fine sk ep none direct held ready =
      with_defer-Fine publisher held (publish_and_serve host flags sk ep direct) (
        (
          inl refl,
          bind_loop-Unwinds (data_endpoint_count flags.data_endpoints) 0 sk ep [] (publisher ∷ held)
              (inr ready.0, inr ready.1, inr ready.2) (omega arith),
        ),
        λ all. bind_loop-Idles all (data_endpoint_count flags.data_endpoints) 0 sk ep [] [],
      )

  addressed-Fine :
      (sk : keys.SecretKey) (ep : host.Endpoint) (direct : Result (List (net.Addr × ℕ)))
      (held : List (Resource host.Endpoint))
      → Ready ep held
      → Fine held (addressed host flags sk ep direct)
  addressed-Fine sk ep (err e) held ready = (refl, λ all. refl)
  addressed-Fine sk ep (ok direct) held ready =
      announce-Fine sk ep host.publisher_error direct held ready

  on_online-Fine :
      (sk : keys.SecretKey) (ep : host.Endpoint) (e : Option Error)
      (held : List (Resource host.Endpoint))
      → Ready ep held
      → Fine held (on_online host flags sk ep e)
  on_online-Fine sk ep (some e) held ready = (refl, λ all. refl)
  on_online-Fine sk ep none held ready =
      addressed-Fine sk ep (direct_addrs host flags ep) held ready

  abbrev stores : List (Resource host.Endpoint)
  stores = refs_store ∷ objects_store ∷ []

  on_endpoint-Fine :
      (sk : keys.SecretKey) (ep : Result host.Endpoint) → Fine stores (on_endpoint host flags sk ep)
  on_endpoint-Fine sk (err e) = (refl, λ all. refl)
  on_endpoint-Fine sk (ok ep) =
      with_defer-Fine (endpoint ep) stores (on_online host flags sk ep (host.online ep)) (
        on_online-Fine sk ep (host.online ep) (endpoint ep ∷ stores)
          (inr (inr (inl refl)), inr (inl refl), inl refl))

  on_mode-Fine :
      (sk : keys.SecretKey) (mode : Result relay.Mode) → Fine stores (on_mode host flags sk mode)
  on_mode-Fine sk (err e) = (refl, λ all. refl)
  on_mode-Fine sk (ok mode) = on_endpoint-Fine sk (host.bind sk mode)

  on_key-Fine : (sk : Result keys.SecretKey) → Fine stores (on_key host flags sk)
  on_key-Fine (err e) = (refl, λ all. refl)
  on_key-Fine (ok sk) = on_mode-Fine sk (server_relay_mode relay flags.relay)

  on_refs_open-Fine : (e : Option Error) → Fine (objects_store ∷ []) (on_refs_open host flags e)
  on_refs_open-Fine (some e) = (refl, λ all. refl)
  on_refs_open-Fine none =
      with_defer-Fine refs_store (objects_store ∷ [])
        (on_key host flags
          (load_or_create_secret_key keys host.fresh_key host.write_error host.torn flags.key
            (host.key_file flags.key)).0)
        (on_key-Fine
          (load_or_create_secret_key keys host.fresh_key host.write_error host.torn flags.key
            (host.key_file flags.key)).0)

  on_objects_open-Fine : (e : Option Error) → Fine [] (on_objects_open host flags e)
  on_objects_open-Fine (some e) = (refl, λ all. refl)
  on_objects_open-Fine none =
      with_defer-Fine objects_store []
        (on_refs_open host flags (host.open_refs (host.join_path flags.store "refs")))
        (on_refs_open-Fine (host.open_refs (host.join_path flags.store "refs")))

  -- However the action ends, it has released all that it has opened, the last one first. Serve of an endpoint begins while this
  -- endpoint and both stores are held, and the addresses are published while the publisher is. If every data endpoint can be bound, then
  -- nothing is released before each Serve that has begun has returned. If the action sets the data ports, they are as many as the flag
  -- says, which is none for a negative flag and at most 15.
  pub main_action-Unwinds :
      Unwinds (data_endpoint_count flags.data_endpoints) [] (main_action host flags).1 []
      × (AllBind → Idles [] (main_action host flags).1 [])
      × (data_endpoint_count flags.data_endpoints ≤ 15)
  unfolding main_action
  main_action-Unwinds =
      let whole : Fine [] (main_action host flags) = elim (Bool-cases (str_eq flags.store "")) [
        | inl unset ↦ rw unset (refl, λ all. refl)
        | inr given ↦
            rw given
              (on_objects_open-Fine (host.open_objects (host.join_path flags.store "packstore")))
      ] in
      (whole.0, whole.1, few flags.data_endpoints)
