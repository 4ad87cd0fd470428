-- ===== src/Client/Dial/Session.antt =====
-- From dialing to Close, every endpoint that is bound is shut down, and every connection that is made is closed.
use amber_store_iroh.Prelude.{
  ℕ, zero, suc, ◌+◌, ◌≡◌, refl, sym, subst, String, List, [], ◌∷◌, ◌++◌, map, Option, none, some,
  Eq, arith,
}
use amber_store_iroh.Protocol.Error.{Bytes, Error, Result, ok, err}
use amber_store_iroh.Protocol.Frame.{Codec}
use amber_store_iroh.Relay.{RelayLibrary, from_flag}
use amber_store_iroh.Client.Dial.{bound, Iroh, Log, race_connect, ServerConn, extra, close}
use amber_store_iroh.Client.Dial.Ledger.{Open, Open-bound, Open-shut, winner, race_connect-Open}
use amber_store_iroh.Client.Dial.Attach.{OpenStream, attach_loop, close_attached}
use amber_store_iroh.Client.Dial.Discover.{
  Discovery, parse_direct_addrs, resolve_loop, Dialed, finish_dial, bound_direct, parsed_direct,
  dial_found, bound_found, prepared, dial_id, dial_server,
}
use amber_store_iroh.Client.Dial.Held.{owned, close-Open, attach_loop-Holds, close_attached-Open}

module _ (iroh : Iroh) ⦃eq_ep : Eq iroh.Endpoint⦄ ⦃eq_conn : Eq iroh.Conn⦄ (net : Discovery iroh)
    (relay : RelayLibrary) where
  -- What dialing leaves open: nothing on an error, else the control connection and its endpoint.
  abbrev pub DialLeaves : Dialed iroh net → Type 0
  DialLeaves (err e, log) = Open iroh [] [] log
  DialLeaves (ok s, log) = Open iroh (owned iroh s) (s.conn ∷ []) log

  finish_dial-Leaves :
      (ep : iroh.Endpoint) (id : iroh.EndpointId) (cands : List iroh.Candidate)
      (race : Result iroh.Conn × Log iroh)
      → Open iroh (ep ∷ []) (winner iroh race.0 ++ []) race.1
      → DialLeaves (finish_dial iroh net ep id cands race)
  finish_dial-Leaves ep id cands (ok conn, log) o = o
  finish_dial-Leaves ep id cands (err e, log) o = Open-shut iroh ep o

  bound_direct-Leaves :
      (id : iroh.EndpointId) (aps : List (iroh.Ip × ℕ)) (log : Log iroh) (b : Result iroh.Endpoint)
      → Open iroh [] [] log
      → DialLeaves (bound_direct iroh net id aps log b)
  bound_direct-Leaves id aps log (err e) o = o
  bound_direct-Leaves id aps log (ok ep) o =
      let cands = map (λ (ap : iroh.Ip × ℕ). iroh.ip_candidate ap.0 ap.1) aps in
      finish_dial-Leaves ep id cands (race_connect iroh ep id cands (log ++ bound ep ∷ []))
        (race_connect-Open iroh ep id cands (log ++ bound ep ∷ []) (Open-bound iroh ep o))

  dial_found-Leaves :
      (ep : iroh.Endpoint) (id : iroh.EndpointId) (log : Log iroh)
      (found : Option (List iroh.Candidate) × Option Error)
      → Open iroh (ep ∷ []) [] log
      → DialLeaves (dial_found iroh net ep id log found)
  dial_found-Leaves ep id log (none, last_err) o = Open-shut iroh ep o
  dial_found-Leaves ep id log (some cands, last_err) o =
      finish_dial-Leaves ep id cands (race_connect iroh ep id cands log)
        (race_connect-Open iroh ep id cands log o)

  bound_found-Leaves :
      (id : iroh.EndpointId) (log : Log iroh) (b : Result iroh.Endpoint)
      → Open iroh [] [] log
      → DialLeaves (bound_found iroh net id log b)
  bound_found-Leaves id log (err e) o = o
  bound_found-Leaves id log (ok ep) o =
      dial_found-Leaves ep id (log ++ bound ep ∷ [])
        (resolve_loop iroh net (net.resolve id) none none) (Open-bound iroh ep o)

  prepared-Leaves :
      (id : iroh.EndpointId) (log : Log iroh) (key resolver : Option Error)
      (mode : Result relay.Mode)
      → Open iroh [] [] log
      → DialLeaves (prepared iroh net relay id log key resolver mode)
  prepared-Leaves id log (some e) resolver mode o = o
  prepared-Leaves id log none (some e) mode o = o
  prepared-Leaves id log none none (err e) o = o
  prepared-Leaves id log none none (ok mode) o = bound_found-Leaves id log (iroh.bind log) o

  parsed_direct-Leaves :
      (id : iroh.EndpointId) (log : Log iroh) (aps : Result (List (iroh.Ip × ℕ)))
      → Open iroh [] [] log
      → DialLeaves (parsed_direct iroh net id log aps)
  parsed_direct-Leaves id log (err e) o = o
  parsed_direct-Leaves id log (ok aps) o = bound_direct-Leaves id aps log (iroh.bind log) o

  dial_id-Leaves :
      (addrs : List String) (relay_url : String) (log : Log iroh) (id : Result iroh.EndpointId)
      → Open iroh [] [] log
      → DialLeaves (dial_id iroh net relay addrs relay_url log id)
  dial_id-Leaves [] relay_url log (err e) o = o
  dial_id-Leaves (a ∷ addrs) relay_url log (err e) o = o
  dial_id-Leaves [] relay_url log (ok id) o =
      prepared-Leaves id log net.generate_key net.pkarr_resolver (from_flag relay relay_url) o
  dial_id-Leaves (a ∷ addrs) relay_url log (ok id) o =
      parsed_direct-Leaves id log (parse_direct_addrs iroh net (a ∷ addrs)) o

  dial_server-Leaves :
      (server : String) (addrs : List String) (relay_url : String) (log : Log iroh)
      → Open iroh [] [] log
      → DialLeaves (dial_server iroh net relay server addrs relay_url log)
  unfolding dial_server
  dial_server-Leaves server addrs relay_url log o =
      dial_id-Leaves addrs relay_url log (net.parse_id server) o

  -- The log of a whole command: dialing, attaching up to n extra streams, closing them, and Close.
  abbrev pub session_log : Codec → OpenStream iroh → Bytes → List ℕ → ℕ → Dialed iroh net → Log iroh
  session_log codec open_stream token ports n (err e, log) = log
  session_log codec open_stream token ports n (ok s, log) =
      let (streams, (s', log')) = attach_loop iroh codec open_stream token ports n 0 s log in
      (close iroh s' (log' ++ close_attached iroh streams)).1

  extra-conn :
      (i : ℕ) (ports : List ℕ) (s : ServerConn iroh) (log : Log iroh)
      → (extra iroh i ports s log).1.0.conn ≡ s.conn
  unfolding extra
  extra-conn i ports s log = ground arith

  attach_loop-conn :
      (codec : Codec) (open_stream : OpenStream iroh) (token : Bytes) (ports : List ℕ) (n i : ℕ)
      (s : ServerConn iroh) (log : Log iroh)
      → (attach_loop iroh codec open_stream token ports n i s log).1.0.conn ≡ s.conn
  unfolding attach_loop
  attach_loop-conn codec open_stream token ports zero i s log = refl
  attach_loop-conn codec open_stream token ports (suc n) i s log =
      let (outcome, (s', log')) = extra iroh i ports s log in
      ground (
        arith,
        extra-conn i ports s log,
        attach_loop-conn codec open_stream token ports n (i + 1) s' log',
      )

  session-Open :
      (codec : Codec) (open_stream : OpenStream iroh) (token : Bytes) (ports : List ℕ) (n : ℕ)
      (d : Dialed iroh net)
      → DialLeaves d
      → Open iroh [] [] (session_log codec open_stream token ports n d)
  session-Open codec open_stream token ports n (err e, log) o = o
  session-Open codec open_stream token ports n (ok s, log) o =
      let (streams, (s', log')) = attach_loop iroh codec open_stream token ports n 0 s log in
      let same = attach_loop-conn codec open_stream token ports n 0 s log in
      let held = attach_loop-Holds iroh codec open_stream token ports n 0 (s.conn ∷ []) s log o in
      close-Open iroh s' (log' ++ close_attached iroh streams) (
        subst (λ c. Open iroh (owned iroh s') (c ∷ []) (log' ++ close_attached iroh streams))
          (sym same)
          (close_attached-Open iroh codec open_stream token ports (s.conn ∷ []) streams log' held))

  -- From dialing to Close, whatever fails on the way: if every endpoint and every connection of the log before was shut down or
  -- closed, then so it is behind the command, with the endpoints and connections of the extra streams and of the races that were lost.
  pub dial_session-Open :
      (codec : Codec) (open_stream : OpenStream iroh) (token : Bytes) (ports : List ℕ) (n : ℕ)
      (server : String) (addrs : List String) (relay_url : String) (log : Log iroh)
      → Open iroh [] [] log
      → Open iroh [] [] (
          session_log codec open_stream token ports n
            (dial_server iroh net relay server addrs relay_url log))
  dial_session-Open codec open_stream token ports n server addrs relay_url log o =
      session-Open codec open_stream token ports n
        (dial_server iroh net relay server addrs relay_url log)
        (dial_server-Leaves server addrs relay_url log o)
