-- ===== src/Client/Dial.antt =====
-- cmd/amber/dial.go: `raceConnect`, and `serverConn` with `Extra`, `remoteIP` and `Close`. go-iroh is the parameter `Iroh`: what it
-- answers may depend on all that was done before, which is kept in a log.
pub mod Race
pub mod Attach
pub mod Ledger
pub mod Held
pub mod Session
pub mod Discover
use amber_store_iroh.Prelude.{
  ℕ, zero, suc, ◌+◌, ◌-◌, ◌%◌, ◌==◌, String, Bool, true, false, List, [], ◌∷◌, ◌++◌, length, get_or,
  Option, none, some, if◌then◌else◌,
}
use amber_store_iroh.Protocol.Error.{Bytes, Error, Result, ok, err, message, joined, join}

-- An endpoint is bound and shut down, a connection is made and closed.
pub data Action (Endpoint Conn : Type 0) : Type 0 where
  bound : Endpoint → Action Endpoint Conn
  shut : Endpoint → Action Endpoint Conn
  connected : Conn → Action Endpoint Conn
  closed : Conn → Action Endpoint Conn

pub record Iroh : Type 1 where
  pub EndpointId : Type 0
  pub Ip : Type 0
  pub Endpoint : Type 0
  pub Conn : Type 0
  pub Candidate : Type 0
  pub bind : List (Action Endpoint Conn) → Result Endpoint
  -- What the concurrent calls of Connect, one for each candidate, return, in the order in which they return.
  pub connects :
      List (Action Endpoint Conn) → Endpoint → EndpointId → List Candidate → List (Result Conn)
  -- RemoteAddr of a connection as the IP of a *net.UDPAddr, none for another address; netip.AddrFromSlice; Unmap.
  pub remote_addr : Conn → Option Bytes
  pub addr_from_slice : Bytes → Option Ip
  pub unmap : Ip → Ip
  pub ip_candidate : Ip → ℕ → Candidate
  pub id_text : EndpointId → String
  pub sprintf : String → String → String

module _ (iroh : Iroh) where
  abbrev pub Log : Type 0
  Log = List (Action iroh.Endpoint iroh.Conn)

  -- Connections that came too late are closed: as many results as are still awaited.
  unfoldable pub close_late : ℕ → List (Result iroh.Conn) → Log
  close_late zero results = []
  close_late (suc n) [] = []
  close_late (suc n) (err e ∷ results) = close_late n results
  close_late (suc n) (ok conn ∷ results) = connected conn ∷ closed conn ∷ close_late n results

  -- errors.Join of the errors; there is at least one, since there is a candidate.
  abbrev pub no_winner : List (Option Error) → Result iroh.Conn × Log
  no_winner errs = elim (join errs) [ none ↦ (err (message ""), []) | some e ↦ (err e, []) ]

  -- The loop over the results, with the errors so far; `left` counts the results that are still awaited.
  unfoldable pub race_loop :
      ℕ → List (Result iroh.Conn) → List (Option Error) → Result iroh.Conn × Log
  unfolding close_late
  race_loop zero results errs = no_winner errs
  race_loop (suc left) [] errs = no_winner errs
  race_loop (suc left) (err e ∷ results) errs = race_loop left results (errs ++ some e ∷ [])
  race_loop (suc left) (ok conn ∷ results) errs =
      (ok conn, connected conn ∷ close_late left results)

  -- Every candidate is dialled at once, and the first connection wins.
  unfoldable pub race_connect :
      iroh.Endpoint → iroh.EndpointId → List iroh.Candidate → Log → Result iroh.Conn × Log
  unfolding race_loop
  race_connect ep id [] log =
      (err (message (iroh.sprintf "no candidate addresses for endpoint %s" (iroh.id_text id))), log)
  race_connect ep id (c ∷ cs) log =
      let (outcome, done) = race_loop (length (c ∷ cs)) (iroh.connects log ep id (c ∷ cs)) [] in
      (outcome, log ++ done)

  pub record ServerConn : Type 0 where
    pub conn : iroh.Conn
    pub ep : iroh.Endpoint
    pub id : iroh.EndpointId
    pub cands : List iroh.Candidate
    pub extra_eps : List iroh.Endpoint

  unfoldable pub remote_ip : ServerConn → Option iroh.Ip
  remote_ip s = elim (iroh.remote_addr s.conn) [
    | none ↦ none
    | some slice ↦ elim (iroh.addr_from_slice slice) [
      | none ↦ none
      | some ip ↦ some (iroh.unmap ip)
    ]
  ]

  -- The port of the i-th extra connection, on the address that the control connection reached.
  unfoldable pub candidates_for : ℕ → List ℕ → ServerConn → List iroh.Candidate
  unfolding remote_ip
  candidates_for i [] s = s.cands
  candidates_for i (p ∷ ports) s = elim (remote_ip s) [
    | none ↦ s.cands
    | some ip ↦ iroh.ip_candidate ip (get_or (p ∷ ports) (i % length (p ∷ ports)) 0) ∷ []
  ]

  abbrev pub keep_endpoint :
      iroh.Endpoint → ServerConn → Result iroh.Conn × Log → Result iroh.Conn × (ServerConn × Log)
  keep_endpoint ep s (ok conn, log) =
      (ok conn, (record s { extra_eps = s.extra_eps ++ ep ∷ [] }, log))
  keep_endpoint ep s (err e, log) = (err e, (s, log ++ shut ep ∷ []))

  -- A dedicated port may be filtered: then the candidates that reached the control stream race again.
  abbrev pub race_again :
      iroh.Endpoint → List ℕ → ServerConn → Result iroh.Conn × Log → Result iroh.Conn × Log
  race_again ep ports s (ok conn, log) = (ok conn, log)
  race_again ep [] s (err e, log) = (err e, log)
  race_again ep (p ∷ ports) s (err e, log) = race_connect ep s.id s.cands log

  -- The endpoint of the extra connection is bound: the race, and its outcome.
  abbrev pub on_bound :
      ℕ → List ℕ → ServerConn → Log → Result iroh.Endpoint → Result iroh.Conn × (ServerConn × Log)
  on_bound i ports s log (err e) = (err e, (s, log))
  on_bound i ports s log (ok ep) = keep_endpoint ep s (
      race_again ep ports s
        (race_connect ep s.id (candidates_for i ports s) (log ++ bound ep ∷ [])))

  -- serverConn.Extra.
  unfoldable pub extra : ℕ → List ℕ → ServerConn → Log → Result iroh.Conn × (ServerConn × Log)
  extra i ports s log = on_bound i ports s log (iroh.bind log)

  abbrev pub shut_all : List iroh.Endpoint → Log
  shut_all [] = []
  shut_all (ep ∷ eps) = shut ep ∷ shut_all eps

  -- serverConn.Close.
  unfoldable pub close : ServerConn → Log → ServerConn × Log
  close s log =
      (record s { extra_eps = [] }, log ++ closed s.conn ∷ shut s.ep ∷ shut_all s.extra_eps)
