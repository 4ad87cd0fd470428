-- ===== src/Client/Dial/Ledger.antt =====
-- Endpoints and connections as a ledger: how often each is opened and closed in a log.
use amber_store_iroh.Prelude.{
  ℕ, zero, suc, ◌+◌, ◌≡◌, refl, List, [], ◌∷◌, ◌++◌, length, Option, Option-cases, some, inl, inr,
  Eq, if◌then◌else◌, arith,
}
use amber_store_iroh.Protocol.Error.{Error, Result, ok, err, join}
use amber_store_iroh.Client.Dial.{
  Action, bound, shut, connected, closed, Iroh, Log, close_late, race_loop, race_connect,
}

module _ {A : Type 0} where
  -- The sum of the weights of a list.
  unfoldable pub tally : (A → ℕ) → List A → ℕ
  tally w [] = 0
  tally w (a ∷ rest) = w a + tally w rest

  pub tally-append : (w : A → ℕ) (xs ys : List A) → tally w (xs ++ ys) ≡ tally w xs + tally w ys
  unfolding tally
  tally-append w [] ys = omega arith
  tally-append w (x ∷ xs) ys = omega (arith, tally-append w xs ys)

module _ {A : Type 0} ⦃e : Eq A⦄ where
  abbrev pub is_one : A → A → ℕ
  is_one a b = if e.beq a b then 1 else 0

module _ (iroh : Iroh) ⦃eq_ep : Eq iroh.Endpoint⦄ ⦃eq_conn : Eq iroh.Conn⦄ where
  abbrev pub Weight : Type 0
  Weight = Action iroh.Endpoint iroh.Conn → ℕ

  abbrev pub is_bound : iroh.Endpoint → Weight
  is_bound ep (bound x) = is_one ep x
  is_bound ep _ = 0

  abbrev pub is_shut : iroh.Endpoint → Weight
  is_shut ep (shut x) = is_one ep x
  is_shut ep _ = 0

  abbrev pub is_connected : iroh.Conn → Weight
  is_connected conn (connected x) = is_one conn x
  is_connected conn _ = 0

  abbrev pub is_closed : iroh.Conn → Weight
  is_closed conn (closed x) = is_one conn x
  is_closed conn _ = 0

  -- The endpoints and the connections that are open at the end of a log, each as often as it is open.
  pub record Open (eps : List iroh.Endpoint) (conns : List iroh.Conn) (log : Log iroh)
      : Type 0 where
    pub endpoints :
        (ep : iroh.Endpoint)
        → tally (is_bound ep) log ≡ tally (is_shut ep) log + tally (is_one ep) eps
    pub connections :
        (conn : iroh.Conn)
        → tally (is_connected conn) log ≡ tally (is_closed conn) log + tally (is_one conn) conns

  abbrev pub winner : Result iroh.Conn → List iroh.Conn
  winner (ok conn) = conn ∷ []
  winner (err e) = []

  -- Two parts of a log, one after the other.
  pub Open-append :
      {eps eps' : List iroh.Endpoint} {conns conns' : List iroh.Conn} {log log' : Log iroh}
      → Open eps conns log
      → Open eps' conns' log'
      → Open (eps' ++ eps) (conns' ++ conns) (log ++ log')
  Open-append {eps} {eps'} {conns} {conns'} {log} {log'} o o' = record {
    endpoints = λ ep. omega (
      arith,
      o.endpoints ep,
      o'.endpoints ep,
      tally-append (is_bound ep) log log',
      tally-append (is_shut ep) log log',
      tally-append (is_one ep) eps' eps,
    );
    connections = λ c. omega (
      arith,
      o.connections c,
      o'.connections c,
      tally-append (is_connected c) log log',
      tally-append (is_closed c) log log',
      tally-append (is_one c) conns' conns,
    );
  }

  pub Open-bound :
      {eps : List iroh.Endpoint} {conns : List iroh.Conn} {log : Log iroh} (ep : iroh.Endpoint)
      → Open eps conns log
      → Open (ep ∷ eps) conns (log ++ bound ep ∷ [])
  unfolding tally
  Open-bound {eps} {conns} {log} ep o = record {
    endpoints = λ x. omega (
      arith,
      o.endpoints x,
      tally-append (is_bound x) log (bound ep ∷ []),
      tally-append (is_shut x) log (bound ep ∷ []),
    );
    connections = λ c. omega (
      arith,
      o.connections c,
      tally-append (is_connected c) log (bound ep ∷ []),
      tally-append (is_closed c) log (bound ep ∷ []),
    );
  }

  pub Open-shut :
      {eps : List iroh.Endpoint} {conns : List iroh.Conn} {log : Log iroh} (ep : iroh.Endpoint)
      → Open (ep ∷ eps) conns log
      → Open eps conns (log ++ shut ep ∷ [])
  unfolding tally
  Open-shut {eps} {conns} {log} ep o = record {
    endpoints = λ x. omega (
      arith,
      o.endpoints x,
      tally-append (is_bound x) log (shut ep ∷ []),
      tally-append (is_shut x) log (shut ep ∷ []),
    );
    connections = λ c. omega (
      arith,
      o.connections c,
      tally-append (is_connected c) log (shut ep ∷ []),
      tally-append (is_closed c) log (shut ep ∷ []),
    );
  }

  pub Open-closed :
      {eps : List iroh.Endpoint} {conns : List iroh.Conn} {log : Log iroh} (conn : iroh.Conn)
      → Open eps (conn ∷ conns) log
      → Open eps conns (log ++ closed conn ∷ [])
  unfolding tally
  Open-closed {eps} {conns} {log} conn o = record {
    endpoints = λ x. omega (
      arith,
      o.endpoints x,
      tally-append (is_bound x) log (closed conn ∷ []),
      tally-append (is_shut x) log (closed conn ∷ []),
    );
    connections = λ c. omega (
      arith,
      o.connections c,
      tally-append (is_connected c) log (closed conn ∷ []),
      tally-append (is_closed c) log (closed conn ∷ []),
    );
  }

  -- The endpoint at the end of a list is the one at its front.
  pub Open-last :
      {eps : List iroh.Endpoint} {conns : List iroh.Conn} {log : Log iroh} (ep own : iroh.Endpoint)
      → Open (ep ∷ own ∷ eps) conns log
      → Open (own ∷ eps ++ ep ∷ []) conns log
  unfolding tally
  Open-last {eps} {conns} {log} ep own o = record {
    endpoints = λ x. omega (arith, o.endpoints x, tally-append (is_one x) eps (ep ∷ []));
    connections = o.connections;
  }

  -- The connection in the middle of a list is the one at its front.
  pub Open-middle :
      {eps : List iroh.Endpoint} {log : Log iroh} (cs conns : List iroh.Conn) (c : iroh.Conn)
      → Open eps (cs ++ c ∷ conns) log
      → Open eps ((c ∷ cs) ++ conns) log
  unfolding tally
  Open-middle {eps} {log} cs conns c o = record {
    endpoints = o.endpoints;
    connections = λ x. omega (
      arith,
      o.connections x,
      tally-append (is_one x) cs (c ∷ conns),
      tally-append (is_one x) cs conns,
    );
  }

  close_late-Open :
      (n : ℕ) (results : List (Result iroh.Conn)) → Open [] [] (close_late iroh n results)
  unfolding tally close_late
  close_late-Open zero results = record { endpoints = λ ep. refl; connections = λ c. refl }
  close_late-Open (suc n) [] = record { endpoints = λ ep. refl; connections = λ c. refl }
  close_late-Open (suc n) (err e ∷ results) = close_late-Open n results
  close_late-Open (suc n) (ok conn ∷ results) =
      let o = close_late-Open n results in
      record {
        endpoints = λ ep. omega (arith, o.endpoints ep);
        connections = λ c. omega (arith, o.connections c);
      }

  -- A race leaves open nothing but the connection that wins.
  race_loop-Open :
      (left : ℕ) (results : List (Result iroh.Conn)) (errs : List (Option Error))
      → Open [] (winner (race_loop iroh left results errs).0) (race_loop iroh left results errs).1
  unfolding tally race_loop
  race_loop-Open zero results errs = elim (Option-cases (join errs)) [
    | inl nothing ↦ record { endpoints = λ ep. ground arith; connections = λ c. ground arith }
    | inr (e, some_error) ↦ record {
      endpoints = λ ep. ground arith;
      connections = λ c. ground arith;
    }
  ]
  race_loop-Open (suc left) [] errs = elim (Option-cases (join errs)) [
    | inl nothing ↦ record { endpoints = λ ep. ground arith; connections = λ c. ground arith }
    | inr (e, some_error) ↦ record {
      endpoints = λ ep. ground arith;
      connections = λ c. ground arith;
    }
  ]
  race_loop-Open (suc left) (err e ∷ results) errs =
      race_loop-Open left results (errs ++ some e ∷ [])
  race_loop-Open (suc left) (ok conn ∷ results) errs =
      let o = close_late-Open left results in
      record {
        endpoints = λ ep. omega (arith, o.endpoints ep);
        connections = λ c. omega (arith, o.connections c);
      }

  pub race_connect-Open :
      {eps : List iroh.Endpoint} {conns : List iroh.Conn} (ep : iroh.Endpoint)
      (id : iroh.EndpointId) (cs : List iroh.Candidate) (log : Log iroh)
      → Open eps conns log
      → Open eps
          (winner (race_connect iroh ep id cs log).0 ++ conns)
          (race_connect iroh ep id cs log).1
  unfolding race_connect
  race_connect-Open ep id [] log o = o
  race_connect-Open ep id (c ∷ cs) log o =
      Open-append o (race_loop-Open (length (c ∷ cs)) (iroh.connects log ep id (c ∷ cs)) [])
