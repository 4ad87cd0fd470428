-- ===== src/Client/Dial/Race.antt =====
-- Which connection wins a race, and that no other one is left open.
use amber_store_iroh.Prelude.{
  suc, ◌≡◌, refl, sym, ap, ◌∙◌, List, [], ◌∷◌, ◌++◌, append_assoc, append-nil, length, Option, some,
}
use amber_store_iroh.Protocol.Error.{Error, Result, ok, err}
use amber_store_iroh.Client.Dial.{
  connected, closed, Iroh, Log, close_late, no_winner, race_loop, race_connect,
}

-- The connections that were made, in the order in which they came.
abbrev pub successes {ℓ} : {A : Type ℓ} → List (Result A) → List A
successes [] = []
successes (err e ∷ results) = successes results
successes (ok a ∷ results) = a ∷ successes results

abbrev pub failures {ℓ} : {A : Type ℓ} → List (Result A) → List (Option Error)
failures [] = []
failures (err e ∷ results) = some e ∷ failures results
failures (ok a ∷ results) = failures results

module _ (iroh : Iroh) where
  -- Each of the connections is made and then closed.
  abbrev pub made_and_closed : List iroh.Conn → Log iroh
  made_and_closed [] = []
  made_and_closed (c ∷ cs) = connected c ∷ closed c ∷ made_and_closed cs

  close_late_lem :
      (results : List (Result iroh.Conn))
      → close_late iroh (length results) results ≡ made_and_closed (successes results)
  unfolding close_late
  close_late_lem [] = refl
  close_late_lem (err e ∷ results) = close_late_lem results
  close_late_lem (ok c ∷ results) = ap (λ l. connected c ∷ closed c ∷ l) (close_late_lem results)

  -- What a race comes to.
  abbrev pub race_of : List iroh.Conn → List (Option Error) → Result iroh.Conn × Log iroh
  race_of [] errs = no_winner iroh errs
  race_of (c ∷ late) errs = (ok c, connected c ∷ made_and_closed late)

  -- Errors do not matter once there is a winner.
  abbrev after_errors : List (Option Error) → List (Result iroh.Conn) → Result iroh.Conn × Log iroh
  after_errors errs results = race_of (successes results) (errs ++ failures results)

  race_loop_lem :
      (results : List (Result iroh.Conn)) (errs : List (Option Error))
      → race_loop iroh (length results) results errs ≡ after_errors errs results
  unfolding race_loop
  race_loop_lem [] errs = ap (no_winner iroh) (sym (append-nil errs))
  race_loop_lem (err e ∷ results) errs =
      race_loop_lem results (errs ++ some e ∷ [])
      ∙ ap (race_of (successes results)) (append_assoc errs (some e ∷ []) (failures results))
  race_loop_lem (ok c ∷ results) errs = ap (λ l. (ok c, connected c ∷ l)) (close_late_lem results)

  -- If every candidate's call of Connect returns once, then the first connection to be made wins, every later one is closed, and
  -- if none is made the error joins those of all candidates, in the order in which they came. Nothing else is done.
  pub race_connect_lem :
      (ep : iroh.Endpoint) (id : iroh.EndpointId) (c : iroh.Candidate) (cs : List iroh.Candidate)
      (log : Log iroh)
      → length (iroh.connects log ep id (c ∷ cs)) ≡ suc (length cs)
      → let results = iroh.connects log ep id (c ∷ cs) in
        let race = race_of (successes results) (failures results) in
        race_connect iroh ep id (c ∷ cs) log ≡ (race.0, log ++ race.1)
  unfolding race_connect
  race_connect_lem ep id c cs log all =
      let results = iroh.connects log ep id (c ∷ cs) in
      ap (λ n. let race = race_loop iroh n results [] in (race.0, log ++ race.1)) (sym all)
      ∙ ap (λ race. (race.0, log ++ race.1)) (race_loop_lem results [])
