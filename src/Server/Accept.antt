-- ===== src/Server/Accept.antt =====
-- server/server.go, Serve and serveConn: the accept loops, the goroutines of the connections and of their streams, and the context,
-- interleaved in any order. A connection is a number, counted as it is accepted. What HandleStream does is elsewhere; here it runs and
-- then is done.
pub mod Shutdown
use amber_store_iroh.Prelude.{ℕ, zero, suc, ◌+◌, ◌<◌, ◌≡◌, Bool, true, false, ◌==◌, if◌then◌else◌}

-- Where serveConn stands: not begun, at AcceptStreamConn, at the deferred wg.Wait, at the deferred stop, at the deferred conn.Close,
-- returned.
pub data Phase : Type 0 where
  unborn : Phase
  accepting : Phase
  draining : Phase
  stopping : Phase
  closing : Phase
  finished : Phase

-- Where Serve stands: in its loop, waiting for the connections, returned because they are done, returned because the grace is over.
pub data Stage : Type 0 where
  looping : Stage
  waiting : Stage
  returned : Stage
  timed_out : Stage

-- `running` counts the handlers in flight on a connection, and `closed` says whether Close has been called on it.
pub record Accept : Type 0 where
  pub cancelled : Bool
  pub stage : Stage
  pub accepted : ℕ
  pub phase : ℕ → Phase
  pub running : ℕ → ℕ
  pub closed : ℕ → Bool

abbrev pub at_conn {ℓ} : {A : Type ℓ} → (ℕ → A) → ℕ → A → ℕ → A
at_conn f i a j = if j == i then a else f j

abbrev pub to_phase : ℕ → Phase → Accept → Accept
to_phase c p s = record s { phase = at_conn s.phase c p }

abbrev pub count_running : ℕ → ℕ → Accept → Accept
count_running c n s = record s { running = at_conn s.running c n }

abbrev pub close_conn : ℕ → Accept → Accept
close_conn c s = record s { closed = at_conn s.closed c true }

abbrev pub accept_conn : Accept → Accept
accept_conn s = record (to_phase s.accepted accepting s) { accepted = suc s.accepted }

-- Whether the function that context.AfterFunc has registered may still run.
abbrev pub watched : Phase → Bool
watched accepting = true
watched draining = true
watched stopping = true
watched other = false

pub data Step (s : Accept) : Accept → Type 0 where
  cancel : Step s (record s { cancelled = true })
  -- ep.Accept returns a connection; an error without a cancelled context leads back to the loop, with nothing changed.
  conn : s.stage ≡ looping → Step s (accept_conn s)
  -- AcceptStreamConn returns a stream, and its handler starts; the handler is done; AcceptStreamConn returns an error.
  stream : (c : ℕ) → s.phase c ≡ accepting → Step s (count_running c (suc (s.running c)) s)
  handled : (c n : ℕ) → s.running c ≡ suc n → Step s (count_running c n s)
  no_stream : (c : ℕ) → s.phase c ≡ accepting → Step s (to_phase c draining s)
  -- The deferred calls of serveConn, the last one first.
  drained : (c : ℕ) → s.phase c ≡ draining → s.running c ≡ 0 → Step s (to_phase c stopping s)
  stopped : (c : ℕ) → s.phase c ≡ stopping → Step s (to_phase c closing s)
  closed_conn : (c : ℕ) → s.phase c ≡ closing → Step s (close_conn c (to_phase c finished s))
  -- The context is cancelled, and the registered function closes the connection.
  after_func : (c : ℕ) → s.cancelled ≡ true → watched (s.phase c) ≡ true → Step s (close_conn c s)
  -- The end of Serve.
  leave : s.stage ≡ looping → s.cancelled ≡ true → Step s (record s { stage = waiting })
  done :
      s.stage ≡ waiting
      → ((c : ℕ) → c < s.accepted → s.phase c ≡ finished)
      → Step s (record s { stage = returned })
  grace_over : s.stage ≡ waiting → Step s (record s { stage = timed_out })

-- Serve is called, and nothing is accepted yet.
abbrev pub begun : Accept
begun = record {
  cancelled = false;
  stage = looping;
  accepted = 0;
  phase = λ c. unborn;
  running = λ c. 0;
  closed = λ c. false;
}

pub data Reach : Accept → Type 0 where
  start : Reach begun
  later : {s t : Accept} → Reach s → Step s t → Reach t
