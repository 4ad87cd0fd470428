-- ===== src/Server/Accept/Shutdown.antt =====
-- When connections are closed, and when Serve returns.
use amber_store_iroh.Prelude.{ℕ, ◌<◌, ◌≤◌, ◌≡◌, ◌≢◌, refl, Bool, true, false, inl, ◌⊎◌, arith}
use amber_store_iroh.Server.Accept.{
  Phase, unborn, accepting, draining, finished, looping, returned, Accept, Step, cancel, conn,
  stream, handled, no_stream, drained, stopped, closed_conn, after_func, leave, done, grace_over,
  begun, Reach, start, later,
}

-- Whether handlers may be running on a connection in the phase.
abbrev pub busy : Phase → Bool
busy accepting = true
busy draining = true
busy other = false

pub record Inv (s : Accept) : Type 0 where
  pub quiet : (c : ℕ) → busy (s.phase c) ≡ false → s.running c ≡ 0
  pub known : (c : ℕ) → s.accepted ≤ c → s.phase c ≡ unborn
  pub why : (c : ℕ) → s.closed c ≡ true → (s.cancelled ≡ true) ⊎ (s.phase c ≡ finished)
  pub shut : (c : ℕ) → s.phase c ≡ finished → s.closed c ≡ true
  pub left : s.stage ≢ looping → s.cancelled ≡ true
  pub all_done : s.stage ≡ returned → (c : ℕ) → c < s.accepted → s.phase c ≡ finished

begun-Inv : Inv begun
begun-Inv = record {
  quiet = λ c e. refl;
  known = λ c e. refl;
  why = λ c e. absurd (ground arith);
  shut = λ c e. absurd (ground arith);
  left = λ h. absurd (h refl);
  all_done = λ e c lt. absurd (ground arith);
}

Step-Inv : {s t : Accept} → Step s t → Inv s → Inv t
Step-Inv {s} cancel inv = record {
  quiet = inv.quiet;
  known = inv.known;
  why = λ c e. inl refl;
  shut = inv.shut;
  left = λ h. refl;
  all_done = inv.all_done;
}
Step-Inv {s} (conn e) inv = record {
  quiet = λ c x. ground (arith, inv.quiet c);
  known = λ c x. ground (arith, inv.known c);
  why = λ c x. ground (arith, inv.why c, inv.known s.accepted);
  shut = λ c x. ground (arith, inv.shut c);
  left = λ h. absurd (h e);
  all_done = λ x c lt. absurd (ground arith);
}
Step-Inv {s} (stream c e) inv = record {
  quiet = λ k x. ground (arith, inv.quiet k, inv.quiet c);
  known = λ k x. ground (arith, inv.known k);
  why = λ k x. ground (arith, inv.why k);
  shut = λ k x. ground (arith, inv.shut k);
  left = inv.left;
  all_done = λ x k lt. ground (arith, inv.all_done x k lt, inv.known c);
}
Step-Inv {s} (handled c n e) inv = record {
  quiet = λ k x. ground (arith, inv.quiet k, inv.quiet c);
  known = λ k x. ground (arith, inv.known k);
  why = λ k x. ground (arith, inv.why k);
  shut = λ k x. ground (arith, inv.shut k);
  left = inv.left;
  all_done = λ x k lt. ground (arith, inv.all_done x k lt, inv.known c);
}
Step-Inv {s} (no_stream c e) inv = record {
  quiet = λ k x. ground (arith, inv.quiet k, inv.quiet c);
  known = λ k x. ground (arith, inv.known k);
  why = λ k x. ground (arith, inv.why k);
  shut = λ k x. ground (arith, inv.shut k);
  left = inv.left;
  all_done = λ x k lt. ground (arith, inv.all_done x k lt, inv.known c);
}
Step-Inv {s} (drained c e e_running) inv = record {
  quiet = λ k x. ground (arith, inv.quiet k, inv.quiet c);
  known = λ k x. ground (arith, inv.known k);
  why = λ k x. ground (arith, inv.why k);
  shut = λ k x. ground (arith, inv.shut k);
  left = inv.left;
  all_done = λ x k lt. ground (arith, inv.all_done x k lt, inv.known c);
}
Step-Inv {s} (stopped c e) inv = record {
  quiet = λ k x. ground (arith, inv.quiet k, inv.quiet c);
  known = λ k x. ground (arith, inv.known k);
  why = λ k x. ground (arith, inv.why k);
  shut = λ k x. ground (arith, inv.shut k);
  left = inv.left;
  all_done = λ x k lt. ground (arith, inv.all_done x k lt, inv.known c);
}
Step-Inv {s} (closed_conn c e) inv = record {
  quiet = λ k x. ground (arith, inv.quiet k, inv.quiet c);
  known = λ k x. ground (arith, inv.known k);
  why = λ k x. ground (arith, inv.why k);
  shut = λ k x. ground (arith, inv.shut k);
  left = inv.left;
  all_done = λ x k lt. ground (arith, inv.all_done x k lt, inv.known c);
}
Step-Inv {s} (after_func c e e_watched) inv = record {
  quiet = λ k x. ground (arith, inv.quiet k, inv.quiet c);
  known = λ k x. ground (arith, inv.known k);
  why = λ k x. ground (arith, inv.why k);
  shut = λ k x. ground (arith, inv.shut k);
  left = inv.left;
  all_done = λ x k lt. ground (arith, inv.all_done x k lt, inv.known c);
}
Step-Inv {s} (leave e is_cancelled) inv = record {
  quiet = inv.quiet;
  known = inv.known;
  why = inv.why;
  shut = inv.shut;
  left = λ h. is_cancelled;
  all_done = λ x k lt. ground arith;
}
Step-Inv {s} (done e all) inv = record {
  quiet = inv.quiet;
  known = inv.known;
  why = inv.why;
  shut = inv.shut;
  left = λ h. ground (arith, inv.left);
  all_done = λ x. all;
}
Step-Inv {s} (grace_over e) inv = record {
  quiet = inv.quiet;
  known = inv.known;
  why = inv.why;
  shut = inv.shut;
  left = λ h. ground (arith, inv.left);
  all_done = λ x k lt. ground arith;
}

Reach-Inv : {s : Accept} → Reach s → Inv s
Reach-Inv start = begun-Inv
Reach-Inv (later r st) = Step-Inv st (Reach-Inv r)

-- As long as the context is not cancelled, a connection is only closed when the deferred calls of serveConn have come to it, and then no
-- handler of its streams runs any more. Serve only returns behind a cancel; and if it returns before the grace is over, then every connection
-- that it has accepted is closed, and none of their handlers runs.
pub serve_shutdown :
    {s : Accept}
    → Reach s
    → ((c : ℕ)
        → s.cancelled ≡ false
        → s.closed c ≡ true
        → (s.phase c ≡ finished) × (s.running c ≡ 0))
      × (s.stage ≢ looping → s.cancelled ≡ true)
      × (s.stage ≡ returned → (c : ℕ) → c < s.accepted → (s.closed c ≡ true) × (s.running c ≡ 0))
serve_shutdown {s} r =
    let inv = Reach-Inv r in
    (
      λ c alive e. (ground (arith, inv.why c), ground (arith, inv.why c, inv.quiet c)),
      inv.left,
      λ e c lt. let end = inv.all_done e c lt in (inv.shut c end, ground (arith, inv.quiet c, end)),
    )
