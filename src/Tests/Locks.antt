-- ===== src/Tests/Locks.antt =====
-- Witnesses of the theorems about the locks of names: two handlers push the same name, and one of them is ahead.
use amber_store_iroh.Prelude.{ℕ, ◌≡◌, ◌≢◌, refl, Option, none, some, arith}
use amber_store_iroh.Server.Locks.{
  outside, at_mu, Locks, moved, advance, call, go, unlocked, Reach, start, later,
}
use amber_store_iroh.Server.Locks.Exclusion.{WaitsFor, mutual_exclusion, no_deadlock}

abbrev or_same : Locks → Option Locks → Locks
or_same s none = s
or_same s (some t) = t

abbrev on : ℕ → Locks → Locks
on h s = or_same s (advance h (s.place h) s)

abbrev begun : Locks
begun = moved 1 (at_mu "n") (moved 0 (at_mu "n") unlocked)

-- Handler 0 holds the mutex, handler 1 waits for it.
abbrev contended : Locks
contended = on 1 (on 1 (on 1 (on 0 (on 0 (on 0 (on 0 (on 0 begun)))))))

contended-Reach : Reach contended
unfolding advance
contended-Reach =
    let r = later (later start (call 0 "n" refl)) (call 1 "n" refl) in
    let ahead =
      later (later (later (later (later r (go 0 refl)) (go 0 refl)) (go 0 refl)) (go 0 refl))
        (go 0 refl) in
    later (later (later ahead (go 1 refl)) (go 1 refl)) (go 1 refl)

mutual_exclusion_example : ◌≡◌ {A = ℕ} 0 0
unfolding advance
mutual_exclusion_example = mutual_exclusion contended-Reach 0 0 "n" 0 0 refl refl

waits : contended.place 1 ≢ outside
unfolding advance
waits e = absurd (ground arith)

no_deadlock_example :
    (k : ℕ) × WaitsFor (contended.place 1) (contended.place k)
    × ((t : Locks) × (advance k (contended.place k) contended ≡ some t))
unfolding advance
no_deadlock_example = no_deadlock contended-Reach 1 waits refl
