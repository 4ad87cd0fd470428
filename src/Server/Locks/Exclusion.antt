-- ===== src/Server/Locks/Exclusion.antt =====
-- Who waits for whom in lockRef.
use amber_store_iroh.Prelude.{
  ℕ, ◌≡◌, ◌≢◌, refl, String, true, false, none, some, Option-cases, inl, inr, arith,
}
use amber_store_iroh.Server.Locks.{
  Place, outside, at_mu, looking, making, leaving, at_lock, holding, Locks, moved, at_index,
  look_up, make_lock, advance, Reach,
}
use amber_store_iroh.Server.Locks.Invariant.{inside, holds, Inv, Reach-Inv}

-- Two handlers never commit the same name at the same time, in whatever order the handlers of the server have taken their steps.
pub mutual_exclusion :
    {s : Locks}
    → Reach s
    → (h k : ℕ) (name : String) (l j : ℕ) → s.place h ≡ holding name l
    → s.place k ≡ holding name j
    → h ≡ k
mutual_exclusion {s} r h k name l j at_h at_k =
    let inv = Reach-Inv r in
    ground (arith, inv.named h name l, inv.named k name j, inv.owned h l, inv.owned k l)

-- What the one waits for is what the other one has: `s.mu`, or the mutex of the same name.
abbrev pub WaitsFor : Place → Place → Type 0
WaitsFor (at_mu name) q = inside q ≡ true
WaitsFor (at_lock name l) q = q ≡ holding name l
WaitsFor outside q = true ≡ false
WaitsFor (looking name) q = true ≡ false
WaitsFor (making name) q = true ≡ false
WaitsFor (leaving name l) q = true ≡ false
WaitsFor (holding name l) q = true ≡ false

inside_goes :
    (k : ℕ) (q : Place) (s : Locks) → inside q ≡ true → (t : Locks) × (advance k q s ≡ some t)
unfolding advance
inside_goes k (looking name) s e = (look_up k name (s.ref_locks name) s, refl)
inside_goes k (making name) s e = (make_lock k name s, refl)
inside_goes k (leaving name l) s e = (moved k (at_lock name l) (record s { mu = none }), refl)
inside_goes k outside s e = absurd (ground arith)
inside_goes k (at_mu name) s e = absurd (ground arith)
inside_goes k (at_lock name l) s e = absurd (ground arith)
inside_goes k (holding name l) s e = absurd (ground arith)

holds_goes :
    (k : ℕ) (q : Place) (l : ℕ) (s : Locks)
    → holds q l ≡ true
    → (name : String) × (q ≡ holding name l) × (t : Locks) × (advance k q s ≡ some t)
unfolding advance
holds_goes k (holding name j) l s e =
    (name, ground arith, moved k outside (record s { holder = at_index s.holder j none }), refl)
holds_goes k outside l s e = absurd (ground arith)
holds_goes k (at_mu name) l s e = absurd (ground arith)
holds_goes k (at_lock name j) l s e = absurd (ground arith)
holds_goes k (making name) l s e = absurd (ground arith)
holds_goes k (looking name) l s e = absurd (ground arith)
holds_goes k (leaving name j) l s e = absurd (ground arith)

waiting :
    (s : Locks)
    → Inv s
    → (h : ℕ) (p : Place) → s.place h ≡ p
    → p ≢ outside
    → advance h p s ≡ none
    → (k : ℕ) × WaitsFor p (s.place k) × ((t : Locks) × (advance k (s.place k) s ≡ some t))
unfolding advance
waiting s inv h outside e in_it stuck = absurd (in_it refl)
waiting s inv h (looking name) e in_it stuck = absurd (ground arith)
waiting s inv h (making name) e in_it stuck = absurd (ground arith)
waiting s inv h (leaving name l) e in_it stuck = absurd (ground arith)
waiting s inv h (holding name l) e in_it stuck = absurd (ground arith)
waiting s inv h (at_mu name) e in_it stuck = elim (Option-cases s.mu) [
  | inl free ↦ absurd (ground arith)
  | inr (k, taken) ↦ let busy = inv.occupied k taken in (k, busy, inside_goes k (s.place k) s busy)
]
waiting s inv h (at_lock name l) e in_it stuck = elim (Option-cases (s.holder l)) [
  | inl free ↦ absurd (ground arith)
  | inr (k, taken) ↦
      let (other, there, t, goes) = holds_goes k (s.place k) l s (inv.held k l taken) in
      (
        k,
        ground (arith, inv.named k other l, inv.named h name l, inv.apart other name l),
        (t, goes),
      )
]

-- A handler in lockRef or behind it either can go on at once, or waits for one that can go on at once: for the one that looks a
-- mutex up, or for the one that holds the mutex of the same name. So no order of steps leads to a deadlock, and a handler never waits
-- for the commit of another name.
pub no_deadlock :
    {s : Locks}
    → Reach s
    → (h : ℕ) → s.place h ≢ outside
    → advance h (s.place h) s ≡ none
    → (k : ℕ) × WaitsFor (s.place h) (s.place k)
      × ((t : Locks) × (advance k (s.place k) s ≡ some t))
no_deadlock {s} r h in_it stuck = waiting s (Reach-Inv r) h (s.place h) refl in_it stuck
