-- ===== src/Server/Locks/Invariant.antt =====
-- What holds of the mutexes of the names in every reachable state.
use amber_store_iroh.Prelude.{
  ℕ, ◌<◌, ◌≡◌, refl, subst, String, Bool, true, false, Option, none, some, Option-cases, eq_iff,
  inl, inr, arith, ◌==◌,
}
use amber_store_iroh.Server.Locks.{
  Place, outside, at_mu, looking, making, leaving, at_lock, holding, Locks, moved, at_index,
  make_lock, advance, Step, call, go, unlocked, Reach, start, later,
}

-- Whether the handler is between `s.mu.Lock` and `s.mu.Unlock`.
abbrev pub inside : Place → Bool
inside (looking name) = true
inside (making name) = true
inside (leaving name l) = true
inside other = false

-- Whether the mutex is the one that the handler has got for the name.
abbrev pub Has : Place → String → ℕ → Type 0
Has (leaving name l) n k = (name ≡ n) × (l ≡ k)
Has (at_lock name l) n k = (name ≡ n) × (l ≡ k)
Has (holding name l) n k = (name ≡ n) × (l ≡ k)
Has outside n k = false ≡ true
Has (at_mu name) n k = false ≡ true
Has (looking name) n k = false ≡ true
Has (making name) n k = false ≡ true

abbrev pub holds : Place → ℕ → Bool
holds (holding name l) k = l == k
holds outside k = false
holds (at_mu name) k = false
holds (looking name) k = false
holds (making name) k = false
holds (leaving name l) k = false
holds (at_lock name l) k = false

pub record Inv (s : Locks) : Type 0 where
  pub exclusive : (h : ℕ) → inside (s.place h) ≡ true → s.mu ≡ some h
  pub occupied : (h : ℕ) → s.mu ≡ some h → inside (s.place h) ≡ true
  pub named : (h : ℕ) (name : String) (l : ℕ) → Has (s.place h) name l → s.ref_locks name ≡ some l
  -- A handler that is about to write into the map has read what is still true.
  pub missing : (h : ℕ) (name : String) → s.place h ≡ making name → s.ref_locks name ≡ none
  pub old : (name : String) (l : ℕ) → s.ref_locks name ≡ some l → l < s.made
  pub apart :
      (name other : String) (l : ℕ)
      → s.ref_locks name ≡ some l
      → s.ref_locks other ≡ some l
      → name ≡ other
  pub owned : (h l : ℕ) → holds (s.place h) l ≡ true → s.holder l ≡ some h
  pub held : (h l : ℕ) → s.holder l ≡ some h → holds (s.place h) l ≡ true

unlocked-Inv : Inv unlocked
unlocked-Inv = record {
  exclusive = λ h e. ground arith;
  occupied = λ h e. ground arith;
  named = λ h name l e. ground arith;
  missing = λ h name e. ground arith;
  old = λ name l e. ground arith;
  apart = λ name other l e e'. ground arith;
  owned = λ h l e. ground arith;
  held = λ h l e. ground arith;
}

call-Inv :
    (h : ℕ) (name : String) (s : Locks) → Inv s → s.place h ≡ outside → Inv (moved h (at_mu name) s)
call-Inv h name s inv e = record {
  exclusive = λ k x. ground (arith, inv.exclusive k);
  occupied = λ k x. ground (arith, inv.occupied k);
  named = λ k n l x. ground (arith, inv.named k n l);
  missing = λ k n x. ground (arith, inv.missing k n);
  old = λ n l x. ground (arith, inv.old n l);
  apart = λ n o l x x'. ground (arith, inv.apart n o l);
  owned = λ k l x. ground (arith, inv.owned k l);
  held = λ k l x. ground (arith, inv.held k l);
}

lock_mu-Inv :
    (h : ℕ) (name : String) (s : Locks)
    → Inv s
    → s.place h ≡ at_mu name
    → s.mu ≡ none
    → Inv (moved h (looking name) (record s { mu = some h }))
lock_mu-Inv h name s inv e free = record {
  exclusive = λ k x. ground (arith, inv.exclusive k);
  occupied = λ k x. ground (arith, inv.occupied k);
  named = λ k n l x. ground (arith, inv.named k n l);
  missing = λ k n x. ground (arith, inv.missing k n);
  old = λ n l x. ground (arith, inv.old n l);
  apart = λ n o l x x'. ground (arith, inv.apart n o l);
  owned = λ k l x. ground (arith, inv.owned k l);
  held = λ k l x. ground (arith, inv.held k l);
}

found-Inv :
    (h : ℕ) (name : String) (l : ℕ) (s : Locks)
    → Inv s
    → s.place h ≡ looking name
    → s.ref_locks name ≡ some l
    → Inv (moved h (leaving name l) s)
found-Inv h name l s inv e there = record {
  exclusive = λ k x. ground (arith, inv.exclusive k);
  occupied = λ k x. ground (arith, inv.occupied k);
  named = λ k n j x. ground (arith, inv.named k n j);
  missing = λ k n x. ground (arith, inv.missing k n);
  old = λ n j x. ground (arith, inv.old n j);
  apart = λ n o j x x'. ground (arith, inv.apart n o j);
  owned = λ k j x. ground (arith, inv.owned k j);
  held = λ k j x. ground (arith, inv.held k j);
}

missed-Inv :
    (h : ℕ) (name : String) (s : Locks)
    → Inv s
    → s.place h ≡ looking name
    → s.ref_locks name ≡ none
    → Inv (moved h (making name) s)
missed-Inv h name s inv e unmade = record {
  exclusive = λ k x. ground (arith, inv.exclusive k);
  occupied = λ k x. ground (arith, inv.occupied k);
  named = λ k n j x. ground (arith, inv.named k n j);
  missing = λ k n x. ground (arith, inv.missing k n);
  old = λ n j x. ground (arith, inv.old n j);
  apart = λ n o j x x'. ground (arith, inv.apart n o j);
  owned = λ k j x. ground (arith, inv.owned k j);
  held = λ k j x. ground (arith, inv.held k j);
}

made-Inv :
    (h : ℕ) (name : String) (s : Locks) → Inv s → s.place h ≡ making name → Inv (make_lock h name s)
made-Inv h name s inv e = record {
  exclusive = λ k x. ground (arith, inv.exclusive k);
  occupied = λ k x. ground (arith, inv.occupied k);
  named = λ k n j x. ground (arith, inv.named k n j, eq_iff n name, inv.missing h name);
  missing = λ k n x. ground (arith, inv.missing k n, inv.exclusive k, inv.exclusive h);
  old = λ n j x. ground (arith, inv.old n j);
  apart = λ n o j x x'.
      ground (arith, inv.apart n o j, eq_iff n name, eq_iff o name, inv.old n j, inv.old o j);
  owned = λ k j x. ground (arith, inv.owned k j);
  held = λ k j x. ground (arith, inv.held k j);
}

leaving-Inv :
    (h : ℕ) (name : String) (l : ℕ) (s : Locks)
    → Inv s
    → s.place h ≡ leaving name l
    → Inv (moved h (at_lock name l) (record s { mu = none }))
leaving-Inv h name l s inv e = record {
  exclusive = λ k x. ground (arith, inv.exclusive k, inv.exclusive h);
  occupied = λ k x. ground (arith, inv.occupied k);
  named = λ k n j x. ground (arith, inv.named k n j, inv.named h n j);
  missing = λ k n x. ground (arith, inv.missing k n);
  old = λ n j x. ground (arith, inv.old n j);
  apart = λ n o j x x'. ground (arith, inv.apart n o j);
  owned = λ k j x. ground (arith, inv.owned k j);
  held = λ k j x. ground (arith, inv.held k j);
}

lock-Inv :
    (h : ℕ) (name : String) (l : ℕ) (s : Locks)
    → Inv s
    → s.place h ≡ at_lock name l
    → s.holder l ≡ none
    → Inv (moved h (holding name l) (record s { holder = at_index s.holder l (some h) }))
lock-Inv h name l s inv e free = record {
  exclusive = λ k x. ground (arith, inv.exclusive k);
  occupied = λ k x. ground (arith, inv.occupied k);
  named = λ k n j x. ground (arith, inv.named k n j, inv.named h n j);
  missing = λ k n x. ground (arith, inv.missing k n);
  old = λ n j x. ground (arith, inv.old n j);
  apart = λ n o j x x'. ground (arith, inv.apart n o j);
  owned = λ k j x. ground (arith, inv.owned k j);
  held = λ k j x. ground (arith, inv.held k j, inv.held h j);
}

unlock-Inv :
    (h : ℕ) (name : String) (l : ℕ) (s : Locks)
    → Inv s
    → s.place h ≡ holding name l
    → Inv (moved h outside (record s { holder = at_index s.holder l none }))
unlock-Inv h name l s inv e = record {
  exclusive = λ k x. ground (arith, inv.exclusive k);
  occupied = λ k x. ground (arith, inv.occupied k);
  named = λ k n j x. ground (arith, inv.named k n j);
  missing = λ k n x. ground (arith, inv.missing k n);
  old = λ n j x. ground (arith, inv.old n j);
  apart = λ n o j x x'. ground (arith, inv.apart n o j);
  owned = λ k j x. ground (arith, inv.owned k j, inv.owned k l, inv.owned h l);
  held = λ k j x. ground (arith, inv.held k j);
}

abbrev Keeps : Option Locks → Type 0
Keeps none = true ≡ true
Keeps (some s) = Inv s

advance-Inv : (h : ℕ) (p : Place) (s : Locks) → Inv s → s.place h ≡ p → Keeps (advance h p s)
unfolding advance
advance-Inv h outside s inv e = refl
advance-Inv h (at_mu name) s inv e = elim (Option-cases s.mu) [
  | inl free ↦ rw free (lock_mu-Inv h name s inv e free)
  | inr (k, taken) ↦ rw taken refl
]
advance-Inv h (looking name) s inv e = elim (Option-cases (s.ref_locks name)) [
  | inl missing ↦ rw missing (missed-Inv h name s inv e missing)
  | inr (l, there) ↦ rw there (found-Inv h name l s inv e there)
]
advance-Inv h (making name) s inv e = made-Inv h name s inv e
advance-Inv h (leaving name l) s inv e = leaving-Inv h name l s inv e
advance-Inv h (at_lock name l) s inv e = elim (Option-cases (s.holder l)) [
  | inl free ↦ rw free (lock-Inv h name l s inv e free)
  | inr (k, taken) ↦ rw taken refl
]
advance-Inv h (holding name l) s inv e = unlock-Inv h name l s inv e

Step-Inv : {s t : Locks} → Step s t → Inv s → Inv t
Step-Inv {s} (call h name e) inv = call-Inv h name s inv e
Step-Inv {s} (go h e) inv = subst Keeps e (advance-Inv h (s.place h) s inv refl)

pub Reach-Inv : {s : Locks} → Reach s → Inv s
Reach-Inv start = unlocked-Inv
Reach-Inv (later r st) = Step-Inv st (Reach-Inv r)
