-- ===== src/Server/Locks.antt =====
-- server/server.go, lockRef: the handlers that lock the mutex of a name, interleaved in any order. A handler is a number, and a
-- mutex is the number of those made before it. A handler is at one of the places of lockRef and of its caller; the commit is what
-- it does while it is at `holding`, and its deferred unlock ends that.
pub mod Invariant
pub mod Exclusion
use amber_store_iroh.Prelude.{
  ℕ, suc, ◌≡◌, refl, String, Option, none, some, str_eq, ◌==◌, if◌then◌else◌,
}

-- Where a handler stands: before lockRef, at `s.mu.Lock`, at the look into the map, at the write into the map after it has read nil, at
-- `s.mu.Unlock`, at `l.Lock`, behind it.
pub data Place : Type 0 where
  outside : Place
  at_mu : String → Place
  looking : String → Place
  making : String → Place
  leaving : String → ℕ → Place
  at_lock : String → ℕ → Place
  holding : String → ℕ → Place

-- `mu` is the handler that holds `s.mu`, `holder` the one that holds a mutex, and `made` counts the mutexes.
pub record Locks : Type 0 where
  pub mu : Option ℕ
  pub ref_locks : String → Option ℕ
  pub made : ℕ
  pub holder : ℕ → Option ℕ
  pub place : ℕ → Place

abbrev pub at_index {ℓ} : {A : Type ℓ} → (ℕ → A) → ℕ → A → ℕ → A
at_index f i a j = if j == i then a else f j

abbrev pub at_name {ℓ} : {A : Type ℓ} → (String → A) → String → A → String → A
at_name f i a j = if str_eq j i then a else f j

abbrev pub moved : ℕ → Place → Locks → Locks
moved h p s = record s { place = at_index s.place h p }

-- `l := s.refLocks[name]`, and where the handler goes on: at the write into the map if there is no mutex.
abbrev pub look_up : ℕ → String → Option ℕ → Locks → Locks
look_up h name (some l) s = moved h (leaving name l) s
look_up h name none s = moved h (making name) s

-- `l = &sync.Mutex{}`, and its write into the map, whatever is there by then.
abbrev pub make_lock : ℕ → String → Locks → Locks
make_lock h name s =
    moved h (leaving name s.made)
      (record s { ref_locks = at_name s.ref_locks name (some s.made); made = suc s.made })

abbrev pub lock_mu : ℕ → String → Option ℕ → Locks → Option Locks
lock_mu h name (some other) s = none
lock_mu h name none s = some (moved h (looking name) (record s { mu = some h }))

abbrev pub lock : ℕ → String → ℕ → Option ℕ → Locks → Option Locks
lock h name l (some other) s = none
lock h name l none s =
    some (moved h (holding name l) (record s { holder = at_index s.holder l (some h) }))

-- The next step of a handler at the place, none where it has to wait, or is not in lockRef at all.
unfoldable pub advance : ℕ → Place → Locks → Option Locks
advance h outside s = none
advance h (at_mu name) s = lock_mu h name s.mu s
advance h (looking name) s = some (look_up h name (s.ref_locks name) s)
advance h (making name) s = some (make_lock h name s)
advance h (leaving name l) s = some (moved h (at_lock name l) (record s { mu = none }))
advance h (at_lock name l) s = lock h name l (s.holder l) s
advance h (holding name l) s =
    some (moved h outside (record s { holder = at_index s.holder l none }))

-- A step of the server: a handler calls lockRef, or one that is in it goes on.
pub data Step (s : Locks) : Locks → Type 0 where
  call : (h : ℕ) (name : String) → s.place h ≡ outside → Step s (moved h (at_mu name) s)
  go : (h : ℕ) {t : Locks} → advance h (s.place h) s ≡ some t → Step s t

-- server.New: an empty map, and no mutex held.
abbrev pub unlocked : Locks
unlocked = record {
  mu = none;
  ref_locks = λ name. none;
  made = 0;
  holder = λ l. none;
  place = λ h. outside;
}

pub data Reach : Locks → Type 0 where
  start : Reach unlocked
  later : {s t : Locks} → Reach s → Step s t → Reach t
