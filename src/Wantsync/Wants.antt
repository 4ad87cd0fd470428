-- ===== src/Wantsync/Wants.antt =====
-- wantsync/wantsync.go: `Wants`, which keys of a frontier have to be transferred.
pub mod Laws
pub mod Answers
use amber_store_iroh.Prelude.{
  ◌≡◌, Bool, true, false, List, [], ◌∷◌, ◌++◌, Option, none, some, Eq, contains, if◌then◌else◌,
}
use amber_store_iroh.Protocol.Error.{Error, Result, ok, err, is_missing}
use amber_store_iroh.Wantsync.Library.{Library}

module _ {Key : Type 0} (lib : Library Key) (st : lib.State) where
  -- What the body of the loop finds out about one key: whether it is wanted.
  unfoldable pub is_wanted : Key → Result Bool
  is_wanted k = elim (lib.has st k) [
    | err e ↦ err e
    | ok false ↦ ok true
    | ok true ↦ elim (lib.check_complete st k) [
      | none ↦ ok false
      | some e ↦ if is_missing e then ok true else err e
    ]
  ]

module _ {Key : Type 0} ⦃e : Eq Key⦄ (lib : Library Key) (st : lib.State) where
  unfoldable pub wants_loop : List Key → List Key → List Key → Result (List Key)
  wants_loop [] seen wants = ok wants
  wants_loop (k ∷ frontier) seen wants = elim (contains seen k) [
    | true ↦ wants_loop frontier seen wants
    | false ↦ elim (is_wanted lib st k) [
      | err e ↦ err e
      | ok true ↦ wants_loop frontier (k ∷ seen) (wants ++ k ∷ [])
      | ok false ↦ wants_loop frontier (k ∷ seen) wants
    ]
  ]

  unfoldable pub wants : List Key → Result (List Key)
  unfolding wants_loop
  wants frontier = wants_loop frontier [] []
