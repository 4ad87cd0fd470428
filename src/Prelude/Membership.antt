-- ===== src/Prelude/Membership.antt =====
-- Membership as a sum, a Boolean test for it, and predicates on all items of a list.
use mathlib.Core.Path.{◌≡◌}
use mathlib.Core.Logic.{◌⊎◌, inl, inr}
use mathlib.Core.Bool.{Bool, true, false, ◌||◌}
use mathlib.Core.List.{List, [], ◌∷◌, ◌++◌}
use native.Mathlib.Omega.{arith}
use amber_store_iroh.Prelude.Tests.{Eq, Bool-cases}

module _ {A : Type 0} where
  abbrev pub Member : A → List A → Type 0
  Member a [] = ⊥
  Member a (x ∷ xs) = (a ≡ x) ⊎ Member a xs

  pub Member-append_left : (a : A) (xs ys : List A) → Member a xs → Member a (xs ++ ys)
  Member-append_left a [] ys m = absurd m
  Member-append_left a (x ∷ xs) ys (inl e) = inl e
  Member-append_left a (x ∷ xs) ys (inr m) = inr (Member-append_left a xs ys m)

  pub Member-append_right : (a : A) (xs ys : List A) → Member a ys → Member a (xs ++ ys)
  Member-append_right a [] ys m = m
  Member-append_right a (x ∷ xs) ys m = inr (Member-append_right a xs ys m)

  pub Member-append : (a : A) (xs ys : List A) → Member a (xs ++ ys) → Member a xs ⊎ Member a ys
  Member-append a [] ys m = inr m
  Member-append a (x ∷ xs) ys (inl e) = inl (inl e)
  Member-append a (x ∷ xs) ys (inr m) = elim (Member-append a xs ys m) [
    | inl l ↦ inl (inr l)
    | inr r ↦ inr r
  ]

  abbrev pub All {κ} : (A → Type κ) → List A → Type κ
  All P [] = Unit
  All P (x ∷ xs) = P x × All P xs

  pub All-append {κ} : (P : A → Type κ) (xs ys : List A) → All P xs → All P ys → All P (xs ++ ys)
  All-append P [] ys hx hy = hy
  All-append P (x ∷ xs) ys hx hy = (hx.0, All-append P xs ys hx.1 hy)

module _ {A : Type 0} ⦃e : Eq A⦄ where
  abbrev pub contains : List A → A → Bool
  contains [] a = false
  contains (x ∷ xs) a = e.beq a x || contains xs a

  pub contains→Member : (xs : List A) (a : A) → contains xs a ≡ true → Member a xs
  contains→Member (x ∷ xs) a h = elim (Bool-cases (e.beq a x)) [
    | inl same ↦ inl ((e.beq_iff a x).0 same)
    | inr other ↦ inr (contains→Member xs a (ground arith))
  ]
  contains→Member [] a h = ground arith

  pub Member→contains : (xs : List A) (a : A) → Member a xs → contains xs a ≡ true
  Member→contains [] a m = absurd m
  Member→contains (x ∷ xs) a (inl same) = ground (arith, (e.beq_iff a x).1 same)
  Member→contains (x ∷ xs) a (inr m) = ground (arith, Member→contains xs a m)
