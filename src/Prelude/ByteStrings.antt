-- ===== src/Prelude/ByteStrings.antt =====
-- Byte strings compared as Go compares them: bytes.Equal, and the string keys of a map.
use Prim.Native.Nat.{ℕ}
use mathlib.Core.Path.{◌≡◌, refl}
use mathlib.Core.Logic.{◌↔◌}
use mathlib.Core.Bool.{Bool, true, false, ◌&&◌}
use mathlib.Core.List.{List, [], ◌∷◌}
use native.Mathlib.Omega.{arith}
use amber_store_iroh.Prelude.Tests.{Eq, ◌==◌}

abbrev pub bytes_equal : List ℕ → List ℕ → Bool
bytes_equal [] [] = true
bytes_equal [] (b ∷ bs) = false
bytes_equal (a ∷ as_rest) [] = false
bytes_equal (a ∷ as_rest) (b ∷ bs) = a == b && bytes_equal as_rest bs

pub bytes_equal→eq : (a b : List ℕ) → bytes_equal a b ≡ true → a ≡ b
bytes_equal→eq [] [] h = refl
bytes_equal→eq [] (b ∷ bs) h = ground arith
bytes_equal→eq (a ∷ as_rest) [] h = ground arith
bytes_equal→eq (a ∷ as_rest) (b ∷ bs) h = ground (arith, bytes_equal→eq as_rest bs)

pub bytes_equal_refl : (a : List ℕ) → bytes_equal a a ≡ true
bytes_equal_refl [] = refl
bytes_equal_refl (a ∷ as_rest) = ground (arith, bytes_equal_refl as_rest)

pub bytes_equal_iff : (a b : List ℕ) → (bytes_equal a b ≡ true) ↔ (a ≡ b)
bytes_equal_iff a b = (bytes_equal→eq a b, λ e. ground (arith, bytes_equal_refl a))

instance abbrev pub bytes_eq : Eq (List ℕ)
bytes_eq = record { beq = bytes_equal; beq_iff = bytes_equal_iff }
