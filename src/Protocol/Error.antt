-- ===== src/Protocol/Error.antt =====
-- Go's `error` values as the program tells them apart, and what `errors.As` and `errors.Is` find
-- in them. The texts that `fmt.Errorf` puts before a wrapped error are kept as they are written.
use amber_store_iroh.Prelude.{
  ℕ, String, Bool, true, false, ◌||◌, ◌≡◌, refl, ◌⊎◌, inl, inr, Option, none, some, List, [], ◌∷◌,
}
use amber_store_iroh.Prelude.Int.{ℤ}

abbrev pub Bytes : Type 0
Bytes = List ℕ

-- protocol.RemoteError: a TErr frame surfaced as an error.
pub record RemoteError : Type 0 where
  pub code : String
  pub text : String
  pub current : Bytes

-- `library n` is an error of code that is not in this repository, told apart by a number.
pub data Error : Type 0 where
  eof : Error
  unexpected_eof : Error
  not_found : Error
  missing_object : Error
  panic : Error
  library : ℕ → Error
  message : String → Error
  frame_too_big : ℕ → Error
  unexpected_frame : ℤ → Error
  omitted : ℕ → ℕ → Error
  remote : RemoteError → Error
  wrapped : String → Error → Error
  joined : Error → Error → Error

-- A call that returns `(A, error)`; `ok` is a nil error.
pub data Result {ℓ} (A : Type ℓ) : Type ℓ where
  ok : A → Result A
  err : Error → Result A

pub Result-cases {ℓ} :
    {A : Type ℓ} (r : Result A) → ((e : Error) × (r ≡ err e)) ⊎ ((a : A) × (r ≡ ok a))
Result-cases (ok a) = inr (a, refl)
Result-cases (err e) = inl (e, refl)

abbrev pub or_else {ℓ} : {A : Type ℓ} → Option A → Option A → Option A
or_else none b = b
or_else (some a) b = some a

-- errors.As(err, &re): the first *RemoteError of the tree of wrapped errors, depth first.
unfoldable pub as_remote : Error → Option RemoteError
as_remote (remote re) = some re
as_remote (wrapped text e) = as_remote e
as_remote (joined e f) = or_else (as_remote e) (as_remote f)
as_remote _ = none

-- errors.Is(err, ErrNotFound).
unfoldable pub is_not_found : Error → Bool
is_not_found not_found = true
is_not_found (wrapped text e) = is_not_found e
is_not_found (joined e f) = is_not_found e || is_not_found f
is_not_found _ = false

-- isMissing of wantsync: errors.As(err, *fstree.MissingObjectError) or errors.Is(err, ErrNotFound).
unfoldable pub is_missing : Error → Bool
is_missing missing_object = true
is_missing not_found = true
is_missing (wrapped text e) = is_missing e
is_missing (joined e f) = is_missing e || is_missing f
is_missing _ = false

-- errors.Is(err, io.EOF).
unfoldable pub is_eof : Error → Bool
is_eof eof = true
is_eof (wrapped text e) = is_eof e
is_eof (joined e f) = is_eof e || is_eof f
is_eof _ = false

-- errors.Is(err, io.ErrUnexpectedEOF).
unfoldable pub is_unexpected_eof : Error → Bool
is_unexpected_eof unexpected_eof = true
is_unexpected_eof (wrapped text e) = is_unexpected_eof e
is_unexpected_eof (joined e f) = is_unexpected_eof e || is_unexpected_eof f
is_unexpected_eof _ = false

-- errors.Join: nil entries are dropped, and no error at all is nil.
unfoldable pub join : List (Option Error) → Option Error
join [] = none
join (none ∷ es) = join es
join (some e ∷ es) = elim (join es) [ none ↦ some e | some f ↦ some (joined e f) ]

-- `if err := step(); err != nil { return err }` before the rest, on a state that the step changes.
infixl 5 ◌and_then◌
abbrev pub ◌and_then◌ {ℓ} :
    {S : Type ℓ} → Option Error × S → (S → Option Error × S) → Option Error × S
(none, s) and_then rest = rest s
(some e, s) and_then rest = (some e, s)
