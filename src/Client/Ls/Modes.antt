-- ===== src/Client/Ls/Modes.antt =====
-- cmd/amber/ls.go, modeString: what a reader of the ten characters can tell.
use amber_store_iroh.Prelude.{
  ℕ, ◌≡◌, refl, ap, ◌∙◌, Bool, false, Bool-cases, not, List, [], ◌∷◌, map, ◌==◌, ◌||◌, bit_and,
  if◌then◌else◌, inl, inr, arith,
}
use amber_store_iroh.Protocol.Error.{Bytes}
use amber_store_iroh.Client.Ls.{type_char, set_bit, mode_string}

-- The bits of a mode that chmod sets, setuid first, execution by others last.
abbrev pub permission_bits : List ℕ
permission_bits =
    0x800 ∷ 0x400 ∷ 0x200 ∷ 0x100 ∷ 0x80 ∷ 0x40 ∷ 0x20 ∷ 0x10 ∷ 0x8 ∷ 0x4 ∷ 0x2 ∷ 0x1 ∷ []

abbrev pub has : ℕ → ℕ → Bool
has mode bit = not (bit_and mode bit == 0)

abbrev pub shows_exec : ℕ → Bool
shows_exec c = (c == b'x') || (c == b's') || (c == b't')

abbrev pub shows_special : ℕ → Bool
shows_special c = (c == b's') || (c == b'S') || (c == b't') || (c == b'T')

abbrev pub shown : ℕ → Bool
shown c = not (c == b'-')

-- What ten characters say of the permission bits.
abbrev pub read_permissions : Bytes → List Bool
read_permissions (t ∷ ur ∷ uw ∷ ux ∷ gr ∷ gw ∷ gx ∷ or ∷ ow ∷ ox ∷ []) =
    shows_special ux
    ∷ shows_special gx
    ∷ shows_special ox
    ∷ shown ur
    ∷ shown uw
    ∷ shows_exec ux
    ∷ shown gr
    ∷ shown gw
    ∷ shows_exec gx
    ∷ shown or
    ∷ shown ow
    ∷ shows_exec ox
    ∷ []
read_permissions other = []

-- A character behind `setBit`.
abbrev slot : ℕ → ℕ → ℕ → ℕ → ℕ → ℕ
slot mode bit x y c = if bit_and mode bit == 0 then c else if c == b'x' then x else y

seat_3 :
    (mode bit x y c0 c1 c2 c3 c4 c5 c6 c7 c8 c9 : ℕ)
    → set_bit mode 3 bit x y (c0 ∷ c1 ∷ c2 ∷ c3 ∷ c4 ∷ c5 ∷ c6 ∷ c7 ∷ c8 ∷ c9 ∷ [])
      ≡ c0 ∷ c1 ∷ c2 ∷ slot mode bit x y c3 ∷ c4 ∷ c5 ∷ c6 ∷ c7 ∷ c8 ∷ c9 ∷ []
seat_3 mode bit x y c0 c1 c2 c3 c4 c5 c6 c7 c8 c9 = elim (Bool-cases (bit_and mode bit == 0)) [
  | inl e ↦ ground arith
  | inr e ↦ ground arith
]

seat_6 :
    (mode bit x y c0 c1 c2 c3 c4 c5 c6 c7 c8 c9 : ℕ)
    → set_bit mode 6 bit x y (c0 ∷ c1 ∷ c2 ∷ c3 ∷ c4 ∷ c5 ∷ c6 ∷ c7 ∷ c8 ∷ c9 ∷ [])
      ≡ c0 ∷ c1 ∷ c2 ∷ c3 ∷ c4 ∷ c5 ∷ slot mode bit x y c6 ∷ c7 ∷ c8 ∷ c9 ∷ []
seat_6 mode bit x y c0 c1 c2 c3 c4 c5 c6 c7 c8 c9 = elim (Bool-cases (bit_and mode bit == 0)) [
  | inl e ↦ ground arith
  | inr e ↦ ground arith
]

seat_9 :
    (mode bit x y c0 c1 c2 c3 c4 c5 c6 c7 c8 c9 : ℕ)
    → set_bit mode 9 bit x y (c0 ∷ c1 ∷ c2 ∷ c3 ∷ c4 ∷ c5 ∷ c6 ∷ c7 ∷ c8 ∷ c9 ∷ [])
      ≡ c0 ∷ c1 ∷ c2 ∷ c3 ∷ c4 ∷ c5 ∷ c6 ∷ c7 ∷ c8 ∷ slot mode bit x y c9 ∷ []
seat_9 mode bit x y c0 c1 c2 c3 c4 c5 c6 c7 c8 c9 = elim (Bool-cases (bit_and mode bit == 0)) [
  | inl e ↦ ground arith
  | inr e ↦ ground arith
]

abbrev char_of : ℕ → ℕ → ℕ → ℕ
char_of mode bit c = if bit_and mode bit == 0 then b'-' else c

shown-char_of : (mode bit c : ℕ) → (c == b'-') ≡ false → shown (char_of mode bit c) ≡ has mode bit
shown-char_of mode bit c e = elim (Bool-cases (bit_and mode bit == 0)) [
  | inl no_bit ↦ ground arith
  | inr with_bit ↦ ground arith
]

special-slot_s :
    (mode bit exec : ℕ)
    → shows_special (slot mode bit b's' b'S' (char_of mode exec b'x')) ≡ has mode bit
special-slot_s mode bit exec =
    ground (arith, Bool-cases (bit_and mode bit == 0), Bool-cases (bit_and mode exec == 0))

exec-slot_s :
    (mode bit exec : ℕ)
    → shows_exec (slot mode bit b's' b'S' (char_of mode exec b'x')) ≡ has mode exec
exec-slot_s mode bit exec =
    ground (arith, Bool-cases (bit_and mode bit == 0), Bool-cases (bit_and mode exec == 0))

special-slot_t :
    (mode bit exec : ℕ)
    → shows_special (slot mode bit b't' b'T' (char_of mode exec b'x')) ≡ has mode bit
special-slot_t mode bit exec =
    ground (arith, Bool-cases (bit_and mode bit == 0), Bool-cases (bit_and mode exec == 0))

exec-slot_t :
    (mode bit exec : ℕ)
    → shows_exec (slot mode bit b't' b'T' (char_of mode exec b'x')) ≡ has mode exec
exec-slot_t mode bit exec =
    ground (arith, Bool-cases (bit_and mode bit == 0), Bool-cases (bit_and mode exec == 0))

mode_string_lem :
    (mode : ℕ)
    → mode_string mode
      ≡ type_char (bit_and mode 0xF000)
        ∷ char_of mode 0x100 b'r'
        ∷ char_of mode 0x80 b'w'
        ∷ slot mode 0x800 b's' b'S' (char_of mode 0x40 b'x')
        ∷ char_of mode 0x20 b'r'
        ∷ char_of mode 0x10 b'w'
        ∷ slot mode 0x400 b's' b'S' (char_of mode 0x8 b'x')
        ∷ char_of mode 0x4 b'r'
        ∷ char_of mode 0x2 b'w'
        ∷ slot mode 0x200 b't' b'T' (char_of mode 0x1 b'x')
        ∷ []
unfolding mode_string
mode_string_lem mode =
    ap (set_bit mode 9 0x200 b't' b'T')
      (ap (set_bit mode 6 0x400 b's' b'S') (seat_3 mode 0x800 b's' b'S' _ _ _ _ _ _ _ _ _ _))
    ∙ ap (set_bit mode 9 0x200 b't' b'T') (seat_6 mode 0x400 b's' b'S' _ _ _ _ _ _ _ _ _ _)
    ∙ seat_9 mode 0x200 b't' b'T' _ _ _ _ _ _ _ _ _ _

-- The ten characters of a mode tell each of its twelve permission bits, setuid, setgid and sticky among them.
pub read_permissions-mode_string :
    (mode : ℕ) → read_permissions (mode_string mode) ≡ map (has mode) permission_bits
read_permissions-mode_string mode =
    ap read_permissions (mode_string_lem mode)
    ∙ cc (
      special-slot_s mode 0x800 0x40,
      special-slot_s mode 0x400 0x8,
      special-slot_t mode 0x200 0x1,
      shown-char_of mode 0x100 b'r' refl,
      shown-char_of mode 0x80 b'w' refl,
      exec-slot_s mode 0x800 0x40,
      shown-char_of mode 0x20 b'r' refl,
      shown-char_of mode 0x10 b'w' refl,
      exec-slot_s mode 0x400 0x8,
      shown-char_of mode 0x4 b'r' refl,
      shown-char_of mode 0x2 b'w' refl,
      exec-slot_t mode 0x200 0x1,
    )
