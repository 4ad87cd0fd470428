-- ===== src/Client/Progress/Units.antt =====
-- cmd/amber/progress.go, humanBytes: the unit is one that there is.
use amber_store_iroh.Prelude.{
  ℕ, zero, suc, ◌*◌, ◌/◌, ◌%◌, ◌^◌, ◌≤◌, ◌<◌, ◌≡◌, refl, Bool-cases, false, some, leb, ltb, inl,
  inr, ◌⊎◌, arith,
}
use amber_store_iroh.Client.Progress.{Display, word, unit_loop, unit_of, human_bytes}

-- The divisor is the power of 1024 that the exponent says, the number is at least one unit, and less than 1024 of them.
abbrev FitsUnit : ℕ → ℕ → ℕ → Type 0
FitsUnit n div exp = (div ≡ 1024 ^ suc exp) × (exp ≤ 5) × (div ≤ n) × (n < 1024 * div)

unit_loop_lem :
    (n : ℕ)
    → 1024 ≤ n
    → n < word
    → (div exp : ℕ) × (unit_loop 7 (n / 1024) 1024 0 ≡ some (div, exp)) × FitsUnit n div exp
unfolding unit_loop
unit_loop_lem n least fits = elim (Bool-cases (leb 1024 (n / 1024))) [
  | inr last ↦ (1024, 0, ground arith, (refl, ground arith, ground arith, ground arith))
  | inl more ↦ elim (Bool-cases (leb 1024 (n / 1024 / 1024))) [
    | inr last ↦ (1048576, 1, ground arith, (refl, ground arith, ground arith, ground arith))
    | inl more ↦ elim (Bool-cases (leb 1024 (n / 1024 / 1024 / 1024))) [
      | inr last ↦ (1073741824, 2, ground arith, (refl, ground arith, ground arith, ground arith))
      | inl more ↦ elim (Bool-cases (leb 1024 (n / 1024 / 1024 / 1024 / 1024))) [
        | inr last ↦
            (1099511627776, 3, ground arith, (refl, ground arith, ground arith, ground arith))
        | inl more ↦ elim (Bool-cases (leb 1024 (n / 1024 / 1024 / 1024 / 1024 / 1024))) [
          | inr last ↦
              (1125899906842624, 4, ground arith, (refl, ground arith, ground arith, ground arith))
          | inl more ↦ (
            1152921504606846976,
            5,
            ground arith,
            (refl, ground arith, ground arith, ground arith),
          )
        ]
      ]
    ]
  ]
]

next_power : (exp : ℕ) → exp < 5 → 1024 ^ suc exp * 1024 % word ≡ 1024 ^ suc (suc exp)
next_power zero h = refl
next_power (suc zero) h = refl
next_power (suc (suc zero)) h = refl
next_power (suc (suc (suc zero))) h = refl
next_power (suc (suc (suc (suc zero)))) h = refl
next_power (suc (suc (suc (suc (suc exp))))) h = absurd (omega arith)

wider : (exp : ℕ) → exp < 5 → 1024 ^ suc exp ≤ 1024 ^ suc (suc exp)
wider zero h = omega arith
wider (suc zero) h = omega arith
wider (suc (suc zero)) h = omega arith
wider (suc (suc (suc zero))) h = omega arith
wider (suc (suc (suc (suc zero)))) h = omega arith
wider (suc (suc (suc (suc (suc exp))))) h = absurd (omega arith)

module _ (display : Display) where
  abbrev pub scaled : ℕ → ℕ → display.F
  scaled n exp = display.div (display.of_ℕ n) (display.of_ℕ (1024 ^ exp))

  -- The number is at least one of the unit, or rounds up to one; and it is less than 1024 of the unit.
  abbrev pub Suits : ℕ → ℕ → Type 0
  Suits n exp =
      (exp ≤ 5)
      × (n < 1024 * 1024 ^ suc exp)
      × ((1024 ^ suc exp ≤ n)
          ⊎ ((1024 ^ exp ≤ n) × (display.lt (scaled n exp) display.nearly_unit ≡ false)))

  shown_in :
      (n div exp : ℕ)
      → FitsUnit n div exp
      → unit_loop 7 (n / 1024) 1024 0 ≡ some (div, exp)
      → 1024 ≤ n
      → (e : ℕ) × Suits n e
        × (human_bytes display n ≡ some (display.units_text (scaled n (suc e)) e))
  unfolding human_bytes unit_of
  shown_in n div exp (power, few, reached, below) found large =
      elim (Bool-cases
        (display.lt (display.div (display.of_ℕ n) (display.of_ℕ div)) display.nearly_unit)) [
          | inl small ↦ (
            exp,
            (few, omega (arith, below, power), inl (omega (arith, reached, power))),
            ground arith,
          )
          | inr near ↦ elim (Bool-cases (ltb exp 5)) [
            | inr top ↦ (
              exp,
              (few, omega (arith, below, power), inl (omega (arith, reached, power))),
              ground arith,
            )
            | inl room ↦
                let step = next_power exp (ground arith) in
                (
                  suc exp,
                  (
                    ground arith,
                    omega (arith, below, power, wider exp (ground arith)),
                    inr (omega (arith, reached, power), ground arith),
                  ),
                  ground (arith, step),
                )
          ]
        ]

  -- Every 64-bit number has a text. One below 1024 is shown in bytes. Any other is shown in a unit from KiB to EiB, of which it is less
  -- than 1024, and at least one, unless it is that close to one that it is shown as 1.0.
  pub human_bytes_lem :
      (n : ℕ)
      → n < word
      → ((n < 1024) × (human_bytes display n ≡ some (display.bytes_text n)))
        ⊎ ((1024 ≤ n)
            × ((e : ℕ) × Suits n e
                × (human_bytes display n ≡ some (display.units_text (scaled n (suc e)) e))))
  unfolding human_bytes
  human_bytes_lem n fits = elim (Bool-cases (ltb n 1024)) [
    | inl small ↦ inl (ground arith, ground arith)
    | inr large ↦
        let (div, exp, found, unit) = unit_loop_lem n (ground arith) fits in
        inr (ground arith, shown_in n div exp unit found (ground arith))
  ]
