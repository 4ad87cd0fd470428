-- ===== src/Client/Progress/Durations.antt =====
-- cmd/amber/progress.go, fmtDuration: what the hours, minutes and seconds add up to.
use amber_store_iroh.Prelude.{
  ℕ, ◌+◌, ◌-◌, ◌*◌, ◌/◌, ◌%◌, ◌≤◌, ◌<◌, ◌≡◌, refl, arith, Bool-cases, ltb, inl, inr, ap, ◌∙◌,
}
use amber_store_iroh.Prelude.Int.{pos, negsuc}
use amber_store_iroh.Client.Progress.{
  Display, second, max_duration, word, round_second, split_duration, fmt_duration, times_second,
}

-- The duration that three numbers stand for.
abbrev pub total_of : ℕ × ℕ × ℕ → ℕ
total_of (h, m, s) = (h * 3600 + m * 60 + s) * second

rounds :
    (d : ℕ)
    → d + 500000000 ≤ max_duration
    → (k : ℕ) × (round_second d ≡ k * second)
      × (k * second ≤ d + 500000000)
      × (d < k * second + 500000000)
rounds d small = elim (Bool-cases (ltb (d % second + d % second) second)) [
  | inl down ↦ (d / second, ground arith, ground arith, ground arith)
  | inr up ↦ (d / second + 1, ground arith, ground arith, ground arith)
]

splits :
    (k : ℕ)
    → let n = k * second in
      let h = n / (3600 * second) in
      let d1 = n - h * (3600 * second) in
      let m = d1 / (60 * second) in
      let d2 = d1 - m * (60 * second) in
      (m < 60) × (d2 / second < 60) × (total_of (h, m, d2 / second) ≡ n)
splits k = (omega arith, omega arith, omega arith)

-- Minutes and seconds stay below 60, and the time shown is the nearest whole second, a half rounded up, as long as that is a duration.
pub split_duration_lem :
    (d : ℕ)
    → d + 500000000 ≤ max_duration
    → ((split_duration (pos d)).1 < 60)
      × ((split_duration (pos d)).2 < 60)
      × (total_of (split_duration (pos d)) ≤ d + 500000000)
      × (d < total_of (split_duration (pos d)) + 500000000)
unfolding split_duration
split_duration_lem d small =
    let (k, is_k, above, below) = rounds d small in
    let (m, s, sum) = splits k in
    rw is_k (m, s, omega (arith, sum, above), omega (arith, sum, below))

negative : (display : Display) (n : ℕ) → fmt_duration display (negsuc n) ≡ display.minutes_text 0 0
unfolding fmt_duration split_duration
negative display n = refl

-- When the remaining seconds are too many for a duration, the product wraps to a negative number, and the time that is left is shown
-- as none: a transfer of centuries looks finished.
pub times_second_wraps :
    (display : Display) (r : ℕ)
    → 9223372037 ≤ r
    → r < 18446744074
    → fmt_duration display (times_second (pos r)) ≡ display.minutes_text 0 0
times_second_wraps display r low high =
    let wrapped : times_second (pos r) ≡ negsuc (word - 1 - r * second) = ground arith in
    ap (fmt_duration display) wrapped ∙ negative display (word - 1 - r * second)
