-- ===== src/Client/Progress.antt =====
-- cmd/amber/progress.go: the ingest counters, and the texts of a progress line. Floating point and the formats are the parameter
-- `Display`. A line is the record of what Sprintf is given. An int64 is a ℤ, and a 64-bit counter is a number below 2 ^ 64.
pub mod Durations
pub mod Units
pub mod Drawing
use amber_store_iroh.Prelude.{
  ℕ, zero, suc, ◌+◌, ◌-◌, ◌*◌, ◌/◌, ◌%◌, ◌^◌, String, Bool, true, false, not, ◌&&◌, Option, none,
  some, ◌==◌, ltb, leb, if◌then◌else◌,
}
use amber_store_iroh.Prelude.Int.{ℤ, pos, negsuc}

pub record Display : Type 1 where
  -- float64, with the constants 0, 100 and 1023.95.
  pub F : Type 0
  pub zero_f : F
  pub hundred : F
  pub nearly_unit : F
  pub of_ℕ : ℕ → F
  pub div : F → F → F
  pub mul : F → F → F
  pub lt : F → F → Bool
  -- uint64(f), int(f), time.Duration(f), and Duration.Seconds.
  pub to_uint64 : F → ℕ
  pub to_int : F → ℕ
  pub to_duration : F → ℤ
  pub seconds : ℤ → F
  -- "%d:%02d:%02d", "%d:%02d", "%d B", and "%.1f %ciB" with an index into "KMGTPE".
  pub hours_text : ℕ → ℕ → ℕ → String
  pub minutes_text : ℕ → ℕ → String
  pub bytes_text : ℕ → String
  pub units_text : F → ℕ → String

abbrev pub word : ℕ
word = 18446744073709551616

abbrev pub max_duration : ℕ
max_duration = 9223372036854775807

abbrev pub second : ℕ
second = 1000000000

-- An int64 from its 64 bits, and its bits.
abbrev pub as_int64 : ℕ → ℤ
as_int64 w = if leb w max_duration then pos w else negsuc (word - 1 - w)

abbrev pub bits : ℤ → ℕ
bits (pos n) = n % word
bits (negsuc n) = (word - 1 - n % word) % word

-- Duration.Round(time.Second) of a duration that is not negative.
abbrev pub round_second : ℕ → ℕ
round_second d =
    let r = d % second in
    if ltb (r + r) second
    then d - r
    else if leb (d + (second - r)) max_duration
    then d + (second - r)
    else max_duration

abbrev pub clamped : ℤ → ℕ
clamped (pos d) = d
clamped (negsuc d) = 0

-- The hours, minutes and seconds of fmtDuration.
unfoldable pub split_duration : ℤ → ℕ × ℕ × ℕ
split_duration d =
    let d0 = round_second (clamped d) in
    let h = d0 / (3600 * second) in
    let d1 = d0 - h * (3600 * second) in
    let m = d1 / (60 * second) in let d2 = d1 - m * (60 * second) in (h, m, d2 / second)

abbrev pub duration_text : Display → ℕ × ℕ × ℕ → String
duration_text display (h, m, s) =
    if ltb 0 h then display.hours_text h m s else display.minutes_text m s

unfoldable pub fmt_duration : Display → ℤ → String
unfolding split_duration
fmt_duration display d = duration_text display (split_duration d)

-- The loop of humanBytes, on fuel: the divisor and the exponent.
unfoldable pub unit_loop : ℕ → ℕ → ℕ → ℕ → Option (ℕ × ℕ)
unit_loop zero m div exp = none
unit_loop (suc fuel) m div exp =
    let rest = unit_loop fuel (m / 1024) (div * 1024 % word) (suc exp) in
    if leb 1024 m then rest else some (div, exp)

-- The promotion to the next unit.
abbrev pub promoted : (display : Display) → ℕ → ℕ × ℕ → ℕ × ℕ
promoted display n (div, exp) =
    if not (display.lt (display.div (display.of_ℕ n) (display.of_ℕ div)) display.nearly_unit)
      && ltb exp 5
    then (div * 1024 % word, suc exp)
    else (div, exp)

-- The divisor and the exponent for a number that is not shown in bytes. Seven rounds are enough.
unfoldable pub unit_of : Display → ℕ → Option (ℕ × ℕ)
unfolding unit_loop
unit_of display n = elim (unit_loop 7 (n / 1024) 1024 0) [
  | none ↦ none
  | some r ↦ some (promoted display n r)
]

abbrev pub in_units : Display → ℕ → Option (ℕ × ℕ) → Option String
in_units display n none = none
in_units display n (some (div, exp)) =
    if ltb exp 6
    then some (display.units_text (display.div (display.of_ℕ n) (display.of_ℕ div)) exp)
    else none

-- None is an index out of range.
unfoldable pub human_bytes : Display → ℕ → Option String
unfolding unit_of
human_bytes display n =
    if ltb n 1024 then some (display.bytes_text n) else in_units display n (unit_of display n)

-- The filled and the empty cells; none where strings.Repeat panics.
unfoldable pub bar : (display : Display) → display.F → ℕ → Option (ℕ × ℕ)
bar display pct width =
    let low = if display.lt pct display.zero_f then display.zero_f else pct in
    let p = if display.lt display.hundred low then display.hundred else low in
    let filled =
      display.to_int (display.mul (display.div p display.hundred) (display.of_ℕ width)) in
    if leb filled width then some (filled, width - filled) else none

pub record Progress : Type 0 where
  pub total_files : ℤ
  pub total_bytes : ℤ
  pub bytes_done : ℕ
  pub files_done : ℕ

unfoldable pub new_progress : ℤ → ℤ → Progress
new_progress files bytes = record {
  total_files = files;
  total_bytes = bytes;
  bytes_done = 0;
  files_done = 0;
}

-- The methods are no-ops on nil.
unfoldable pub add_bytes : ℤ → Option Progress → Option Progress
add_bytes n none = none
add_bytes n (some p) = some (record p { bytes_done = (p.bytes_done + bits n) % word })

unfoldable pub file_done : Option Progress → Option Progress
file_done none = none
file_done (some p) = some (record p { files_done = (p.files_done + 1) % word })

-- time.Duration(remaining seconds) * time.Second, which wraps.
abbrev pub times_second : ℤ → ℤ
times_second d = as_int64 (bits d * second % word)

pub record IngestLine (F : Type 0) : Type 0 where
  pub pct : F
  pub cells : Option (ℕ × ℕ)
  pub done : Option String
  pub total : Option String
  pub rate : Option String
  pub elapsed : String
  pub eta : String
  pub files : ℕ
  pub total_files : ℤ
  pub tail : String

module _ (display : Display) where
  -- Bytes per second, 0 at no time.
  abbrev pub rate_of : ℕ → display.F → display.F
  rate_of done secs =
      if display.lt display.zero_f secs
      then display.div (display.of_ℕ done) secs
      else display.zero_f

  abbrev pub capped : display.F → display.F
  capped pct = if display.lt display.hundred pct then display.hundred else pct

  abbrev pub percent : ℕ → ℕ → display.F
  percent done total =
      capped (display.mul (display.div (display.of_ℕ done) (display.of_ℕ total)) display.hundred)

  unfoldable pub eta_of : ℕ → ℕ → display.F → String
  unfolding fmt_duration
  eta_of done total rate =
      if ltb 0 total && (ltb 0 done && (ltb done total && display.lt display.zero_f rate))
      then fmt_duration display
          (times_second (display.to_duration (display.div (display.of_ℕ (total - done)) rate)))
      else "--:--"

  unfoldable pub render : Progress → ℤ → IngestLine display.F
  unfolding eta_of fmt_duration human_bytes bar
  render p elapsed =
      let total = bits p.total_bytes in
      let rate = rate_of p.bytes_done (display.seconds elapsed) in
      let pct = if ltb 0 total then percent p.bytes_done total else display.hundred in
      record {
        pct = pct;
        cells = bar display pct 16;
        done = human_bytes display p.bytes_done;
        total = human_bytes display total;
        rate = human_bytes display (display.to_uint64 rate);
        elapsed = fmt_duration display elapsed;
        eta = eta_of p.bytes_done total rate;
        files = p.files_done;
        total_files = p.total_files;
        tail = if ltb 0 total && leb total p.bytes_done then "  finalizing…" else "";
      }
