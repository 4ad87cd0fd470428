-- ===== src/Client/Progress/Drawing.antt =====
-- cmd/amber/progress.go, runProgressLoop: what is drawn until the context is cancelled. The clock is read once for each line: at the
-- start, at each tick of the ticker, and at the end.
use amber_store_iroh.Prelude.{ℕ, Bool, true, false, List, [], ◌∷◌, ◌++◌, map}
use amber_store_iroh.Prelude.Int.{ℤ}

-- A line drawn over the last one, a line of its own, and the last one erased.
pub data Drawn (Line : Type 0) : Type 0 where
  in_place : Line → Drawn Line
  plain : Line → Drawn Line
  erased : Drawn Line

abbrev pub draw : {Line : Type 0} → Bool → Line → Drawn Line
draw true line = in_place line
draw false line = plain line

abbrev pub last_drawn : {Line : Type 0} → Bool → Line → List (Drawn Line)
last_drawn true line = erased ∷ []
last_drawn false line = plain line ∷ []

-- The interval of the ticker, in milliseconds.
abbrev pub interval : Bool → ℕ
interval true = 150
interval false = 2000

unfoldable pub run_progress_loop :
    {Line : Type 0} → Bool → (ℤ → Line) → ℤ → List ℤ → ℤ → List (Drawn Line)
run_progress_loop is_tty render start ticks end =
    draw is_tty (render start) ∷ map (λ t. draw is_tty (render t)) ticks
    ++ last_drawn is_tty (render end)
