-- ===== src/Client/Xfer.antt =====
-- cmd/amber/xfer.go: the counters of a push or a pull, the line drawn from them, and the summary. A counter is the 64 bits of an int64.
pub mod Counters
use amber_store_iroh.Prelude.{
  ℕ, ◌+◌, ◌%◌, String, Bool, true, false, List, [], ◌∷◌, Option, none, some, ◌==◌, ltb, leb, ◌&&◌,
  if◌then◌else◌,
}
use amber_store_iroh.Prelude.Int.{ℤ}
use amber_store_iroh.Client.Progress.{
  Display, word, max_duration, bits, as_int64, fmt_duration, human_bytes, bar,
}

pub record XferProgress : Type 0 where
  pub verb : String
  pub total_bytes : ℤ
  pub req_objs : ℕ
  pub done_objs : ℕ
  pub done_bytes : ℕ
  pub wire_bytes : ℕ
  pub finished : Bool

unfoldable pub new_xfer_progress : String → ℤ → XferProgress
new_xfer_progress verb total = record {
  verb = verb;
  total_bytes = total;
  req_objs = 0;
  done_objs = 0;
  done_bytes = 0;
  wire_bytes = 0;
  finished = false;
}

-- atomic.Int64's Add.
abbrev pub add : ℕ → ℤ → ℕ
add w n = (w + bits n) % word

-- The calls of the transfer, which come from several goroutines.
pub data Call : Type 0 where
  requested : ℤ → ℤ → Call
  transferred : ℤ → ℤ → Call
  wire : ℤ → Call
  finish : Call

-- The atomic operations on the fields.
pub data Atomic : Type 0 where
  add_req_objs : ℤ → Atomic
  add_done_objs : ℤ → Atomic
  add_done_bytes : ℤ → Atomic
  add_wire_bytes : ℤ → Atomic
  store_finished : Atomic

-- The atomic operations that a method does, in order. The methods are no-ops on nil.
unfoldable pub called : Option XferProgress → Call → List Atomic
called none c = []
called (some x) (requested objects bytes) = add_req_objs objects ∷ []
called (some x) (transferred objects bytes) = add_done_objs objects ∷ add_done_bytes bytes ∷ []
called (some x) (wire bytes) = add_wire_bytes bytes ∷ []
called (some x) finish = store_finished ∷ []

abbrev pub apply : Atomic → XferProgress → XferProgress
apply (add_req_objs n) x = record x { req_objs = add x.req_objs n }
apply (add_done_objs n) x = record x { done_objs = add x.done_objs n }
apply (add_done_bytes n) x = record x { done_bytes = add x.done_bytes n }
apply (add_wire_bytes n) x = record x { wire_bytes = add x.wire_bytes n }
apply store_finished x = record x { finished = true }

-- The operations one after the other, in the order in which they reach the fields.
unfoldable pub apply_all : List Atomic → XferProgress → XferProgress
apply_all [] x = x
apply_all (a ∷ log) x = apply_all log (apply a x)

pub record XferLine (F : Type 0) : Type 0 where
  pub verb : String
  pub pct : F
  pub cells : Option (ℕ × ℕ)
  pub done : Option String
  pub total : Option String
  pub rate : Option String
  pub wire_rate : Option String
  pub elapsed : String
  pub objs : ℤ
  pub req : ℤ

-- The summary: that nothing moved, or what did.
pub data Summary : Type 0 where
  up_to_date : String → Summary
  moved :
      (verb : String) (objs : ℤ) (bytes : Option String) (elapsed : String)
      (rate wire wire_rate : Option String)
      → Summary

module _ (display : Display) (of_int64 : ℤ → display.F) where
  -- The float of the int64 whose bits are given, by the seconds; 0 at no time.
  abbrev pub per_second : ℕ → display.F → display.F
  per_second w secs =
      if display.lt display.zero_f secs
      then display.div (of_int64 (as_int64 w)) secs
      else display.zero_f

  abbrev pub positive : ℤ → Bool
  positive n = ltb 0 (bits n) && leb (bits n) max_duration

  abbrev pub percent_of : XferProgress → display.F
  percent_of x =
      let pct =
        display.mul (display.div (of_int64 (as_int64 x.done_bytes)) (of_int64 x.total_bytes))
          display.hundred in
      if x.finished
      then display.hundred
      else if positive x.total_bytes
      then (if display.lt display.hundred pct then display.hundred else pct)
      else display.zero_f

  unfoldable pub render : XferProgress → ℤ → XferLine display.F
  unfolding bar human_bytes fmt_duration
  render x elapsed =
      let secs = display.seconds elapsed in
      record {
        verb = x.verb;
        pct = percent_of x;
        cells = bar display (percent_of x) 16;
        done = human_bytes display x.done_bytes;
        total = human_bytes display (bits x.total_bytes);
        rate = human_bytes display (display.to_uint64 (per_second x.done_bytes secs));
        wire_rate = human_bytes display (display.to_uint64 (per_second x.wire_bytes secs));
        elapsed = fmt_duration display elapsed;
        objs = as_int64 x.done_objs;
        req = as_int64 x.req_objs;
      }

  unfoldable pub summary : XferProgress → ℤ → Summary
  unfolding human_bytes fmt_duration
  summary x elapsed =
      let secs = display.seconds elapsed in
      if x.done_objs == 0
      then up_to_date x.verb
      else moved x.verb (as_int64 x.done_objs) (human_bytes display x.done_bytes)
          (fmt_duration display elapsed)
          (human_bytes display (display.to_uint64 (per_second x.done_bytes secs)))
          (human_bytes display x.wire_bytes)
          (human_bytes display (display.to_uint64 (per_second x.wire_bytes secs)))
