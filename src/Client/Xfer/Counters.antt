-- ===== src/Client/Xfer/Counters.antt =====
-- cmd/amber/xfer.go: what the counters hold when several goroutines have called the methods of one XferProgress.
use amber_store_iroh.Prelude.{
  ℕ, ◌+◌, ◌<◌, ◌%◌, ◌≡◌, refl, ap, ◌∙◌, String, ◌||◌, List, [], ◌∷◌, ◌++◌, some, ltb, arith,
}
use amber_store_iroh.Prelude.Int.{ℤ}
use amber_store_iroh.Client.Progress.{word, bits}
use amber_store_iroh.Client.Xfer.{
  XferProgress, Call, requested, transferred, wire, finish, Atomic, add_req_objs, add_done_objs,
  add_done_bytes, add_wire_bytes, store_finished, new_xfer_progress, called, apply, apply_all,
}

-- The operations of two goroutines, each in its own order.
pub data Merge : List Atomic → List Atomic → List Atomic → Type 0 where
  both_done : Merge [] [] []
  first : {a : Atomic} {xs ys log : List Atomic} → Merge xs ys log → Merge (a ∷ xs) ys (a ∷ log)
  second : {b : Atomic} {xs ys log : List Atomic} → Merge xs ys log → Merge xs (b ∷ ys) (b ∷ log)

-- The operations of a goroutine that makes these calls.
abbrev pub operations : XferProgress → List Call → List Atomic
operations x [] = []
operations x (c ∷ cs) = called (some x) c ++ operations x cs

-- The order in which the operations of all goroutines, each with its calls, reach the fields.
pub data Interleaves (x : XferProgress) : List (List Call) → List Atomic → Type 0 where
  no_goroutine : Interleaves x [] []
  beside :
      {cs : List Call} {gs : List (List Call)} {rest log : List Atomic}
      → Interleaves x gs rest
      → Merge (operations x cs) rest log
      → Interleaves x (cs ∷ gs) log

-- The sum over all calls of all goroutines.
abbrev pub over_calls : (Call → ℕ) → List Call → ℕ
over_calls f [] = 0
over_calls f (c ∷ cs) = f c + over_calls f cs

abbrev pub reported : (Call → ℕ) → List (List Call) → ℕ
reported f [] = 0
reported f (cs ∷ gs) = over_calls f cs + reported f gs

-- What one call reports.
abbrev pub objects_requested : Call → ℕ
objects_requested (requested objects bytes) = bits objects
objects_requested _ = 0

abbrev pub objects_moved : Call → ℕ
objects_moved (transferred objects bytes) = bits objects
objects_moved _ = 0

abbrev pub bytes_moved : Call → ℕ
bytes_moved (transferred objects bytes) = bits bytes
bytes_moved _ = 0

abbrev pub bytes_on_wire : Call → ℕ
bytes_on_wire (wire bytes) = bits bytes
bytes_on_wire _ = 0

abbrev pub finishes : Call → ℕ
finishes finish = 1
finishes _ = 0

-- What one operation adds to each field.
abbrev to_req_objs : Atomic → ℕ
to_req_objs (add_req_objs n) = bits n
to_req_objs _ = 0

abbrev to_done_objs : Atomic → ℕ
to_done_objs (add_done_objs n) = bits n
to_done_objs _ = 0

abbrev to_done_bytes : Atomic → ℕ
to_done_bytes (add_done_bytes n) = bits n
to_done_bytes _ = 0

abbrev to_wire_bytes : Atomic → ℕ
to_wire_bytes (add_wire_bytes n) = bits n
to_wire_bytes _ = 0

abbrev stores : Atomic → ℕ
stores store_finished = 1
stores _ = 0

abbrev total : (Atomic → ℕ) → List Atomic → ℕ
total f [] = 0
total f (a ∷ log) = f a + total f log

total-append : (f : Atomic → ℕ) (xs ys : List Atomic) → total f (xs ++ ys) ≡ total f xs + total f ys
total-append f [] ys = omega arith
total-append f (a ∷ xs) ys = omega (arith, total-append f xs ys)

total-Merge :
    (f : Atomic → ℕ) {xs ys log : List Atomic}
    → Merge xs ys log
    → total f log ≡ total f xs + total f ys
total-Merge f both_done = omega arith
total-Merge f (first m) = omega (arith, total-Merge f m)
total-Merge f (second m) = omega (arith, total-Merge f m)

module _ (f : Atomic → ℕ) (g : Call → ℕ) (x : XferProgress)
    (same : (c : Call) → total f (called (some x) c) ≡ g c) where
  total-operations : (cs : List Call) → total f (operations x cs) ≡ over_calls g cs
  total-operations [] = refl
  total-operations (c ∷ cs) =
      omega
        (arith, total-append f (called (some x) c) (operations x cs), same c, total-operations cs)

  total-Interleaves :
      {gs : List (List Call)} {log : List Atomic}
      → Interleaves x gs log
      → total f log ≡ reported g gs
  total-Interleaves no_goroutine = refl
  total-Interleaves (beside {cs} {gs} {rest} {log} i m) =
      omega (arith, total-Merge f m, total-operations cs, total-Interleaves i)

-- The counters behind some operations, from counters of 64 bits.
pub record Behind (log : List Atomic) (x y : XferProgress) : Type 0 where
  pub req : y.req_objs ≡ (x.req_objs + total to_req_objs log) % word
  pub objs : y.done_objs ≡ (x.done_objs + total to_done_objs log) % word
  pub content : y.done_bytes ≡ (x.done_bytes + total to_done_bytes log) % word
  pub network : y.wire_bytes ≡ (x.wire_bytes + total to_wire_bytes log) % word
  pub over : y.finished ≡ (x.finished || ltb 0 (total stores log))

abbrev InRange : XferProgress → Type 0
InRange x =
    (x.req_objs < word) × (x.done_objs < word) × (x.done_bytes < word) × (x.wire_bytes < word)

apply-InRange : (a : Atomic) (x : XferProgress) → InRange x → InRange (apply a x)
apply-InRange (add_req_objs n) x r = ground arith
apply-InRange (add_done_objs n) x r = ground arith
apply-InRange (add_done_bytes n) x r = ground arith
apply-InRange (add_wire_bytes n) x r = ground arith
apply-InRange store_finished x r = r

wraps : (w b t : ℕ) → ((w + b) % word + t) % word ≡ (w + (b + t)) % word
wraps w b t = omega arith

apply-Behind :
    (a : Atomic) (log : List Atomic) (x y : XferProgress)
    → Behind log (apply a x) y
    → Behind (a ∷ log) x y
apply-Behind (add_req_objs n) log x y b = record {
  req = b.req ∙ wraps x.req_objs (bits n) (total to_req_objs log);
  objs = omega (arith, b.objs);
  content = omega (arith, b.content);
  network = omega (arith, b.network);
  over = ground (arith, b.over);
}
apply-Behind (add_done_objs n) log x y b = record {
  req = omega (arith, b.req);
  objs = b.objs ∙ wraps x.done_objs (bits n) (total to_done_objs log);
  content = omega (arith, b.content);
  network = omega (arith, b.network);
  over = ground (arith, b.over);
}
apply-Behind (add_done_bytes n) log x y b = record {
  req = omega (arith, b.req);
  objs = omega (arith, b.objs);
  content = b.content ∙ wraps x.done_bytes (bits n) (total to_done_bytes log);
  network = omega (arith, b.network);
  over = ground (arith, b.over);
}
apply-Behind (add_wire_bytes n) log x y b = record {
  req = omega (arith, b.req);
  objs = omega (arith, b.objs);
  content = omega (arith, b.content);
  network = b.network ∙ wraps x.wire_bytes (bits n) (total to_wire_bytes log);
  over = ground (arith, b.over);
}
apply-Behind store_finished log x y b = record {
  req = omega (arith, b.req);
  objs = omega (arith, b.objs);
  content = omega (arith, b.content);
  network = omega (arith, b.network);
  over = ground (arith, b.over);
}

apply_all-Behind :
    (log : List Atomic) (x : XferProgress) → InRange x → Behind log x (apply_all log x)
unfolding apply_all
apply_all-Behind [] x r = record {
  req = omega (arith, r.0);
  objs = omega (arith, r.1);
  content = omega (arith, r.2);
  network = omega (arith, r.3);
  over = ground arith;
}
apply_all-Behind (a ∷ log) x r =
    apply-Behind a log x (apply_all log (apply a x))
      (apply_all-Behind log (apply a x) (apply-InRange a x r))

req_same :
    (x : XferProgress) (c : Call) → total to_req_objs (called (some x) c) ≡ objects_requested c
unfolding called
req_same x (requested objects bytes) = omega arith
req_same x (transferred objects bytes) = omega arith
req_same x (wire bytes) = omega arith
req_same x finish = omega arith

objs_same : (x : XferProgress) (c : Call) → total to_done_objs (called (some x) c) ≡ objects_moved c
unfolding called
objs_same x (requested objects bytes) = omega arith
objs_same x (transferred objects bytes) = omega arith
objs_same x (wire bytes) = omega arith
objs_same x finish = omega arith

content_same :
    (x : XferProgress) (c : Call) → total to_done_bytes (called (some x) c) ≡ bytes_moved c
unfolding called
content_same x (requested objects bytes) = omega arith
content_same x (transferred objects bytes) = omega arith
content_same x (wire bytes) = omega arith
content_same x finish = omega arith

network_same :
    (x : XferProgress) (c : Call) → total to_wire_bytes (called (some x) c) ≡ bytes_on_wire c
unfolding called
network_same x (requested objects bytes) = omega arith
network_same x (transferred objects bytes) = omega arith
network_same x (wire bytes) = omega arith
network_same x finish = omega arith

over_same : (x : XferProgress) (c : Call) → total stores (called (some x) c) ≡ finishes c
unfolding called
over_same x (requested objects bytes) = omega arith
over_same x (transferred objects bytes) = omega arith
over_same x (wire bytes) = omega arith
over_same x finish = omega arith

-- From a new tracker, in whatever order the atomic operations of the goroutines reach it, each counter ends xs the sum of what all
-- calls have reported of it, modulo 2^64; and it is finished exactly if some goroutine has called Finish.
pub apply_all-Interleaves :
    (verb : String) (bytes : ℤ) (gs : List (List Call)) (log : List Atomic)
    → Interleaves (new_xfer_progress verb bytes) gs log
    → let y = apply_all log (new_xfer_progress verb bytes) in
      (y.req_objs ≡ reported objects_requested gs % word)
      × (y.done_objs ≡ reported objects_moved gs % word)
      × (y.done_bytes ≡ reported bytes_moved gs % word)
      × (y.wire_bytes ≡ reported bytes_on_wire gs % word)
      × (y.finished ≡ ltb 0 (reported finishes gs))
unfolding new_xfer_progress called
apply_all-Interleaves verb bytes gs log i =
    let x = new_xfer_progress verb bytes in
    let b = apply_all-Behind log x (omega arith, omega arith, omega arith, omega arith) in
    (
      omega (arith, b.req, total-Interleaves to_req_objs objects_requested x (req_same x) i),
      omega (arith, b.objs, total-Interleaves to_done_objs objects_moved x (objs_same x) i),
      omega (arith, b.content, total-Interleaves to_done_bytes bytes_moved x (content_same x) i),
      omega (arith, b.network, total-Interleaves to_wire_bytes bytes_on_wire x (network_same x) i),
      b.over ∙ ap (λ t. ltb 0 t) (total-Interleaves stores finishes x (over_same x) i),
    )
