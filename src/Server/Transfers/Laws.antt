-- ===== src/Server/Transfers/Laws.antt =====
-- server/server.go, transfer and its drop: where the streams go that were put into the channel of a transfer. They are handed to the
-- transfer, in order of arrival, or wait in the channel, which `drop_token` empties. A send that comes late, between two steps of the
-- handler, is in Attach.
use amber_store_iroh.Prelude.{
  ℕ, ◌≤◌, ◌≡◌, refl, sym, ap, ◌∙◌, leb, Bool, true, false, Bool-cases, Option-cases, inl, inr, List,
  [], ◌∷◌, ◌++◌, append_assoc, append-nil, length, length-append, Option, none, some, bytes_equal,
  bytes_equal_iff, if◌then◌else◌, arith,
}
use amber_store_iroh.Protocol.Error.{Bytes}
use amber_store_iroh.Server.Transfers.{
  Pending, Event, arrive, pick, expire, lookup, insert, delete, attach, take_front, gather_loop,
  gather, or_empty, drop_token,
}

module _ {S : Type 0} where
  pub lookup-insert :
      (token t : Bytes) (queue : List S) (pending : Pending S)
      → lookup t (insert token queue pending)
        ≡ (if bytes_equal token t then some queue else lookup t pending)
  unfolding lookup insert
  lookup-insert token t queue [] = refl
  lookup-insert token t queue ((u, q) ∷ rest) = ground (
    arith,
    bytes_equal_iff u token,
    bytes_equal_iff u t,
    bytes_equal_iff token t,
    lookup-insert token t queue rest,
  )

  pub lookup-delete :
      (token t : Bytes) (pending : Pending S)
      → lookup t (delete token pending) ≡ (if bytes_equal token t then none else lookup t pending)
  unfolding lookup delete
  lookup-delete token t [] = ground arith
  lookup-delete token t ((u, q) ∷ rest) = ground (
    arith,
    bytes_equal_iff u token,
    bytes_equal_iff u t,
    bytes_equal_iff token t,
    lookup-delete token t rest,
  )

  abbrev pub accepted_by : Bool → S → List S
  accepted_by true stream = stream ∷ []
  accepted_by false stream = []

  -- An attach to a token adds the stream to what waits for it exactly if it is accepted, and touches no other token.
  pub attach-waiting :
      (token t : Bytes) (stream : S) (pending : Pending S)
      → or_empty (lookup token (attach t stream pending).1)
        ≡ or_empty (lookup token pending)
          ++ (if bytes_equal t token then accepted_by (attach t stream pending).0 stream else [])
  unfolding attach
  attach-waiting token t stream pending = elim (Option-cases (lookup t pending)) [
    | inl unknown ↦ ground (arith, append-nil (or_empty (lookup token pending)))
    | inr (queue, known) ↦ ground (
      arith,
      lookup-insert t token (queue ++ stream ∷ []) pending,
      bytes_equal_iff t token,
      append-nil (or_empty (lookup token pending)),
    )
  ]

  -- Taking the stream in front moves it from the channel to the transfer.
  take_front-waiting :
      (token : Bytes) (pending : Pending S)
      → (take_front token pending (lookup token pending)).0
          ++ or_empty (lookup token (take_front token pending (lookup token pending)).1)
        ≡ or_empty (lookup token pending)
  take_front-waiting token pending = elim (Option-cases (lookup token pending)) [
    | inl unknown ↦ ground arith
    | inr ([], known) ↦ ground arith
    | inr (stream ∷ queue, known) ↦
        ground (arith, lookup-insert token token queue pending, bytes_equal_iff token token)
  ]

  -- The streams that arrive for the token and are accepted while `gather` waits, in order.
  abbrev pub accepted : List (Event S) → Bytes → ℕ → List S → Pending S → List S
  accepted [] token n out pending = []
  accepted (expire ∷ events) token n out pending = []
  accepted (arrive t stream ∷ events) token n out pending =
      let (taken, pending') = attach t stream pending in
      let rest = accepted events token n out pending' in
      if leb n (length out)
      then []
      else (if bytes_equal t token then accepted_by taken stream else []) ++ rest
  accepted (pick ∷ events) token n out pending =
      let (got, pending') = take_front token pending (lookup token pending) in
      let rest = accepted events token n (out ++ got) pending' in
      if leb n (length out) then [] else rest

  gather_loop-keeps :
      (events : List (Event S)) (token : Bytes) (n : ℕ) (out : List S) (pending : Pending S)
      → (gather_loop events token n out pending).0
          ++ or_empty (lookup token (gather_loop events token n out pending).1)
        ≡ out ++ or_empty (lookup token pending) ++ accepted events token n out pending
  unfolding gather_loop
  gather_loop-keeps [] token n out pending =
      sym (append-nil (out ++ or_empty (lookup token pending)))
  gather_loop-keeps (expire ∷ events) token n out pending =
      sym (append-nil (out ++ or_empty (lookup token pending)))
  gather_loop-keeps (arrive t stream ∷ events) token n out pending =
      let w = or_empty (lookup token pending) in
      let pending' = (attach t stream pending).1 in
      let x = if bytes_equal t token then accepted_by (attach t stream pending).0 stream else [] in
      let later = accepted events token n out pending' in
      let regroup : (out ++ or_empty (lookup token pending')) ++ later
          ≡ (out ++ w) ++ (x ++ later) =
        rw (attach-waiting token t stream pending) (simp append_assoc) in
      elim (Bool-cases (leb n (length out))) [
        | inl full ↦ ground (arith, append-nil (out ++ w))
        | inr room ↦ ground (arith, gather_loop-keeps events token n out pending', regroup)
      ]
  gather_loop-keeps (pick ∷ events) token n out pending =
      let w = or_empty (lookup token pending) in
      let (got, pending') = take_front token pending (lookup token pending) in
      let later = accepted events token n (out ++ got) pending' in
      let regroup : ((out ++ got) ++ or_empty (lookup token pending')) ++ later
          ≡ (out ++ w) ++ later =
        ap (λ l. l ++ later)
          (append_assoc out got (or_empty (lookup token pending'))
            ∙ ap (λ l. out ++ l) (take_front-waiting token pending)) in
      elim (Bool-cases (leb n (length out))) [
        | inl full ↦ ground (arith, append-nil (out ++ w))
        | inr room ↦ ground (arith, gather_loop-keeps events token n (out ++ got) pending', regroup)
      ]

  length-take_front :
      (token : Bytes) (pending : Pending S) (q : Option (List S))
      → length (take_front token pending q).0 ≤ 1
  length-take_front token pending none = omega arith
  length-take_front token pending (some []) = omega arith
  length-take_front token pending (some (stream ∷ queue)) = omega arith

  gather_loop-le :
      (events : List (Event S)) (token : Bytes) (n : ℕ) (out : List S) (pending : Pending S)
      → length out ≤ n
      → length (gather_loop events token n out pending).0 ≤ n
  unfolding gather_loop
  gather_loop-le [] token n out pending h = h
  gather_loop-le (expire ∷ events) token n out pending h = h
  gather_loop-le (arrive t stream ∷ events) token n out pending h =
      ground (arith, gather_loop-le events token n out (attach t stream pending).1)
  gather_loop-le (pick ∷ events) token n out pending h =
      let (got, pending') = take_front token pending (lookup token pending) in
      elim (Bool-cases (leb n (length out))) [
        | inl full ↦ ground arith
        | inr room ↦ ground (
          arith,
          gather_loop-le events token n (out ++ got) pending',
          length-append out got,
          length-take_front token pending (lookup token pending),
        )
      ]

  -- Whatever happens while `gather` waits, it takes at most the streams that were promised, and the streams it took with those
  -- that `drop_token` then closes are, in the order of arrival, all that waited before and all that were accepted meanwhile; the
  -- token is unknown afterwards.
  pub gather-drop_token :
      (events : List (Event S)) (token : Bytes) (n : ℕ) (pending : Pending S) (queue : List S)
      → lookup token pending ≡ some queue
      → (length (gather events token n pending).0 ≤ n)
        × ((gather events token n pending).0
              ++ (drop_token token (gather events token n pending).1).0
            ≡ queue ++ accepted events token n [] pending)
        × (lookup token (drop_token token (gather events token n pending).1).1 ≡ none)
  unfolding gather drop_token
  gather-drop_token events token n pending queue known = (
    ground (arith, gather_loop-le events token n [] pending),
    ground (arith, gather_loop-keeps events token n [] pending),
    ground (
      arith,
      lookup-delete token token (gather events token n pending).1,
      bytes_equal_iff token token,
    ),
  )
