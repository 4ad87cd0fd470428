-- ===== src/Server/Transfers.antt =====
-- server/server.go: `transfers`, which routes the data streams that attach to the transfer in
-- progress that their token names. A stream is an abstract handle here. `attach` is one step here; in the code it looks the
-- channel up under the lock and sends into it behind the lock, so that a drop can come in between (Server/Attach).
pub mod Laws
use amber_store_iroh.Prelude.{
  ℕ, zero, suc, ltb, leb, Bool, true, false, List, [], ◌∷◌, ◌++◌, length, Option, none, some,
  bytes_equal, if◌then◌else◌,
}
use amber_store_iroh.Protocol.Error.{Bytes}

abbrev pub max_data_conns : ℕ
max_data_conns = 16

-- The map `pending`: the buffered channel of each token.
abbrev pub Pending : Type 0 → Type 0
Pending S = List (Bytes × List S)

-- What happens while `gather` waits: another goroutine attaches a stream, the select takes a
-- stream, or the deadline fires.
pub data Event (S : Type 0) : Type 0 where
  arrive : Bytes → S → Event S
  pick : Event S
  expire : Event S

module _ {S : Type 0} where
  unfoldable pub lookup : Bytes → Pending S → Option (List S)
  lookup token [] = none
  lookup token ((t, queue) ∷ rest) = if bytes_equal t token then some queue else lookup token rest

  unfoldable pub insert : Bytes → List S → Pending S → Pending S
  insert token queue [] = (token, queue) ∷ []
  insert token queue ((t, q) ∷ rest) =
      if bytes_equal t token then (token, queue) ∷ rest else (t, q) ∷ insert token queue rest

  unfoldable pub delete : Bytes → Pending S → Pending S
  delete token [] = []
  delete token ((t, q) ∷ rest) =
      let others = delete token rest in if bytes_equal t token then others else (t, q) ∷ others

  -- A new transfer, under a token that crypto/rand has made.
  unfoldable pub create : Bytes → Pending S → Pending S
  unfolding insert
  create token pending = insert token [] pending

  -- The stream goes into the token's channel, unless that is full.
  abbrev pub attach_to : Bytes → S → Pending S → Option (List S) → Bool × Pending S
  attach_to token stream pending none = (false, pending)
  attach_to token stream pending (some queue) =
      if ltb (length queue) max_data_conns
      then (true, insert token (queue ++ stream ∷ []) pending)
      else (false, pending)

  unfoldable pub attach : Bytes → S → Pending S → Bool × Pending S
  attach token stream pending = attach_to token stream pending (lookup token pending)

  abbrev pub take_front : Bytes → Pending S → Option (List S) → List S × Pending S
  take_front token pending none = ([], pending)
  take_front token pending (some []) = ([], pending)
  take_front token pending (some (stream ∷ queue)) = (stream ∷ [], insert token queue pending)

  -- The loop of `gather` over the events of the wait: the streams taken, and what is pending after it. A
  -- `pick` with an empty channel does not fire.
  unfoldable pub gather_loop : List (Event S) → Bytes → ℕ → List S → Pending S → List S × Pending S
  gather_loop [] token n out pending = (out, pending)
  gather_loop (expire ∷ events) token n out pending = (out, pending)
  gather_loop (arrive t stream ∷ events) token n out pending =
      let rest = gather_loop events token n out (attach t stream pending).1 in
      if leb n (length out) then (out, pending) else rest
  gather_loop (pick ∷ events) token n out pending =
      let (got, pending') = take_front token pending (lookup token pending) in
      let rest = gather_loop events token n (out ++ got) pending' in
      if leb n (length out) then (out, pending) else rest

  -- With an unknown token there is nothing to wait for.
  unfoldable pub gather : List (Event S) → Bytes → ℕ → Pending S → List S × Pending S
  unfolding gather_loop
  gather events token n pending = elim (lookup token pending) [
    | none ↦ ([], pending)
    | some queue ↦ gather_loop events token n [] pending
  ]

  -- The streams that `drop` closes, and the map without the token.
  abbrev pub or_empty : Option (List S) → List S
  or_empty none = []
  or_empty (some queue) = queue

  unfoldable pub drop_token : Bytes → Pending S → List S × Pending S
  drop_token token pending = (or_empty (lookup token pending), delete token pending)
