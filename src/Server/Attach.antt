-- ===== src/Server/Attach.antt =====
-- server/server.go: `attach`, `gather` and `drop` of transfers for one token, step by step. An attach looks the channel up under the lock and
-- sends to it without the lock, so that a drop can come in between. A stream is the number of the handler that attaches it.
pub mod Late
use amber_store_iroh.Prelude.{
  ℕ, suc, ◌+◌, ◌<◌, ◌≤◌, ◌≡◌, ◌≢◌, Bool, List, [], ◌∷◌, ◌++◌, length, ◌==◌, if◌then◌else◌,
}
use amber_store_iroh.Server.Transfers.{max_data_conns}

-- Whether the token is pending, is deleted while drop empties the channel, or drop has returned.
pub data Token : Type 0 where
  pending : Token
  emptying : Token
  dropped : Token

-- A handler before attach, with the channel in its hands, and with what attach has returned.
pub data Place : Type 0 where
  outside : Place
  sending : Place
  taken : Place
  refused : Place

-- `queue` is the channel, `gathered` are the streams of the transfer, `closed` those that drop has closed.
pub record Transfer : Type 0 where
  pub token : Token
  pub queue : List ℕ
  pub gathered : List ℕ
  pub closed : List ℕ
  pub place : ℕ → Place

abbrev pub put_place : ℕ → Place → Transfer → Transfer
put_place h p t = record t { place = λ k. if k == h then p else t.place k }

-- The send to the channel succeeds.
abbrev pub sent : ℕ → Transfer → Transfer
sent h t = put_place h taken (record t { queue = t.queue ++ h ∷ [] })

pub data Step (t : Transfer) : Transfer → Type 0 where
  found : (h : ℕ) → t.place h ≡ outside → t.token ≡ pending → Step t (put_place h sending t)
  unknown : (h : ℕ) → t.place h ≡ outside → t.token ≢ pending → Step t (put_place h refused t)
  send : (h : ℕ) → t.place h ≡ sending → length t.queue < max_data_conns → Step t (sent h t)
  full :
      (h : ℕ)
      → t.place h ≡ sending
      → max_data_conns ≤ length t.queue
      → Step t (put_place h refused t)
  -- gather, which the owner of the token calls before drop.
  gather :
      (h : ℕ) (rest : List ℕ)
      → t.token ≡ pending
      → t.queue ≡ h ∷ rest
      → Step t (record t { queue = rest; gathered = h ∷ t.gathered })
  -- drop: the token is deleted, the channel emptied as long as it has streams, and left when it has none.
  delete : t.token ≡ pending → Step t (record t { token = emptying })
  close :
      (h : ℕ) (rest : List ℕ)
      → t.token ≡ emptying
      → t.queue ≡ h ∷ rest
      → Step t (record t { queue = rest; closed = h ∷ t.closed })
  empty : t.token ≡ emptying → t.queue ≡ [] → Step t (record t { token = dropped })

-- The token is fresh_token.
abbrev pub fresh_token : Transfer
fresh_token = record {
  token = pending;
  queue = [];
  gathered = [];
  closed = [];
  place = λ h. outside;
}

-- The states behind a state.
pub data From (s : Transfer) : Transfer → Type 0 where
  here : From s s
  later : {t u : Transfer} → From s t → Step t u → From s u
