-- ===== src/Wantsync/Send/Laws.antt =====
-- What the sender does with each round, and that it always ends.
use amber_store_iroh.Prelude.{
  ℕ, zero, suc, ◌<◌, ◌≡◌, sym, ap, ◌∙◌, subst, inl, inr, Bool-cases, List, [], ◌∷◌, length, Option,
  none, some, Eq, Option-cases, List-cases, arith,
}
use amber_store_iroh.Prelude.Int.{◌==ℤ◌}
use amber_store_iroh.Protocol.Error.{Bytes, Error, ok, remote, unexpected_frame, Result-cases}
use amber_store_iroh.Protocol.Msg.{Msg, t_err, t_wants}
use amber_store_iroh.Protocol.Stream.{Stream}
use amber_store_iroh.Protocol.Frame.{read_msg}
use amber_store_iroh.Protocol.Frame.Laws.{read_msg_consumes}
use amber_store_iroh.Protocol.Pack.Wire.{ReadsPacks}
use amber_store_iroh.Protocol.Pack.Input.{send_pack-input}
use amber_store_iroh.Wantsync.Library.{Library}
use amber_store_iroh.Wantsync.Keys.{dedupe_keys}
use amber_store_iroh.Wantsync.Send.Round.{Permutes, Round, answer_ok, answer-Round}
use amber_store_iroh.Wantsync.Send.{Outcome, records_for, answer, serve, send_loop, send}
use amber_store_iroh.Protocol.Msg.{remote_from_msg}

module _ {Key : Type 0} ⦃e : Eq Key⦄ (lib : Library Key) (st : lib.State) where
  -- An exchange from one state of the stream to another: rounds, each for a TWants frame with keys,
  -- and an empty TWants behind them.
  pub data Exchange : Stream → Stream → Type 0 where
    over :
        {s t : Stream} (m : Msg)
        → read_msg lib.codec s ≡ (ok m, t)
        → m.type ≡ t_wants
        → m.keys ≡ []
        → Exchange s t
    round :
        {s t u v : Stream} (m : Msg)
        → read_msg lib.codec s ≡ (ok m, t)
        → m.type ≡ t_wants
        → Round lib st m.keys t u
        → Exchange u v
        → Exchange s v

  serve_sound :
      (continue : Stream → Outcome)
      → ((s v : Stream) → continue s ≡ some (none, v) → Exchange s v)
      → ReadsPacks lib.codec
      → Permutes lib st
      → (m : Msg) (s t v : Stream) → read_msg lib.codec s ≡ (ok m, t)
      → serve lib st continue m t ≡ some (none, v)
      → Exchange s v
  serve_sound continue ih reads sorts m s t v got h = elim (Bool-cases (m.type ==ℤ t_wants)) [
    | inr other ↦ absurd ground arith
    | inl wanted ↦
        let is_wants : m.type ≡ t_wants = ground arith in
        elim (List-cases m.keys) [
          | inl none_left ↦
              let same : t ≡ v = ground arith in
              subst (λ x. Exchange s x) same (over m got is_wants none_left)
          | inr (b, bs, some_keys) ↦ elim (Option-cases (answer lib st (b ∷ bs) t).0) [
            | inr (x, failed) ↦ absurd ground arith
            | inl fine ↦
                let u = (answer lib st (b ∷ bs) t).1 in
                round m got is_wants
                  (subst (λ l. Round lib st l t u) (sym some_keys)
                    (answer-Round lib st reads sorts (b ∷ bs) t u ground arith))
                  (ih u v ground arith)
          ]
        ]
  ]

  send_loop_sound :
      ReadsPacks lib.codec
      → Permutes lib st
      → (fuel : ℕ) (s v : Stream) → send_loop lib st fuel s ≡ some (none, v)
      → Exchange s v
  unfolding send_loop
  send_loop_sound reads sorts zero s v h = absurd (cc)
  send_loop_sound reads sorts (suc fuel) s v h = elim (Result-cases (read_msg lib.codec s).0) [
    | inl (x, failed) ↦ absurd ground arith
    | inr (m, got) ↦
        serve_sound (send_loop lib st fuel) (send_loop_sound reads sorts fuel) reads sorts m s
          (read_msg lib.codec s).1 v ground arith ground arith
  ]

  -- If `send` returns without an error, then it answered each TWants frame that it read with one pack, in TData frames of at most a
  -- chunk with TDataEnd behind them. The pack is made of the stored records of exactly the keys that the frame asks for, each of them
  -- once, and of no other; every one could be read. Nothing else was written, and the exchange ended at an empty TWants. This asks that
  -- the codec reads back the frames of a pack, and that sorting by location keeps how often each key is there.
  pub send_sound :
      ReadsPacks lib.codec
      → Permutes lib st
      → (s v : Stream) → send lib st s ≡ some (none, v)
      → Exchange s v
  unfolding send
  send_sound reads sorts s v h = send_loop_sound reads sorts (suc (length s.input)) s v h

  answer-input :
      (raw : List Bytes) (s : Stream) (s' : Stream)
      → answer lib st raw s ≡ (none, s')
      → s'.input ≡ s.input
  answer-input raw s s' h =
      let (keys, parsed, went) = answer_ok lib st raw s s' h in
      ap (λ x. x.1.input) (sym went)
      ∙ send_pack-input lib.codec lib.pack_writer
          (records_for lib st (lib.sort_by_location st (dedupe_keys keys))) s

  serve_ends :
      (continue : Stream → Outcome) (n : ℕ)
      → ((u : Stream) → length u.input < n → (o : Option Error × Stream) × (continue u ≡ some o))
      → (m : Msg) (t : Stream) → length t.input < n
      → (o : Option Error × Stream) × (serve lib st continue m t ≡ some o)
  serve_ends continue n ih m t room = elim (Bool-cases (m.type ==ℤ t_err)) [
    | inl failed ↦ ((some (remote (remote_from_msg m)), t), ground arith)
    | inr fine ↦ elim (Bool-cases (m.type ==ℤ t_wants)) [
      | inr other ↦ ((some (unexpected_frame m.type), t), ground arith)
      | inl wanted ↦ elim (List-cases m.keys) [
        | inl none_left ↦ ((none, t), ground arith)
        | inr (b, bs, some_keys) ↦ elim (Option-cases (answer lib st (b ∷ bs) t).0) [
          | inr (x, failed) ↦ ((some x, (answer lib st (b ∷ bs) t).1), ground arith)
          | inl went ↦
              let u = (answer lib st (b ∷ bs) t).1 in
              let (o, rest) =
                ih u
                  (omega (arith, ap (length {A = ℕ}) (answer-input (b ∷ bs) t u (ground arith)))) in
              (o, ground arith)
        ]
      ]
    ]
  ]

  send_loop_ends :
      (fuel : ℕ) (s : Stream)
      → length s.input < fuel
      → (o : Option Error × Stream) × (send_loop lib st fuel s ≡ some o)
  unfolding send_loop
  send_loop_ends zero s room = absurd (omega arith)
  send_loop_ends (suc fuel) s room = elim (Result-cases (read_msg lib.codec s).0) [
    | inl (x, failed) ↦ ((some x, (read_msg lib.codec s).1), ground arith)
    | inr (m, got) ↦
        let t = (read_msg lib.codec s).1 in
        let (o, rest) =
          serve_ends (send_loop lib st fuel) fuel (send_loop_ends fuel) m t
            (omega (arith, read_msg_consumes lib.codec m s t (ground arith))) in
        (o, ground arith)
  ]

  -- `send` always returns: one round for each byte of input and one more are enough, whatever the
  -- peer asks for.
  pub send_ends : (s : Stream) → (o : Option Error × Stream) × (send lib st s ≡ some o)
  unfolding send
  send_ends s = send_loop_ends (suc (length s.input)) s (omega arith)
