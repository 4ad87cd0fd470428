-- ===== src/Server/Attach/Late.antt =====
-- The streams of a transfer whose attach comes late.
use amber_store_iroh.Prelude.{
  ℕ, ◌<◌, ◌≡◌, ◌≢◌, ◌↔◌, refl, sym, subst, List, [], ◌∷◌, length, Member, Member-append,
  Member-append_left, Member-append_right, inl, inr, ◌⊎◌, arith,
}
use native.Mathlib.Decide.{ℕ_discrete}
use amber_store_iroh.Server.Transfers.{max_data_conns}
use amber_store_iroh.Server.Attach.{
  dropped, Place, outside, sending, taken, refused, Transfer, put_place, sent, Step, found, unknown,
  send, full, gather, delete, close, empty, fresh_token, From, here, later,
}

-- Where a stream is that was attached.
abbrev pub Kept : ℕ → Transfer → Type 0
Kept h t = Member h t.queue ⊎ (Member h t.gathered ⊎ Member h t.closed)

pub record Inv (t : Transfer) : Type 0 where
  pub kept : (h : ℕ) → t.place h ≡ taken → Kept h t
  pub taken_before : (h : ℕ) → Kept h t → t.place h ≡ taken

-- A stream goes from the channel to the streams that are gathered, or to those that are closed.
to_gathered :
    (h k : ℕ) (rest g c : List ℕ)
    → Member k (h ∷ rest) ⊎ (Member k g ⊎ Member k c)
    → Member k rest ⊎ (Member k (h ∷ g) ⊎ Member k c)
to_gathered h k rest g c (inl (inl e)) = inr (inl (inl e))
to_gathered h k rest g c (inl (inr m)) = inl m
to_gathered h k rest g c (inr (inl m)) = inr (inl (inr m))
to_gathered h k rest g c (inr (inr m)) = inr (inr m)

from_gathered :
    (h k : ℕ) (rest g c : List ℕ)
    → Member k rest ⊎ (Member k (h ∷ g) ⊎ Member k c)
    → Member k (h ∷ rest) ⊎ (Member k g ⊎ Member k c)
from_gathered h k rest g c (inl m) = inl (inr m)
from_gathered h k rest g c (inr (inl (inl e))) = inl (inl e)
from_gathered h k rest g c (inr (inl (inr m))) = inr (inl m)
from_gathered h k rest g c (inr (inr m)) = inr (inr m)

swapped : {A B C : Type 0} → A ⊎ (B ⊎ C) → A ⊎ (C ⊎ B)
swapped (inl a) = inl a
swapped (inr (inl b)) = inr (inr b)
swapped (inr (inr c)) = inr (inl c)

sent-Kept : (h k : ℕ) (t : Transfer) → Kept k (sent h t) → (k ≡ h) ⊎ Kept k t
sent-Kept h k t (inl m) = elim (Member-append k t.queue (h ∷ []) m) [
  | inl old ↦ inr (inl old)
  | inr (inl e) ↦ inl e
  | inr (inr none) ↦ absurd none
]
sent-Kept h k t (inr m) = inr (inr m)

Kept-sent : (h k : ℕ) (t : Transfer) → (k ≡ h) ⊎ Kept k t → Kept k (sent h t)
Kept-sent h k t (inl e) = inl (Member-append_right k t.queue (h ∷ []) (inl e))
Kept-sent h k t (inr (inl m)) = inl (Member-append_left k t.queue (h ∷ []) m)
Kept-sent h k t (inr (inr m)) = inr m

-- An attach that does not succeed leaves the streams alone.
placed :
    (h : ℕ) (p p' : Place) (t : Transfer)
    → t.place h ≡ p'
    → p' ≢ taken
    → p ≢ taken
    → Inv t
    → Inv (put_place h p t)
placed h p p' t e before after inv = record {
  kept = λ k x. inv.kept k (ground arith);
  taken_before = λ k x. ground (arith, inv.taken_before k x);
}

Step-Inv : {t u : Transfer} → Step t u → Inv t → Inv u
Step-Inv {t} (found h e p) inv =
    placed h sending outside t e (λ x. absurd (ground arith)) (λ x. absurd (ground arith)) inv
Step-Inv {t} (unknown h e p) inv =
    placed h refused outside t e (λ x. absurd (ground arith)) (λ x. absurd (ground arith)) inv
Step-Inv {t} (full h e p) inv =
    placed h refused sending t e (λ x. absurd (ground arith)) (λ x. absurd (ground arith)) inv
Step-Inv {t} (send h e p) inv = record {
  kept = λ k x.
      Kept-sent h k t (elim (ℕ_discrete k h) [
        | yes same ↦ inl same
        | no other ↦ inr (inv.kept k (ground arith))
      ]);
  taken_before = λ k x. elim (sent-Kept h k t x) [
    | inl same ↦ ground arith
    | inr old ↦ ground (arith, inv.taken_before k old)
  ];
}
Step-Inv {t} (gather h rest p e) inv = record {
  kept = λ k x.
      to_gathered h k rest t.gathered t.closed
        (subst (λ q. Member k q ⊎ (Member k t.gathered ⊎ Member k t.closed)) e (inv.kept k x));
  taken_before = λ k x. inv.taken_before k (
      subst (λ q. Member k q ⊎ (Member k t.gathered ⊎ Member k t.closed)) (sym e)
        (from_gathered h k rest t.gathered t.closed x));
}
Step-Inv {t} (close h rest p e) inv = record {
  kept = λ k x. swapped (
      to_gathered h k rest t.closed t.gathered (
        swapped
          (subst (λ q. Member k q ⊎ (Member k t.gathered ⊎ Member k t.closed)) e (inv.kept k x))));
  taken_before = λ k x. inv.taken_before k (
      subst (λ q. Member k q ⊎ (Member k t.gathered ⊎ Member k t.closed)) (sym e)
        (swapped (from_gathered h k rest t.closed t.gathered (swapped x))));
}
Step-Inv {t} (delete p) inv = record { kept = inv.kept; taken_before = inv.taken_before }
Step-Inv {t} (empty p e) inv = record { kept = inv.kept; taken_before = inv.taken_before }

fresh_token-Inv : Inv fresh_token
fresh_token-Inv = record {
  kept = λ h e. absurd (ground arith);
  taken_before =
      λ h m. elim m [ inl a ↦ absurd a | inr b ↦ elim b [ inl c ↦ absurd c | inr d ↦ absurd d ] ];
}

From-Inv : {t u : Transfer} → From t u → Inv t → Inv u
From-Inv here inv = inv
From-Inv (later f st) inv = Step-Inv st (From-Inv f inv)

-- The stream stands in a channel that nobody reads any more.
abbrev pub Lost : ℕ → Transfer → Type 0
Lost h t = (t.token ≡ dropped) × Member h t.queue × (¬ Member h t.gathered) × (¬ Member h t.closed)

Step-Lost : {t u : Transfer} (h : ℕ) → Step t u → Lost h t → Lost h u
Step-Lost h (found k e p) lost = lost
Step-Lost h (unknown k e p) lost = lost
Step-Lost h (full k e p) lost = lost
Step-Lost {t} h (send k e p) (gone, waits, not_gathered, not_closed) =
    (gone, Member-append_left h t.queue (k ∷ []) waits, not_gathered, not_closed)
Step-Lost h (gather k rest p e) (gone, waits, not_gathered, not_closed) = absurd (ground arith)
Step-Lost h (delete p) (gone, waits, not_gathered, not_closed) = absurd (ground arith)
Step-Lost h (close k rest p e) (gone, waits, not_gathered, not_closed) = absurd (ground arith)
Step-Lost h (empty p e) (gone, waits, not_gathered, not_closed) = absurd (ground arith)

From-Lost : {t u : Transfer} (h : ℕ) → From t u → Lost h t → Lost h u
From-Lost h here lost = lost
From-Lost h (later f st) lost = Step-Lost h st (From-Lost h f lost)

-- An attach that has returned true has handed its stream over: it is in the channel, gathered or closed, and no other stream is.
attach-Kept : {t : Transfer} → From fresh_token t → (h : ℕ) → (t.place h ≡ taken) ↔ Kept h t
attach-Kept f h = let inv = From-Inv f fresh_token-Inv in (inv.kept h, inv.taken_before h)

-- If drop has returned while an attach still has the channel in its hands, and the channel has room, then this attach can succeed, and
-- once it has, its stream is neither gathered nor closed, whatever happens afterwards.
pub attach-Lost :
    {t : Transfer}
    → From fresh_token t
    → (h : ℕ) → t.token ≡ dropped
    → t.place h ≡ sending
    → length t.queue < max_data_conns
    → Step t (sent h t)
      × ((sent h t).place h ≡ taken)
      × ((u : Transfer) → From (sent h t) u → Lost h u)
attach-Lost {t} f h gone has room =
    let unseen : ¬ Kept h t = λ k. absurd (ground (arith, (attach-Kept f h).1 k)) in
    (
      send h has room,
      ground arith,
      λ u g. From-Lost h g (
        gone,
        Member-append_right h t.queue (h ∷ []) (inl refl),
        λ m. unseen (inr (inl m)),
        λ m. unseen (inr (inr m)),
      ),
    )
