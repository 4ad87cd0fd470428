-- ===== src/Server/Push/Guard.antt =====
-- The collector's guard around the reference write: what a commit calls, and what it then leaves.
use amber_store_iroh.Prelude.{
  ◌≡◌, ◌⊎◌, subst, refl, String, Bool, true, false, Bool-cases, List, [], ◌∷◌, ◌++◌, append_assoc,
  append-nil, Option, none, some, Option-cases, inl, inr, arith,
}
use amber_store_iroh.Prelude.Int.{ℤ}
use amber_store_iroh.Protocol.Error.{Bytes, Error, wrapped, ok, err, Result-cases}
use amber_store_iroh.Protocol.Msg.{Msg}
use amber_store_iroh.Wantsync.Library.{Library}
use amber_store_iroh.Server.World.{
  RefLibrary, RefLaws, Call, accessed, prepared, committed, aborted, Config, Session, Step, note,
  fail,
}
use amber_store_iroh.Server.Refs.{check_if}
use amber_store_iroh.Server.Push.{put_ref, publish, new_reference, commit}
use amber_store_iroh.Server.Push.Laws.{check_if_lem}

-- RefGuard: what PrepareRef answers, which may depend on the calls before it.
abbrev pub Guard : Type 0 → Type 0
Guard Key = Option (List (Call Key) → Key → Option Error)

-- The calls that a commit makes behind the calls `before`, and whether the reference is written. Without a call, there is no guard, or
-- the commit ends `early`, before it comes to it. A guard that is set is asked first, and hears nothing more only if it refuses. If it
-- lets the write pass, it hears of a commit if the reference is written, and of an abort if it is not.
pub data Bracket {Key : Type 0} (Early : Type 0) (guard : Guard Key) (before : List (Call Key))
    (root : Key) (accesses : List (Call Key)) : List (Call Key) → Bool → Type 0 where
  nothing : (guard ≡ none) ⊎ Early → Bracket Early guard before root accesses [] false
  turned_away :
      (prepare : List (Call Key) → Key → Option Error) (x : Error)
      → guard ≡ some prepare
      → prepare before root ≡ some x
      → Bracket Early guard before root accesses (prepared root ∷ []) false
  rolled_back :
      (prepare : List (Call Key) → Key → Option Error)
      → guard ≡ some prepare
      → prepare before root ≡ none
      → Bracket Early guard before root accesses (prepared root ∷ aborted root ∷ []) false
  kept :
      (prepare : List (Call Key) → Key → Option Error)
      → guard ≡ some prepare
      → prepare before root ≡ none
      → Bracket Early guard before root accesses (prepared root ∷ committed root ∷ accesses) true
  unguarded : guard ≡ none → Bracket Early guard before root accesses accesses true

abbrev pub access_calls : {Key : Type 0} → Bool → String → List (Call Key)
access_calls true name = accessed name ∷ []
access_calls false name = []

module _ {Key : Type 0} (lib : Library Key) (rl : RefLibrary) (laws : RefLaws rl) where
  -- The references behind a commit that has written, or has not.
  abbrev pub Written : Msg → Bytes → Session lib rl → Step lib rl → Bool → Type 0
  Written m raw s o true = rl.get o.1.world.refs m.name ≡ ok raw
  Written m raw s o false = (o.1.world.refs ≡ s.world.refs) × ((x : Error) × (o.0 ≡ some x))

  -- A commit without the access hook.
  abbrev Publishes : Type 0 → Guard Key → Key → Msg → Bytes → Session lib rl → Type 0
  Publishes Early guard root m raw s =
      let o = publish lib rl guard root m raw s in
      (added : List (Call Key)) × (put : Bool) × Bracket Early guard s.world.calls root [] added put
      × (o.1.world.calls ≡ s.world.calls ++ added)
      × (put ≡ true → o.0 ≡ none)
      × Written m raw s o put

  publish-Bracket :
      (Early : Type 0) (guard : Guard Key) (root : Key) (m : Msg) (raw : Bytes) (s : Session lib rl)
      → Publishes Early guard root m raw s
  unfolding publish put_ref fail note
  publish-Bracket Early none root m raw s = elim (Option-cases (rl.put s.world.refs m.name raw).0) [
    | inl fine ↦ (
      [],
      true,
      unguarded refl,
      ground (arith, append-nil s.world.calls),
      λ _. ground arith,
      ground (arith, laws.put_get s.world.refs m.name raw fine),
    )
    | inr (x, failed) ↦ (
      [],
      false,
      nothing (inl refl),
      ground (arith, append-nil s.world.calls),
      λ h. ground arith,
      (ground (arith, laws.put_failed s.world.refs m.name raw x failed), (x, ground arith)),
    )
  ]
  publish-Bracket Early (some prepare) root m raw s =
      elim (Option-cases (prepare s.world.calls root)) [
        | inr (x, refused) ↦ (
          prepared root ∷ [],
          false,
          turned_away prepare x refl refused,
          ground arith,
          λ h. ground arith,
          (ground arith, (wrapped "gc guard: " x, ground arith)),
        )
        | inl let_pass ↦ elim (Option-cases (rl.put s.world.refs m.name raw).0) [
          | inl fine ↦ (
            prepared root ∷ committed root ∷ [],
            true,
            kept prepare refl let_pass,
            ground (arith, append_assoc s.world.calls (prepared root ∷ []) (committed root ∷ [])),
            λ _. ground arith,
            ground (arith, laws.put_get s.world.refs m.name raw fine),
          )
          | inr (x, failed) ↦ (
            prepared root ∷ aborted root ∷ [],
            false,
            rolled_back prepare refl let_pass,
            ground (arith, append_assoc s.world.calls (prepared root ∷ []) (aborted root ∷ [])),
            λ h. ground arith,
            (ground (arith, laws.put_failed s.world.refs m.name raw x failed), (x, ground arith)),
          )
        ]
      ]

  -- The access is noted behind the guard's calls.
  kept_on :
      {Early : Type 0} {guard : Guard Key} {before : List (Call Key)} {root : Key}
      {added : List (Call Key)} (accesses : List (Call Key))
      → Bracket Early guard before root [] added true
      → Bracket Early guard before root accesses (added ++ accesses) true
  kept_on accesses (kept prepare e p) = kept prepare e p
  kept_on accesses (unguarded e) = unguarded e

  given_up :
      {Early : Type 0} {guard : Guard Key} {before : List (Call Key)} {root : Key}
      {added : List (Call Key)} (accesses : List (Call Key))
      → Bracket Early guard before root [] added false
      → Bracket Early guard before root accesses added false
  given_up accesses (nothing e) = nothing e
  given_up accesses (turned_away prepare x e r) = turned_away prepare x e r
  given_up accesses (rolled_back prepare e p) = rolled_back prepare e p

  -- The commit does not come to the guard: the compare-and-swap check fails, or the reference cannot be encoded.
  abbrev pub EndsEarly : ℤ → Msg → Key → Session lib rl → Type 0
  EndsEarly now m root s =
      ((x : Error) × ((check_if lib rl m.cas m s).0 ≡ some x))
      ⊎ ((x : Error) × (rl.encode (new_reference lib rl m root now) ≡ err x))

  -- What a commit leaves: the reference that it was asked for, or the references as they were and an error.
  abbrev pub Committed : ℤ → Msg → Key → Session lib rl → Step lib rl → Bool → Type 0
  Committed now m root s o true =
      (raw : Bytes) × (rl.encode (new_reference lib rl m root now) ≡ ok raw)
      × (rl.get o.1.world.refs m.name ≡ ok raw)
  Committed now m root s o false = (o.1.world.refs ≡ s.world.refs) × ((x : Error) × (o.0 ≡ some x))

  abbrev pub Guarded : Config Key → ℤ → Msg → Key → Session lib rl → Step lib rl → Type 0
  Guarded config now m root s o =
      (added : List (Call Key)) × (put : Bool) × Bracket (EndsEarly now m root s) config.guard
        s.world.calls root (access_calls config.on_access m.name) added put
      × (o.1.world.calls ≡ s.world.calls ++ added)
      × Committed now m root s o put

  commit_published :
      (config : Config Key) (now : ℤ) (m : Msg) (root : Key) (raw : Bytes) (s s' : Session lib rl)
      → s'.world ≡ s.world
      → (check_if lib rl m.cas m s).0 ≡ none
      → (check_if lib rl m.cas m s).1 ≡ s'
      → rl.encode (new_reference lib rl m root now) ≡ ok raw
      → (added : List (Call Key)) (put : Bool)
      → Bracket (EndsEarly now m root s) config.guard s.world.calls root [] added put
      → (publish lib rl config.guard root m raw s').1.world.calls ≡ s'.world.calls ++ added
      → (put ≡ true → (publish lib rl config.guard root m raw s').0 ≡ none)
      → Written m raw s' (publish lib rl config.guard root m raw s') put
      → Guarded config now m root s (commit lib rl config now m root s)
  unfolding commit note
  commit_published config now m root raw s s' same passed left encoded added true b calls fine
        written =
      let published = fine refl in
      (
        added ++ access_calls config.on_access m.name,
        true,
        kept_on (access_calls config.on_access m.name) b,
        ground (
          arith,
          Bool-cases config.on_access,
          append_assoc s.world.calls added (access_calls config.on_access m.name),
          append-nil (s.world.calls ++ added),
          append-nil added,
        ),
        (raw, encoded, ground (arith, Bool-cases config.on_access)),
      )
  commit_published config now m root raw s s' same passed left encoded added false b calls fine
        (unchanged, (x, failed)) =
      (
        added,
        false,
        given_up (access_calls config.on_access m.name) b,
        ground arith,
        (ground arith, (x, ground arith)),
      )

  -- A commit that comes to the write asks a guard that is set first. If the guard refuses, nothing is written, and it hears nothing
  -- more. If it lets the write pass, it hears of a commit exactly if the reference is written, and of an abort exactly if it is not. The
  -- access hook is called last, and only for a reference that is written. The calls are these and no others; a commit that ends before, at a
  -- compare-and-swap that fails or at an encoding error, makes none. A reference that is written is the one that was asked for; else the
  -- references are as they were, and an error is returned.
  pub commit-Bracket :
      (config : Config Key) (now : ℤ) (m : Msg) (root : Key) (s : Session lib rl)
      → Guarded config now m root s (commit lib rl config now m root s)
  unfolding commit fail note
  commit-Bracket config now m root s =
      let (same, passes) = check_if_lem lib rl laws m.cas m s in
      elim (Option-cases (check_if lib rl m.cas m s).0) [
        | inr (x, failed) ↦ (
          [],
          false,
          nothing (inr (inl (x, failed))),
          ground (arith, append-nil s.world.calls),
          (ground arith, (x, ground arith)),
        )
        | inl passed ↦ elim (Result-cases (rl.encode (new_reference lib rl m root now))) [
          | inl (x, failed) ↦ (
            [],
            false,
            nothing (inr (inr (x, failed))),
            ground (arith, append-nil s.world.calls),
            (ground arith, (x, ground arith)),
          )
          | inr (raw, encoded) ↦
              let (added, put, b, calls, fine, written) =
                publish-Bracket (EndsEarly now m root s) config.guard root m raw
                  (check_if lib rl m.cas m s).1 in
              commit_published config now m root raw s (check_if lib rl m.cas m s).1 same passed
                refl encoded added put
                (subst
                  (λ w. Bracket (EndsEarly now m root s) config.guard w.calls root [] added put)
                  same b)
                calls fine written
        ]
      ]
