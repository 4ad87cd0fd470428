-- ===== src/Server/Push/Laws.antt =====
-- What the commit of a push does to the references.
use amber_store_iroh.Prelude.{
  ◌≡◌, refl, ◌≢◌, String, Bool, true, false, Bool-cases, List, Option, none, some, Option-cases,
  inl, inr, ◌⊎◌, arith,
}
use amber_store_iroh.Prelude.Int.{ℤ}
use amber_store_iroh.Protocol.Error.{Bytes, Error, ok, wrapped, Result-cases}
use amber_store_iroh.Protocol.Msg.{Msg}
use amber_store_iroh.Wantsync.Library.{Library}
use amber_store_iroh.Server.World.{RefLibrary, RefLaws, Call, Config, Session, Step, note, fail}
use amber_store_iroh.Server.Refs.{current_key, check_if}
use amber_store_iroh.Server.Refs.Laws.{check_cas_lem}
use amber_store_iroh.Server.Push.{put_ref, publish, new_reference, commit}

module _ {Key : Type 0} (lib : Library Key) (rl : RefLibrary) where
  -- The name has the new reference, and every other name what it had.
  abbrev pub Puts : ℤ → Msg → Key → rl.Refs → rl.Refs → Type 0
  Puts now m root refs refs' =
      (raw : Bytes) × (rl.encode (new_reference lib rl m root now) ≡ ok raw)
      × (rl.get refs' m.name ≡ ok raw)
      × ((other : String) → other ≢ m.name → rl.get refs' other ≡ rl.get refs other)

  abbrev pub Refused : Session lib rl → Step lib rl → Type 0
  Refused s o = (o.1.world.refs ≡ s.world.refs) × ((x : Error) × (o.0 ≡ some x))

module _ {Key : Type 0} (lib : Library Key) (rl : RefLibrary) (laws : RefLaws rl) where
  pub check_if_lem :
      (cas : Bool) (m : Msg) (s : Session lib rl)
      → ((check_if lib rl cas m s).1.world ≡ s.world)
        × (((check_if lib rl cas m s).0 ≡ none)
            → ((check_if lib rl cas m s).1 ≡ s)
              × (cas ≡ true → current_key rl s.world.refs m.name ≡ ok m.expected_old))
  check_if_lem true m s =
      let (passes, _, _, same) = check_cas_lem lib rl m s in
      (same, λ h. let (a, b) = passes h in (a, λ _. b))
  check_if_lem false m s = (refl, λ h. (refl, λ absurd_case. ground arith))

  -- What `refs.Put` and the guard around it leave: a reference that holds `raw`, or an error and the references as they were.
  abbrev Published : Msg → Bytes → Session lib rl → Step lib rl → Type 0
  Published m raw s o =
      (o.1.world.objects ≡ s.world.objects)
      × (((o.0 ≡ none)
            × (rl.get o.1.world.refs m.name ≡ ok raw)
            × ((other : String)
                → other ≢ m.name
                → rl.get o.1.world.refs other ≡ rl.get s.world.refs other))
          ⊎ Refused lib rl s o)

  publish_plain :
      (root : Key) (m : Msg) (raw : Bytes) (s : Session lib rl)
      → Published m raw s (publish lib rl none root m raw s)
  unfolding publish put_ref fail
  publish_plain root m raw s = elim (Option-cases (rl.put s.world.refs m.name raw).0) [
    | inl fine ↦ (
      ground arith,
      inl (
        ground arith,
        ground (arith, laws.put_get s.world.refs m.name raw fine),
        λ other d. ground (arith, laws.put_other s.world.refs m.name other raw d),
      ),
    )
    | inr (x, failed) ↦ (
      ground arith,
      inr (ground (arith, laws.put_failed s.world.refs m.name raw x failed), (x, ground arith)),
    )
  ]

  publish_guarded :
      (prepare : List (Call Key) → Key → Option Error) (root : Key) (m : Msg) (raw : Bytes)
      (s : Session lib rl)
      → Published m raw s (publish lib rl (some prepare) root m raw s)
  unfolding publish put_ref fail note
  publish_guarded prepare root m raw s = elim (Option-cases (prepare s.world.calls root)) [
    | inr (x, refused) ↦ (ground arith, inr (ground arith, (wrapped "gc guard: " x, ground arith)))
    | inl let_pass ↦ elim (Option-cases (rl.put s.world.refs m.name raw).0) [
      | inl fine ↦ (
        ground arith,
        inl (
          ground arith,
          ground (arith, laws.put_get s.world.refs m.name raw fine),
          λ other d. ground (arith, laws.put_other s.world.refs m.name other raw d),
        ),
      )
      | inr (x, failed) ↦ (
        ground arith,
        inr (ground (arith, laws.put_failed s.world.refs m.name raw x failed), (x, ground arith)),
      )
    ]
  ]

  publish_lem :
      (guard : Option (List (Call Key) → Key → Option Error)) (root : Key) (m : Msg) (raw : Bytes)
      (s : Session lib rl)
      → Published m raw s (publish lib rl guard root m raw s)
  publish_lem none root m raw s = publish_plain root m raw s
  publish_lem (some prepare) root m raw s = publish_guarded prepare root m raw s

  -- The commit leaves the objects alone. Either the name has the new reference and every other name what it had, and if a
  -- compare-and-swap was asked for, the name had the expected key at that moment; or an error is returned, and the references are as they
  -- were. So no error but one in writing the last answer leaves a new reference behind.
  pub commit_lem :
      (config : Config Key) (now : ℤ) (m : Msg) (root : Key) (s : Session lib rl)
      → ((commit lib rl config now m root s).1.world.objects ≡ s.world.objects)
        × ((Puts lib rl now m root s.world.refs (commit lib rl config now m root s).1.world.refs
              × (m.cas ≡ true → current_key rl s.world.refs m.name ≡ ok m.expected_old))
            ⊎ Refused lib rl s (commit lib rl config now m root s))
  unfolding commit fail note
  commit_lem config now m root s =
      let (same, passes) = check_if_lem m.cas m s in
      elim (Option-cases (check_if lib rl m.cas m s).0) [
        | inr (x, failed) ↦ (ground arith, inr (ground arith, (x, ground arith)))
        | inl passed ↦
            let (still, expected) = passes passed in
            elim (Result-cases (rl.encode (new_reference lib rl m root now))) [
              | inl (x, failed) ↦ (ground arith, inr (ground arith, (x, ground arith)))
              | inr (raw, encoded) ↦
                  let s' = (check_if lib rl m.cas m s).1 in
                  let (objects, what) = publish_lem config.guard root m raw s' in
                  elim what [
                    | inr (refs, (x, failed)) ↦
                        (ground arith, inr (ground arith, (x, ground arith)))
                    | inl (fine, got, others) ↦ (
                      ground (arith, Bool-cases config.on_access),
                      inl (
                        (
                          raw,
                          encoded,
                          ground (arith, Bool-cases config.on_access),
                          λ other d. ground (arith, Bool-cases config.on_access, others other d),
                        ),
                        expected,
                      ),
                    )
                  ]
            ]
      ]
