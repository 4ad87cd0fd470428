-- ===== src/Server/Refs/Pins.antt =====
-- What `handlePin` and `handleRefList` answer.
use amber_store_iroh.Prelude.{
  ◌≡◌, refl, sym, ap, subst, String, Bool, true, false, List, [], ◌∷◌, ◌++◌, map, append_assoc,
  append-nil, none, inl, inr, All, arith,
}
use amber_store_iroh.Protocol.Error.{Error, ok, err, is_not_found, Result-cases}
use amber_store_iroh.Protocol.Msg.{Msg, RefInfo, blank, t_ok, t_refs}
use amber_store_iroh.Wantsync.Library.{Library}
use amber_store_iroh.Server.World.{
  Reference, RefRecord, RefLibrary, Call, pinned, Config, Session, note, note_if, respond, fail,
}
use amber_store_iroh.Server.Refs.{ref_info, ref_infos, pin_names, handle_pin, handle_ref_list}
use amber_store_iroh.Server.Refs.Laws.{known_names}

-- The store tells whether it has the name: an error is nothing but a missing reference.
abbrev pub Tells : (rl : RefLibrary) → rl.Refs → String → Type 0
Tells rl refs name = (x : Error) → rl.get refs name ≡ err x → is_not_found x ≡ true

abbrev pub pins : {Key : Type 0} → Bool → List String → List (Call Key)
pins true names = map pinned names
pins false names = []

module _ {Key : Type 0} (lib : Library Key) (rl : RefLibrary) where
  abbrev pub with_calls : List (Call Key) → Session lib rl → Session lib rl
  with_calls cs s = record s { world = record s.world { calls = s.world.calls ++ cs } }

  pins_first :
      (on : Bool) (name : String) (names : List String) (s : Session lib rl)
      → with_calls (pins on names) (note_if lib rl on (pinned name) s)
        ≡ with_calls (pins on (name ∷ names)) s
  unfolding note
  pins_first true name names s =
      ap (λ cs. record s { world = record s.world { calls = cs } })
        (append_assoc s.world.calls (pinned name ∷ []) (map pinned names))
  pins_first false name names s = refl

  note_if-refs :
      (on : Bool) (c : Call Key) (s : Session lib rl)
      → (note_if lib rl on c s).world.refs ≡ s.world.refs
  unfolding note
  note_if-refs true c s = refl
  note_if-refs false c s = refl

  with_no_calls : (on : Bool) (s : Session lib rl) → with_calls (pins on []) s ≡ s
  with_no_calls true s =
      ap (λ cs. record s { world = record s.world { calls = cs } }) (append-nil s.world.calls)
  with_no_calls false s =
      ap (λ cs. record s { world = record s.world { calls = cs } }) (append-nil s.world.calls)

  pin_names_lem :
      (config : Config Key) (names : List String) (s : Session lib rl)
      → All (Tells rl s.world.refs) names
      → pin_names lib rl config names s
        ≡ respond lib rl
            (blank t_ok)
            (with_calls (pins config.on_pin (known_names lib rl s.world.refs names)) s)
  unfolding pin_names
  pin_names_lem config [] s all =
      sym (ap (λ s. respond lib rl (blank t_ok) s) (with_no_calls config.on_pin s))
  pin_names_lem config (name ∷ names) s (tells, all) =
      elim (Result-cases (rl.get s.world.refs name)) [
        | inl (x, unknown) ↦
            let missing = tells x unknown in ground (arith, pin_names_lem config names s all)
        | inr (raw, known) ↦
            let s' = note_if lib rl config.on_pin (pinned name) s in
            let refs = note_if-refs config.on_pin (pinned name) s in
            let later =
              pin_names_lem config names s' (subst (λ r. All (Tells rl r) names) (sym refs) all) in
            ground (
              arith,
              later,
              refs,
              pins_first config.on_pin name (known_names lib rl s.world.refs names) s,
            )
      ]

  -- If every name of the request either has a reference or is reported missing, the hook is called for exactly the names that have
  -- one, in order, nothing else of the world changes, and the answer is TOK.
  pub handle_pin_lem :
      (config : Config Key) (m : Msg) (s : Session lib rl)
      → All (Tells rl s.world.refs) m.names
      → handle_pin lib rl config m s
        ≡ respond lib rl
            (blank t_ok)
            (with_calls (pins config.on_pin (known_names lib rl s.world.refs m.names)) s)
  unfolding handle_pin
  handle_pin_lem config m s all = pin_names_lem config m.names s all

  -- Each entry of the list is a record of the store, under its own name, with what its reference decodes to.
  abbrev pub Lists : List RefRecord → List RefInfo → Type 0
  Lists [] [] = Unit
  Lists (r ∷ rs) (i ∷ is) =
      ((rec : Reference) × (rl.decode r.raw ≡ ok rec) × (i ≡ ref_info r rec)) × Lists rs is
  Lists _ _ = ⊥

  pub ref_infos-Lists :
      (rs : List RefRecord) (is : List RefInfo) → ref_infos rl rs ≡ ok is → Lists rs is
  unfolding ref_infos
  ref_infos-Lists [] [] h = tt
  ref_infos-Lists [] (i ∷ is) h = absurd (ground arith)
  ref_infos-Lists (r ∷ rs) is h = elim (Result-cases (rl.decode r.raw)) [
    | inl (x, failed) ↦ absurd (ground arith)
    | inr (rec, decoded) ↦ elim (Result-cases (ref_infos rl rs)) [
      | inl (x, failed) ↦ absurd (ground arith)
      | inr (later, known) ↦
          let it : ref_info r rec ∷ later ≡ is = ground arith in
          subst (λ l. Lists (r ∷ rs) l) it ((rec, decoded, refl), ref_infos-Lists rs later known)
    ]
  ]

  -- The answer to a list request, on every branch. Without an error it is a TRefs frame with one entry for each
  -- record of the store, in the store's order, with what the record decodes to; and the world is never changed.
  pub handle_ref_list_lem :
      (s : Session lib rl)
      → ((handle_ref_list lib rl s).1.world ≡ s.world)
        × (((handle_ref_list lib rl s).0 ≡ none)
            → (rs : List RefRecord) × (is : List RefInfo) × (rl.all s.world.refs ≡ ok rs)
              × Lists rs is
              × (handle_ref_list lib rl s ≡ respond lib rl (record (blank t_refs) { refs = is }) s))
  unfolding handle_ref_list fail
  handle_ref_list_lem s = elim (Result-cases (rl.all s.world.refs)) [
    | inl (x, failed) ↦ (ground arith, λ fine. absurd (ground arith))
    | inr (rs, all) ↦ elim (Result-cases (ref_infos rl rs)) [
      | inl (x, failed) ↦ (ground arith, λ fine. absurd (ground arith))
      | inr (is, known) ↦
          (ground arith, λ fine. (rs, is, all, ref_infos-Lists rs is known, ground arith))
    ]
  ]
