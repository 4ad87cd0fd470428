-- ===== src/Server/Handle/Invariant.antt =====
-- Across any sequence of operations, no reference ever names a tree that is not there.
use amber_store_iroh.Prelude.{
  ◌≡◌, refl, sym, subst, String, Bool-cases, List, [], ◌∷◌, some, Option-cases, inl, inr, Eq, arith,
}
use amber_store_iroh.Prelude.Int.{◌==ℤ◌}
use amber_store_iroh.Protocol.Error.{Result-cases}
use amber_store_iroh.Protocol.Msg.{Msg, t_attach, t_ref_list, t_push, t_pull, t_pin}
use amber_store_iroh.Protocol.Stream.{Stream}
use amber_store_iroh.Protocol.Frame.{read_msg}
use amber_store_iroh.Wantsync.Library.{Library, StoreLaws}
use amber_store_iroh.Server.Transfers.{attach}
use amber_store_iroh.Server.World.{
  RefLibrary, RefLaws, Config, World, Session, Step, pinned, note_if, fail,
}
use amber_store_iroh.Server.Refs.{pin_names, handle_pin, handle_ref_list}
use amber_store_iroh.Server.Refs.Pins.{handle_ref_list_lem}
use amber_store_iroh.Server.Channels.{Surroundings}
use amber_store_iroh.Server.Push.Invariant.{
  RefsComplete, ParsesBack, Friendly, SameStores, SameStores-RefsComplete,
}
use amber_store_iroh.Server.Push.Sound.{push-RefsComplete}
use amber_store_iroh.Server.Pull.Laws.{SameStores-trans, note_if-SameStores, handle_pull_lem}
use amber_store_iroh.Server.Handle.{operate, handle_stream}

module _ {Key : Type 0} (lib : Library Key) (rl : RefLibrary) where
  pin_names-SameStores :
      (config : Config Key) (names : List String) (s : Session lib rl)
      → SameStores lib rl s.world (pin_names lib rl config names s).1.world
  unfolding pin_names fail
  pin_names-SameStores config [] s = (refl, refl)
  pin_names-SameStores config (name ∷ names) s = elim (Result-cases (rl.get s.world.refs name)) [
    | inl (x, unknown) ↦
        let rest = pin_names-SameStores config names s in
        (ground (arith, rest), ground (arith, rest))
    | inr (raw, known) ↦
        let s' = note_if lib rl config.on_pin (pinned name) s in
        let rest =
          SameStores-trans lib rl s.world s'.world (pin_names lib rl config names s').1.world
            (note_if-SameStores lib rl config.on_pin (pinned name) s)
            (pin_names-SameStores config names s') in
        (ground (arith, rest), ground (arith, rest))
  ]

module _ {Key : Type 0} ⦃e : Eq Key⦄ (lib : Library Key) (rl : RefLibrary) (stores : StoreLaws lib)
    (laws : RefLaws rl) (parses : ParsesBack lib) (config : Config Key) where
  operate-RefsComplete :
      (around : Surroundings lib rl)
      → Friendly around
      → (m : Msg) (s : Session lib rl) (o : Step lib rl) → operate lib rl config around m s ≡ some o
      → RefsComplete s.world
      → RefsComplete o.1.world
  unfolding handle_pin fail
  operate-RefsComplete around friendly m s o h complete =
      elim (Bool-cases (m.type ==ℤ t_ref_list)) [
        | inl list ↦
            let it : handle_ref_list lib rl s ≡ o = ground arith in
            subst (λ (o : Step lib rl). RefsComplete o.1.world) it
              (subst (λ w. RefsComplete w) (sym (handle_ref_list_lem lib rl s).0) complete)
        | inr no_list ↦ elim (Bool-cases (m.type ==ℤ t_push)) [
          | inl push ↦
              (push-RefsComplete lib rl stores laws parses config around friendly m s o
                (ground arith) complete).0
          | inr no_push ↦ elim (Bool-cases (m.type ==ℤ t_pull)) [
            | inl pull ↦
                SameStores-RefsComplete lib rl s.world o.1.world
                  (handle_pull_lem lib rl config around m s o (ground arith)).0 complete
            | inr no_pull ↦ elim (Bool-cases (m.type ==ℤ t_pin)) [
              | inl pin ↦
                  let it : pin_names lib rl config m.names s ≡ o = ground arith in
                  subst (λ (o : Step lib rl). RefsComplete o.1.world) it
                    (SameStores-RefsComplete lib rl s.world
                      (pin_names lib rl config m.names s).1.world
                      (pin_names-SameStores lib rl config m.names s) complete)
              | inr no_pin ↦
                  let same : s.world ≡ o.1.world = ground arith in
                  subst (λ w. RefsComplete w) same complete
            ]
          ]
        ]
      ]

  pub handle_stream-RefsComplete :
      (around : Surroundings lib rl)
      → Friendly around
      → (s : Stream) (w w' : World lib rl) → handle_stream lib rl config around s w ≡ some w'
      → RefsComplete w
      → RefsComplete w'
  unfolding handle_stream attach
  handle_stream-RefsComplete around friendly s w w' h complete =
      elim (Result-cases (read_msg lib.codec s).0) [
        | inl (x, failed) ↦
            SameStores-RefsComplete lib rl w w' (ground arith, ground arith) complete
        | inr (m, got) ↦
            let session : Session lib rl = record {
              control = (read_msg lib.codec s).1;
              world = w;
            } in
            elim (Bool-cases (m.type ==ℤ t_attach)) [
              | inl attaches ↦
                  SameStores-RefsComplete lib rl w w' (ground arith, ground arith) complete
              | inr operates ↦ elim (Option-cases (operate lib rl config around m session)) [
                | inl unfinished ↦ absurd (ground arith)
                | inr (o, done) ↦
                    SameStores-RefsComplete lib rl o.1.world w' (ground arith, ground arith)
                      (operate-RefsComplete around friendly m session o done complete)
              ]
            ]
      ]

  -- The worlds that the server comes to from `w`, one stream after another, each with surroundings of its own.
  pub data Reachable (w : World lib rl) : World lib rl → Type 1 where
    begun : Reachable w w
    handled :
        {before after : World lib rl} (around : Surroundings lib rl) (s : Stream)
        → Reachable w before
        → Friendly around
        → handle_stream lib rl config around s before ≡ some after
        → Reachable w after

  -- From a world whose references all name complete trees, the server only comes to such worlds, whatever the streams carry that it
  -- handles, and however their operations end. This rests on what the stores document, on k[:] being parsed back, and on what
  -- other handlers do during an operation keeping objects and references alike.
  pub Reachable-RefsComplete :
      (w w' : World lib rl) → RefsComplete w → Reachable w w' → RefsComplete w'
  Reachable-RefsComplete w w' complete begun = complete
  Reachable-RefsComplete w w' complete (handled around s before friendly h) =
      handle_stream-RefsComplete around friendly s _ w' h
        (Reachable-RefsComplete w _ complete before)
