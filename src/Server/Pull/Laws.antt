-- ===== src/Server/Pull/Laws.antt =====
-- A pull changes neither store, and what it answers when it cannot serve.
use amber_store_iroh.Prelude.{
  ◌≡◌, refl, ap, ◌∙◌, subst, Bool, true, false, Bool-cases, List, [], ◌∷◌, Option, none, some,
  Option-cases, inl, inr, Eq, arith,
}
use amber_store_iroh.Prelude.Int.{ℤ, pos, leb_ℤ}
use amber_store_iroh.Protocol.Error.{Bytes, Error, err, message, join, is_not_found, Result-cases}
use amber_store_iroh.Protocol.Msg.{Msg, code_internal, code_unknown_ref}
use amber_store_iroh.Protocol.Stream.{Stream}
use amber_store_iroh.Wantsync.Library.{Library}
use amber_store_iroh.Server.World.{
  RefLibrary, Config, World, Session, Step, Call, accessed, note, note_if, respond, fail,
}
use amber_store_iroh.Server.Refs.Laws.{fail_local-world}
use amber_store_iroh.Server.Channels.{
  Surroundings, Shards, register, drop_transfer, gather_extras, release, with_pending, offer,
}
use amber_store_iroh.Server.Pull.{
  send_all, all_sent, report, serve_channels, gathered, answered, ref_msg, pull_ref, handle_pull,
}
use amber_store_iroh.Server.Push.Invariant.{SameStores, release-SameStores}

module _ {Key : Type 0} (lib : Library Key) (rl : RefLibrary) where
  pub SameStores-trans :
      (a b c : World lib rl) → SameStores lib rl a b → SameStores lib rl b c → SameStores lib rl a c
  SameStores-trans a b c (o, r) (o', r') = (o' ∙ o, r' ∙ r)

  pub note_if-SameStores :
      (on : Bool) (c : Call Key) (s : Session lib rl)
      → SameStores lib rl s.world (note_if lib rl on c s).world
  unfolding note
  note_if-SameStores true c s = (refl, refl)
  note_if-SameStores false c s = (refl, refl)

  pub world-SameStores : (w w' : World lib rl) → w' ≡ w → SameStores lib rl w w'
  world-SameStores w w' same = (ap (λ x. x.objects) same, ap (λ x. x.refs) same)

module _ {Key : Type 0} ⦃e : Eq Key⦄ (lib : Library Key) (rl : RefLibrary) (config : Config Key)
    (around : Surroundings lib rl) where
  report-world : (x : Option Error) (s : Session lib rl) → (report lib rl x s).1.world ≡ s.world
  report-world none s = refl
  report-world (some x) s = fail_local-world lib rl x s

  all_sent-SameStores :
      (token : Option Bytes) (o : List (Option Error) × List Stream) (s : Session lib rl)
      → SameStores lib rl s.world (all_sent lib rl token o s).1.world
  all_sent-SameStores token (xs, []) s =
      world-SameStores lib rl s.world (report lib rl (join xs) s).1.world (report-world (join xs) s)
  all_sent-SameStores token (xs, c ∷ extras) s =
      let s' : Session lib rl = record s { control = c } in
      let o = report lib rl (join xs) s' in
      SameStores-trans lib rl s.world o.1.world (release lib rl token extras o.1.world)
        (world-SameStores lib rl s.world o.1.world (report-world (join xs) s'))
        (release-SameStores lib rl token extras o.1.world)

  gathered-SameStores :
      (n : ℤ) (token : Option Bytes) (s : Session lib rl)
      → SameStores lib rl s.world (gathered lib rl around n token s).1.world
  unfolding gather_extras
  gathered-SameStores n none s = (refl, refl)
  gathered-SameStores n (some token) s = (refl, refl)

  serve_channels-SameStores :
      (p : Shards × Session lib rl) (o : Step lib rl)
      → serve_channels lib rl p ≡ some o
      → SameStores lib rl p.1.world o.1.world
  unfolding serve_channels
  serve_channels-SameStores (shards, s) o h =
      elim (Option-cases (send_all lib rl s.world.objects (s.control ∷ shards.extras))) [
        | inl unfinished ↦ absurd (ground arith)
        | inr (sent, done) ↦
            let it : all_sent lib rl shards.token sent s ≡ o = ground arith in
            subst (λ (o : Step lib rl). SameStores lib rl s.world o.1.world) it
              (all_sent-SameStores shards.token sent s)
      ]

  answered-SameStores :
      (n : ℤ) (token : Option Bytes) (p o : Step lib rl)
      → answered lib rl around n token p ≡ some o
      → SameStores lib rl p.1.world o.1.world
  unfolding drop_transfer
  answered-SameStores n none (some x, s) o h = (ground arith, ground arith)
  answered-SameStores n (some token) (some x, s) o h = (ground arith, ground arith)
  answered-SameStores n token (none, s) o h =
      SameStores-trans lib rl s.world (gathered lib rl around n token s).1.world o.1.world
        (gathered-SameStores n token s)
        (serve_channels-SameStores (gathered lib rl around n token s) o h)

  pull_ref-SameStores :
      (m : Msg) (raw : Bytes) (s : Session lib rl) (o : Step lib rl)
      → pull_ref lib rl config around m raw s ≡ some o
      → SameStores lib rl s.world o.1.world
  unfolding pull_ref fail register
  pull_ref-SameStores m raw s o h = elim (Bool-cases (leb_ℤ m.data_conns (pos 0))) [
    | inl single ↦
        answered-SameStores m.data_conns none (respond lib rl (ref_msg lib rl raw) s) o
          (ground arith)
    | inr many ↦ elim (Result-cases around.random) [
      | inl (x, failed) ↦ (ground arith, ground arith)
      | inr (token, made) ↦
          answered-SameStores m.data_conns (some token)
            (respond lib rl (offer lib rl config (ref_msg lib rl raw) token)
              (with_pending lib rl (register lib rl token) s))
            o (ground arith)
    ]
  ]

  -- A pull changes neither the objects nor the references. For a name without a reference it answers `unknown-ref`, for a store that
  -- fails otherwise `internal`, each before anything else happens.
  pub handle_pull_lem :
      (m : Msg) (s : Session lib rl) (o : Step lib rl)
      → handle_pull lib rl config around m s ≡ some o
      → SameStores lib rl s.world o.1.world
        × ((x : Error)
            → rl.get s.world.refs m.name ≡ err x
            → o ≡ (elim (is_not_found x) [
              | true ↦
                  fail lib rl code_unknown_ref (message (rl.sprintf "ref %q not found" m.name)) s
              | false ↦ fail lib rl code_internal x s
            ]))
  unfolding handle_pull fail
  handle_pull_lem m s o h = elim (Result-cases (rl.get s.world.refs m.name)) [
    | inl (x, unknown) ↦ ((ground arith, ground arith), λ y there. ground arith)
    | inr (raw, known) ↦
        let s' = note_if lib rl config.on_access (accessed m.name) s in
        (
          SameStores-trans lib rl s.world s'.world o.1.world
              (note_if-SameStores lib rl config.on_access (accessed m.name) s)
              (pull_ref-SameStores m raw s' o (ground arith)),
          λ y there. absurd (ground arith),
        )
  ]
