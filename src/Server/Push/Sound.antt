-- ===== src/Server/Push/Sound.antt =====
-- A push never publishes a tree that is not there.
use amber_store_iroh.Prelude.{
  ◌≡◌, refl, sym, ap, ◌∙◌, subst, String, true, List, ◌∷◌, Option, none, some, Option-cases, inl,
  inr, Eq, arith,
}
use amber_store_iroh.Protocol.Error.{Bytes, Error, Result, ok, err, wrapped, Result-cases}
use amber_store_iroh.Protocol.Msg.{Msg, code_bad_request, code_internal}
use amber_store_iroh.Protocol.Stream.{Stream}
use amber_store_iroh.Wantsync.Library.{Library, StoreLaws, Complete}
use amber_store_iroh.Wantsync.Receive.{receive}
use amber_store_iroh.Wantsync.Receive.Complete.{receive-Complete, Complete-Keeps}
use amber_store_iroh.Wantsync.Receive.Keeps.{Keeps, receive-Keeps}
use amber_store_iroh.Server.World.{
  RefLibrary, RefLaws, Config, World, Session, Step, fail, fail_local,
}
use amber_store_iroh.Server.Refs.{current_key, check_if}
use amber_store_iroh.Server.Refs.Laws.{fail_local-world, fail_local-error}
use amber_store_iroh.Server.Channels.{Surroundings, Shards, shard_channels, release}
use amber_store_iroh.Server.Push.{
  commit, released, after_receive, extra_streams, transfer, sharded, start, handle_push,
}
use amber_store_iroh.Server.Push.Laws.{Puts, commit_lem, check_if_lem}
use amber_store_iroh.Server.Push.Invariant.{
  Friendly, ParsesBack, RefsComplete, SameStores, SameStores-RefsComplete, commit-Complete,
  release-SameStores, shard_channels-SameStores,
}

module _ {Key : Type 0} ⦃e : Eq Key⦄ (lib : Library Key) (rl : RefLibrary) (stores : StoreLaws lib)
    (laws : RefLaws rl) (parses : ParsesBack lib) (config : Config Key)
    (around : Surroundings lib rl) (friendly : Friendly around) where
  Keeps-RefsComplete :
      (w w' : World lib rl)
      → w'.refs ≡ w.refs
      → Keeps lib w.objects w'.objects
      → RefsComplete w
      → RefsComplete w'
  Keeps-RefsComplete w w' rs keeps h name raw rec root got decoded parsed =
      Complete-Keeps lib root keeps
        (h name raw rec root (ap (λ x. rl.get x name) (sym rs) ∙ got) decoded parsed)

  -- What a push that returns no error has done: the tree is complete, the reference is put, and the comparison held then.
  abbrev pub Pushed : Msg → Key → World lib rl → World lib rl → Type 0
  Pushed m root w w' =
      Complete lib w'.objects root
      × ((before : World lib rl) × (before.refs ≡ w.refs)
          × Puts lib rl around.now m root (around.others before).refs w'.refs
          × (m.cas ≡ true → current_key rl (around.others before).refs m.name ≡ ok m.expected_old))

  abbrev Good : Msg → Key → World lib rl → Step lib rl → Type 0
  Good m root w o = RefsComplete o.1.world × (o.0 ≡ none → Pushed m root w o.1.world)

  commit-Good :
      (m : Msg) (root : Key) (before : World lib rl) (s : Session lib rl)
      → Complete lib s.world.objects root
      → RefsComplete s.world
      → s.world ≡ around.others before
      → Good m root before (commit lib rl config around.now m root s)
  commit-Good m root before s whole_tree complete mid =
      let (os, what) = commit_lem lib rl laws config around.now m root s in
      (
        commit-Complete lib rl laws parses config around.now m root s whole_tree complete,
        λ fine. elim what [
          | inr (_, (x, failed)) ↦ absurd (ground arith)
          | inl (puts, expected) ↦ (
            subst (λ x. Complete lib x root) (sym os) whole_tree,
            (
              before,
              refl,
              subst
                  (λ w.
                    Puts lib rl around.now m root w.refs
                      (commit lib rl config around.now m root s).1.world.refs)
                  mid puts,
              subst (λ w. m.cas ≡ true → current_key rl w.refs m.name ≡ ok m.expected_old) mid
                  expected,
            ),
          )
        ],
      )

  release-Good :
      (m : Msg) (root : Key) (w : World lib rl) (token : Option Bytes) (extras : List Stream)
      (o : Step lib rl)
      → Good m root w o
      → Good m root w (released lib rl token extras o)
  release-Good m root w token extras (x, s) (complete, done) =
      let (os, rs) = release-SameStores lib rl token extras s.world in
      (
        SameStores-RefsComplete lib rl s.world (release lib rl token extras s.world) (os, rs)
            complete,
        λ fine.
            let (there, (before, same, puts, expected)) = done fine in
            (
              subst (λ x. Complete lib x root) (sym os) there,
              (
                before,
                same,
                subst (λ refs. Puts lib rl around.now m root (around.others before).refs refs)
                    (sym rs) puts,
                expected,
              ),
            ),
      )

  transfer-Good :
      (m : Msg) (root : Key) (shards : Shards) (s : Session lib rl) (o : Step lib rl)
      → transfer lib rl config around m root shards s ≡ some o
      → RefsComplete s.world
      → Good m root s.world o
  unfolding transfer
  transfer-Good m root shards s o h complete =
      elim (Option-cases
        (receive lib around.merge s.world.objects (s.control ∷ shards.extras) root)) [
          | inl unfinished ↦ absurd (ground arith)
          | inr (r, received) ↦
              let w : World lib rl = record s.world { objects = r.store } in
              let kept =
                receive-Keeps lib stores around.merge s.world.objects (s.control ∷ shards.extras)
                  root r received in
              let mid : RefsComplete (around.others w) =
                friendly.complete w (Keeps-RefsComplete s.world w refl kept complete) in
              let s' = after_receive lib rl around r s in
              elim (Option-cases r.error) [
                | inr (x, failed) ↦
                    let it : released lib rl shards.token (extra_streams r.channels)
                          (fail_local lib rl x s')
                        ≡ o =
                      ground arith in
                    let same = fail_local-world lib rl x s' in
                    subst (λ o. Good m root s.world o) it
                      (release-Good m root s.world shards.token (extra_streams r.channels)
                        (fail_local lib rl x s')
                        (
                          subst (λ w. RefsComplete w) (sym same) mid,
                          λ fine. absurd (ground (arith, fail_local-error lib rl x s')),
                        ))
                | inl good ↦
                    let it : released lib rl shards.token (extra_streams r.channels)
                          (commit lib rl config around.now m root s')
                        ≡ o =
                      ground arith in
                    let (there, _) =
                      receive-Complete lib stores around.merge friendly.merges s.world.objects
                        (s.control ∷ shards.extras) root r received good in
                    subst (λ o. Good m root s.world o) it
                      (release-Good m root s.world shards.token (extra_streams r.channels)
                        (commit lib rl config around.now m root s')
                        (commit-Good m root w s' (Complete-Keeps lib root (friendly.keeps w) there)
                          mid refl))
              ]
        ]

  fail-Good :
      (m : Msg) (root : Key) (w : World lib rl) (code : String) (x : Error) (s : Session lib rl)
      → RefsComplete s.world
      → Good m root w (fail lib rl code x s)
  unfolding fail
  fail-Good m root w code x s complete = (complete, λ fine. absurd (ground arith))

  sharded-Good :
      (m : Msg) (root : Key) (s : Session lib rl) (o : Step lib rl)
      (shards : Result Shards × Session lib rl)
      → SameStores lib rl s.world shards.1.world
      → sharded lib rl config around m root shards ≡ some o
      → RefsComplete s.world
      → Good m root s.world o
  sharded-Good m root s o (err x, s') same h complete =
      let mid = SameStores-RefsComplete lib rl s.world s'.world same complete in
      let it : fail lib rl code_internal x s' ≡ o = ground arith in
      subst (λ o. Good m root s.world o) it (fail-Good m root s.world code_internal x s' mid)
  sharded-Good m root s o (ok shards, s') same h complete =
      let mid = SameStores-RefsComplete lib rl s.world s'.world same complete in
      let (kept, done) = transfer-Good m root shards s' o h mid in
      (
        kept,
        λ fine.
            let (there, (before, refs, puts, expected)) = done fine in
            (there, (before, refs ∙ same.1, puts, expected)),
      )

  start-Good :
      (m : Msg) (root : Key) (s : Session lib rl) (o : Step lib rl)
      → start lib rl config around m root (check_if lib rl m.cas m s) ≡ some o
      → RefsComplete s.world
      → Good m root s.world o
  start-Good m root s o h complete =
      let (same, passes) = check_if_lem lib rl laws m.cas m s in
      elim (Option-cases (check_if lib rl m.cas m s).0) [
        | inr (x, failed) ↦
            let it : check_if lib rl m.cas m s ≡ o = ground arith in
            subst (λ o. Good m root s.world o) it
              (subst (λ w. RefsComplete w) (sym same) complete, λ fine. absurd (ground arith))
        | inl passed ↦
            let (still, _) = passes passed in
            sharded-Good m root s o (shard_channels lib rl config around m.data_conns s)
              (shard_channels-SameStores lib rl config around m.data_conns s) (ground arith)
              complete
      ]

  refused :
      (m : Msg) (s : Session lib rl) (o : Step lib rl) (code : String) (x : Error)
      → fail lib rl code x s ≡ o
      → RefsComplete s.world
      → RefsComplete o.1.world
        × (o.0 ≡ none
            → (root : Key) × (lib.parse m.root ≡ ok root) × Pushed m root s.world o.1.world)
  unfolding fail
  refused m s o code x it complete = (
    subst (λ (o : Step lib rl). RefsComplete o.1.world) it complete,
    λ fine. absurd (ground arith),
  )

  -- Whatever the client sends: if every reference names a complete tree before a push, so it is after it, however the push ends. If the
  -- push returns no error, then its root was parsed, the whole tree below it is in the store, the reference names it, every other
  -- reference is as the other handlers left it, and a compare-and-swap saw the expected key at the moment of the commit. This rests on
  -- what the store documents, on k[:] being parsed back, and on the other handlers keeping objects and references alike.
  pub push-RefsComplete :
      (m : Msg) (s : Session lib rl) (o : Step lib rl)
      → handle_push lib rl config around m s ≡ some o
      → RefsComplete s.world
      → RefsComplete o.1.world
        × (o.0 ≡ none
            → (root : Key) × (lib.parse m.root ≡ ok root) × Pushed m root s.world o.1.world)
  unfolding handle_push
  push-RefsComplete m s o h complete = elim (Option-cases (rl.validate_name m.name)) [
    | inr (x, invalid) ↦
        let it : fail lib rl code_bad_request x s ≡ o = ground arith in
        refused m s o code_bad_request x it complete
    | inl valid ↦ elim (Result-cases (lib.parse m.root)) [
      | inl (x, broken) ↦
          let it : fail lib rl code_bad_request (wrapped "root key: " x) s ≡ o = ground arith in
          refused m s o code_bad_request (wrapped "root key: " x) it complete
      | inr (root, parsed) ↦
          let (kept, done) = start-Good m root s o (ground arith) complete in
          (kept, λ fine. (root, parsed, done fine))
    ]
  ]
