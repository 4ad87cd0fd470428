-- ===== src/Server/Push/Race.antt =====
-- Two pushes that race for one reference.
use amber_store_iroh.Prelude.{◌≡◌, ◌≢◌, true, none, inl, inr, arith}
use amber_store_iroh.Prelude.Int.{ℤ}
use amber_store_iroh.Protocol.Error.{ok}
use amber_store_iroh.Protocol.Msg.{Msg}
use amber_store_iroh.Wantsync.Library.{Library}
use amber_store_iroh.Server.World.{RefLibrary, RefLaws, Config, Session}
use amber_store_iroh.Server.Refs.{current_key}
use amber_store_iroh.Server.Push.{new_reference, commit}
use amber_store_iroh.Server.Push.Laws.{Refused, commit_lem}

module _ {Key : Type 0} (lib : Library Key) (rl : RefLibrary) (laws : RefLaws rl)
    (config : Config Key) where
  -- Of two pushes of one name that expect the same old key, if the first one is committed, and its key is another one, then the second
  -- one is refused and changes no reference, as long as nobody else has changed the name in between.
  pub commit-commit :
      (now now' : ℤ) (m m' : Msg) (root root' : Key) (s s' : Session lib rl)
      → m'.cas ≡ true
      → m'.name ≡ m.name
      → m'.expected_old ≡ m.expected_old
      → lib.to_bytes root ≢ m.expected_old
      → (commit lib rl config now m root s).0 ≡ none
      → rl.get s'.world.refs m.name ≡ rl.get (commit lib rl config now m root s).1.world.refs m.name
      → Refused lib rl s' (commit lib rl config now' m' root' s')
  unfolding current_key
  commit-commit now now' m m' root root' s s' cas same_name same_old other fine untouched =
      let (_, first) = commit_lem lib rl laws config now m root s in
      let (_, second) = commit_lem lib rl laws config now' m' root' s' in
      elim second [
        | inr refused ↦ refused
        | inl (puts', expected) ↦ elim first [
          | inr (_, (x, failed)) ↦ absurd (ground arith)
          | inl ((raw, encoded, got, others), _) ↦
              let decoded = laws.read_back (new_reference lib rl m root now) raw encoded in
              let now_held : current_key rl s'.world.refs m.name ≡ ok (lib.to_bytes root) =
                ground (arith, untouched, got, decoded) in
              let wanted = expected cas in
              absurd (ground (arith, other, wanted, now_held, same_name, same_old))
        ]
      ]
