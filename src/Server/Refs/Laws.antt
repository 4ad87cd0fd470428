-- ===== src/Server/Refs/Laws.antt =====
-- What the operations on the references do, on each branch.
use amber_store_iroh.Prelude.{
  ◌≡◌, refl, String, false, List, [], ◌∷◌, none, some, inl, inr, bytes_equal, bytes_equal_iff,
  arith,
}
use amber_store_iroh.Protocol.Error.{Bytes, Error, ok, err, Result-cases}
use amber_store_iroh.Protocol.Msg.{Msg}
use amber_store_iroh.Protocol.Frame.{write_msg}
use amber_store_iroh.Wantsync.Library.{Library}
use amber_store_iroh.Server.World.{RefLibrary, Session, fail, fail_local}
use amber_store_iroh.Server.Refs.{current_key, mismatch_msg, check_cas}

module _ {Key : Type 0} (lib : Library Key) (rl : RefLibrary) where
  pub fail-world :
      (code : String) (x : Error) (s : Session lib rl) → (fail lib rl code x s).1.world ≡ s.world
  unfolding fail
  fail-world code x s = refl

  pub fail_local-world :
      (x : Error) (s : Session lib rl) → (fail_local lib rl x s).1.world ≡ s.world
  unfolding fail_local fail
  fail_local-world x s = ground arith

  pub fail_local-error : (x : Error) (s : Session lib rl) → (fail_local lib rl x s).0 ≡ some x
  unfolding fail_local fail
  fail_local-error x s = ground arith

  -- The check passes exactly if the reference has the expected key now, and then it has done nothing. On another key it answers
  -- with the cas-mismatch frame that carries the key. It never changes the world.
  pub check_cas_lem :
      (m : Msg) (s : Session lib rl)
      → (((check_cas lib rl m s).0 ≡ none)
          → ((check_cas lib rl m s).1 ≡ s)
            × (current_key rl s.world.refs m.name ≡ ok m.expected_old))
        × ((current_key rl s.world.refs m.name ≡ ok m.expected_old)
            → check_cas lib rl m s ≡ (none, s))
        × ((current : Bytes)
            → current_key rl s.world.refs m.name ≡ ok current
            → bytes_equal current m.expected_old ≡ false
            → (check_cas lib rl m s).1.control
              ≡ (write_msg lib.codec (mismatch_msg rl m.name current) s.control).1)
        × ((check_cas lib rl m s).1.world ≡ s.world)
  unfolding check_cas fail
  check_cas_lem m s = elim (Result-cases (current_key rl s.world.refs m.name)) [
    | inl (x, unknown) ↦ (ground arith, ground arith, ground arith, ground arith)
    | inr (current, known) ↦
        let same = bytes_equal_iff current m.expected_old in
        (ground arith, ground arith, ground arith, ground arith)
  ]

  -- The names of the list that have a reference, in order.
  abbrev pub known_names : rl.Refs → List String → List String
  known_names refs [] = []
  known_names refs (name ∷ names) = elim (rl.get refs name) [
    | ok raw ↦ name ∷ known_names refs names
    | err e ↦ known_names refs names
  ]
