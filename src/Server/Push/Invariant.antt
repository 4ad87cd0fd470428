-- ===== src/Server/Push/Invariant.antt =====
-- That every reference names a complete tree, and that the commit of a push keeps this.
use amber_store_iroh.Prelude.{
  ◌≡◌, refl, sym, ap, ◌∙◌, subst, ◌≢◌, String, Bool-cases, List, Option, none, some, inl, inr,
  str_eq, eq_iff, arith,
}
use amber_store_iroh.Prelude.Int.{ℤ}
use amber_store_iroh.Protocol.Error.{Bytes, ok}
use amber_store_iroh.Protocol.Msg.{Msg}
use amber_store_iroh.Protocol.Stream.{Stream}
use amber_store_iroh.Wantsync.Library.{Library, Complete}
use amber_store_iroh.Wantsync.Receive.Complete.{MergesOnly}
use amber_store_iroh.Wantsync.Receive.Keeps.{Keeps}
use amber_store_iroh.Server.World.{Reference, RefLibrary, RefLaws, Config, World, Session}
use amber_store_iroh.Server.Channels.{
  Surroundings, shard_channels, release, drop_transfer, register, gather_extras,
}
use amber_store_iroh.Server.Push.{new_reference, commit}
use amber_store_iroh.Server.Push.Laws.{Puts, commit_lem}

-- Every reference of the store names a tree that is complete in it.
abbrev pub RefsComplete :
    {Key : Type 0} {lib : Library Key} {rl : RefLibrary} → World lib rl → Type 0
RefsComplete {Key} {lib} {rl} w =
    (name : String) (raw : Bytes) (rec : Reference) (root : Key)
    → rl.get w.refs name ≡ ok raw
    → rl.decode raw ≡ ok rec
    → lib.parse rec.key ≡ ok root
    → Complete lib w.objects root

-- k[:] is what key.Parse reads.
abbrev pub ParsesBack : {Key : Type 0} → Library Key → Type 0
ParsesBack {Key} lib = (k : Key) → lib.parse (lib.to_bytes k) ≡ ok k

-- What other handlers do keeps every object, and keeps the references complete.
pub record Friendly {Key : Type 0} {lib : Library Key} {rl : RefLibrary}
    (around : Surroundings lib rl) : Type 0 where
  pub keeps : (w : World lib rl) → Keeps lib w.objects (around.others w).objects
  pub complete : (w : World lib rl) → RefsComplete w → RefsComplete (around.others w)
  pub merges : MergesOnly around.merge

module _ {Key : Type 0} (lib : Library Key) (rl : RefLibrary) where
  -- The stores of two worlds are the same.
  abbrev pub SameStores : World lib rl → World lib rl → Type 0
  SameStores w w' = (w'.objects ≡ w.objects) × (w'.refs ≡ w.refs)

  pub SameStores-RefsComplete :
      (w w' : World lib rl) → SameStores w w' → RefsComplete w → RefsComplete w'
  SameStores-RefsComplete w w' (os, rs) h name raw rec root got decoded parsed =
      subst (λ x. Complete lib x root) (sym os)
        (h name raw rec root (ap (λ x. rl.get x name) (sym rs) ∙ got) decoded parsed)

  pub shard_channels-SameStores :
      (config : Config Key) (around : Surroundings lib rl) (n : ℤ) (s : Session lib rl)
      → SameStores s.world (shard_channels lib rl config around n s).1.world
  unfolding shard_channels drop_transfer register gather_extras
  shard_channels-SameStores config around n s = (ground arith, ground arith)

  pub release-SameStores :
      (token : Option Bytes) (extras : List Stream) (w : World lib rl)
      → SameStores w (release lib rl token extras w)
  unfolding release drop_transfer
  release-SameStores none extras w = (refl, refl)
  release-SameStores (some token) extras w = (refl, refl)

module _ {Key : Type 0} (lib : Library Key) (rl : RefLibrary) (laws : RefLaws rl)
    (parses : ParsesBack lib) where
  -- A new reference is complete if the tree is.
  put-Complete :
      (now : ℤ) (m : Msg) (root : Key) (w w' : World lib rl)
      → w'.objects ≡ w.objects
      → Puts lib rl now m root w.refs w'.refs
      → Complete lib w.objects root
      → RefsComplete w
      → RefsComplete w'
  put-Complete now m root w w' os (raw, encoded, got, others) whole_tree h name raw' rec root' got'
        decoded parsed =
      elim (Bool-cases (str_eq name m.name)) [
        | inr differs ↦
            let other : name ≢ m.name = λ e. ground (arith, eq_iff name m.name) in
            subst (λ x. Complete lib x root') (sym os)
              (h name raw' rec root' (sym (others name other) ∙ got') decoded parsed)
        | inl same ↦
            let this : name ≡ m.name = (eq_iff name m.name).0 same in
            let back = laws.read_back (new_reference lib rl m root now) raw encoded in
            let it : root ≡ root' = ground (arith, parses root) in
            subst (λ x. Complete lib x root') (sym os)
              (subst (λ x. Complete lib w.objects x) it whole_tree)
      ]

  pub commit-Complete :
      (config : Config Key) (now : ℤ) (m : Msg) (root : Key) (s : Session lib rl)
      → Complete lib s.world.objects root
      → RefsComplete s.world
      → RefsComplete (commit lib rl config now m root s).1.world
  commit-Complete config now m root s whole_tree h =
      let (os, what) = commit_lem lib rl laws config now m root s in
      elim what [
        | inl (puts, _) ↦
            put-Complete now m root s.world (commit lib rl config now m root s).1.world os puts
              whole_tree h
        | inr (rs, _) ↦
            SameStores-RefsComplete lib rl s.world (commit lib rl config now m root s).1.world
              (os, rs) h
      ]
