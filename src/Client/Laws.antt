-- ===== src/Client/Laws.antt =====
-- What a pull and a push that succeed have done to the local store.
use amber_store_iroh.Prelude.{
  ℕ, ◌≡◌, ◌≢◌, refl, sym, ap, ◌∙◌, subst, String, true, false, Bool-cases, List, none, some,
  Option-cases, inl, inr, Eq, arith,
}
use amber_store_iroh.Prelude.Int.{◌==ℤ◌}
use amber_store_iroh.Protocol.Error.{Bytes, ok, Result-cases}
use amber_store_iroh.Protocol.Msg.{Msg, t_ref}
use amber_store_iroh.Protocol.Stream.{Stream}
use amber_store_iroh.Protocol.Frame.{write_msg, read_msg}
use amber_store_iroh.Wantsync.Library.{Library, StoreLaws, Complete}
use amber_store_iroh.Wantsync.Receive.{Item, receive}
use amber_store_iroh.Wantsync.Receive.Complete.{MergesOnly, receive-Complete}
use amber_store_iroh.Server.World.{Reference, RefLibrary, RefLaws}
use amber_store_iroh.Client.Spec.{tracking_prefix, tracking_ref, is_tracking}
use amber_store_iroh.Client.Push.{Request}
use amber_store_iroh.Client.Pull.{Pulled, record_pull, channels_for, on_ref, pull_msg, run_pull}
use Prim.Native.String.{◌++◌ as text_append}
use text.Mathlib.TextPositions.{starts_with_of_prefix}

-- A tracking reference is in the reserved namespace.
tracking_ref-is_tracking : (server name : String) → is_tracking (tracking_ref server name) ≡ true
unfolding tracking_ref
tracking_ref-is_tracking server name =
    starts_with_of_prefix tracking_prefix (tracking_ref server name)
      (text_append server (text_append "/" name), refl)

tracking_ref-≢ : (server name : String) → is_tracking name ≡ false → tracking_ref server name ≢ name
tracking_ref-≢ server name plain same =
    let both : true ≡ false =
      sym (tracking_ref-is_tracking server name) ∙ ap is_tracking same ∙ plain in
    ground arith

module _ {Key : Type 0} (lib : Library Key) (rl : RefLibrary) (laws : RefLaws rl) where
  record_pull_lem :
      (req : Request) (raw : Bytes) (refs : rl.Refs) (st : lib.State)
      → is_tracking req.name ≡ false
      → (record_pull lib rl req raw refs st).error ≡ none
      → (rl.get (record_pull lib rl req raw refs st).refs req.name ≡ ok raw)
        × (rl.get (record_pull lib rl req raw refs st).refs (tracking_ref req.server req.name)
            ≡ ok raw)
        × ((record_pull lib rl req raw refs st).objects ≡ st)
  unfolding record_pull
  record_pull_lem req raw refs st plain fine = elim (Option-cases (rl.put refs req.name raw).0) [
    | inr (x, failed) ↦ absurd (ground arith)
    | inl first ↦
        let refs' = (rl.put refs req.name raw).1 in
        let tname = tracking_ref req.server req.name in
        elim (Option-cases (rl.put refs' tname raw).0) [
          | inr (x, failed) ↦ absurd (ground arith)
          | inl second ↦
              let other : req.name ≢ tname =
                λ same. tracking_ref-≢ req.server req.name plain (sym same) in
              let kept = laws.put_other refs' tname req.name raw other in
              let got = laws.put_get refs req.name raw first in
              let got' = laws.put_get refs' tname raw second in
              (ground arith, ground arith, ground arith)
        ]
  ]

module _ {Key : Type 0} ⦃e : Eq Key⦄ (lib : Library Key) (rl : RefLibrary) (stores : StoreLaws lib)
    (laws : RefLaws rl) (merge : ℕ → List (List (Item Key)) → List (Item Key))
    (only : MergesOnly merge) where
  -- The tree is there, and both names hold the record.
  abbrev pub HasPulled : Request → Pulled lib rl → Type 0
  HasPulled req p =
      (raw : Bytes) × (rec : Reference) × (root : Key) × (rl.decode raw ≡ ok rec)
      × (lib.parse rec.key ≡ ok root)
      × Complete lib p.objects root
      × (rl.get p.refs req.name ≡ ok raw)
      × (rl.get p.refs (tracking_ref req.server req.name) ≡ ok raw)

  on_ref_lem :
      (req : Request) (st : lib.State) (refs : rl.Refs) (m : Msg) (s : Stream) (p : Pulled lib rl)
      → is_tracking req.name ≡ false
      → on_ref lib rl merge req st refs m s ≡ some p
      → p.error ≡ none
      → HasPulled req p
  on_ref_lem req st refs m s p plain h fine = elim (Result-cases (rl.decode m.ref_record)) [
    | inl (x, failed) ↦ absurd (ground arith)
    | inr (rec, decoded) ↦ elim (Result-cases (lib.parse rec.key)) [
      | inl (x, failed) ↦ absurd (ground arith)
      | inr (root, parsed) ↦
          elim (Option-cases (receive lib merge st (channels_for lib rl req m s) root)) [
            | inl unfinished ↦ absurd (ground arith)
            | inr (r, received) ↦ elim (Option-cases r.error) [
              | inr (x, failed) ↦ absurd (ground arith)
              | inl good ↦
                  let it : record_pull lib rl req m.ref_record refs r.store ≡ p = ground arith in
                  let (there, _) =
                    receive-Complete lib stores merge only st (channels_for lib rl req m s) root r
                      received good in
                  let (named, tracked, same) =
                    record_pull_lem lib rl laws req m.ref_record refs r.store plain
                      (ground arith) in
                  (
                    m.ref_record,
                    rec,
                    root,
                    decoded,
                    parsed,
                    subst (λ x. Complete lib x root) (sym same ∙ ap (λ p. p.objects) it) there,
                    ap (λ p. rl.get p.refs req.name) (sym it) ∙ named,
                    ap (λ p. rl.get p.refs (tracking_ref req.server req.name)) (sym it) ∙ tracked,
                  )
            ]
          ]
    ]
  ]

  -- Whatever the server has sent: after a pull that returns no error, the local name and the name that tracks the server both hold one
  -- record, and the whole tree below its key is in the local store. This rests on what the stores document, and on the merge of the
  -- decoders delivering only what they sent.
  pub pull-HasPulled :
      (req : Request) (st : lib.State) (refs : rl.Refs) (s : Stream) (p : Pulled lib rl)
      → run_pull lib rl merge req st refs s ≡ some p
      → p.error ≡ none
      → HasPulled req p
  unfolding run_pull
  pull-HasPulled req st refs s p h fine = elim (Option-cases (rl.validate_name req.name)) [
    | inr (x, invalid) ↦ absurd (ground arith)
    | inl valid ↦ elim (Bool-cases (is_tracking req.name)) [
      | inl reserved ↦ absurd (ground arith)
      | inr plain ↦
          let sent = write_msg lib.codec (pull_msg lib rl merge req) s in
          elim (Option-cases sent.0) [
            | inr (x, failed) ↦ absurd (ground arith)
            | inl written ↦
                let reply = read_msg lib.codec sent.1 in
                elim (Result-cases reply.0) [
                  | inl (x, failed) ↦ absurd (ground arith)
                  | inr (m, got) ↦ elim (Bool-cases (m.type ==ℤ t_ref)) [
                    | inr other ↦ absurd (ground arith)
                    | inl ref ↦ on_ref_lem req st refs m reply.1 p plain (ground arith) fine
                  ]
                ]
          ]
    ]
  ]
