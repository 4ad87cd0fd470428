-- ===== src/Client/Tracks.antt =====
-- What a push leaves in the local references.
use amber_store_iroh.Prelude.{
  ◌≡◌, ◌≢◌, refl, sym, subst, String, Bool-cases, none, some, Option-cases, inl, inr, ◌⊎◌, Eq,
  arith,
}
use amber_store_iroh.Prelude.Int.{◌==ℤ◌}
use amber_store_iroh.Protocol.Error.{
  Bytes, Error, Result, ok, err, wrapped, remote, message, unexpected_frame, Result-cases,
}
use amber_store_iroh.Protocol.Msg.{Msg, t_ok, t_err, remote_from_msg}
use amber_store_iroh.Protocol.Stream.{Stream}
use amber_store_iroh.Protocol.Frame.{write_msg, read_msg}
use amber_store_iroh.Wantsync.Library.{Library}
use amber_store_iroh.Server.World.{RefLibrary, RefLaws}
use amber_store_iroh.Client.Spec.{Texts, tracking_ref, is_tracking, resolve_spec}
use amber_store_iroh.Client.Push.{
  Request, Ended, expected, push_msg, run_senders, on_answer, push_error, push_root, record_push,
  tracking_reference, run_push,
}
use Prim.Native.String.{◌++◌ as text_append}

module _ {Key : Type 0} ⦃e : Eq Key⦄ (lib : Library Key) (rl : RefLibrary) (laws : RefLaws rl)
    (texts : Texts lib) (st : lib.State) where
  -- The tracking reference names the root, and every other name has what it had.
  abbrev pub Tracks : Request → Key → rl.Refs → rl.Refs → Type 0
  Tracks req root refs refs' =
      (raw : Bytes) × (rl.encode (tracking_reference lib rl texts req root) ≡ ok raw)
      × (rl.get refs' (tracking_ref req.server req.name) ≡ ok raw)
      × ((other : String)
          → other ≢ tracking_ref req.server req.name
          → rl.get refs' other ≡ rl.get refs other)

  abbrev Recorded : Request → Key → rl.Refs → Ended rl → Type 0
  Recorded req root refs o =
      ((o.0 ≡ none) × Tracks req root refs o.2) ⊎ ((o.2 ≡ refs) × ((x : Error) × (o.0 ≡ some x)))

  record_push_lem :
      (req : Request) (root : Key) (s : Stream) (refs : rl.Refs)
      → Recorded req root refs (record_push lib rl texts req root s refs)
  unfolding record_push
  record_push_lem req root s refs =
      elim (Result-cases (rl.encode (tracking_reference lib rl texts req root))) [
        | inl (x, failed) ↦ inr (ground arith, (x, ground arith))
        | inr (raw, encoded) ↦
            let tname = tracking_ref req.server req.name in
            elim (Option-cases (rl.put refs tname raw).0) [
              | inr (x, failed) ↦ inr (
                ground (arith, laws.put_failed refs tname raw x failed),
                (wrapped "push succeeded but recording tracking ref failed: " x, ground arith),
              )
              | inl fine ↦ inl (
                ground arith,
                (
                  raw,
                  encoded,
                  ground (arith, laws.put_get refs tname raw fine),
                  λ other d. ground (arith, laws.put_other refs tname other raw d),
                ),
              )
            ]
      ]

  answer_lem :
      (req : Request) (root : Key) (refs : rl.Refs) (r : Result Msg × Stream)
      → Recorded req root refs (on_answer lib rl texts req root refs r)
  answer_lem req root refs (err x, s) = inr (refl, (x, refl))
  answer_lem req root refs (ok m, s) = elim (Bool-cases (m.type ==ℤ t_ok)) [
    | inl acknowledged ↦
        let it : on_answer lib rl texts req root refs (ok m, s)
            ≡ record_push lib rl texts req root s refs =
          ground arith in
        subst (λ o. Recorded req root refs o) (sym it) (record_push_lem req root s refs)
    | inr other ↦ elim (Bool-cases (m.type ==ℤ t_err)) [
      | inl refused ↦ inr (
        ground arith,
        (push_error lib rl texts req.name (remote (remote_from_msg m)), ground arith),
      )
      | inr unknown ↦ inr (ground arith, (unexpected_frame m.type, ground arith))
    ]
  ]

  stopped_lem :
      (req : Request) (root : Key) (refs : rl.Refs) (o : Ended rl) (x : Error) (s : Stream)
      → (some x, s, refs) ≡ o
      → Recorded req root refs o
  stopped_lem req root refs o x s it =
      subst (λ o. Recorded req root refs o) it (inr (refl, (x, refl)))

  push_root_lem :
      (req : Request) (root : Key) (path : String) (refs : rl.Refs) (s : Stream) (o : Ended rl)
      → push_root lib rl texts st req refs s (root, path) ≡ some o
      → Recorded req root refs o
  push_root_lem req root path refs s o h =
      elim (Result-cases (expected lib rl texts refs (tracking_ref req.server req.name))) [
        | inl (x, failed) ↦ stopped_lem req root refs o x s (ground arith)
        | inr (old, known) ↦
            let sent = write_msg lib.codec (push_msg lib rl texts st req root old) s in
            elim (Option-cases sent.0) [
              | inr (x, failed) ↦ stopped_lem req root refs o x sent.1 (ground arith)
              | inl written ↦ elim (Option-cases (run_senders lib rl st req sent.1)) [
                | inl unfinished ↦ absurd (ground arith)
                | inr (after, ran) ↦ elim (Option-cases after.0) [
                  | inr (x, failed) ↦
                      stopped_lem req root refs o (push_error lib rl texts req.name x) after.1
                        (ground arith)
                  | inl served ↦
                      let it : on_answer lib rl texts req root refs (read_msg lib.codec after.1)
                          ≡ o =
                        ground arith in
                      subst (λ o. Recorded req root refs o) it
                        (answer_lem req root refs (read_msg lib.codec after.1))
                ]
              ]
            ]
      ]

  -- However a push ends, either it returns no error, and then the reference that tracks the server names the root that the local
  -- reference resolved to and every other local reference is as it was; or it returns an error, and no local reference has changed.
  pub push-Tracks :
      (req : Request) (refs : rl.Refs) (s : Stream) (o : Ended rl)
      → run_push lib rl texts st req refs s ≡ some o
      → ((o.0 ≡ none)
          × ((root : Key) × (path : String) × (resolve_spec lib rl texts refs
                  (text_append "ref:" req.name)
                ≡ ok (root, path))
              × Tracks req root refs o.2))
        ⊎ ((o.2 ≡ refs) × ((x : Error) × (o.0 ≡ some x)))
  unfolding run_push
  push-Tracks req refs s o h = elim (Bool-cases (is_tracking req.name)) [
    | inl reserved ↦ inr (
      ground arith,
      (
        message (
            rl.sprintf "ref %q: the \"remotes/\" namespace is reserved for remote-tracking refs"
              req.name),
        ground arith,
      ),
    )
    | inr plain ↦
        elim (Result-cases (resolve_spec lib rl texts refs (text_append "ref:" req.name))) [
          | inl (x, failed) ↦ inr (ground arith, (x, ground arith))
          | inr ((root, path), found) ↦ elim (push_root_lem req root path refs s o (ground arith)) [
            | inl (fine, tracks) ↦ inl (fine, (root, path, found, tracks))
            | inr left ↦ inr left
          ]
        ]
  ]
