-- ===== src/Server/Handle/Ends.antt =====
-- Every operation comes to an end.
use amber_store_iroh.Prelude.{
  ◌≢◌, Bool-cases, List, [], ◌∷◌, Option, none, some, Option-cases, inl, inr, Eq, arith,
}
use amber_store_iroh.Prelude.Int.{ℤ, pos, leb_ℤ}
use amber_store_iroh.Protocol.Error.{Bytes, Result, ok, err, Result-cases}
use amber_store_iroh.Protocol.Msg.{Msg}
use amber_store_iroh.Protocol.Stream.{Stream}
use amber_store_iroh.Protocol.Frame.{read_msg}
use amber_store_iroh.Wantsync.Library.{Library}
use amber_store_iroh.Wantsync.Send.Laws.{send_ends}
use amber_store_iroh.Wantsync.Receive.Complete.{MergesOnly}
use amber_store_iroh.Wantsync.Receive.Ends.{EmptyPack, receive_ends}
use amber_store_iroh.Server.World.{
  RefLibrary, Config, World, Session, Step, accessed, note_if, respond,
}
use amber_store_iroh.Server.Refs.{check_if}
use amber_store_iroh.Server.Channels.{
  Surroundings, Shards, shard_channels, with_pending, register, offer,
}
use amber_store_iroh.Server.Push.{transfer, sharded, handle_push}
use amber_store_iroh.Server.Pull.{
  send_all, serve_channels, answered, pull_ref, handle_pull, gathered, ref_msg,
}
use amber_store_iroh.Server.Handle.{handle_stream}

module _ {Key : Type 0} ⦃e : Eq Key⦄ (lib : Library Key) (rl : RefLibrary) (config : Config Key)
    (around : Surroundings lib rl) where
  transfer_ends :
      EmptyPack lib
      → MergesOnly around.merge
      → (m : Msg) (root : Key) (shards : Shards) (s : Session lib rl)
      → transfer lib rl config around m root shards s ≢ none
  unfolding transfer
  transfer_ends empty only m root shards s h =
      let (r, received) =
        receive_ends lib empty around.merge only s.world.objects (s.control ∷ shards.extras) root in
      ground arith

  sharded_ends :
      EmptyPack lib
      → MergesOnly around.merge
      → (m : Msg) (root : Key) (shards : Result Shards × Session lib rl)
      → sharded lib rl config around m root shards ≢ none
  sharded_ends empty only m root (err x, s) h = ground arith
  sharded_ends empty only m root (ok shards, s) h = transfer_ends empty only m root shards s h

  push_ends :
      EmptyPack lib
      → MergesOnly around.merge
      → (m : Msg) (s : Session lib rl) → handle_push lib rl config around m s ≢ none
  unfolding handle_push
  push_ends empty only m s h = elim (Option-cases (rl.validate_name m.name)) [
    | inr (x, invalid) ↦ ground arith
    | inl valid ↦ elim (Result-cases (lib.parse m.root)) [
      | inl (x, broken) ↦ ground arith
      | inr (root, parsed) ↦ elim (Option-cases (check_if lib rl m.cas m s).0) [
        | inr (x, failed) ↦ ground arith
        | inl passed ↦
            let s' = (check_if lib rl m.cas m s).1 in
            sharded_ends empty only m root (shard_channels lib rl config around m.data_conns s')
              (ground arith)
      ]
    ]
  ]

  send_all_ends : (st : lib.State) (cs : List Stream) → send_all lib rl st cs ≢ none
  unfolding send_all
  send_all_ends st [] h = ground arith
  send_all_ends st (c ∷ cs) h =
      let (o, sent) = send_ends lib st c in ground (arith, send_all_ends st cs)

  serve_channels_ends : (o : Shards × Session lib rl) → serve_channels lib rl o ≢ none
  unfolding serve_channels
  serve_channels_ends (shards, s) h =
      ground (arith, send_all_ends s.world.objects (s.control ∷ shards.extras))

  answered_ends :
      (n : ℤ) (token : Option Bytes) (o : Step lib rl) → answered lib rl around n token o ≢ none
  answered_ends n token (some x, s) h = ground arith
  answered_ends n token (none, s) h = serve_channels_ends (gathered lib rl around n token s) h

  pull_ref_ends :
      (m : Msg) (raw : Bytes) (s : Session lib rl) → pull_ref lib rl config around m raw s ≢ none
  unfolding pull_ref
  pull_ref_ends m raw s h = elim (Bool-cases (leb_ℤ m.data_conns (pos 0))) [
    | inl single ↦
        answered_ends m.data_conns none (respond lib rl (ref_msg lib rl raw) s) (ground arith)
    | inr many ↦ elim (Result-cases around.random) [
      | inl (x, failed) ↦ ground arith
      | inr (token, made) ↦
          answered_ends m.data_conns (some token)
            (respond lib rl (offer lib rl config (ref_msg lib rl raw) token)
              (with_pending lib rl (register lib rl token) s))
            (ground arith)
    ]
  ]

  pull_ends : (m : Msg) (s : Session lib rl) → handle_pull lib rl config around m s ≢ none
  unfolding handle_pull
  pull_ends m s h = elim (Result-cases (rl.get s.world.refs m.name)) [
    | inl (x, unknown) ↦ ground arith
    | inr (raw, known) ↦
        pull_ref_ends m raw (note_if lib rl config.on_access (accessed m.name) s) (ground arith)
  ]

  -- Whatever bytes the client has sent, on this stream and on those that attach, the handler comes to an end, within the fuel that the model
  -- gives it. This rests on an empty pack holding no object, and on the merge of the decoders delivering only what they sent.
  pub handle_stream_ends :
      EmptyPack lib
      → MergesOnly around.merge
      → (s : Stream) (w : World lib rl) → handle_stream lib rl config around s w ≢ none
  unfolding handle_stream
  handle_stream_ends empty only s w h = elim (Result-cases (read_msg lib.codec s).0) [
    | inl (x, failed) ↦ ground arith
    | inr (m, got) ↦
        let session : Session lib rl = record { control = (read_msg lib.codec s).1; world = w } in
        ground (arith, push_ends empty only m session, pull_ends m session)
  ]
