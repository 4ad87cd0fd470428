-- ===== src/Server/Push.antt =====
-- server/server.go: `handlePush`, in the phases of the code. The logging of `logPush` and the clock readings for it are
-- left out. The lock of `lockRef` is modelled by the commit being one step, which no other handler interrupts; Server/Locks takes it apart.
pub mod Laws
pub mod Invariant
pub mod Sound
pub mod Guard
pub mod Race
use amber_store_iroh.Prelude.{Bool, true, false, List, [], ◌∷◌, map, Option, none, some, Eq}
use amber_store_iroh.Prelude.Int.{ℤ}
use amber_store_iroh.Protocol.Error.{Bytes, Error, Result, ok, err, wrapped, ◌and_then◌}
use amber_store_iroh.Protocol.Msg.{Msg, blank, t_ok, code_bad_request, code_internal}
use amber_store_iroh.Protocol.Stream.{Stream}
use amber_store_iroh.Wantsync.Library.{Library}
use amber_store_iroh.Wantsync.Receive.{Channel, Received, receive}
use amber_store_iroh.Server.World.{
  Reference, RefLibrary, Call, accessed, prepared, committed, aborted, Config, World, Session, Step,
  note, note_if, respond, fail, fail_local,
}
use amber_store_iroh.Server.Refs.{check_if}
use amber_store_iroh.Server.Channels.{Surroundings, Shards, shard_channels, release, with_pending}

abbrev pub first_or : Stream → List Channel → Stream
first_or s [] = s
first_or s (c ∷ cs) = c.stream

abbrev pub extra_streams : List Channel → List Stream
extra_streams [] = []
extra_streams (c ∷ cs) = map (λ x. x.stream) cs

module _ {Key : Type 0} (lib : Library Key) (rl : RefLibrary) where
  -- refs.Put, and what it returns.
  unfoldable pub put_ref : Msg → Bytes → Session lib rl → Step lib rl
  put_ref m raw s =
      let (e, refs) = rl.put s.world.refs m.name raw in
      (e, record s { world = record s.world { refs = refs } })

  -- refs.Put behind a guard that has let it pass: commit or abort.
  abbrev pub settle_guard : Key → Step lib rl → Step lib rl
  settle_guard root (some e, s) = fail lib rl code_internal e (note lib rl (aborted root) s)
  settle_guard root (none, s) = (none, note lib rl (committed root) s)

  abbrev pub guarded_put : Key → Msg → Bytes → Option Error → Session lib rl → Step lib rl
  guarded_put root m raw (some e) s = fail lib rl code_internal (wrapped "gc guard: " e) s
  guarded_put root m raw none s = settle_guard root (put_ref m raw s)

  abbrev pub plain_put : Step lib rl → Step lib rl
  plain_put (some e, s) = fail lib rl code_internal e s
  plain_put (none, s) = (none, s)

  unfoldable pub publish :
      Option (List (Call Key) → Key → Option Error)
      → Key
      → Msg
      → Bytes
      → Session lib rl
      → Step lib rl
  unfolding put_ref
  publish none root m raw s = plain_put (put_ref m raw s)
  publish (some prepare) root m raw s =
      guarded_put root m raw (prepare s.world.calls root) (note lib rl (prepared root) s)

  -- The reference for the pushed tree.
  abbrev pub new_reference : Msg → Key → ℤ → Reference
  new_reference m root now = record {
    name = m.name;
    key = lib.to_bytes root;
    created_at = now;
    user = "";
  }

  -- What follows a Put that succeeded.
  abbrev pub acknowledge : Config Key → Key → Msg → Session lib rl → Step lib rl
  acknowledge config root m s =
      respond lib rl (record (blank t_ok) { key = lib.to_bytes root })
        (note_if lib rl config.on_access (accessed m.name) s)

  -- The commit under the lock of the name.
  unfoldable pub commit : Config Key → ℤ → Msg → Key → Session lib rl → Step lib rl
  unfolding publish
  commit config now m root s = check_if lib rl m.cas m s and_then λ s'.
      elim (rl.encode (new_reference m root now)) [
        | err e ↦ fail lib rl code_internal e s'
        | ok raw ↦ publish config.guard root m raw s' and_then acknowledge config root m
      ]

module _ {Key : Type 0} ⦃e : Eq Key⦄ (lib : Library Key) (rl : RefLibrary) where
  -- The session behind `receive`, when the other handlers have done their part.
  abbrev pub after_receive : Surroundings lib rl → Received lib → Session lib rl → Session lib rl
  after_receive around r s = record s {
    control = first_or s.control r.channels;
    world = around.others (record s.world { objects = r.store });
  }

  abbrev pub finish :
      Config Key → Surroundings lib rl → Msg → Key → Option Error → Session lib rl → Step lib rl
  finish config around m root (some x) s = fail_local lib rl x s
  finish config around m root none s = commit lib rl config around.now m root s

  abbrev pub released : Option Bytes → List Stream → Step lib rl → Step lib rl
  released token extras (x, s) = (x, with_pending lib rl (release lib rl token extras) s)

  -- The transfer over the channels, and what follows it; none stands for fuel that has run out.
  unfoldable pub transfer :
      Config Key → Surroundings lib rl → Msg → Key → Shards → Session lib rl → Option (Step lib rl)
  transfer config around m root shards s =
      elim (receive lib around.merge s.world.objects (s.control ∷ shards.extras) root) [
        | none ↦ none
        | some r ↦ some (
            released shards.token (extra_streams r.channels)
              (finish config around m root r.error (after_receive around r s)))
      ]

  abbrev pub sharded :
      Config Key
      → Surroundings lib rl
      → Msg
      → Key
      → Result Shards × Session lib rl
      → Option (Step lib rl)
  sharded config around m root (err x, s) = some (fail lib rl code_internal x s)
  sharded config around m root (ok shards, s) = transfer config around m root shards s

  -- The early check of the precondition, and the transfer.
  abbrev pub start :
      Config Key → Surroundings lib rl → Msg → Key → Step lib rl → Option (Step lib rl)
  start config around m root (some x, s) = some (some x, s)
  start config around m root (none, s) =
      sharded config around m root (shard_channels lib rl config around m.data_conns s)

  unfoldable pub handle_push :
      Config Key → Surroundings lib rl → Msg → Session lib rl → Option (Step lib rl)
  unfolding transfer
  handle_push config around m s = elim (rl.validate_name m.name) [
    | some x ↦ some (fail lib rl code_bad_request x s)
    | none ↦ elim (lib.parse m.root) [
      | err x ↦ some (fail lib rl code_bad_request (wrapped "root key: " x) s)
      | ok root ↦ start config around m root (check_if lib rl m.cas m s)
    ]
  ]
