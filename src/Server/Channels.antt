-- ===== src/Server/Channels.antt =====
-- server/server.go: `shardChannels`, the release of the channels behind a transfer, and the surroundings of a handler:
-- what crypto/rand and the clock return to it, what happens while it waits, and what other handlers do meanwhile.
use amber_store_iroh.Prelude.{ℕ, List, [], ◌++◌, Option, none, some, min, if◌then◌else◌}
use amber_store_iroh.Prelude.Int.{ℤ, pos, leb_ℤ, pos_part}
use amber_store_iroh.Protocol.Error.{Bytes, Result, ok, err}
use amber_store_iroh.Protocol.Msg.{Msg, DataEndpointRec, blank, t_accept}
use amber_store_iroh.Protocol.Stream.{Stream}
use amber_store_iroh.Wantsync.Library.{Library}
use amber_store_iroh.Wantsync.Receive.{Item}
use amber_store_iroh.Server.World.{RefLibrary, Config, World, Session, Step, respond}
use amber_store_iroh.Server.Transfers.{max_data_conns, Event, create, gather, drop_token}

-- `others` is what the other handlers do to the world while a transfer runs; `merge` orders what the decoders of a
-- round deliver.
pub record Surroundings {Key : Type 0} (lib : Library Key) (rl : RefLibrary) : Type 0 where
  pub random : Result Bytes
  pub now : ℤ
  pub events : List (Event Stream)
  pub others : World lib rl → World lib rl
  pub merge : ℕ → List (List (Item Key)) → List (Item Key)

-- The extra channels of a transfer, with the token under which they attached, nil for no sharding.
pub record Shards : Type 0 where
  pub token : Option Bytes
  pub extras : List Stream

abbrev pub no_shards : Shards
no_shards = record { token = none; extras = [] }

abbrev pub endpoints_of : Option (List DataEndpointRec) → List DataEndpointRec
endpoints_of none = []
endpoints_of (some es) = es

module _ {Key : Type 0} (lib : Library Key) (rl : RefLibrary) where
  abbrev pub with_pending : (World lib rl → World lib rl) → Session lib rl → Session lib rl
  with_pending f s = record s { world = f s.world }

  unfoldable pub register : Bytes → World lib rl → World lib rl
  register token w = record w { pending = create token w.pending }

  -- transfers.drop: the streams that nobody has gathered are closed.
  unfoldable pub drop_transfer : Bytes → World lib rl → World lib rl
  drop_transfer token w =
      let (leftover, pending) = drop_token token w.pending in
      record w { pending = pending; closed = w.closed ++ leftover }

  -- What `gather` brings within the wait for the promised connections.
  unfoldable pub gather_extras :
      Surroundings lib rl → Bytes → ℤ → Session lib rl → Shards × Session lib rl
  gather_extras around token n s =
      let (extras, pending) =
        gather around.events token (min (pos_part n) max_data_conns) s.world.pending in
      (
        record { token = some token; extras = extras },
        record s { world = record s.world { pending = pending } },
      )

  -- The deferred release: the token is dropped, and the gathered streams are closed as the transfer leaves them.
  unfoldable pub release : Option Bytes → List Stream → World lib rl → World lib rl
  unfolding drop_transfer
  release none extras w = w
  release (some token) extras w =
      let w' = drop_transfer token w in record w' { closed = w'.closed ++ extras }

  abbrev pub offer : Config Key → Msg → Bytes → Msg
  offer config m token = record m {
    token = token;
    data_ports = config.data_ports;
    data_endpoints = endpoints_of config.data_endpoints;
  }

  abbrev pub offered :
      Surroundings lib rl → Bytes → ℤ → Step lib rl → Result Shards × Session lib rl
  offered around token n (some e, s) = (err e, with_pending (drop_transfer token) s)
  offered around token n (none, s) =
      let (shards, s') = gather_extras around token n s in (ok shards, s')

  unfoldable pub shard_channels :
      Config Key → Surroundings lib rl → ℤ → Session lib rl → Result Shards × Session lib rl
  shard_channels config around n s =
      if leb_ℤ n (pos 0) then (ok no_shards, s) else elim around.random [
        | err e ↦ (err e, s)
        | ok token ↦
            offered around token n (
              respond lib rl (offer config (blank t_accept) token)
                (with_pending (register token) s))
      ]
