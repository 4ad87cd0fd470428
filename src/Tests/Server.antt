-- ===== src/Tests/Server.antt =====
-- Witnesses of the theorems about the server.
use amber_store_iroh.Prelude.{
  ℕ, nat_eq, string_eq, ◌≡◌, ◌≢◌, ◌≤◌, refl, true, List, [], ◌∷◌, ◌++◌, length, Option, none, some,
  ◌⊎◌,
}
use amber_store_iroh.Prelude.Int.{pos}
use amber_store_iroh.Protocol.Error.{ok, join, is_not_found}
use amber_store_iroh.Protocol.Msg.{Msg, blank, t_push, t_pin}
use amber_store_iroh.Protocol.Stream.{Stream, read_full, write}
use amber_store_iroh.Protocol.Frame.{frame, put_uint32, uint32, write_msg, read_msg}
use amber_store_iroh.Protocol.Pack.{drain}
use amber_store_iroh.Wantsync.Keys.{split_wants, encode_keys, check_delivered}
use amber_store_iroh.Wantsync.Wants.{wants, is_wanted}
use amber_store_iroh.Wantsync.Deal.{deal_wants}
use amber_store_iroh.Wantsync.Receive.{receive, ask, decode_all, end_all}
use amber_store_iroh.Server.Transfers.{
  Pending, Event, arrive, pick, expire, lookup, gather, drop_token,
}
use amber_store_iroh.Server.Transfers.Laws.{accepted, gather-drop_token}
use amber_store_iroh.Server.World.{World, Session, Step}
use amber_store_iroh.Server.Refs.{current_key, check_cas}
use amber_store_iroh.Server.Channels.{shard_channels, release}
use amber_store_iroh.Server.Push.{commit, handle_push}
use amber_store_iroh.Server.Push.Laws.{Puts, Refused, commit_lem}
use amber_store_iroh.Server.Push.Invariant.{RefsComplete}
use amber_store_iroh.Server.Push.Sound.{Pushed, push-RefsComplete}
use amber_store_iroh.Server.Handle.{handle_stream}
use amber_store_iroh.Server.Handle.Ends.{handle_stream_ends}
use amber_store_iroh.Server.Handle.Invariant.{begun, handled, Reachable-RefsComplete}
use amber_store_iroh.Tests.Toy.{
  toy, toy-StoreLaws, toy-EmptyPack, in_turn-MergesOnly, open_stream, packs_of_tree,
}
use amber_store_iroh.Tests.ToyRefs.{
  toy_refs, toy-RefLaws, toy-ParsesBack, around, around-Friendly, config, empty_world,
  empty_world-RefsComplete,
}

-- A token that waits for streams, which are numbers here; two arrive, and one of them is taken.
abbrev events : List (Event ℕ)
events = arrive (7 ∷ []) 1 ∷ pick ∷ arrive (7 ∷ []) 2 ∷ expire ∷ []

abbrev waiting : Pending ℕ
waiting = (7 ∷ [], []) ∷ []

gather-drop_token_example :
    (length (gather events (7 ∷ []) 3 waiting).0 ≤ 3)
    × ((gather events (7 ∷ []) 3 waiting).0
          ++ (drop_token (7 ∷ []) (gather events (7 ∷ []) 3 waiting).1).0
        ≡ [] ++ accepted events (7 ∷ []) 3 [] waiting)
    × (lookup (7 ∷ []) (drop_token (7 ∷ []) (gather events (7 ∷ []) 3 waiting).1).1 ≡ none)
unfolding lookup
gather-drop_token_example = gather-drop_token events (7 ∷ []) 3 waiting [] refl

-- A push of the tree of key 1, on a stream with its packs.
abbrev push_msg : Msg
push_msg = record (blank t_push) { name = "n"; root = 1 ∷ []; cas = true }

abbrev fresh : Session toy toy_refs
fresh = record { control = open_stream packs_of_tree; world = empty_world }

abbrev pushed : Option (Step toy toy_refs)
pushed = handle_push toy toy_refs config around push_msg fresh

abbrev step_of : Option (Step toy toy_refs) → Step toy toy_refs
step_of none = (none, fresh)
step_of (some o) = o

push-RefsComplete_example :
    RefsComplete (step_of pushed).1.world
    × ((step_of pushed).0 ≡ none
        → (root : ℕ) × (toy.parse (1 ∷ []) ≡ ok root)
          × Pushed toy toy_refs toy-StoreLaws toy-RefLaws toy-ParsesBack config around
              around-Friendly push_msg root empty_world
              (step_of pushed).1.world)
unfolding handle_push receive read_full write put_uint32 uint32 write_msg read_msg drain wants
    is_wanted split_wants deal_wants ask encode_keys decode_all join check_delivered end_all
    check_cas current_key is_not_found shard_channels commit release
push-RefsComplete_example =
    push-RefsComplete toy toy_refs toy-StoreLaws toy-RefLaws toy-ParsesBack config around
      around-Friendly push_msg fresh (step_of pushed) refl empty_world-RefsComplete

-- The same push as a whole stream.
abbrev push_stream : Stream
push_stream = open_stream (frame (1 ∷ 1 ∷ []) ++ packs_of_tree)

abbrev world_of : Option (World toy toy_refs) → World toy toy_refs
world_of none = empty_world
world_of (some w) = w

abbrev world_after : World toy toy_refs
world_after = world_of (handle_stream toy toy_refs config around push_stream empty_world)

Reachable-RefsComplete_example : RefsComplete world_after
unfolding handle_stream handle_push receive read_full write put_uint32 uint32 write_msg read_msg
    drain wants is_wanted split_wants deal_wants ask encode_keys decode_all join check_delivered
    end_all shard_channels commit release
Reachable-RefsComplete_example =
    Reachable-RefsComplete toy toy_refs toy-StoreLaws toy-RefLaws toy-ParsesBack config empty_world
      world_after empty_world-RefsComplete (handled around push_stream begun around-Friendly refl)

handle_stream_ends_example : handle_stream toy toy_refs config around push_stream empty_world ≢ none
handle_stream_ends_example =
    handle_stream_ends toy toy_refs config around toy-EmptyPack in_turn-MergesOnly push_stream
      empty_world

commit_example :
    ((commit toy toy_refs config (pos 0) push_msg 1 fresh).1.world.objects ≡ [])
    × ((Puts toy toy_refs
            (pos 0)
            push_msg
            1
            []
            (commit toy toy_refs config (pos 0) push_msg 1 fresh).1.world.refs
          × (true ≡ true → current_key toy_refs [] "n" ≡ ok []))
        ⊎ Refused toy toy_refs fresh (commit toy toy_refs config (pos 0) push_msg 1 fresh))
commit_example = commit_lem toy toy_refs toy-RefLaws config (pos 0) push_msg 1 fresh

-- A world in which the name `n` has the key 1.
abbrev held : Session toy toy_refs
held = record {
  control = open_stream [];
  world = record empty_world { refs = ("n", 0 ∷ 1 ∷ []) ∷ [] };
}

abbrev pin_msg : Msg
pin_msg = record (blank t_pin) { names = "n" ∷ "absent" ∷ [] }
