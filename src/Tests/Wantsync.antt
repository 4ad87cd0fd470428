-- ===== src/Tests/Wantsync.antt =====
-- Witnesses of the theorems about the transfer.
use amber_store_iroh.Prelude.{ℕ, nat_eq, ◌≡◌, refl, List, [], ◌∷◌, ◌++◌, Option, none, some, arith}
use amber_store_iroh.Prelude.Int.{pos}
use amber_store_iroh.Protocol.Error.{Bytes, Error, ok, join}
use amber_store_iroh.Protocol.Stream.{Stream, read_full, write}
use amber_store_iroh.Protocol.Frame.{frame, put_uint32, uint32, write_msg, read_msg}
use amber_store_iroh.Protocol.Pack.{
  drain, drain_loop, read, next, send_pack, send_records, finish, flush, write_loop,
}
use amber_store_iroh.Wantsync.Library.{Complete}
use amber_store_iroh.Wantsync.Keys.{
  split_wants, encode_keys, decode_keys, dedupe_keys, check_delivered,
}
use amber_store_iroh.Wantsync.Wants.{wants, is_wanted}
use amber_store_iroh.Wantsync.Wants.Answers.{Answers, wants-Answers}
use amber_store_iroh.Wantsync.Deal.{deal_wants}
use amber_store_iroh.Wantsync.Deal.Laws.{IsDealt, deal_wants-IsDealt}
use amber_store_iroh.Wantsync.Send.{answer, records_for, send}
use amber_store_iroh.Wantsync.Send.Laws.{Exchange, send_sound, send_ends}
use amber_store_iroh.Wantsync.Receive.{Received, receive, ask, decode_all, end_all}
use amber_store_iroh.Wantsync.Receive.Complete.{receive-Complete}
use amber_store_iroh.Wantsync.Receive.Keeps.{Keeps}
use amber_store_iroh.Wantsync.Receive.Ends.{receive_ends}
use amber_store_iroh.Tests.Toy.{
  toy, codec-ReadsPacks, toy-StoreLaws, toy-EmptyPack, in_turn, in_turn-MergesOnly, open_stream,
  packs_of_tree,
}

-- A transfer of the tree of key 1, over a channel with these bytes.
abbrev pulled : Bytes → Option (Received toy)
pulled input = receive toy in_turn [] (open_stream input ∷ []) 1

abbrev no_result : Received toy
no_result = record {
  stats = record { rounds = 0; requested = 0; received = 0; bytes = 0 };
  error = none;
  channels = [];
  store = [];
}

abbrev result_of : Option (Received toy) → Received toy
result_of none = no_result
result_of (some r) = r

receive-Complete_example :
    Complete toy (result_of (pulled packs_of_tree)).store 1
    × Keeps toy [] (result_of (pulled packs_of_tree)).store
unfolding receive read_full write put_uint32 uint32 write_msg read_msg drain wants is_wanted
    split_wants deal_wants ask encode_keys decode_all join check_delivered end_all
receive-Complete_example =
    receive-Complete toy toy-StoreLaws in_turn in_turn-MergesOnly []
      (open_stream packs_of_tree ∷ []) 1 (result_of (pulled packs_of_tree)) refl refl

receive_ends_example :
    (r : Received toy) × (receive toy in_turn [] (open_stream packs_of_tree ∷ open_stream [] ∷ []) 1
      ≡ some r)
receive_ends_example =
    receive_ends toy toy-EmptyPack in_turn in_turn-MergesOnly []
      (open_stream packs_of_tree ∷ open_stream [] ∷ []) 1

-- A peer that asks for keys 1 and 2, and then for nothing.
abbrev asking : Stream
asking = open_stream (frame (6 ∷ 1 ∷ 2 ∷ 1 ∷ []) ++ frame (6 ∷ []))

abbrev sent_stream : Option (Option Error × Stream) → Stream
sent_stream none = open_stream []
sent_stream (some (e, s)) = s

send_sound_example : Exchange toy (1 ∷ 2 ∷ []) asking (sent_stream (send toy (1 ∷ 2 ∷ []) asking))
unfolding send read_full write put_uint32 uint32 write_msg read_msg answer decode_keys send_pack
    amber_store_iroh.Protocol.Pack.write write_loop records_for dedupe_keys finish flush
send_sound_example =
    send_sound toy (1 ∷ 2 ∷ []) codec-ReadsPacks (λ ks k. refl) asking
      (sent_stream (send toy (1 ∷ 2 ∷ []) asking)) refl

send_ends_example : (o : Option Error × Stream) × (send toy [] asking ≡ some o)
send_ends_example = send_ends toy [] asking

deal_wants-IsDealt_example :
    (shards : List (List ℕ)) × (deal_wants toy (4 ∷ 5 ∷ 6 ∷ []) (pos 10 ∷ pos 0 ∷ []) ≡ ok shards)
    × IsDealt (4 ∷ 5 ∷ 6 ∷ []) 2 shards
deal_wants-IsDealt_example =
    deal_wants-IsDealt toy (4 ∷ 5 ∷ 6 ∷ []) (pos 10 ∷ pos 0 ∷ []) (omega arith)

wants-Answers_example : Answers toy (2 ∷ []) (1 ∷ 2 ∷ 1 ∷ []) (wants toy (2 ∷ []) (1 ∷ 2 ∷ 1 ∷ []))
wants-Answers_example = wants-Answers toy (2 ∷ []) (1 ∷ 2 ∷ 1 ∷ [])
