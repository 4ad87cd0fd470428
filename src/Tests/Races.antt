-- ===== src/Tests/Races.antt =====
-- Witnesses of the theorems about the commit of a push.
use amber_store_iroh.Prelude.{◌≢◌, refl, true, [], arith}
use amber_store_iroh.Prelude.Int.{pos}
use amber_store_iroh.Protocol.Error.{is_not_found}
use amber_store_iroh.Protocol.Msg.{Msg, blank, t_push}
use amber_store_iroh.Protocol.Stream.{write}
use amber_store_iroh.Protocol.Frame.{put_uint32, write_msg}
use amber_store_iroh.Server.World.{Session, note}
use amber_store_iroh.Server.Refs.{current_key, check_cas}
use amber_store_iroh.Server.Push.{put_ref, publish, commit}
use amber_store_iroh.Server.Push.Laws.{Refused}
use amber_store_iroh.Server.Push.Guard.{Guarded, commit-Bracket}
use amber_store_iroh.Server.Push.Race.{commit-commit}
use amber_store_iroh.Tests.Toy.{toy, open_stream}
use amber_store_iroh.Tests.ToyRefs.{toy_refs, toy-RefLaws, config, empty_world}

abbrev wish : Msg
wish = record (blank t_push) { name = "n"; cas = true }

abbrev first : Session toy toy_refs
first = record { control = open_stream []; world = empty_world }

abbrev late_session : Session toy toy_refs
late_session = record {
  control = open_stream [];
  world = (commit toy toy_refs config (pos 0) wish 1 first).1.world;
}

key_of_one : toy.to_bytes 1 ≢ wish.expected_old
key_of_one e = absurd (ground arith)

-- Two pushes that both expect no reference: the first one creates it, and the second one is refused.
commit-commit_example :
    Refused toy toy_refs late_session (commit toy toy_refs config (pos 0) wish 2 late_session)
unfolding commit publish put_ref note write_msg write put_uint32 check_cas current_key is_not_found
commit-commit_example =
    commit-commit toy toy_refs toy-RefLaws config (pos 0) (pos 0) wish wish 1 2 first late_session
      refl refl refl key_of_one refl refl

commit-Bracket_example :
    Guarded toy toy_refs toy-RefLaws config
      (pos 0)
      wish
      1
      first
      (commit toy toy_refs config (pos 0) wish 1 first)
commit-Bracket_example = commit-Bracket toy toy_refs toy-RefLaws config (pos 0) wish 1 first
