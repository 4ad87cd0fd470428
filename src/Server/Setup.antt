-- ===== src/Server/Setup.antt =====
-- server/server.go: `New`, and the setters that are called before Serve.
use amber_store_iroh.Prelude.{ℕ, true, false, List, [], Option, none, some}
use amber_store_iroh.Protocol.Error.{Error}
use amber_store_iroh.Protocol.Msg.{DataEndpointRec}
use amber_store_iroh.Wantsync.Library.{Library}
use amber_store_iroh.Server.World.{RefLibrary, Call, Config, World}

module _ {Key : Type 0} (lib : Library Key) (rl : RefLibrary) where
  -- The stores are given, and no transfer is pending.
  unfoldable pub new_server : lib.State → rl.Refs → Config Key × World lib rl
  new_server objects refs = (
    record {
      on_access = false;
      on_pin = false;
      guard = none;
      data_ports = [];
      data_endpoints = none;
    },
    record { objects = objects; refs = refs; pending = []; calls = []; closed = [] },
  )

module _ {Key : Type 0} where
  unfoldable pub set_data_ports : List ℕ → Config Key → Config Key
  set_data_ports ports c = record c { data_ports = ports }

  unfoldable pub set_data_endpoints : List DataEndpointRec → Config Key → Config Key
  set_data_endpoints recs c = record c { data_endpoints = some recs }

  -- A hook is set; what it does to others is in the calls.
  unfoldable pub set_on_access : Config Key → Config Key
  set_on_access c = record c { on_access = true }

  unfoldable pub set_on_pin : Config Key → Config Key
  set_on_pin c = record c { on_pin = true }

  unfoldable pub set_ref_guard : (List (Call Key) → Key → Option Error) → Config Key → Config Key
  set_ref_guard prepare c = record c { guard = some prepare }
