-- ===== src/Client/Store.antt =====
-- cmd/amber/store.go: `openStore` and `closeStore`. What opening and closing the two halves returns is the parameter `Openings`.
use amber_store_iroh.Prelude.{String, List, [], ◌∷◌, Option, str_eq, if◌then◌else◌}
use amber_store_iroh.Protocol.Error.{Error, Result, ok, err, message, join}
use amber_store_iroh.Wantsync.Library.{Library}
use amber_store_iroh.Server.World.{RefLibrary}

pub record Openings {Key : Type 0} (lib : Library Key) (rl : RefLibrary) : Type 0 where
  pub join_path : String → String → String
  pub open_objects : String → Result lib.State
  pub open_refs : String → Result rl.Refs
  pub close_objects : Option Error
  pub close_refs : Option Error

pub data Half : Type 0 where
  objects_half : Half
  refs_half : Half

-- An Open that has succeeded, and a call of Close.
pub data StoreEvent : Type 0 where
  half_opened : Half → StoreEvent
  half_closed : Half → StoreEvent

module _ {Key : Type 0} {lib : Library Key} {rl : RefLibrary} (openings : Openings lib rl) where
  -- objects.Close() where the references cannot be opened drops its error.
  unfoldable pub open_store : String → Result (lib.State × rl.Refs) × List StoreEvent
  open_store dir =
      if str_eq dir ""
      then (err (message "no store directory: set --store or $AMBER_STORE"), [])
      else elim (openings.open_objects (openings.join_path dir "packstore")) [
        | err e ↦ (err e, [])
        | ok objects ↦ elim (openings.open_refs (openings.join_path dir "refs")) [
          | err e ↦ (err e, half_opened objects_half ∷ half_closed objects_half ∷ [])
          | ok refs ↦ (ok (objects, refs), half_opened objects_half ∷ half_opened refs_half ∷ [])
        ]
      ]

  -- Both halves are closed, and every error is kept.
  unfoldable pub close_store : Option Error × List StoreEvent
  close_store = (
    join (openings.close_refs ∷ openings.close_objects ∷ []),
    half_closed refs_half ∷ half_closed objects_half ∷ [],
  )
