-- ===== src/Server/World.antt =====
-- server/server.go: what the handlers share. `World` is the state of `Server` that they change; `Config` is what is set
-- before `Serve`. refstore, reference and fmt.Sprintf are the parameter `RefLibrary`; what is assumed of them is in `RefLaws`.
use amber_store_iroh.Prelude.{
  ℕ, ◌≡◌, ◌≢◌, String, Bool, true, false, List, [], ◌∷◌, ◌++◌, Option, none, some,
}
use amber_store_iroh.Prelude.Int.{ℤ}
use amber_store_iroh.Protocol.Error.{Bytes, Error, Result, ok, as_remote}
use amber_store_iroh.Protocol.Msg.{Msg, DataEndpointRec, code_internal}
use amber_store_iroh.Protocol.Stream.{Stream}
use amber_store_iroh.Protocol.Frame.{write_msg}
use amber_store_iroh.Wantsync.Library.{Library}
use amber_store_iroh.Wantsync.Send.{err_msg}
use amber_store_iroh.Server.Transfers.{Pending}

-- reference.Reference.
pub record Reference : Type 0 where
  pub name : String
  pub key : Bytes
  pub created_at : ℤ
  pub user : String

-- An entry of what refstore's All returns.
pub record RefRecord : Type 0 where
  pub name : String
  pub raw : Bytes

pub record RefLibrary : Type 1 where
  pub Refs : Type 0
  pub get : Refs → String → Result Bytes
  pub put : Refs → String → Bytes → Option Error × Refs
  pub delete : Refs → String → Option Error × Refs
  pub all : Refs → Result (List RefRecord)
  pub validate_name : String → Option Error
  pub encode : Reference → Result Bytes
  pub decode : Bytes → Result Reference
  -- fmt.Sprintf with a format and one string.
  pub sprintf : String → String → String
  -- fmt.Sprintf with a format and one number.
  pub sprintf_number : String → ℤ → String

-- What refstore and reference document.
pub record RefLaws (rl : RefLibrary) : Type 0 where
  pub put_get :
      (refs : rl.Refs) (name : String) (raw : Bytes)
      → (rl.put refs name raw).0 ≡ none
      → rl.get (rl.put refs name raw).1 name ≡ ok raw
  pub put_other :
      (refs : rl.Refs) (name other : String) (raw : Bytes)
      → other ≢ name
      → rl.get (rl.put refs name raw).1 other ≡ rl.get refs other
  pub put_failed :
      (refs : rl.Refs) (name : String) (raw : Bytes) (e : Error)
      → (rl.put refs name raw).0 ≡ some e
      → (rl.put refs name raw).1 ≡ refs
  pub read_back : (ref : Reference) (raw : Bytes) → rl.encode ref ≡ ok raw → rl.decode raw ≡ ok ref

-- The calls of the hooks and of the guard.
pub data Call (Key : Type 0) : Type 0 where
  accessed : String → Call Key
  pinned : String → Call Key
  prepared : Key → Call Key
  committed : Key → Call Key
  aborted : Key → Call Key

-- What the server is configured with. `guard` answers a PrepareRef, which may depend on the calls before it.
pub record Config (Key : Type 0) : Type 0 where
  pub on_access : Bool
  pub on_pin : Bool
  pub guard : Option (List (Call Key) → Key → Option Error)
  pub data_ports : List ℕ
  pub data_endpoints : Option (List DataEndpointRec)

-- The stores, the transfers, the calls made so far, and the streams that closeStream has closed.
pub record World {Key : Type 0} (lib : Library Key) (rl : RefLibrary) : Type 0 where
  pub objects : lib.State
  pub refs : rl.Refs
  pub pending : Pending Stream
  pub calls : List (Call Key)
  pub closed : List Stream

-- A handler at work: its stream, and the world.
pub record Session {Key : Type 0} (lib : Library Key) (rl : RefLibrary) : Type 0 where
  pub control : Stream
  pub world : World lib rl

module _ {Key : Type 0} (lib : Library Key) (rl : RefLibrary) where
  -- A handler's step: the error that it returns, nil for none, and what it leaves.
  abbrev pub Step : Type 0
  Step = Option Error × Session lib rl

  unfoldable pub note : Call Key → Session lib rl → Session lib rl
  note c s = record s { world = record s.world { calls = s.world.calls ++ c ∷ [] } }

  abbrev pub note_if : Bool → Call Key → Session lib rl → Session lib rl
  note_if true c s = note c s
  note_if false c s = s

  -- protocol.WriteMsg on the stream of the operation.
  abbrev pub respond : Msg → Session lib rl → Step
  respond m s =
      let (e, control) = write_msg lib.codec m s.control in (e, record s { control = control })

  -- A TErr frame, as well as can be; the error is the handler's.
  unfoldable pub fail : String → Error → Session lib rl → Step
  fail code e s = (some e, (respond (err_msg code (lib.error_text e)) s).1)

  -- An error that came from the peer is not echoed back to it.
  unfoldable pub fail_local : Error → Session lib rl → Step
  unfolding fail
  fail_local e s = elim (as_remote e) [ none ↦ fail code_internal e s | some re ↦ (some e, s) ]
