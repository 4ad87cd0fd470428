-- ===== src/Wantsync/Library.antt =====
-- What the transfer takes from amber-store-core and from Go: keys, the object store, the pack format
-- and float64. These are parameters of the model. What is assumed of them is in `Laws`.
use amber_store_iroh.Prelude.{ℕ, ◌≡◌, Bool, String, List, Option, none, Member}
use amber_store_iroh.Protocol.Error.{Bytes, Error, Result, ok}
use amber_store_iroh.Protocol.Frame.{Codec}
use amber_store_iroh.Protocol.Pack.{PackWriter}

-- packstore.Object.
pub record Object (Key : Type 0) : Type 0 where
  pub key : Key
  pub bytes : Bytes

-- What amberpack.Reader.All yields over a reader. `seen` says whether its reads have met the
-- error that the reader ends with: the reader below it remembers that error.
pub data Unpacked (Key : Type 0) : Type 0 where
  finished : Bool → Unpacked Key
  broken : Error → Bool → Unpacked Key
  object : Object Key → Bool → Unpacked Key → Unpacked Key

-- What WriteParallel returns: how many objects it took from the stream, and its error.
pub record Written (State : Type 0) : Type 0 where
  pub taken : ℕ
  pub error : Option Error
  pub store : State

pub record Float64 : Type 1 where
  pub Carrier : Type 0
  pub of_ℕ : ℕ → Carrier
  pub add : Carrier → Carrier → Carrier
  pub div : Carrier → Carrier → Carrier
  pub lt : Carrier → Carrier → Bool

pub record Library (Key : Type 0) : Type 1 where
  pub codec : Codec
  pub floats : Float64
  pub error_text : Error → String
  -- key.Parse, k[:] and k.Length().
  pub parse : Bytes → Result Key
  pub to_bytes : Key → Bytes
  pub key_length : Key → ℕ
  -- fstree.ChildKeys.
  pub child_keys : Key → Bytes → Result (List Key)
  -- packstore.Store, and fstree.CheckComplete over it.
  pub State : Type 0
  pub has : State → Key → Result Bool
  pub get : State → Key → Result Bytes
  pub check_complete : State → Key → Option Error
  pub write_parallel : State → List (Object Key) → Written State
  pub sort_by_location : State → List Key → List Key
  pub get_record : State → Key → Result Bytes
  -- amberpack: Writer.AddRecord, ParseRecord's uncompressed length, Reader.All over what a reader
  -- delivers before it ends, at io.EOF (none) or with an error.
  pub pack_writer : PackWriter Bytes
  pub parse_record : Bytes → Result ℕ
  pub unpack : Bytes → Option Error → Unpacked Key

-- A subtree is complete in a store: its object is there, its children can be told, and their
-- subtrees are complete.
pub data Complete {Key : Type 0} (lib : Library Key) (st : lib.State) : Key → Type 0 where
  whole :
      (k : Key) (bytes : Bytes) (kids : List Key)
      → lib.get st k ≡ ok bytes
      → lib.child_keys k bytes ≡ ok kids
      → ((c : Key) → Member c kids → Complete lib st c)
      → Complete lib st k

-- What amber-store-core documents of its store.
pub record StoreLaws {Key : Type 0} (lib : Library Key) : Type 0 where
  -- CheckComplete returns nil only for a complete subtree.
  pub checked : (st : lib.State) (k : Key) → lib.check_complete st k ≡ none → Complete lib st k
  -- WriteParallel returns nil only when it has taken and stored every object.
  pub stored :
      (st : lib.State) (os : List (Object Key))
      → (lib.write_parallel st os).error ≡ none
      → (o : Object Key) → Member o os
      → lib.get (lib.write_parallel st os).store o.key ≡ ok o.bytes
  -- Objects are immutable: what the store holds, it holds after a write.
  pub kept :
      (st : lib.State) (os : List (Object Key)) (k : Key) (bytes : Bytes)
      → lib.get st k ≡ ok bytes
      → lib.get (lib.write_parallel st os).store k ≡ ok bytes
