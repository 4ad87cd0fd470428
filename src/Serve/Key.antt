-- ===== src/Serve/Key.antt =====
-- cmd/amber-serve/main.go, loadOrCreateSecretKey. The file is what `--key` names; go-iroh's keys, hex and strings.TrimSpace are the
-- parameter `KeyLibrary`.
pub mod Laws
use amber_store_iroh.Prelude.{String, Option, none, some}
use amber_store_iroh.Protocol.Error.{Bytes, Error, Result, ok, err, wrapped}
use Prim.Native.String.{◌++◌ as text_append}

-- A file that os.ReadFile reads, one that is not there, and one that it cannot read.
pub data File : Type 0 where
  holds : String → File
  missing : File
  unreadable : Error → File

pub record KeyLibrary : Type 1 where
  pub SecretKey : Type 0
  pub parse : String → Result SecretKey
  pub to_bytes : SecretKey → Bytes
  pub hex_encode : Bytes → String
  pub trim_space : String → String
  -- fmt.Sprintf("parse key file %s: ", path).
  pub parse_failed : String → String

module _ (keys : KeyLibrary) where
  abbrev pub parsed : String → Result keys.SecretKey → Result keys.SecretKey
  parsed path (err e) = err (wrapped (keys.parse_failed path) e)
  parsed path (ok sk) = ok sk

  -- os.WriteFile, which fails with the error that is given; what it then leaves is `torn`.
  abbrev pub written : keys.SecretKey → Option Error → File → Result keys.SecretKey × File
  written sk (some e) torn = (err (wrapped "write key file: " e), torn)
  written sk none torn = (ok sk, holds (text_append (keys.hex_encode (keys.to_bytes sk)) "\n"))

  abbrev pub created : Result keys.SecretKey → Option Error → File → Result keys.SecretKey × File
  created (err e) write_error torn = (err e, missing)
  created (ok sk) write_error torn = written sk write_error torn

  -- The key, and the file behind the call. `fresh` is what GenerateSecretKey returns.
  unfoldable pub load_or_create_secret_key :
      Result keys.SecretKey → Option Error → File → String → File → Result keys.SecretKey × File
  load_or_create_secret_key fresh write_error torn path (holds b) =
      (parsed path (keys.parse (keys.trim_space b)), holds b)
  load_or_create_secret_key fresh write_error torn path (unreadable e) =
      (err (wrapped "read key file: " e), unreadable e)
  load_or_create_secret_key fresh write_error torn path missing = created fresh write_error torn
