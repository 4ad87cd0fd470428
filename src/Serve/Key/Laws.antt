-- ===== src/Serve/Key/Laws.antt =====
-- cmd/amber-serve/main.go, loadOrCreateSecretKey: a server keeps its key.
use amber_store_iroh.Prelude.{◌≡◌, ◌≢◌, refl, ap, String, Option, none, some, arith}
use amber_store_iroh.Protocol.Error.{Error, Result, ok, err}
use amber_store_iroh.Serve.Key.{
  File, holds, missing, unreadable, KeyLibrary, load_or_create_secret_key,
}
use Prim.Native.String.{◌++◌ as text_append}

module _ (keys : KeyLibrary) where
  -- A key is read back from its line.
  abbrev pub ReadsBack : Type 0
  ReadsBack =
      (sk : keys.SecretKey)
      → keys.parse (keys.trim_space (text_append (keys.hex_encode (keys.to_bytes sk)) "\n")) ≡ ok sk

  -- A start that gets a key leaves a file from which every later start gets the same key, and which no later start changes, whatever
  -- key would be generated then. A file that is there is never written.
  pub load_or_create_secret_key_lem :
      ReadsBack
      → (fresh fresh' : Result keys.SecretKey) (write_error write_error' : Option Error)
        (torn torn' : File) (path : String) (file : File)
      → let o = load_or_create_secret_key keys fresh write_error torn path file in
        (file ≢ missing → o.1 ≡ file)
        × ((sk : keys.SecretKey)
            → o.0 ≡ ok sk
            → load_or_create_secret_key keys fresh' write_error' torn' path o.1 ≡ (ok sk, o.1))
  unfolding load_or_create_secret_key
  load_or_create_secret_key_lem back fresh fresh' w w' torn torn' path (holds b) =
      (λ h. refl, λ sk h. ap (λ r. (r, holds b)) h)
  load_or_create_secret_key_lem back fresh fresh' w w' torn torn' path (unreadable e) =
      (λ h. refl, λ sk h. absurd (ground arith))
  load_or_create_secret_key_lem back (err e) fresh' w w' torn torn' path missing =
      (λ h. absurd (h refl), λ sk h. absurd (ground arith))
  load_or_create_secret_key_lem back (ok new) fresh' (some e) w' torn torn' path missing =
      (λ h. absurd (h refl), λ sk h. absurd (ground arith))
  load_or_create_secret_key_lem back (ok new) fresh' none w' torn torn' path missing =
      (λ h. absurd (h refl), λ sk h. ground (arith, back new))
