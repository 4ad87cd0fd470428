-- ===== src/Serve/Main/Early.antt =====
-- cmd/amber-serve/main.go: the return from the loop over the data endpoints when one cannot be bound, which skips dataWG.Wait.
use amber_store_iroh.Prelude.{List, [], Eq}
use amber_store_iroh.Protocol.Error.{Error}
use amber_store_iroh.Relay.{RelayLibrary}
use amber_store_iroh.Serve.Addrs.{NetLibrary}
use amber_store_iroh.Serve.Key.{KeyLibrary}
use amber_store_iroh.Serve.Main.{Event, Host}
use amber_store_iroh.Serve.Main.Laws.{Idles}

module _ {net : NetLibrary} ⦃eq_addr : Eq net.Addr⦄ {relay : RelayLibrary} {keys : KeyLibrary}
    (host : Host net relay keys) where
  -- Something is released while a Serve that has begun is not known to have returned.
  abbrev pub Outlived : List (Event host.Endpoint net) → Type 0
  Outlived log = ¬ Idles [] log []
