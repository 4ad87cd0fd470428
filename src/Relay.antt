-- ===== src/Relay.antt =====
-- relaymode/relaymode.go: `FromFlag`, and cmd/amber-serve/main.go: `serverRelayMode`. go-iroh's relay package is the parameter
-- `RelayLibrary`; the latency probe is what it answers.
use amber_store_iroh.Prelude.{String, List, [], ◌∷◌, str_eq, if◌then◌else◌}
use amber_store_iroh.Protocol.Error.{Result, ok, err, wrapped}

pub record RelayLibrary : Type 1 where
  pub Mode : Type 0
  pub Url : Type 0
  pub RelayMap : Type 0
  pub mode_default : Mode
  pub mode_custom : RelayMap → Mode
  pub map_from_urls : List Url → RelayMap
  pub parse_url : String → Result Url
  -- relay.DefaultMap().PreferNearest with the HTTP prober.
  pub prefer_nearest : Result RelayMap
  pub sprintf : String → String → String

module _ (relay : RelayLibrary) where
  unfoldable pub from_flag : String → Result relay.Mode
  from_flag url = if str_eq url "" then ok relay.mode_default else elim (relay.parse_url url) [
    | err e ↦ err (wrapped (relay.sprintf "parse --relay %q: " url) e)
    | ok u ↦ ok (relay.mode_custom (relay.map_from_urls (u ∷ [])))
  ]

  -- A probe that fails leaves the default map as it is.
  unfoldable pub server_relay_mode : String → Result relay.Mode
  unfolding from_flag
  server_relay_mode flag =
      if str_eq flag ""
      then elim relay.prefer_nearest [
        | err e ↦ ok relay.mode_default
        | ok m ↦ ok (relay.mode_custom m)
      ]
      else from_flag flag
