-- ===== src/Serve/Addrs.antt =====
-- cmd/amber-serve/addrs.go. Go's net and netip, and go-iroh's netaddr, are the parameter `NetLibrary`.
pub mod Laws
use amber_store_iroh.Prelude.{
  ℕ, String, Bool, true, false, not, ◌||◌, List, [], ◌∷◌, ◌++◌, Option, none, some, contains, Eq,
  if◌then◌else◌,
}
use amber_store_iroh.Protocol.Error.{Error, Result, ok, err, wrapped}
use text.Mathlib.Text.{starts_with}

-- `Addr` is netip.Addr. `from_net` is netip.AddrFromSlice of the IP of a *net.IPNet, none for another net.Addr or another length;
-- `socket_of` is the socket address of a netaddr.IPAddr, none for another TransportAddr, and invalid as none within.
pub record NetLibrary : Type 1 where
  pub Addr : Type 0
  pub NetAddr : Type 0
  pub TransportAddr : Type 0
  pub from_net : NetAddr → Option Addr
  pub unmap : Addr → Addr
  pub is_loopback : Addr → Bool
  pub is_link_local_unicast : Addr → Bool
  pub is_link_local_multicast : Addr → Bool
  pub is_valid : Addr → Bool
  pub is_unspecified : Addr → Bool
  pub parse_addr_port : String → Result (Addr × ℕ)
  pub parse_addr : String → Result Addr
  pub socket_of : TransportAddr → Option (Option Addr)

pub record IfaceAddrs (net : NetLibrary) : Type 0 where
  pub name : String
  pub up : Bool
  pub addrs : List net.NetAddr

abbrev pub bridge_prefixes : List String
bridge_prefixes = "docker" ∷ "br-" ∷ "cni" ∷ "flannel" ∷ "veth" ∷ "virbr" ∷ "lxc" ∷ []

unfoldable pub any_prefix : List String → String → Bool
any_prefix [] name = false
any_prefix (p ∷ ps) name = starts_with name p || any_prefix ps name

unfoldable pub is_bridge_name : String → Bool
unfolding any_prefix
is_bridge_name name = any_prefix bridge_prefixes name

module _ (net : NetLibrary) ⦃e : Eq net.Addr⦄ where
  -- The addresses that are never advertised.
  unfoldable pub is_unusable : net.Addr → Bool
  is_unusable ip =
      net.is_loopback ip
      || net.is_link_local_unicast ip
      || net.is_link_local_multicast ip
      || not (net.is_valid ip)
      || net.is_unspecified ip

  -- The loop over the candidates, which remembers what it has seen.
  unfoldable pub advertise_loop : List net.Addr → List net.Addr → List net.Addr
  advertise_loop seen [] = []
  advertise_loop seen (ip ∷ ips) =
      let rest = advertise_loop seen ips in
      let rest' = advertise_loop (ip ∷ seen) ips in
      if contains seen ip || is_unusable ip then rest else ip ∷ rest'

-- The addresses that an interface has.
abbrev pub addrs_of : (net : NetLibrary) → List net.NetAddr → List net.Addr
addrs_of net [] = []
addrs_of net (a ∷ more) = elim (net.from_net a) [
  | none ↦ addrs_of net more
  | some ip ↦ net.unmap ip ∷ addrs_of net more
]

-- The addresses of the interfaces that are up and no bridges: what the nested loops of the code go through, in order.
unfoldable pub candidates : (net : NetLibrary) → List (IfaceAddrs net) → List net.Addr
candidates net [] = []
candidates net (ifc ∷ ifcs) =
    let rest = candidates net ifcs in
    if not ifc.up || is_bridge_name ifc.name then rest else addrs_of net ifc.addrs ++ rest

abbrev pub with_port : {A : Type 0} → ℕ → List A → List (A × ℕ)
with_port port [] = []
with_port port (x ∷ xs) = (x, port) ∷ with_port port xs

module _ (net : NetLibrary) ⦃e : Eq net.Addr⦄ where
  unfoldable pub advertised_addr_ports : List (IfaceAddrs net) → ℕ → List (net.Addr × ℕ)
  unfolding advertise_loop
  advertised_addr_ports ifaces port = with_port port (advertise_loop net [] (candidates net ifaces))

module _ (net : NetLibrary) (sprintf : String → String → String) where
  abbrev pub with_addr : net.Addr × ℕ → Result (List (net.Addr × ℕ)) → Result (List (net.Addr × ℕ))
  with_addr a (ok rest) = ok (a ∷ rest)
  with_addr a (err x) = err x

  unfoldable pub parse_advertise_addrs : List String → ℕ → Result (List (net.Addr × ℕ))
  parse_advertise_addrs [] port = ok []
  parse_advertise_addrs (v ∷ vals) port = elim (net.parse_addr_port v) [
    | ok ap ↦ with_addr ap (parse_advertise_addrs vals port)
    | err x ↦ elim (net.parse_addr v) [
      | ok ip ↦ with_addr (net.unmap ip, port) (parse_advertise_addrs vals port)
      | err y ↦ err (wrapped (sprintf "parse --advertise-addr %q: want ip or ip:port: " v) y)
    ]
  ]

  -- An IP candidate that is invalid or unspecified.
  abbrev pub is_unusable_ip : Option (Option net.Addr) → Bool
  is_unusable_ip none = false
  is_unusable_ip (some none) = true
  is_unusable_ip (some (some ip)) = net.is_unspecified ip

  unfoldable pub publishable_addrs : List net.TransportAddr → List net.TransportAddr
  publishable_addrs [] = []
  publishable_addrs (a ∷ more) =
      let rest = publishable_addrs more in
      if is_unusable_ip (net.socket_of a) then rest else a ∷ rest
