-- ===== src/Serve/Addrs/Laws.antt =====
-- Which addresses the server advertises and publishes.
use amber_store_iroh.Prelude.{
  ℕ, String, ◌≡◌, refl, sym, ap, ◌∙◌, subst, ◌↔◌, inl, inr, true, false, not, ◌&&◌, ◌||◌,
  Bool-cases, List, [], ◌∷◌, ◌++◌, Option, none, some, Option-cases, contains, contains→Member,
  Member→contains, Member, Member-append, Member-append_left, Member-append_right, Eq, arith,
  if◌then◌else◌,
}
use amber_store_iroh.Serve.Addrs.{
  NetLibrary, IfaceAddrs, is_bridge_name, any_prefix, is_unusable, advertise_loop, addrs_of,
  candidates, with_port, advertised_addr_ports,
}
use text.Mathlib.Text.{starts_with}

-- The addresses of an interface, by what the first of them is.
abbrev from_first : (net : NetLibrary) → List net.NetAddr → Option net.Addr → List net.Addr
from_first net more none = addrs_of net more
from_first net more (some ip) = net.unmap ip ∷ addrs_of net more

module _ (net : NetLibrary) ⦃e : Eq net.Addr⦄ where
  abbrev pub Distinct : List net.Addr → Type 0
  Distinct [] = Unit
  Distinct (ip ∷ ips) = (contains ips ip ≡ false) × Distinct ips

  contains-advertise_loop :
      (seen ips : List net.Addr) (a : net.Addr)
      → contains (advertise_loop net seen ips) a
        ≡ (contains ips a && not (is_unusable net a) && not (contains seen a))
  unfolding advertise_loop
  contains-advertise_loop seen [] a = refl
  contains-advertise_loop seen (ip ∷ ips) a = ground (
    arith,
    e.beq_iff a ip,
    contains-advertise_loop seen ips a,
    contains-advertise_loop (ip ∷ seen) ips a,
  )

  advertise_loop-Distinct : (seen ips : List net.Addr) → Distinct (advertise_loop net seen ips)
  unfolding advertise_loop
  advertise_loop-Distinct seen [] = tt
  advertise_loop-Distinct seen (ip ∷ ips) = ground (
    arith,
    e.beq_iff ip ip,
    contains-advertise_loop (ip ∷ seen) ips ip,
    advertise_loop-Distinct seen ips,
    advertise_loop-Distinct (ip ∷ seen) ips,
  )

  -- The name starts with none of the names that container and virtual machine bridges have.
  pub record NoBridge (name : String) : Type 0 where
    pub docker : starts_with name "docker" ≡ false
    pub br : starts_with name "br-" ≡ false
    pub cni : starts_with name "cni" ≡ false
    pub flannel : starts_with name "flannel" ≡ false
    pub veth : starts_with name "veth" ≡ false
    pub virbr : starts_with name "virbr" ≡ false
    pub lxc : starts_with name "lxc" ≡ false

  -- The address, unmapped, is one of these of an interface.
  abbrev pub Carries : List net.NetAddr → net.Addr → Type 0
  Carries addrs a =
      (n : net.NetAddr) × Member n addrs
      × ((ip : net.Addr) × (net.from_net n ≡ some ip) × (a ≡ net.unmap ip))

  -- An interface that is up and no bridge has the address.
  abbrev pub OnInterface : List (IfaceAddrs net) → net.Addr → Type 0
  OnInterface ifaces a =
      (ifc : IfaceAddrs net) × Member ifc ifaces
      × (ifc.up ≡ true)
      × NoBridge ifc.name
      × Carries ifc.addrs a

  -- The address can be dialed from another machine.
  pub record Usable (a : net.Addr) : Type 0 where
    pub valid : net.is_valid a ≡ true
    pub no_loopback : net.is_loopback a ≡ false
    pub no_link_local_unicast : net.is_link_local_unicast a ≡ false
    pub no_link_local_multicast : net.is_link_local_multicast a ≡ false
    pub specified : net.is_unspecified a ≡ false

  is_bridge_name-NoBridge : (name : String) → is_bridge_name name ≡ false → NoBridge name
  unfolding is_bridge_name any_prefix
  is_bridge_name-NoBridge name h = record {
    docker = ground arith;
    br = ground arith;
    cni = ground arith;
    flannel = ground arith;
    veth = ground arith;
    virbr = ground arith;
    lxc = ground arith;
  }

  NoBridge-is_bridge_name : (name : String) → NoBridge name → is_bridge_name name ≡ false
  unfolding is_bridge_name any_prefix
  NoBridge-is_bridge_name name n =
      ground (arith, n.docker, n.br, n.cni, n.flannel, n.veth, n.virbr, n.lxc)

  is_unusable-Usable : (a : net.Addr) → is_unusable net a ≡ false → Usable a
  unfolding is_unusable
  is_unusable-Usable a h = record {
    valid = ground arith;
    no_loopback = ground arith;
    no_link_local_unicast = ground arith;
    no_link_local_multicast = ground arith;
    specified = ground arith;
  }

  Usable-is_unusable : (a : net.Addr) → Usable a → is_unusable net a ≡ false
  unfolding is_unusable
  Usable-is_unusable a u = ground (
    arith, u.valid, u.no_loopback, u.no_link_local_unicast, u.no_link_local_multicast, u.specified,
  )

  addrs_of-Carries :
      (addrs : List net.NetAddr) (a : net.Addr) → Member a (addrs_of net addrs) → Carries addrs a
  addrs_of-Carries [] a m = absurd m
  addrs_of-Carries (x ∷ addrs) a m = elim (Option-cases (net.from_net x)) [
    | inl other ↦
        let (n, there, c) =
          addrs_of-Carries addrs a (subst (λ o. Member a (from_first net addrs o)) other m) in
        (n, inr there, c)
    | inr (ip, found) ↦ elim (subst (λ o. Member a (from_first net addrs o)) found m) [
      | inl same ↦ (x, inl refl, (ip, found, same))
      | inr later ↦ let (n, there, c) = addrs_of-Carries addrs a later in (n, inr there, c)
    ]
  ]

  Carries-addrs_of :
      (addrs : List net.NetAddr) (a : net.Addr) → Carries addrs a → Member a (addrs_of net addrs)
  Carries-addrs_of [] a (n, m, c) = absurd m
  Carries-addrs_of (x ∷ addrs) a (n, inl same, (ip, found, at)) =
      subst (λ o. Member a (from_first net addrs o)) (sym found ∙ ap (λ y. net.from_net y) same)
        (inl at)
  Carries-addrs_of (x ∷ addrs) a (n, inr m, c) =
      let rest = Carries-addrs_of addrs a (n, m, c) in
      elim (Option-cases (net.from_net x)) [
        | inl other ↦ subst (λ o. Member a (from_first net addrs o)) (sym other) rest
        | inr (ip, found) ↦ subst (λ o. Member a (from_first net addrs o)) (sym found) (inr rest)
      ]

  candidates-OnInterface :
      (ifaces : List (IfaceAddrs net)) (a : net.Addr)
      → Member a (candidates net ifaces)
      → OnInterface ifaces a
  unfolding candidates
  candidates-OnInterface [] a m = absurd m
  candidates-OnInterface (ifc ∷ ifcs) a m =
      let rest = candidates-OnInterface ifcs a in
      elim (Bool-cases (not ifc.up || is_bridge_name ifc.name)) [
        | inl skipped ↦
            let (i, there, up, plain, c) = rest (
              subst
                (λ b. Member a (
                  if b then candidates net ifcs else addrs_of net ifc.addrs ++ candidates net ifcs))
                skipped m) in
            (i, inr there, up, plain, c)
        | inr taken ↦
            elim (Member-append a (addrs_of net ifc.addrs) (candidates net ifcs) (
              subst
                (λ b. Member a (
                  if b then candidates net ifcs else addrs_of net ifc.addrs ++ candidates net ifcs))
                taken m)) [
                  | inl here ↦ (
                    ifc,
                    inl refl,
                    ground arith,
                    is_bridge_name-NoBridge ifc.name (ground arith),
                    addrs_of-Carries ifc.addrs a here,
                  )
                  | inr later ↦
                      let (i, there, up, plain, c) = rest later in (i, inr there, up, plain, c)
                ]
      ]

  OnInterface-candidates :
      (ifaces : List (IfaceAddrs net)) (a : net.Addr)
      → OnInterface ifaces a
      → Member a (candidates net ifaces)
  unfolding candidates
  OnInterface-candidates [] a (i, m, up, plain, c) = absurd m
  OnInterface-candidates (ifc ∷ ifcs) a (i, inl same, up, plain, carried) =
      let up' : ifc.up ≡ true = ap (λ x. x.up) (sym same) ∙ up in
      let plain' = NoBridge-is_bridge_name ifc.name (subst (λ x. NoBridge x.name) same plain) in
      let taken : (not ifc.up || is_bridge_name ifc.name) ≡ false = ground arith in
      subst
        (λ b.
          Member a
            (if b then candidates net ifcs else addrs_of net ifc.addrs ++ candidates net ifcs))
        (sym taken)
        (Member-append_left a (addrs_of net ifc.addrs) (candidates net ifcs)
          (Carries-addrs_of ifc.addrs a (subst (λ x. Carries x.addrs a) same carried)))
  OnInterface-candidates (ifc ∷ ifcs) a (i, inr m, up, plain, c) =
      let rest = OnInterface-candidates ifcs a (i, m, up, plain, c) in
      elim (Bool-cases (not ifc.up || is_bridge_name ifc.name)) [
        | inl skipped ↦
            subst
              (λ b.
                Member a (
                  if b then candidates net ifcs else addrs_of net ifc.addrs ++ candidates net ifcs))
              (sym skipped) rest
        | inr taken ↦
            subst
              (λ b.
                Member a (
                  if b then candidates net ifcs else addrs_of net ifc.addrs ++ candidates net ifcs))
              (sym taken)
              (Member-append_right a (addrs_of net ifc.addrs) (candidates net ifcs) rest)
      ]

  -- The server advertises, each once and with its port, exactly the addresses, unmapped, of the interfaces that are up and whose names
  -- start with none of the seven names of bridges, without those that are loopback, link-local, unspecified or invalid.
  pub advertised_addr_ports_lem :
      (ifaces : List (IfaceAddrs net)) (port : ℕ)
      → (ips : List net.Addr) × (advertised_addr_ports net ifaces port ≡ with_port port ips)
        × Distinct ips
        × ((a : net.Addr) → Member a ips ↔ (OnInterface ifaces a × Usable a))
  unfolding advertised_addr_ports
  advertised_addr_ports_lem ifaces port =
      let all = candidates net ifaces in
      let ips = advertise_loop net [] all in
      (
        ips,
        refl,
        advertise_loop-Distinct [] all,
        λ a. (
          λ m.
              let known = sym (contains-advertise_loop [] all a) ∙ Member→contains ips a m in
              (
                candidates-OnInterface ifaces a (contains→Member all a (ground arith)),
                is_unusable-Usable a (ground arith),
              ),
          λ h.
              let there = Member→contains all a (OnInterface-candidates ifaces a h.0) in
              let usable = Usable-is_unusable a h.1 in
              contains→Member ips a (contains-advertise_loop [] all a ∙ ground arith),
        ),
      )
