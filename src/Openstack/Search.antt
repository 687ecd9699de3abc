-- ===== src/Openstack/Search.antt =====
-- What the searches of getSubnetInfoWithClients and findPortByMACAddress find, and the retries of
-- createOpenStackClient.
use multinic.Base.{
  ℕ, zero, suc, ◌+◌, ◌≡◌, refl, String, true, false, ◌⊎◌, inl, ◌&&◌, eq_iff, List, [], ◌∷◌, ◌++◌,
  Option, none, some, Result, ok, err, any, keep, ◌==◌, arith, keep-append,
}
use multinic.Openstack.{
  Network, Subnet, Port, Fetch, decoded, named_subnet, search_networks, subnet_attempts,
  get_subnet_info_with_clients, openstack_max_retries, is_in_subnet, first_port,
}

-- The subnets that a network's listing gives; none where it failed.
abbrev pub listing : Fetch (List Subnet) → List Subnet
listing f = elim f [ decoded ss ↦ ss | _ ↦ [] ]

abbrev pub network_listing : Fetch (List Network) → List Network
network_listing f = elim f [ decoded ns ↦ ns | _ ↦ [] ]

unfoldable pub subnets_of : (String → Fetch (List Subnet)) → List Network → List Subnet
subnets_of subnets [] = []
subnets_of subnets (n ∷ ns) = listing (subnets n.id) ++ subnets_of subnets ns

-- All subnets that the rounds from `i` on see, in order.
unfoldable pub seen :
    (ℕ → Fetch (List Network)) → (ℕ → String → Fetch (List Subnet)) → ℕ → ℕ → List Subnet
unfolding subnets_of
seen networks subnets i zero = []
seen networks subnets i (suc left) =
    subnets_of (subnets i) (network_listing (networks i)) ++ seen networks subnets (i + 1) left

abbrev pub first : List Subnet → Option Subnet
first [] = none
first (s ∷ _) = some s

abbrev pub named : String → List Subnet → List Subnet
named name = keep (λ s. s.name == name)

first-append :
    (xs ys : List Subnet)
    → first (xs ++ ys) ≡ (elim (first xs) [ none ↦ first ys | some s ↦ some s ])
first-append [] ys = refl
first-append (x ∷ xs) ys = refl

named_subnet_lem : (name : String) (ss : List Subnet) → named_subnet name ss ≡ first (named name ss)
unfolding named_subnet keep
named_subnet_lem name [] = refl
named_subnet_lem name (s ∷ ss) = ground (arith, named_subnet_lem name ss)

search_networks_lem :
    (subnets : String → Fetch (List Subnet)) (name : String) (ns : List Network)
    → search_networks subnets name ns ≡ first (named name (subnets_of subnets ns))
unfolding search_networks subnets_of
search_networks_lem subnets name [] = unfold keep in refl
search_networks_lem subnets name (n ∷ ns) = ground (
  arith,
  search_networks_lem subnets name ns,
  keep-append (λ (s : Subnet). s.name == name) (listing (subnets n.id)) (subnets_of subnets ns),
  first-append (named name (listing (subnets n.id))) (named name (subnets_of subnets ns)),
  named_subnet_lem name (listing (subnets n.id)),
)

abbrev pub found_or_error : Option Subnet → Result String Subnet
found_or_error none = err "subnet not found after 3 attempts"
found_or_error (some s) = ok s

subnet_attempts_lem :
    (networks : ℕ → Fetch (List Network)) (subnets : ℕ → String → Fetch (List Subnet))
    (name : String) (i left : ℕ)
    → subnet_attempts networks subnets name i left
      ≡ found_or_error (first (named name (seen networks subnets i left)))
unfolding subnet_attempts seen
subnet_attempts_lem networks subnets name i zero = unfold keep in refl
subnet_attempts_lem networks subnets name i (suc left) = ground (
  arith,
  subnet_attempts_lem networks subnets name (i + 1) left,
  keep-append (λ (s : Subnet). s.name == name)
      (subnets_of (subnets i) (network_listing (networks i))) (seen networks subnets (i + 1) left),
  first-append (named name (subnets_of (subnets i) (network_listing (networks i))))
      (named name (seen networks subnets (i + 1) left)),
  search_networks_lem (subnets i) name (network_listing (networks i)),
)

-- The search gives the first subnet of the requested name among all that its three rounds see, and
-- fails exactly if they see none; a listing that fails counts as empty.
pub get_subnet_info_lem :
    (networks : ℕ → Fetch (List Network)) (subnets : ℕ → String → Fetch (List Subnet))
    (name : String)
    → get_subnet_info_with_clients networks subnets name
      ≡ found_or_error (first (named name (seen networks subnets 0 openstack_max_retries)))
unfolding get_subnet_info_with_clients
get_subnet_info_lem networks subnets name =
    subnet_attempts_lem networks subnets name 0 openstack_max_retries

-- Either the search for a port gives the empty text and no port of the answer lies in the target
-- subnet, or it gives the id of a port of the answer that lies there.
first_port_cases :
    (target : String) (ps : List Port)
    → ((first_port target ps ≡ "") × (any (is_in_subnet target) ps ≡ false))
      ⊎ (any (λ q. (q.id == first_port target ps) && is_in_subnet target q) ps ≡ true)
unfolding first_port any
first_port_cases target [] = inl (refl, refl)
first_port_cases target (p ∷ ps) = ground (arith, first_port_cases target ps, eq_iff p.id p.id)
