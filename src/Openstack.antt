-- ===== src/Openstack.antt =====
-- The OpenStack side of MultiNic/internal/controller/openstackconfig_controller.go:
-- createOpenStackClient, getSubnetInfoWithClients, findPortByMACAddress and the choice of the target
-- VMs. What gophercloud, net/http and the services answer is an argument, one answer to a request
-- (by attempt where the source retries); sleeping between attempts and logging are left out.
pub mod Search
pub mod Clients
use multinic.Base.{
  ℕ, zero, suc, ◌+◌, String, Bool, true, List, [], ◌∷◌, Option, none, some, Result, ok, err, any,
  keep, ◌==◌, eqb, not, if◌then◌else◌,
}

-- gophercloud.ServiceClient, as far as it is used.
pub record ServiceClient : Type 0 where
  pub endpoint : String
  pub token_id : String

-- servers.Server: a value of Addresses is a decoded JSON value.
pub data Attribute : Type 0 where
  absent : Attribute
  text : String → Attribute
  other : Attribute

pub record AddressMap : Type 0 where
  pub ip_type : Attribute
  pub mac_addr : Attribute
  pub port : Attribute

pub data Address : Type 0 where
  attributes : AddressMap → Address
  not_a_map : Address

pub data AddressValue : Type 0 where
  listed : List Address → AddressValue
  not_a_list : AddressValue

pub record Server : Type 0 where
  pub id : String
  pub name : String
  pub access_ipv4 : String
  pub addresses : List AddressValue

pub record Network : Type 0 where
  pub id : String
  pub name : String

pub record Subnet : Type 0 where
  pub id : String
  pub name : String
  pub cidr : String
  pub network_id : String

pub record FixedIp : Type 0 where
  pub subnet_id : String
  pub ip_address : String

pub record Port : Type 0 where
  pub id : String
  pub mac_address : String
  pub fixed_ips : List FixedIp

-- A GET: the request, the call, the body or its decoding fails, or there is a value.
pub data Fetch {ℓ} (A : Type ℓ) : Type ℓ where
  no_request no_response no_body bad_json : String → Fetch A
  decoded : A → Fetch A

abbrev pub openstack_max_retries : ℕ
openstack_max_retries = 3

-- One round of createOpenStackClient: NewClient, Authenticate, NewNetworkV2 or NewComputeV2.
pub data Attempt : Type 0 where
  no_provider no_authentication : String → Attempt
  authenticated : Result String ServiceClient → Attempt

abbrev pub is_supported : String → Bool
is_supported client_type = if client_type == "network" then true else client_type == "compute"

abbrev pub set_endpoint : String → ServiceClient → ServiceClient
set_endpoint endpoint c = if not (endpoint == "") then record c { endpoint = endpoint } else c

unfoldable pub create_rounds : (ℕ → Attempt) → String → String → ℕ → ℕ → Result String ServiceClient
create_rounds answer endpoint client_type i zero =
    err "failed to create OpenStack client after 3 attempts"
create_rounds answer endpoint client_type i (suc left) =
    let next = create_rounds answer endpoint client_type (i + 1) left in
    elim (answer i) [
      | no_provider _ ↦ next
      | no_authentication _ ↦ next
      | authenticated service ↦
          if is_supported client_type
          then elim service [ err _ ↦ next | ok c ↦ ok (set_endpoint endpoint c) ]
          else err "unsupported client type"
    ]

unfoldable pub create_openstack_client :
    (ℕ → Attempt) → String → String → Result String ServiceClient
unfolding create_rounds
create_openstack_client answer endpoint client_type =
    create_rounds answer endpoint client_type 0 openstack_max_retries

-- getSubnetInfoWithClients: the subnets of one network, of all networks, and the attempts.
unfoldable pub named_subnet : String → List Subnet → Option Subnet
named_subnet name [] = none
named_subnet name (s ∷ ss) = if s.name == name then some s else named_subnet name ss

unfoldable pub search_networks :
    (String → Fetch (List Subnet)) → String → List Network → Option Subnet
unfolding named_subnet
search_networks subnets name [] = none
search_networks subnets name (n ∷ ns) =
    let rest = search_networks subnets name ns in
    elim (subnets n.id) [
      | decoded ss ↦ elim (named_subnet name ss) [ none ↦ rest | some s ↦ some s ]
      | _ ↦ rest
    ]

unfoldable pub subnet_attempts :
    (ℕ → Fetch (List Network))
    → (ℕ → String → Fetch (List Subnet))
    → String
    → ℕ
    → ℕ
    → Result String Subnet
unfolding search_networks
subnet_attempts networks subnets name i zero = err "subnet not found after 3 attempts"
subnet_attempts networks subnets name i (suc left) =
    let next = subnet_attempts networks subnets name (i + 1) left in
    elim (networks i) [
      | decoded ns ↦ elim (search_networks (subnets i) name ns) [ none ↦ next | some s ↦ ok s ]
      | _ ↦ next
    ]

unfoldable pub get_subnet_info_with_clients :
    (ℕ → Fetch (List Network)) → (ℕ → String → Fetch (List Subnet)) → String → Result String Subnet
unfolding subnet_attempts
get_subnet_info_with_clients networks subnets name =
    subnet_attempts networks subnets name 0 openstack_max_retries

-- findPortByMACAddress: the answer to the port query, with its status.
pub data PortAnswer : Type 0 where
  no_request no_response no_body : String → PortAnswer
  answered : ℕ → Result String (List Port) → PortAnswer

abbrev pub is_in_subnet : String → Port → Bool
is_in_subnet target p = any (λ ip. ip.subnet_id == target) p.fixed_ips

-- The empty text is "no port in the subnet".
unfoldable pub first_port : String → List Port → String
first_port target [] = ""
first_port target (p ∷ ps) = if is_in_subnet target p then p.id else first_port target ps

unfoldable pub read_ports : PortAnswer → String → Result String String
unfolding first_port
read_ports (no_request e) target = err e
read_ports (no_response e) target = err e
read_ports (no_body e) target = err e
read_ports (answered status ports) target =
    if not (eqb status 200)
    then err "port query failed"
    else elim ports [ err e ↦ err e | ok ps ↦ ok (first_port target ps) ]

unfoldable pub find_port_by_mac_address :
    Result String ServiceClient
    → (ServiceClient → String → PortAnswer)
    → String
    → String
    → Result String String
unfolding read_ports
find_port_by_mac_address client ports mac target = elim client [
  | err e ↦ err e
  | ok c ↦ read_ports (ports c mac) target
]

-- The servers whose name the CR lists, in the order of the answer.
unfoldable pub select_target_vms : List String → List Server → List Server
select_target_vms names = keep (λ s. any (λ n. n == s.name) names)
