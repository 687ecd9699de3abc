-- ===== src/Collect.antt =====
-- The rows that reconcileNormal gathers for its batches
-- (MultiNic/internal/controller/openstackconfig_controller.go): the node of each target VM, and the
-- interfaces and the status entry of each, from the VM's decoded addresses. A failed type assertion
-- is a panic. The lists of addresses stand in the order in which Go's map iteration gives them.
pub mod Rows
pub mod Infos
use multinic.Base.{
  ℕ, String, List, [], ◌∷◌, ◌++◌, map, Option, none, some, Result, ok, err, ◌==◌, if◌then◌else◌,
}
use multinic.Api.{Time, VmNetworkInfo}
use multinic.Database.{SubnetRow, NodeRow, InterfaceRow}
use multinic.Openstack.{
  Attribute, absent, text, other, AddressMap, Address, attributes, not_a_map, AddressValue, listed,
  not_a_list, Server, Subnet,
}

-- What the gathering loop takes from its surroundings.
pub record Context : Type 0 where
  pub cr_namespace : String
  pub cr_name : String
  pub subnet : Subnet
  pub created_at : Time
  pub modified_at : Time
  pub find_port : String → Result String String

abbrev pub subnet_row : Context → SubnetRow
subnet_row c = record {
  subnet_id = c.subnet.id;
  subnet_name = c.subnet.name;
  cidr = c.subnet.cidr;
  network_id = c.subnet.network_id;
  status = "active";
  created_at = c.created_at;
  modified_at = c.modified_at;
}

abbrev pub node_row : Context → Server → NodeRow
node_row c s = record {
  attached_node_id = s.id;
  attached_node_name = s.name;
  status = "active";
  created_at = c.created_at;
  modified_at = c.modified_at;
}

abbrev pub node_rows : Context → List Server → List NodeRow
node_rows c = map (node_row c)

abbrev pub interface_row : Context → Server → String → String → InterfaceRow
interface_row c s port mac = record {
  port_id = port;
  subnet_id = c.subnet.id;
  macaddress = mac;
  attached_node_id = s.id;
  attached_node_name = s.name;
  cr_namespace = c.cr_namespace;
  cr_name = c.cr_name;
  status = "active";
  netplan_success = 0;
  created_at = c.created_at;
  modified_at = c.modified_at;
}

-- What one address comes to: nothing, a row for a port and a MAC address, or a panic.
pub data Entry : Type 0 where
  skipped : Entry
  found : String → String → Entry
  panicked : Entry

abbrev pub own_port : Attribute → String
own_port absent = ""
own_port (text id) = id
own_port other = ""

-- The port that the address names, else the one that is found by the MAC address.
unfoldable pub choose_port : Context → String → Attribute → Entry
choose_port c mac port =
    if own_port port == ""
    then (elim (c.find_port mac) [
      | err _ ↦ skipped
      | ok id ↦ if id == "" then skipped else found id mac
    ])
    else found (own_port port) mac

unfoldable pub read_fixed : Context → Attribute → Attribute → Entry
unfolding choose_port
read_fixed c (text mac) port = choose_port c mac port
read_fixed c _ port = skipped

unfoldable pub read_type : Context → Attribute → Attribute → Attribute → Entry
unfolding read_fixed
read_type c absent mac port = skipped
read_type c (text kind) mac port = if kind == "fixed" then read_fixed c mac port else skipped
read_type c other absent port = skipped
read_type c other mac port = panicked

unfoldable pub read_address : Context → Address → Entry
unfolding read_type
read_address c (attributes a) = read_type c a.ip_type a.mac_addr a.port
read_address c not_a_map = panicked

-- The rows so far and the status entry of the VM.
pub record Gathered : Type 0 where
  pub rows : List InterfaceRow
  pub info : VmNetworkInfo

abbrev pub initial_info : Context → Server → VmNetworkInfo
initial_info c s = record {
  vm_name = s.name;
  subnet_id = c.subnet.id;
  network_id = c.subnet.network_id;
  ip_address = s.access_ipv4;
  mac_address = "";
  status = "active";
  message = "Successfully processed";
}

abbrev pub note_mac : String → VmNetworkInfo → VmNetworkInfo
note_mac mac i = if i.mac_address == "" then record i { mac_address = mac } else i

-- `none` is a panic.
unfoldable pub add_entry : Context → Server → Entry → Gathered → Option Gathered
add_entry c s skipped g = some g
add_entry c s (found port mac) g =
    some (record { rows = g.rows ++ interface_row c s port mac ∷ []; info = note_mac mac g.info })
add_entry c s panicked g = none

unfoldable pub gather_list : Context → Server → List Address → Gathered → Option Gathered
gather_list c s [] g = some g
gather_list c s (a ∷ as') g = elim (add_entry c s (read_address c a) g) [
  | none ↦ none
  | some g' ↦ gather_list c s as' g'
]

unfoldable pub gather_values : Context → Server → List AddressValue → Gathered → Option Gathered
gather_values c s [] g = some g
gather_values c s (not_a_list ∷ vs) g = none
gather_values c s (listed as' ∷ vs) g = elim (gather_list c s as' g) [
  | none ↦ none
  | some g' ↦ gather_values c s vs g'
]

unfoldable pub gather_servers :
    Context
    → List Server
    → List InterfaceRow
    → List VmNetworkInfo
    → Option (List InterfaceRow × List VmNetworkInfo)
gather_servers c [] rows infos = some (rows, infos)
gather_servers c (s ∷ ss) rows infos =
    elim (gather_values c s s.addresses (record { rows = rows; info = initial_info c s })) [
      | none ↦ none
      | some g ↦ gather_servers c ss g.rows (infos ++ g.info ∷ [])
    ]
