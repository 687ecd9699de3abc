-- ===== src/Reconcile/Store.antt =====
-- The transaction of reconcileNormal: the CR's old rows go, the subnet, the nodes and the interfaces
-- come in. An error or a panic on the way rolls back.
use multinic.Base.{String, List, [], ◌∷◌, none, some, Result}
use multinic.Api.{OpenstackConfig, VmNetworkInfo}
use multinic.Endpoint.{normalize_endpoint, network_endpoint_suffix}
use multinic.Database.{Tables, InterfaceRow}
use multinic.Database
use multinic.Openstack.{Server, Subnet, create_openstack_client, find_port_by_mac_address}
use multinic.Collect.{Context, subnet_row, node_rows, gather_servers}
use multinic.Reconcile.Environment.{
  Environment, begin_tx, delete_interfaces, insert_subnet, insert_nodes, insert_interfaces, commit,
}

-- findPortByMACAddress makes its own network client.
abbrev pub port_finder : Environment → OpenstackConfig → Subnet → String → Result String String
port_finder env cr subnet mac =
    find_port_by_mac_address
      (create_openstack_client (env.port_rounds mac)
        (normalize_endpoint cr.spec.credentials.network_endpoint network_endpoint_suffix) "network")
      env.ports mac subnet.id

abbrev pub context_of : Environment → OpenstackConfig → Subnet → Context
context_of env cr subnet = record {
  cr_namespace = cr.namespace;
  cr_name = cr.name;
  subnet = subnet;
  created_at = cr.creation_timestamp;
  modified_at = env.modified_at;
  find_port = port_finder env cr subnet;
}

-- How the transaction ends: the tables and the status entries to go on with, an error, a panic.
pub data Transaction : Type 0 where
  committed : Tables → List VmNetworkInfo → Transaction
  rolled_back : String → Transaction
  crashed : Transaction

unfoldable pub commit_tx : Environment → Tables → List VmNetworkInfo → Transaction
commit_tx env t infos = elim (env.sql commit) [ some e ↦ rolled_back e | none ↦ committed t infos ]

unfoldable pub run_insert_interfaces :
    Environment → List InterfaceRow → List VmNetworkInfo → Tables → Transaction
unfolding commit_tx
run_insert_interfaces env [] infos t = commit_tx env t infos
run_insert_interfaces env (i ∷ is) infos t = elim (env.sql insert_interfaces) [
  | some e ↦ rolled_back e
  | none ↦ elim (Database.insert_interfaces (i ∷ is) t) [
    | none ↦ rolled_back "constraint"
    | some t' ↦ commit_tx env t' infos
  ]
]

unfoldable pub gather_and_insert : Environment → Context → List Server → Tables → Transaction
unfolding run_insert_interfaces
gather_and_insert env c targets t = elim (gather_servers c targets [] []) [
  | none ↦ crashed
  | some (rows, infos) ↦ run_insert_interfaces env rows infos t
]

unfoldable pub run_insert_nodes : Environment → Context → List Server → Tables → Transaction
unfolding gather_and_insert
run_insert_nodes env c targets t = elim (env.sql insert_nodes) [
  | some e ↦ rolled_back e
  | none ↦ elim (Database.insert_nodes (node_rows c targets) t) [
    | none ↦ rolled_back "constraint"
    | some t' ↦ gather_and_insert env c targets t'
  ]
]

unfoldable pub run_insert_subnet : Environment → Context → List Server → Tables → Transaction
unfolding run_insert_nodes
run_insert_subnet env c targets t = elim (env.sql insert_subnet) [
  | some e ↦ rolled_back e
  | none ↦ run_insert_nodes env c targets (Database.upsert_subnet (subnet_row c) t)
]

unfoldable pub run_transaction : Environment → Context → List Server → Tables → Transaction
unfolding run_insert_subnet
run_transaction env c targets t = elim (env.sql begin_tx) [
  | some e ↦ rolled_back e
  | none ↦ elim (env.sql delete_interfaces) [
    | some e ↦ rolled_back e
    | none ↦ run_insert_subnet env c targets (Database.delete_interfaces c.cr_namespace c.cr_name t)
  ]
]
