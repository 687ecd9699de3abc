-- ===== src/Examples/Tables.antt =====
-- The transaction of one pass on tables that hold rows of two CRs.
use multinic.Base.{◌≡◌, ◌≢◌, map, refl, [], ◌∷◌, none, some, keep, any, update_first, All}
use multinic.Database.{
  Tables, NodeRow, owns, delete_interfaces, insert_nodes, insert_interfaces, upsert_nodes,
  upsert_node, upsert_subnet, upsert_interface, upsert_interfaces, has_subnet, has_node,
}
use multinic.Database.Ownership.{others, FreshPorts}
use multinic.Database.References.{interfaces_accepted, recreated_server}
use multinic.Collect.{
  subnet_row, node_row, node_rows, gather_servers, gather_values, gather_list, add_entry,
  read_address,
}
use multinic.Collect.Rows.{gather_servers_rows}
use multinic.Collect.Infos.{fixed, gather_servers_infos}
use multinic.Reconcile.Store.{committed, run_transaction}
use multinic.Reconcile.Replaced.{run_transaction-others, run_transaction-owned}
use multinic.Reconcile.Progress.{run_transaction_commits}
use multinic.Examples.Data.{
  vm, context, gathered_row, gathered_info, tables, stored_tables, environment,
}

vm_gathers : gather_servers context (vm ∷ []) [] [] ≡ some (gathered_row ∷ [], gathered_info ∷ [])
unfolding gather_servers gather_values gather_list add_entry read_address
vm_gathers = refl

vm_commits :
    run_transaction environment context (vm ∷ []) tables
    ≡ committed stored_tables (gathered_info ∷ [])
unfolding run_transaction gather_servers gather_values gather_list add_entry read_address
    insert_nodes insert_interfaces delete_interfaces upsert_subnet any keep update_first
    upsert_nodes upsert_node upsert_interfaces upsert_interface has_subnet has_node
vm_commits = refl

vm_fresh : FreshPorts (gathered_row ∷ []) (delete_interfaces "team" "alpha" tables).multi_interface
unfolding delete_interfaces keep any
vm_fresh = (refl, tt)

run_transaction-others_example :
    (others "team" "alpha" stored_tables.multi_interface
      ≡ others "team" "alpha" tables.multi_interface)
    × (stored_tables.cr_state ≡ tables.cr_state)
run_transaction-others_example =
    run_transaction-others environment context (vm ∷ []) tables stored_tables (gathered_info ∷ [])
      vm_commits

run_transaction-owned_example :
    keep (owns "team" "alpha") stored_tables.multi_interface ≡ gathered_row ∷ []
run_transaction-owned_example =
    run_transaction-owned environment context (vm ∷ []) tables stored_tables (gathered_row ∷ [])
      (gathered_info ∷ []) vm_gathers vm_fresh vm_commits

gather_servers_rows_example :
    All
      (multinic.Database.References.RefersTo (subnet_row context) (node_rows context (vm ∷ [])))
      (gathered_row ∷ [])
    × All (λ i. i.port_id ≢ "") (gathered_row ∷ [])
gather_servers_rows_example =
    gather_servers_rows context (vm ∷ []) (gathered_row ∷ []) (gathered_info ∷ []) vm_gathers

gather_servers_infos_example :
    map fixed (gathered_info ∷ []) ≡ ("vm-1", "sub-a", "nw-1", "192.0.2.10") ∷ []
gather_servers_infos_example =
    gather_servers_infos context (vm ∷ []) (gathered_row ∷ []) (gathered_info ∷ []) vm_gathers

node_stored :
    insert_nodes (node_row context vm ∷ []) (upsert_subnet (subnet_row context) tables)
    ≡ some (record stored_tables { multi_interface = tables.multi_interface })
unfolding insert_nodes upsert_subnet any update_first upsert_nodes upsert_node
node_stored = refl

interfaces_accepted_example :
    (t : Tables) × (insert_interfaces
        (gathered_row ∷ [])
        (record stored_tables { multi_interface = tables.multi_interface })
      ≡ some t)
unfolding any
interfaces_accepted_example =
    interfaces_accepted (subnet_row context) (node_row context vm ∷ []) (gathered_row ∷ []) tables
      (record stored_tables { multi_interface = tables.multi_interface }) (tt, tt) (refl, tt)
      ((refl, refl), tt) node_stored

-- The VM was created anew: the table knows its name under the id `srv-0`.
abbrev stale_node : NodeRow
stale_node = record (node_row context vm) { attached_node_id = "srv-0" }

abbrev stale_tables : Tables
stale_tables = record stored_tables { node_table = stale_node ∷ [] }

stale_stored : insert_nodes (node_row context vm ∷ []) stale_tables ≡ some stale_tables
unfolding insert_nodes any update_first upsert_nodes upsert_node
stale_stored = refl

recreated_server_example : insert_interfaces (gathered_row ∷ []) stale_tables ≡ none
unfolding any
recreated_server_example =
    recreated_server (node_row context vm) gathered_row [] stale_tables stale_tables refl refl refl
      stale_stored

run_transaction_commits_example :
    (t : Tables) × (run_transaction environment context (vm ∷ []) tables
      ≡ committed t (gathered_info ∷ []))
run_transaction_commits_example =
    run_transaction_commits environment context (vm ∷ []) tables (gathered_row ∷ [])
      (gathered_info ∷ []) (λ s. refl) vm_gathers (tt, tt) (tt, tt)
