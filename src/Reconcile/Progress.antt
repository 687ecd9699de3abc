-- ===== src/Reconcile/Progress.antt =====
-- When the transaction of reconcileNormal commits.
use multinic.Base.{◌≡◌, List, [], ◌∷◌, none, some, arith, All}
use multinic.Api.{VmNetworkInfo}
use multinic.Database
use multinic.Database.{
  Tables, NodeRow, InterfaceRow, same_id, same_name, update_node, upsert_node, upsert_nodes,
  rename_refused, upsert_subnet, delete_interfaces, upsert_interfaces,
}
use multinic.Database.Nodes.{Consistent}
use multinic.Database.References.{interfaces_accepted}
use multinic.Openstack.{Server}
use multinic.Collect.{Context, subnet_row, node_rows, gather_servers}
use multinic.Collect.Rows.{gather_servers-RefersTo}
use multinic.Reconcile.Environment.{
  Environment, Statement, begin_tx, delete_interfaces as delete_statement, insert_subnet,
  insert_nodes as nodes_statement, insert_interfaces as interfaces_statement, commit,
}
use multinic.Reconcile.Committed.{insert_interfaces-nil}
use multinic.Reconcile.Store.{committed, commit_tx, run_insert_interfaces, run_transaction}
use multinic.Database.Matching.{Matches, insert_nodes_matching, All-IsClean}

batches_accepted :
    (c : Context) (targets : List Server) (t : Tables) (rows : List InterfaceRow)
    (infos : List VmNetworkInfo)
    → gather_servers c targets [] [] ≡ some (rows, infos)
    → Consistent (node_rows c targets)
    → All (Matches t.node_table) (node_rows c targets)
    → (mid : Tables) × (Database.insert_nodes (node_rows c targets) (upsert_subnet (subnet_row c) t)
        ≡ some mid)
      × ((t' : Tables) × (Database.insert_interfaces rows mid ≡ some t'))
unfolding upsert_subnet
batches_accepted c targets t rows infos gathered consistent matching =
    let (mid, done) =
      insert_nodes_matching (node_rows c targets) (upsert_subnet (subnet_row c) t) consistent
        matching in
    (
      mid,
      done,
      interfaces_accepted (subnet_row c) (node_rows c targets) rows t mid consistent
          (All-IsClean (node_rows c targets) t.node_table matching)
          (gather_servers-RefersTo c targets rows infos gathered) done,
    )

run_insert_interfaces_commits :
    (env : Environment) (rows : List InterfaceRow) (infos : List VmNetworkInfo) (t t' : Tables)
    → ((s : Statement) → env.sql s ≡ none)
    → Database.insert_interfaces rows t ≡ some t'
    → run_insert_interfaces env rows infos t ≡ committed t' infos
unfolding run_insert_interfaces commit_tx
run_insert_interfaces_commits env [] infos t t' sound done =
    ground (arith, sound commit, insert_interfaces-nil t, done)
run_insert_interfaces_commits env (i ∷ is) infos t t' sound done =
    ground (arith, sound commit, sound interfaces_statement, done)

-- If no statement fails for another reason than a constraint, the addresses of the servers can be
-- read, the servers have one name to one id, and the node table has each of them under both or
-- under neither, then the transaction commits.
pub run_transaction_commits :
    (env : Environment) (c : Context) (targets : List Server) (t : Tables)
    (rows : List InterfaceRow) (infos : List VmNetworkInfo)
    → ((s : Statement) → env.sql s ≡ none)
    → gather_servers c targets [] [] ≡ some (rows, infos)
    → Consistent (node_rows c targets)
    → All (Matches t.node_table) (node_rows c targets)
    → (t' : Tables) × (run_transaction env c targets t ≡ committed t' infos)
unfolding run_transaction delete_interfaces
run_transaction_commits env c targets t rows infos sound gathered consistent matching =
    let (mid, nodes, (t', interfaces)) =
      batches_accepted c targets (delete_interfaces c.cr_namespace c.cr_name t) rows infos gathered
        consistent matching in
    (
      t',
      ground (
        arith,
        sound begin_tx,
        sound delete_statement,
        sound insert_subnet,
        sound nodes_statement,
        nodes,
        gathered,
        run_insert_interfaces_commits env rows infos mid t' sound interfaces,
      ),
    )
