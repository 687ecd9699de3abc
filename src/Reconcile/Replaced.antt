-- ===== src/Reconcile/Replaced.antt =====
-- What a committed transaction of reconcileNormal leaves in the tables.
use multinic.Base.{◌≡◌, sym, ap, subst, ◌∙◌, true, List, [], some, arith, All, keep}
use multinic.Api.{VmNetworkInfo}
use multinic.Database.{Tables, InterfaceRow, owns, delete_interfaces, upsert_subnet}
use multinic.Database.Ownership.{
  FreshPorts, others, others-replace, owned-replace, insert_interfaces-eq_some,
}
use multinic.Database.References.{insert_nodes-eq_some}
use multinic.Openstack.{Server}
use multinic.Collect.{Context, node_rows, gather_servers}
use multinic.Collect.Rows.{gather_servers-owns}
use multinic.Reconcile.Environment.{Environment}
use multinic.Reconcile.Store.{committed, run_transaction}
use multinic.Reconcile.Committed.{Steps, run_transaction-committed}

module _ (c : Context) (targets : List Server) (t t' : Tables) (infos : List VmNetworkInfo) where
  middle-interfaces :
      (s : Steps c targets t t' infos)
      → s.middle.multi_interface ≡ (delete_interfaces c.cr_namespace c.cr_name t).multi_interface
  unfolding upsert_subnet
  middle-interfaces s =
      let (rows, done, new) = insert_nodes-eq_some (node_rows c targets) _ s.nodes in
      ap (λ x. x.multi_interface) new

  pub Steps-cr_state : Steps c targets t t' infos → t'.cr_state ≡ t.cr_state
  unfolding upsert_subnet delete_interfaces
  Steps-cr_state s =
      let (nodes, done, new) = insert_nodes-eq_some (node_rows c targets) _ s.nodes in
      let (rows, done', new') = insert_interfaces-eq_some s.rows s.middle s.interfaces in
      ap (λ x. x.cr_state) new' ∙ ap (λ x. x.cr_state) new

  Steps-owns :
      (s : Steps c targets t t' infos) → All (λ i. owns c.cr_namespace c.cr_name i ≡ true) s.rows
  Steps-owns s = gather_servers-owns c targets s.rows infos s.gathered

  Steps-others :
      Steps c targets t t' infos
      → others c.cr_namespace c.cr_name t'.multi_interface
        ≡ others c.cr_namespace c.cr_name t.multi_interface
  Steps-others s =
      others-replace c.cr_namespace c.cr_name s.rows t s.middle t' (Steps-owns s)
        (middle-interfaces s) s.interfaces

  Steps-owned :
      (s : Steps c targets t t' infos)
      → FreshPorts s.rows (delete_interfaces c.cr_namespace c.cr_name t).multi_interface
      → keep (owns c.cr_namespace c.cr_name) t'.multi_interface ≡ s.rows
  Steps-owned s fresh =
      owned-replace c.cr_namespace c.cr_name s.rows t s.middle t' (Steps-owns s)
        (middle-interfaces s) fresh s.interfaces

-- A transaction that commits leaves every other CR's interfaces, in order, with their ports, subnets
-- and owners, and leaves all change records as they are.
pub run_transaction-others :
    (env : Environment) (c : Context) (targets : List Server) (t t' : Tables)
    (infos : List VmNetworkInfo)
    → run_transaction env c targets t ≡ committed t' infos
    → (others c.cr_namespace c.cr_name t'.multi_interface
        ≡ others c.cr_namespace c.cr_name t.multi_interface)
      × (t'.cr_state ≡ t.cr_state)
run_transaction-others env c targets t t' infos e =
    let s = run_transaction-committed env c targets t t' infos e in
    (Steps-others c targets t t' infos s, Steps-cr_state c targets t t' infos s)

-- After a transaction that commits, the CR's interfaces are exactly the rows gathered from its target
-- servers, in order, the old ones gone, if no gathered port appears twice or is another CR's.
pub run_transaction-owned :
    (env : Environment) (c : Context) (targets : List Server) (t t' : Tables)
    (rows : List InterfaceRow) (infos : List VmNetworkInfo)
    → gather_servers c targets [] [] ≡ some (rows, infos)
    → FreshPorts rows (delete_interfaces c.cr_namespace c.cr_name t).multi_interface
    → run_transaction env c targets t ≡ committed t' infos
    → keep (owns c.cr_namespace c.cr_name) t'.multi_interface ≡ rows
run_transaction-owned env c targets t t' rows infos g fresh e =
    let s = run_transaction-committed env c targets t t' infos e in
    let same : rows ≡ s.rows = ground (arith, g, s.gathered) in
    Steps-owned c targets t t' infos s (
      subst (λ r. FreshPorts r (delete_interfaces c.cr_namespace c.cr_name t).multi_interface) same
        fresh)
    ∙ sym same
