-- ===== src/Reconcile/Committed.antt =====
-- What a transaction of reconcileNormal that commits has done.
use multinic.Base.{◌≡◌, refl, List, [], ◌∷◌, some, arith, Option-cases, inl, inr}
use multinic.Api.{VmNetworkInfo}
use multinic.Database
use multinic.Database.{Tables, InterfaceRow, upsert_interfaces}
use multinic.Openstack.{Server}
use multinic.Collect.{Context, subnet_row, node_rows, gather_servers}
use multinic.Reconcile.Environment.{Environment}
use multinic.Reconcile.Store.{
  committed, commit_tx, run_insert_interfaces, gather_and_insert, run_insert_nodes,
  run_insert_subnet, run_transaction,
}

commit_tx-committed :
    (env : Environment) (t t' : Tables) (infos infos' : List VmNetworkInfo)
    → commit_tx env t infos ≡ committed t' infos'
    → (t ≡ t') × (infos ≡ infos')
unfolding commit_tx
commit_tx-committed env t t' infos infos' e = ground arith

pub insert_interfaces-nil : (t : Tables) → Database.insert_interfaces [] t ≡ some t
unfolding Database.insert_interfaces upsert_interfaces
insert_interfaces-nil t = refl

run_insert_interfaces-committed :
    (env : Environment) (rows : List InterfaceRow) (t t' : Tables)
    (infos infos' : List VmNetworkInfo)
    → run_insert_interfaces env rows infos t ≡ committed t' infos'
    → (Database.insert_interfaces rows t ≡ some t') × (infos ≡ infos')
unfolding run_insert_interfaces
run_insert_interfaces-committed env [] t t' infos infos' e =
    ground (arith, insert_interfaces-nil t, commit_tx-committed env t t' infos infos' e)
run_insert_interfaces-committed env (i ∷ is) t t' infos infos' e =
    elim (Option-cases (Database.insert_interfaces (i ∷ is) t)) [
      | inl refused ↦ ground (arith, e, refused)
      | inr (u, done) ↦ ground (arith, e, done, commit_tx-committed env u t' infos infos')
    ]

-- The steps of a transaction that commits, the tables in between and the rows gathered.
pub record Steps (c : Context) (targets : List Server) (t t' : Tables) (infos : List VmNetworkInfo)
    : Type 0 where
  pub middle : Tables
  pub rows : List InterfaceRow
  pub nodes :
      Database.insert_nodes (node_rows c targets) (
        Database.upsert_subnet
          (subnet_row c)
          (Database.delete_interfaces c.cr_namespace c.cr_name t))
      ≡ some middle
  pub gathered : gather_servers c targets [] [] ≡ some (rows, infos)
  pub interfaces : Database.insert_interfaces rows middle ≡ some t'

module _ (env : Environment) (c : Context) (targets : List Server) where
  gather_and_insert-committed :
      (t t' : Tables) (infos : List VmNetworkInfo)
      → gather_and_insert env c targets t ≡ committed t' infos
      → (rows : List InterfaceRow) × (gather_servers c targets [] [] ≡ some (rows, infos))
        × (Database.insert_interfaces rows t ≡ some t')
  unfolding gather_and_insert
  gather_and_insert-committed t t' infos e = elim (Option-cases (gather_servers c targets [] [])) [
    | inl panic ↦ cc (rw (panic, gather_and_insert) at e)
    | inr ((rows, infos'), found) ↦
        let (stored, same) =
          run_insert_interfaces-committed env rows t t' infos' infos
            (rw (found, gather_and_insert) at e) in
        (rows, rw (← same) found, stored)
  ]

  run_insert_nodes-committed :
      (t t' : Tables) (infos : List VmNetworkInfo)
      → run_insert_nodes env c targets t ≡ committed t' infos
      → (middle : Tables) × (Database.insert_nodes (node_rows c targets) t ≡ some middle)
        × (gather_and_insert env c targets middle ≡ committed t' infos)
  unfolding run_insert_nodes
  run_insert_nodes-committed t t' infos e =
      elim (Option-cases (Database.insert_nodes (node_rows c targets) t)) [
        | inl refused ↦ absurd (ground (arith, e, refused))
        | inr (middle, done) ↦ (middle, done, ground (arith, e, done))
      ]

  run_insert_subnet-committed :
      (t t' : Tables) (infos : List VmNetworkInfo)
      → run_insert_subnet env c targets t ≡ committed t' infos
      → run_insert_nodes env c targets (Database.upsert_subnet (subnet_row c) t)
        ≡ committed t' infos
  unfolding run_insert_subnet
  run_insert_subnet-committed t t' infos e = ground (arith, e)

  run_transaction_begun :
      (t t' : Tables) (infos : List VmNetworkInfo)
      → run_transaction env c targets t ≡ committed t' infos
      → run_insert_subnet env c targets (Database.delete_interfaces c.cr_namespace c.cr_name t)
        ≡ committed t' infos
  unfolding run_transaction
  run_transaction_begun t t' infos e = ground (arith, e)

  pub run_transaction-committed :
      (t t' : Tables) (infos : List VmNetworkInfo)
      → run_transaction env c targets t ≡ committed t' infos
      → Steps c targets t t' infos
  run_transaction-committed t t' infos e =
      let (middle, nodes, rest) =
        run_insert_nodes-committed _ t' infos
          (run_insert_subnet-committed _ t' infos (run_transaction_begun t t' infos e)) in
      let (rows, gathered, interfaces) = gather_and_insert-committed middle t' infos rest in
      record {
        middle = middle;
        rows = rows;
        nodes = nodes;
        gathered = gathered;
        interfaces = interfaces;
      }
