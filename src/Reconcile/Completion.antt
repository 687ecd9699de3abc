-- ===== src/Reconcile/Completion.antt =====
-- A pass over a changed object in sound surroundings.
use multinic.Base.{◌≡◌, refl, String, true, false, List, [], ◌∷◌, none, some, ok, arith, All}
use multinic.Api.{OpenstackConfig, VmNetworkInfo}
use multinic.Trigger.{trigger_or_manual, should_reconcile, get_next_reconcile_interval}
use multinic.Endpoint.{normalize_endpoint, network_endpoint_suffix, compute_endpoint_suffix}
use multinic.Database.{Tables, InterfaceRow}
use multinic.Database.Nodes.{Consistent}
use multinic.Database.Matching.{Matches}
use multinic.Openstack.{
  ServiceClient, Server, Subnet, decoded, create_openstack_client, get_subnet_info_with_clients,
  select_target_vms, find_port_by_mac_address,
}
use multinic.Collect.{node_rows, gather_servers}
use multinic.Reconcile.Environment.{Environment, World, Statement, done, after}
use multinic.Reconcile.Changes.{calculate_cr_hash, has_cr_changed}
use multinic.Reconcile.Store.{committed, context_of, run_transaction}
use multinic.Reconcile.Progress.{run_transaction_commits}
use multinic.Reconcile.Normal.{
  put_status, completed, drop_lost_handle, after_commit, finish, with_targets, with_servers,
  list_servers, with_clients, decide, after_check, reconcile_normal,
}

-- What OpenStack answers to the pass: both clients, the servers with the targets among them, the
-- subnet, and addresses that can be read.
pub record Answers (env : Environment) (cr : OpenstackConfig) : Type 0 where
  pub network : ServiceClient
  pub compute : ServiceClient
  pub servers : List Server
  pub target : Server
  pub others : List Server
  pub subnet : Subnet
  pub rows : List InterfaceRow
  pub infos : List VmNetworkInfo
  pub network_made :
      create_openstack_client env.network_rounds
        (normalize_endpoint cr.spec.credentials.network_endpoint network_endpoint_suffix)
        "network"
      ≡ ok network
  pub compute_made :
      create_openstack_client env.compute_rounds
        (normalize_endpoint cr.spec.credentials.compute_endpoint compute_endpoint_suffix)
        "compute"
      ≡ ok compute
  pub listed : env.servers compute ≡ decoded servers
  pub selected : select_target_vms cr.spec.vm_names servers ≡ target ∷ others
  pub subnet_found :
      get_subnet_info_with_clients (env.networks network) (env.subnets network) cr.spec.subnet_name
      ≡ ok subnet
  pub gathered :
      gather_servers (context_of env cr subnet) (target ∷ others) [] [] ≡ some (rows, infos)

-- The world after a pass that ends well.
abbrev pub finished : Environment → OpenstackConfig → List VmNetworkInfo → Tables → World → World
finished env cr infos t w = record w {
  db = t;
  object = some (record cr { status = completed env infos });
}

module _ (env : Environment) (cr : OpenstackConfig) (a : Answers env cr) where
  with_targets_done :
      (next : multinic.Base.ℕ) (w : World) (t : Tables)
      → env.ping_after ≡ none
      → env.update_status (record cr { status = completed env a.infos }) ≡ none
      → run_transaction env (context_of env cr a.subnet) (a.target ∷ a.others) w.db
        ≡ committed t a.infos
      → with_targets env cr next a.network (a.target ∷ a.others) w
        ≡ (finished env cr a.infos t w, done (after next))
  unfolding put_status drop_lost_handle with_targets
  with_targets_done next w t alive stored commits =
      rw (a.subnet_found, with_targets)
        (rw (commits, finish) (rw (alive, after_commit) (rw stored refl)))

  with_clients_done :
      (next : multinic.Base.ℕ) (w : World) (t : Tables)
      → env.ping_after ≡ none
      → env.update_status (record cr { status = completed env a.infos }) ≡ none
      → run_transaction env (context_of env cr a.subnet) (a.target ∷ a.others) w.db
        ≡ committed t a.infos
      → with_clients env cr next w ≡ (finished env cr a.infos t w, done (after next))
  unfolding with_clients
  with_clients_done next w t alive stored commits =
      rw (a.network_made, with_clients)
        (rw a.compute_made (
          rw (a.listed, list_servers)
            (rw (a.selected, with_servers) (with_targets_done next w t alive stored commits))))

-- If the object has changed and the trigger lets the pass go on, OpenStack answers, the database and
-- the API server have no failure, and the servers have one name to one id, in the answer and with the
-- node table, then the pass commits its transaction, stores the status `Completed` with the gathered
-- entries, and ends without an error.
pub changed_pass_completes :
    (env : Environment) (cr : OpenstackConfig) (a : Answers env cr) (hash : String) (w : World)
    (db : Tables)
    → calculate_cr_hash env cr ≡ ok hash
    → has_cr_changed env cr hash w.db ≡ (ok true, db)
    → (should_reconcile env.parse_duration (trigger_or_manual env.operators) true).0 ≡ true
    → ((s : Statement) → env.sql s ≡ none)
    → Consistent (node_rows (context_of env cr a.subnet) (a.target ∷ a.others))
    → All (Matches db.node_table) (node_rows (context_of env cr a.subnet) (a.target ∷ a.others))
    → env.ping_after ≡ none
    → env.update_status (record cr { status = completed env a.infos }) ≡ none
    → (t : Tables) × (run_transaction env (context_of env cr a.subnet) (a.target ∷ a.others) db
        ≡ committed t a.infos)
      × (reconcile_normal env cr w ≡ (
        finished env cr a.infos t w,
        done (
            after
              (get_next_reconcile_interval env.parse_duration (trigger_or_manual env.operators))),
      ))
unfolding reconcile_normal find_port_by_mac_address get_next_reconcile_interval
changed_pass_completes env cr a hash w db digest changed go sound consistent matching alive stored =
    let (t, commits) =
      run_transaction_commits env (context_of env cr a.subnet) (a.target ∷ a.others) db a.rows
        a.infos sound a.gathered consistent matching in
    (
      t,
      commits,
      rw (digest, reconcile_normal)
          (rw (changed, after_check)
            (rw (go, decide)
              (with_clients_done env cr a _ (record w { db = db }) t alive stored commits))),
    )
