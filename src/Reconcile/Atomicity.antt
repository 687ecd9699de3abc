-- ===== src/Reconcile/Atomicity.antt =====
-- A pass of reconcileNormal changes the subnets, nodes and interfaces in one committed transaction or
-- not at all.
use multinic.Base.{
  ℕ, ◌*◌, ◌≡◌, refl, sym, ap, subst, ◌∙◌, ◌⊎◌, inl, inr, String, List, [], ◌∷◌, Option, none, some,
  Result, ok, err, arith, Result-cases, Bool, Bool-cases,
}
use multinic.Api.{OpenstackConfig, OpenstackConfigStatus, VmNetworkInfo, ReconcileTriggerConfig}
use multinic.Trigger.{second, trigger_or_manual, should_reconcile}
use multinic.Endpoint.{normalize_endpoint, network_endpoint_suffix, compute_endpoint_suffix}
use multinic.Database.{Tables, SubnetRow, NodeRow, InterfaceRow, insert_hash, update_hash}
use multinic.Openstack.{
  ServiceClient, Server, Fetch, no_request, no_response, no_body, bad_json, decoded,
  select_target_vms, create_openstack_client, get_subnet_info_with_clients,
}
use multinic.Reconcile.Environment.{Environment, World, Outcome, done, failed, panicked, after}
use multinic.Reconcile.Changes.{has_cr_changed, calculate_cr_hash}
use multinic.Reconcile.Store.{
  Transaction, committed, rolled_back, crashed, context_of, run_transaction,
}
use multinic.Reconcile.Committed.{Steps, run_transaction-committed}
use multinic.Reconcile.Replaced.{Steps-cr_state}
use multinic.Reconcile.Normal.{
  put_status, completed, drop_lost_handle, after_commit, finish, with_targets, with_servers,
  list_servers, with_clients, decide, after_check, reconcile_normal, end_pass,
}

-- The pass ends without an error, or as it does where the status cannot be written.
abbrev pub Ended : Outcome → Type 0
Ended (done _) = Unit {0}
Ended (failed r _) = r ≡ after (10 * second)
Ended panicked = ⊥

-- The transaction of some target servers took the tables from `t` to `t'`.
pub record Stored (env : Environment) (cr : OpenstackConfig) (t t' : Tables) (o : Outcome)
    : Type 0 where
  pub subnet : multinic.Openstack.Subnet
  pub targets : List Server
  pub infos : List VmNetworkInfo
  pub steps : Steps (context_of env cr subnet) targets t t' infos
  pub ended : Ended o

abbrev pub Whole : Environment → OpenstackConfig → Tables → World × Outcome → Type 0
Whole env cr t r = (r.0.db ≡ t) ⊎ Stored env cr t r.0.db r.1

put_status-db :
    (env : Environment) (cr : OpenstackConfig) (s : OpenstackConfigStatus) (w : World)
    → (put_status env cr s w).1.db ≡ w.db
unfolding put_status
put_status-db env cr s w = ground arith

drop_lost_handle-db : (env : Environment) (w : World) → (drop_lost_handle env w).db ≡ w.db
unfolding drop_lost_handle
drop_lost_handle-db env w = ground arith

end_pass-db : (next : ℕ) (r : Option String × World) → (end_pass next r).0.db ≡ r.1.db
end_pass-db next (none, w) = refl
end_pass-db next (some e, w) = refl

end_pass-Ended : (next : ℕ) (r : Option String × World) → Ended (end_pass next r).1
end_pass-Ended next (none, w) = tt
end_pass-Ended next (some e, w) = refl

after_commit-db :
    (env : Environment) (cr : OpenstackConfig) (next : ℕ) (infos : List VmNetworkInfo) (w : World)
    → (after_commit env cr next infos w).0.db ≡ w.db
unfolding after_commit
after_commit-db env cr next infos w =
    end_pass-db next _ ∙ put_status-db env cr (completed env infos) _ ∙ drop_lost_handle-db env w

finish-Whole :
    (env : Environment) (cr : OpenstackConfig) (next : ℕ) (subnet : multinic.Openstack.Subnet)
    (targets : List Server) (tr : Transaction) (w : World)
    → run_transaction env (context_of env cr subnet) targets w.db ≡ tr
    → Whole env cr w.db (finish env cr next tr w)
unfolding finish after_commit
finish-Whole env cr next subnet targets (rolled_back e) w h = inl refl
finish-Whole env cr next subnet targets crashed w h = inl refl
finish-Whole env cr next subnet targets (committed t infos) w h = inr (record {
  subnet = subnet;
  targets = targets;
  infos = infos;
  steps =
      subst (λ t'. Steps (context_of env cr subnet) targets w.db t' infos)
        (sym (after_commit-db env cr next infos (record w { db = t })))
        (run_transaction-committed env (context_of env cr subnet) targets w.db t infos h);
  ended = end_pass-Ended next _;
})

module _ (env : Environment) (cr : OpenstackConfig) (next : ℕ) where
  with_targets-Whole :
      (network : ServiceClient) (targets : List Server) (w : World)
      → Whole env cr w.db (with_targets env cr next network targets w)
  unfolding with_targets
  with_targets-Whole network targets w =
      elim (Result-cases (
        get_subnet_info_with_clients (env.networks network) (env.subnets network)
          cr.spec.subnet_name)) [
            | inl (subnet, found) ↦
                rw (found, with_targets)
                  (finish-Whole env cr next subnet targets
                    (run_transaction env (context_of env cr subnet) targets w.db) w refl)
            | inr (e, missing) ↦ rw (missing, with_targets) (inl refl)
          ]

  with_servers-Whole :
      (network : ServiceClient) (targets : List Server) (w : World)
      → Whole env cr w.db (with_servers env cr next network targets w)
  unfolding with_servers
  with_servers-Whole network [] w = inl (put_status-db env cr _ w)
  with_servers-Whole network (s ∷ ss) w = with_targets-Whole network (s ∷ ss) w

  list_servers-Whole :
      (network : ServiceClient) (f : Fetch (List Server)) (w : World)
      → Whole env cr w.db (list_servers env cr next network f w)
  unfolding list_servers
  list_servers-Whole network (no_request e) w = inl refl
  list_servers-Whole network (no_response e) w = inl refl
  list_servers-Whole network (no_body e) w = inl refl
  list_servers-Whole network (bad_json e) w = inl refl
  list_servers-Whole network (decoded servers) w =
      with_servers-Whole network (select_target_vms cr.spec.vm_names servers) w

  with_clients-Whole : (w : World) → Whole env cr w.db (with_clients env cr next w)
  unfolding with_clients
  with_clients-Whole w =
      elim (Result-cases (
        create_openstack_client env.network_rounds
          (normalize_endpoint cr.spec.credentials.network_endpoint network_endpoint_suffix)
          "network")) [
            | inr (e, refused) ↦ rw (refused, with_clients) (inl (put_status-db env cr _ w))
            | inl (network, made) ↦
                elim (Result-cases (
                  create_openstack_client env.compute_rounds
                    (normalize_endpoint cr.spec.credentials.compute_endpoint
                      compute_endpoint_suffix)
                    "compute")) [
                      | inr (e, refused) ↦ rw (made, with_clients) (rw (refused) (inl refl))
                      | inl (compute, made') ↦
                          rw (made, with_clients)
                            (rw (made') (list_servers-Whole network (env.servers compute) w))
                    ]
          ]

module _ (env : Environment) (cr : OpenstackConfig) where
  decide-Whole :
      (c : ReconcileTriggerConfig) (has_changed : Bool) (w : World)
      → Whole env cr w.db (decide env cr c has_changed w)
  unfolding decide
  decide-Whole c has_changed w =
      elim (Bool-cases (should_reconcile env.parse_duration c has_changed).0) [
        | inl go ↦ rw go (with_clients-Whole env cr _ w)
        | inr skip ↦ rw skip (inl refl)
      ]

  after_check-Whole :
      (r : Result String Bool) (w : World) → Whole env cr w.db (after_check env cr r w)
  unfolding after_check
  after_check-Whole (err e) w = inl refl
  after_check-Whole (ok has_changed) w =
      decide-Whole (trigger_or_manual env.operators) has_changed w

-- The three tables that reconcileNormal fills from OpenStack.
abbrev pub contents : Tables → List SubnetRow × List NodeRow × List InterfaceRow
contents t = (t.multi_subnet, t.node_table, t.multi_interface)

has_cr_changed-contents :
    (env : Environment) (cr : OpenstackConfig) (hash : String) (db : Tables)
    → contents (has_cr_changed env cr hash db).1 ≡ contents db
unfolding has_cr_changed insert_hash update_hash
has_cr_changed-contents env cr hash db = ground arith

-- Whatever a pass meets, the subnets, nodes and interfaces are as before, or they are what one
-- committed transaction made of them; in the second case the pass ends without an error, or with one
-- and a requeue after ten seconds, the answer to a status that cannot be written. So a pass that
-- panics, or fails with another requeue, has changed none of them.
pub reconcile_normal_atomic :
    (env : Environment) (cr : OpenstackConfig) (w : World)
    → let r = reconcile_normal env cr w in
      (contents r.0.db ≡ contents w.db)
      ⊎ ((t : Tables) × (contents t ≡ contents w.db) × Stored env cr t r.0.db r.1)
unfolding reconcile_normal
reconcile_normal_atomic env cr w = elim (Result-cases (calculate_cr_hash env cr)) [
  | inr (e, bad) ↦ rw (bad, reconcile_normal) (inl refl)
  | inl (hash, good) ↦
      rw (good, reconcile_normal)
        (elim (after_check-Whole env cr (has_cr_changed env cr hash w.db).0
          (record w { db = (has_cr_changed env cr hash w.db).1 })) [
            | inl same ↦ inl (ap contents same ∙ has_cr_changed-contents env cr hash w.db)
            | inr stored ↦ inr (
              (has_cr_changed env cr hash w.db).1,
              has_cr_changed-contents env cr hash w.db,
              stored,
            )
          ])
]

-- No phase after the change check touches the change records.
pub after_check-cr_state :
    (env : Environment) (cr : OpenstackConfig) (r : Result String Bool) (w : World)
    → (after_check env cr r w).0.db.cr_state ≡ w.db.cr_state
after_check-cr_state env cr r w = elim (after_check-Whole env cr r w) [
  | inl same ↦ ap (λ t. t.cr_state) same
  | inr stored ↦ Steps-cr_state _ _ _ _ _ stored.steps
]
