-- ===== src/Reconcile/Normal.antt =====
-- reconcileNormal: change detection, the trigger, the OpenStack clients and queries, the transaction
-- and the status.
use multinic.Base.{
  ℕ, ◌*◌, String, Bool, List, [], ◌∷◌, Option, none, some, Result, ok, err, if◌then◌else◌,
}
use multinic.Base.Strings.{concat}
use multinic.Api.{OpenstackConfig, OpenstackConfigStatus, ReconcileTriggerConfig, VmNetworkInfo}
use multinic.Trigger.{
  second, reconcile_interval, trigger_or_manual, should_reconcile, get_next_reconcile_interval,
}
use multinic.Endpoint.{normalize_endpoint, network_endpoint_suffix, compute_endpoint_suffix}
use multinic.Openstack.{
  ServiceClient, Server, Fetch, no_request, no_response, no_body, bad_json, decoded,
  create_openstack_client, get_subnet_info_with_clients, select_target_vms,
}
use multinic.Reconcile.Environment.{Environment, World, Outcome, done, failed, panicked, after}
use multinic.Reconcile.Changes.{calculate_cr_hash, has_cr_changed}
use multinic.Reconcile.Store.{
  Transaction, committed, rolled_back, crashed, context_of, run_transaction,
}

-- Status().Update: what is stored is the object with its new status.
unfoldable pub put_status :
    Environment → OpenstackConfig → OpenstackConfigStatus → World → Option String × World
put_status env cr status w =
    let sent = record cr { status = status } in
    elim (env.update_status sent) [
      | some e ↦ (some e, w)
      | none ↦ (none, record w { object = some sent })
    ]

-- A list of texts under the verb %v.
unfoldable pub join_names : List String → String
join_names [] = "]"
join_names (n ∷ []) = concat n "]"
join_names (n ∷ m ∷ ns) = concat n (concat " " (join_names (m ∷ ns)))

abbrev pub show_names : List String → String
show_names ns = concat "[" (join_names ns)

-- A failed update is only logged.
abbrev pub put_error : Environment → OpenstackConfig → String → World → World
put_error env cr message w =
    (put_status env cr
      (record (cr.status) { status = "Error"; last_updated = env.now; message = message }) w).1

abbrev pub completed : Environment → List VmNetworkInfo → OpenstackConfigStatus
completed env infos = record {
  status = "Completed";
  last_updated = env.now;
  message = "Successfully updated VM and network information";
  vm_network_infos = infos;
}

-- r.DB = nil where the ping after the commit fails.
unfoldable pub drop_lost_handle : Environment → World → World
drop_lost_handle env w = elim env.ping_after [
  | none ↦ w
  | some _ ↦ record w { connection = record (w.connection) { db = none } }
]

abbrev pub end_pass : ℕ → Option String × World → World × Outcome
end_pass next (none, w) = (w, done (after next))
end_pass next (some e, w) = (w, failed (after (10 * second)) e)

unfoldable pub after_commit :
    Environment → OpenstackConfig → ℕ → List VmNetworkInfo → World → World × Outcome
unfolding put_status drop_lost_handle
after_commit env cr next infos w =
    end_pass next (put_status env cr (completed env infos) (drop_lost_handle env w))

unfoldable pub finish : Environment → OpenstackConfig → ℕ → Transaction → World → World × Outcome
unfolding after_commit
finish env cr next (rolled_back e) w = (w, failed (after next) e)
finish env cr next crashed w = (w, panicked)
finish env cr next (committed t infos) w = after_commit env cr next infos (record w { db = t })

-- The subnet, then the transaction.
unfoldable pub with_targets :
    Environment → OpenstackConfig → ℕ → ServiceClient → List Server → World → World × Outcome
unfolding finish run_transaction
with_targets env cr next network targets w =
    elim (get_subnet_info_with_clients (env.networks network) (env.subnets network)
      cr.spec.subnet_name) [
        | err e ↦ (w, failed (after next) e)
        | ok subnet ↦
            finish env cr next (run_transaction env (context_of env cr subnet) targets w.db) w
      ]

unfoldable pub with_servers :
    Environment → OpenstackConfig → ℕ → ServiceClient → List Server → World → World × Outcome
unfolding with_targets
with_servers env cr next network [] w = (
  put_error env cr (concat "None of the requested VMs found: " (show_names cr.spec.vm_names)) w,
  done (after next),
)
with_servers env cr next network (s ∷ ss) w = with_targets env cr next network (s ∷ ss) w

unfoldable pub list_servers :
    Environment
    → OpenstackConfig
    → ℕ
    → ServiceClient
    → Fetch (List Server)
    → World
    → World × Outcome
unfolding with_servers
list_servers env cr next network (no_request e) w = (w, failed (after next) e)
list_servers env cr next network (no_response e) w = (w, failed (after next) e)
list_servers env cr next network (no_body e) w = (w, failed (after next) e)
list_servers env cr next network (bad_json e) w = (w, failed (after next) e)
list_servers env cr next network (decoded servers) w =
    with_servers env cr next network (select_target_vms cr.spec.vm_names servers) w

-- The two clients: only a failure of the network client is written to the status.
unfoldable pub with_clients : Environment → OpenstackConfig → ℕ → World → World × Outcome
unfolding list_servers
with_clients env cr next w =
    elim (create_openstack_client env.network_rounds
      (normalize_endpoint cr.spec.credentials.network_endpoint network_endpoint_suffix) "network") [
        | err e ↦ (
          put_error env cr (concat "Failed to create OpenStack network client: " e) w,
          failed (after next) e,
        )
        | ok network ↦
            elim (create_openstack_client env.compute_rounds
              (normalize_endpoint cr.spec.credentials.compute_endpoint compute_endpoint_suffix)
              "compute") [
                | err e ↦ (w, failed (after next) e)
                | ok compute ↦ list_servers env cr next network (env.servers compute) w
              ]
      ]

unfoldable pub decide :
    Environment → OpenstackConfig → ReconcileTriggerConfig → Bool → World → World × Outcome
unfolding with_clients should_reconcile
decide env cr c has_changed w =
    let (go, again) = should_reconcile env.parse_duration c has_changed in
    if go
    then with_clients env cr (get_next_reconcile_interval env.parse_duration c) w
    else (w, done (after again))

unfoldable pub after_check :
    Environment → OpenstackConfig → Result String Bool → World → World × Outcome
unfolding decide
after_check env cr (err e) w = (w, failed (after reconcile_interval) e)
after_check env cr (ok has_changed) w =
    decide env cr (trigger_or_manual env.operators) has_changed w

unfoldable pub reconcile_normal : Environment → OpenstackConfig → World → World × Outcome
unfolding after_check has_cr_changed
reconcile_normal env cr w = elim (calculate_cr_hash env cr) [
  | err e ↦ (w, failed (after reconcile_interval) e)
  | ok hash ↦
      let (changed, db) = has_cr_changed env cr hash w.db in
      after_check env cr changed (record w { db = db })
]
