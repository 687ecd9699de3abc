-- ===== src/Examples/Completing.antt =====
-- A pass over a changed object in surroundings in which every call succeeds.
use multinic.Base.{◌≡◌, refl, true, [], ◌∷◌, some, ok, keep, any}
use multinic.Base.Strings.{has_suffix, trim_suffix}
use multinic.Endpoint.{normalize_endpoint, network_endpoint_suffix, compute_endpoint_suffix}
use multinic.Openstack.{
  ServiceClient, create_openstack_client, get_subnet_info_with_clients, select_target_vms,
}
use multinic.Collect.{gather_servers, gather_values, gather_list, add_entry, read_address}
use multinic.Database.{Tables, select_hash, update_hash, set_hash}
use multinic.Trigger.{trigger_or_manual, should_reconcile, get_next_reconcile_interval}
use multinic.Reconcile.Environment.{done, after}
use multinic.Reconcile.Changes.{calculate_cr_hash, has_cr_changed}
use multinic.Reconcile.Store.{committed, context_of, run_transaction}
use multinic.Reconcile.Normal.{reconcile_normal}
use multinic.Reconcile.Completion.{Answers, finished, changed_pass_completes}
use multinic.Examples.Data.{
  vm, subnet_a, client, environment, config, tables, world, gathered_row, gathered_info,
}

abbrev network_client : ServiceClient
network_client = record client { endpoint = "https://cloud.example:9696/v2.0" }

abbrev compute_client : ServiceClient
compute_client = record client { endpoint = "https://cloud.example:8774/v2.1" }

network_ready :
    create_openstack_client environment.network_rounds
      (normalize_endpoint config.spec.credentials.network_endpoint network_endpoint_suffix)
      "network"
    ≡ ok network_client
unfolding create_openstack_client normalize_endpoint has_suffix trim_suffix
network_ready = refl

compute_ready :
    create_openstack_client environment.compute_rounds
      (normalize_endpoint config.spec.credentials.compute_endpoint compute_endpoint_suffix)
      "compute"
    ≡ ok compute_client
unfolding create_openstack_client normalize_endpoint has_suffix trim_suffix
compute_ready = refl

vm_selected : select_target_vms config.spec.vm_names (vm ∷ []) ≡ vm ∷ []
unfolding select_target_vms keep any
vm_selected = refl

subnet_there :
    get_subnet_info_with_clients
      (environment.networks network_client)
      (environment.subnets network_client)
      config.spec.subnet_name
    ≡ ok subnet_a
unfolding get_subnet_info_with_clients
subnet_there = refl

vm_read :
    gather_servers (context_of environment config subnet_a) (vm ∷ []) [] []
    ≡ some (gathered_row ∷ [], gathered_info ∷ [])
unfolding gather_servers gather_values gather_list add_entry read_address
vm_read = refl

abbrev answers : Answers environment config
answers = record {
  network = network_client;
  compute = compute_client;
  servers = vm ∷ [];
  target = vm;
  others = [];
  subnet = subnet_a;
  rows = gathered_row ∷ [];
  infos = gathered_info ∷ [];
  network_made = network_ready;
  compute_made = compute_ready;
  listed = refl;
  selected = vm_selected;
  subnet_found = subnet_there;
  gathered = vm_read;
}

abbrev rehashed : Tables
rehashed = record tables {
  cr_state = record { cr_namespace = "team"; cr_name = "alpha"; spec_hash = "net-a" } ∷ [];
}

spec_hashed : calculate_cr_hash environment config ≡ ok "net-a"
unfolding calculate_cr_hash
spec_hashed = refl

spec_changed : has_cr_changed environment config "net-a" tables ≡ (ok true, rehashed)
unfolding has_cr_changed select_hash update_hash set_hash
spec_changed = refl

goes_on :
    (should_reconcile environment.parse_duration (trigger_or_manual environment.operators) true).0
    ≡ true
unfolding should_reconcile trigger_or_manual
goes_on = refl

changed_pass_completes_example :
    (t : Tables) × (run_transaction environment
        (context_of environment config subnet_a)
        (vm ∷ [])
        rehashed
      ≡ committed t (gathered_info ∷ []))
    × (reconcile_normal environment config world ≡ (
      finished environment config (gathered_info ∷ []) t world,
      done (
          after (
            get_next_reconcile_interval environment.parse_duration
              (trigger_or_manual environment.operators))),
    ))
changed_pass_completes_example =
    changed_pass_completes environment config answers "net-a" world rehashed spec_hashed
      spec_changed goes_on (λ s. refl) (tt, tt) (tt, tt) refl refl
