-- ===== src/Examples/Operating.antt =====
-- Passes of the operator over an empty cluster.
use multinic.Base.{inl, true, false, ◌≡◌, ◌≢◌, refl, ◌∙◌, ap, sym, [], Option, none, some, any}
use multinic.Base.Int.{pos}
use multinic.Api.Operator.{MultiNicOperator}
use multinic.Cluster.{Resource, Key, resource_key, find_resource}
use multinic.Protection.Removal.{manager_of, answer_from}
use multinic.Webhook.{Request, handle, is_system_namespace, is_operator_request}
use multinic.Webhook.Decision.{is_denied}
use multinic.Reconcile.Environment.{panicked, done, after}
use multinic.Operator.Quantities.{
  get_database_resource_requirements, get_controller_resource_requirements,
}
use multinic.Operator.Ready.{
  check_database_readiness, check_controller_readiness, all_components_ready,
}
use multinic.Operator.Workloads.{
  build_database_stateful_set, build_controller_deployment, database_spec, controller_spec,
}
use multinic.Operator.Compare.{needs_update}
use multinic.Operator.Reflexive.{needs_update_refl}
use multinic.Operator.Surroundings.{World}
use multinic.Operator.Apply.{finished, reconcile_controller, reconcile_database, ensure_object}
use multinic.Operator.Ensured.{IsHonest, KeepsKey}
use multinic.Operator.States.{SameStates}
use multinic.Operator.Convergence.{IsInstalled, HonestServer}
use multinic.Operator.Passes.{
  reconcile_components-IsInstalled, reconcile_components_idle, IsTruthful,
}
use multinic.Operator.Status.{reconcile_components}
use multinic.Operator.Loop.{reconcile_operator, reconcile_workloads, default_requeue_interval}
use multinic.Operator.Frame.{reconcile_operator-Untouched}
use multinic.Operator.Untouched.{Untouched}
use multinic.Operator.Complete.{Answers, IsSound, reconcile_components_installs}
use multinic.Operator.Services.{build_database_service}
use multinic.Operator.Running.{reconcile_workloads-RunsOn, RunsOn}
use multinic.Operator.Reports.{reconcile_workloads-StatusStored, StatusStored}
use multinic.Operator.Unchanged.{reconcile_controller_unchanged}
use multinic.Operator.Fresh.{reconcile_controller-is_denied, KeepsLabels}
use multinic.Operator.Panics.{Reaches, IsCause, first_built, reconcile_operator_panics}
use multinic.Examples.Operators.{
  with_database, without_database, with_bad_cpu, with_new_password, surroundings, storing,
}

storing-IsHonest : IsHonest storing
storing-IsHonest = (
  λ r s h.
      let same : record r { ready_replicas = pos 1 } ≡ s = cc in
      (
        sym (ap resource_key same),
        sym (ap (λ x. needs_update x.spec r.spec) same) ∙ needs_update_refl r.spec,
      ),
  λ h. cc,
)

honest : HonestServer surroundings
honest = (storing-IsHonest, storing-IsHonest, storing-IsHonest)

storing-Answers : Answers storing
storing-Answers = (refl, refl, λ r. (record r { ready_replicas = pos 1 }, refl))

abbrev built : Option Resource → Resource
built o = elim o [ none ↦ build_database_service with_database | some r ↦ r ]

stateful_set_built :
    build_database_stateful_set surroundings.must_parse with_database
    ≡ some (built (build_database_stateful_set surroundings.must_parse with_database))
unfolding build_database_stateful_set get_database_resource_requirements
stateful_set_built = refl

deployment_built :
    build_controller_deployment surroundings.must_parse with_database
    ≡ some (built (build_controller_deployment surroundings.must_parse with_database))
unfolding build_controller_deployment get_controller_resource_requirements
deployment_built = refl

surroundings-IsSound : IsSound surroundings with_database
surroundings-IsSound = record {
  stateful_set = storing-Answers;
  service = storing-Answers;
  deployment = storing-Answers;
  honest = honest;
  database = (_, stateful_set_built);
  controller = (_, deployment_built);
}

reconcile_components_installs_example :
    ((reconcile_components surroundings with_database []).ending ≡ finished)
    × IsInstalled surroundings.must_parse with_database
        (reconcile_components surroundings with_database []).cluster
reconcile_components_installs_example =
    reconcile_components_installs surroundings with_database surroundings-IsSound []

first_pass_finished : (reconcile_components surroundings with_database []).ending ≡ finished
unfolding reconcile_components reconcile_database build_database_stateful_set
    get_database_resource_requirements ensure_object find_resource check_database_readiness
    database_spec reconcile_controller build_controller_deployment
    get_controller_resource_requirements check_controller_readiness controller_spec
first_pass_finished = refl

IsInstalled-cluster :
    IsInstalled surroundings.must_parse with_database
      (reconcile_components surroundings with_database []).cluster
IsInstalled-cluster =
    reconcile_components-IsInstalled surroundings with_database honest [] first_pass_finished

truthful : IsTruthful surroundings
truthful = (λ h. cc, λ h. cc, λ h. cc)

reconcile_components_idle_example :
    SameStates
      (reconcile_components surroundings with_database []).cluster
      (reconcile_components surroundings with_database
        (reconcile_components surroundings with_database []).cluster).cluster
reconcile_components_idle_example =
    reconcile_components_idle surroundings with_database
      (reconcile_components surroundings with_database []).cluster truthful IsInstalled-cluster

storing-KeepsKey : KeepsKey storing
storing-KeepsKey r s h = (storing-IsHonest.0 r s h).0

abbrev world : MultiNicOperator → World
world operator = record { cluster = []; object = some operator }

abbrev elsewhere : Key
elsewhere = record { kind = "Deployment"; name = "webshop"; namespace = "multinic-system" }

reconcile_operator-Untouched_example :
    Untouched elsewhere [] (reconcile_operator surroundings (world with_database)).0.cluster
reconcile_operator-Untouched_example =
    reconcile_operator-Untouched surroundings (storing-KeepsKey, storing-KeepsKey, storing-KeepsKey)
      with_database elsewhere (refl, refl, refl) (world with_database) (inl refl) refl

first_pass_running :
    (reconcile_workloads surroundings with_database (world with_database)).1
    ≡ done (after default_requeue_interval)
unfolding reconcile_workloads reconcile_components reconcile_database build_database_stateful_set
    get_database_resource_requirements ensure_object find_resource check_database_readiness
    database_spec reconcile_controller build_controller_deployment
    get_controller_resource_requirements check_controller_readiness controller_spec
    all_components_ready
first_pass_running = refl

reconcile_workloads-RunsOn_example :
    RunsOn surroundings with_database true
      (reconcile_workloads surroundings with_database (world with_database)).0.cluster
reconcile_workloads-RunsOn_example =
    reconcile_workloads-RunsOn surroundings with_database (world with_database) storing-KeepsKey
      first_pass_running

first_pass_ends :
    (reconcile_workloads surroundings with_database (world with_database)).1 ≢ panicked
first_pass_ends h = cc (sym first_pass_running ∙ h)

reconcile_workloads-StatusStored_example :
    StatusStored with_database
      (reconcile_workloads surroundings with_database (world with_database)).0.object
      (reconcile_workloads surroundings with_database (world with_database)).1
reconcile_workloads-StatusStored_example =
    reconcile_workloads-StatusStored surroundings with_database (world with_database) refl
      first_pass_ends

-- The password is changed between the passes.
reconcile_controller_unchanged_example :
    (reconcile_controller surroundings with_new_password
      (reconcile_components surroundings with_database []).cluster).0
    ≡ (reconcile_components surroundings with_database []).cluster
reconcile_controller_unchanged_example =
    reconcile_controller_unchanged surroundings with_database with_new_password
      (reconcile_components surroundings with_database []).cluster
      (record { name = refl; namespace = refl; image = refl; replicas = refl }) truthful.2
      IsInstalled-cluster.1

storing-KeepsLabels : KeepsLabels storing
storing-KeepsLabels r s h =
    let same : record r { ready_replicas = pos 1 } ≡ s = cc in
    (sym (ap resource_key same), sym (ap (λ x. x.labels) same))

abbrev edit : Request
edit = record { key = manager_of without_database; username = "kubernetes-admin" }

controller_created : (reconcile_controller surroundings without_database []).1 ≡ finished
unfolding reconcile_controller build_controller_deployment get_controller_resource_requirements
    ensure_object find_resource
controller_created = refl

edit_outside : is_system_namespace "multinic-system" ≡ false
unfolding is_system_namespace
edit_outside = refl

edit_foreign : is_operator_request edit ≡ false
unfolding is_operator_request
edit_foreign = refl

nothing_there : find_resource (manager_of without_database) [] ≡ none
unfolding find_resource
nothing_there = refl

reconcile_controller-is_denied_example :
    is_denied (handle (answer_from (reconcile_controller surroundings without_database []).0) edit)
    ≡ true
reconcile_controller-is_denied_example =
    reconcile_controller-is_denied surroundings without_database [] edit storing-KeepsLabels
      nothing_there controller_created refl edit_outside edit_foreign

claimed :
    surroundings.contains_finalizer with_bad_cpu.finalizers
      "multinic.example.com/operator-finalizer"
    ≡ true
unfolding any
claimed = refl

bad_cpu_unbuilt : first_built surroundings with_bad_cpu ≡ none
unfolding build_database_stateful_set get_database_resource_requirements
bad_cpu_unbuilt = refl

reconcile_operator_panics_example :
    ((reconcile_operator surroundings (world with_bad_cpu)).1 ≡ panicked
      → Reaches surroundings with_bad_cpu
        × IsCause surroundings with_bad_cpu
            (reconcile_operator surroundings (world with_bad_cpu)).0.cluster)
    × (Reaches surroundings with_bad_cpu
        → first_built surroundings with_bad_cpu ≡ none
        → reconcile_operator surroundings (world with_bad_cpu) ≡ (world with_bad_cpu, panicked))
reconcile_operator_panics_example =
    reconcile_operator_panics surroundings with_bad_cpu (world with_bad_cpu) refl

bad_cpu_panics :
    reconcile_operator surroundings (world with_bad_cpu) ≡ (world with_bad_cpu, panicked)
bad_cpu_panics =
    (reconcile_operator_panics surroundings with_bad_cpu (world with_bad_cpu) refl).1
      (refl, refl, claimed) bad_cpu_unbuilt
