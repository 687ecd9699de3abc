-- ===== src/Operator/Status.antt =====
-- reconcileComponents and updateStatusWithComponents.
use multinic.Base.{String, Bool, false, List, [], ◌∷◌, ◌++◌, none, some, map, if◌then◌else◌}
use multinic.Base.Strings.{concat}
use multinic.Api.{Time}
use multinic.Api.Operator.{MultiNicOperator, Condition}
use multinic.Cluster.{Resource}
use multinic.Protection.{apply_protection}
use multinic.Operator.Surroundings.{Surroundings, World}
use multinic.Operator.Apply.{
  Ending, finished, stopped, crashed, reconcile_database, reconcile_controller,
}
use multinic.Operator.Ready.{
  ComponentStatus, Readiness, check_database_readiness, check_controller_readiness,
  all_components_ready,
}

-- The cluster, the statuses so far, and how the function ends.
pub record Components : Type 0 where
  pub cluster : List Resource
  pub statuses : List ComponentStatus
  pub ending : Ending

abbrev pub component : String → Time → Readiness → ComponentStatus
component name at r = record {
  name = name;
  ready = r.ready;
  reason = r.reason;
  message = r.message;
  last_check = at;
}

abbrev pub failed_component : String → Time → String → ComponentStatus
failed_component name at e = record {
  name = name;
  ready = false;
  reason = "ReconcileError";
  message = e;
  last_check = at;
}

abbrev pub components : List Resource → List ComponentStatus → Ending → Components
components cluster statuses ending = record {
  cluster = cluster;
  statuses = statuses;
  ending = ending;
}

-- A failed protection is logged only.
unfoldable pub protect : Surroundings → MultiNicOperator → List Resource → List Resource
protect env operator cluster =
    if operator.spec.protection.enable_mutation_prevention
    then (apply_protection env.polls operator cluster).0
    else cluster

unfoldable pub after_controller :
    Surroundings → MultiNicOperator → List ComponentStatus → List Resource → Ending → Components
unfolding protect
after_controller env operator before c crashed = components c before crashed
after_controller env operator before c (stopped e) =
    components c (before ++ failed_component "controller" env.controller_check e ∷ [])
      (stopped (concat "controller reconciliation failed: " e))
after_controller env operator before c finished = elim (check_controller_readiness env operator c) [
  | none ↦ components c before crashed
  | some r ↦
      components (protect env operator c)
        (before ++ component "controller" env.controller_check r ∷ []) finished
]

unfoldable pub controller_component :
    Surroundings → MultiNicOperator → List ComponentStatus → List Resource → Components
unfolding after_controller
controller_component env operator before cluster =
    let (c, e) = reconcile_controller env operator cluster in
    after_controller env operator before c e

unfoldable pub after_database :
    Surroundings → MultiNicOperator → List Resource → Ending → Components
unfolding controller_component
after_database env operator c crashed = components c [] crashed
after_database env operator c (stopped e) =
    components c (failed_component "database" env.database_check e ∷ [])
      (stopped (concat "database reconciliation failed: " e))
after_database env operator c finished = elim (check_database_readiness env operator c) [
  | none ↦ components c [] crashed
  | some r ↦ controller_component env operator (component "database" env.database_check r ∷ []) c
]

unfoldable pub reconcile_components : Surroundings → MultiNicOperator → List Resource → Components
unfolding after_database controller_component
reconcile_components env operator cluster =
    if operator.spec.database.enabled
    then (let (c, e) = reconcile_database env operator cluster in after_database env operator c e)
    else controller_component env operator [] cluster

abbrev pub condition_status : Bool → String
condition_status ready = if ready then "True" else "False"

abbrev pub condition_of : ComponentStatus → Condition
condition_of s = record {
  type = concat s.name "Ready";
  status = condition_status s.ready;
  reason = s.reason;
  message = s.message;
  last_transition_time = s.last_check;
}

unfoldable pub conditions_of : Time → String → List ComponentStatus → List Condition
conditions_of now message statuses =
    record {
      type = "Ready";
      status = condition_status (all_components_ready statuses);
      reason = if all_components_ready statuses then "AllComponentsReady" else "ComponentsNotReady";
      message = message;
      last_transition_time = now;
    }
    ∷ map condition_of statuses

unfoldable pub with_components :
    Time → MultiNicOperator → String → String → List ComponentStatus → MultiNicOperator
unfolding conditions_of
with_components now operator phase message statuses = record operator {
  status = record (operator.status) {
    phase = phase;
    message = message;
    conditions = conditions_of now message statuses;
    observed_generation = operator.generation;
  };
}

-- A status that cannot be written is logged only.
unfoldable pub update_status_with_components :
    Surroundings → MultiNicOperator → String → String → List ComponentStatus → World → World
unfolding with_components
update_status_with_components env operator phase message statuses w = elim env.status_fault [
  | some e ↦ w
  | none ↦ record w { object = some (with_components env.now operator phase message statuses) }
]
