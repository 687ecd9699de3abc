-- ===== src/Operator/Apply.antt =====
-- reconcileDatabase and reconcileController: each managed object is created where it is missing and
-- updated where it differs.
use multinic.Base.{String, List, [], ◌∷◌, ◌++◌, none, some, ok, err, if◌then◌else◌}
use multinic.Base.Strings.{concat}
use multinic.Api.Operator.{MultiNicOperator}
use multinic.Cluster.{Resource, resource_key, replace_resource}
use multinic.Cluster.Objects.{Spec, service}
use multinic.Protection.{Fault, not_found, conflict, other, fault_message, get}
use multinic.Operator.Workloads.{build_database_stateful_set, build_controller_deployment}
use multinic.Operator.Services.{build_database_service}
use multinic.Operator.Compare.{needs_update}
use multinic.Operator.Surroundings.{Exchange, Surroundings}

-- How a step ends: without an error, with one, or by a panic.
pub data Ending : Type 0 where
  finished : Ending
  stopped : String → Ending
  crashed : Ending

abbrev pub Step : Type 0
Step = List Resource × Ending

-- The first error or panic ends the function.
unfoldable pub continue : (List Resource → Step) → Step → Step
continue next (cluster, finished) = next cluster
continue next (cluster, stopped e) = (cluster, stopped e)
continue next (cluster, crashed) = (cluster, crashed)

-- SetControllerReference on a fresh object.
abbrev pub owned : MultiNicOperator → Resource → Resource
owned operator r = record r { owner = some operator.name }

-- `fmt.Errorf("failed to " + verb + what + ": %w", err)`
abbrev pub failure : String → String → String → Ending
failure verb what e = stopped (concat "failed to " (concat verb (concat what (concat ": " e))))

-- An update keeps the cluster address of a Service.
unfoldable pub renew : Spec → Spec → Spec
renew (service existing) (service desired) =
    service (record desired { cluster_ip = existing.cluster_ip })
renew existing desired = desired

unfoldable pub create_object : Exchange → String → Resource → List Resource → Step
unfolding fault_message
create_object x what desired cluster = elim (x.write desired) [
  | ok stored ↦ (cluster ++ stored ∷ [], finished)
  | err f ↦ (cluster, failure "create " what (fault_message f))
]

unfoldable pub update_object : Exchange → String → Resource → Resource → List Resource → Step
unfolding renew fault_message
update_object x what found desired cluster =
    elim (x.write (record found { spec = renew found.spec desired.spec })) [
      | ok stored ↦ (replace_resource (resource_key desired) stored cluster, finished)
      | err f ↦ (cluster, failure "update " what (fault_message f))
    ]

unfoldable pub on_found : Exchange → String → Resource → Resource → List Resource → Step
unfolding update_object
on_found x what found desired cluster =
    if needs_update found.spec desired.spec
    then update_object x what found desired cluster
    else (cluster, finished)

unfoldable pub on_fault : Exchange → String → Fault → Resource → List Resource → Step
unfolding create_object fault_message
on_fault x what not_found desired cluster = create_object x what desired cluster
on_fault x what conflict desired cluster = (cluster, failure "get " what (fault_message conflict))
on_fault x what (other e) desired cluster = (cluster, failure "get " what e)

-- SetControllerReference, Get, and Create or Update: the three objects go through the same calls.
unfoldable pub ensure_object :
    MultiNicOperator → Exchange → String → Resource → List Resource → Step
unfolding get on_found on_fault
ensure_object operator x what desired cluster = elim x.reference_fault [
  | some e ↦ (cluster, failure "set controller reference for " what e)
  | none ↦ elim (get x.get_fault (resource_key desired) cluster) [
    | ok found ↦ on_found x what found (owned operator desired) cluster
    | err f ↦ on_fault x what f (owned operator desired) cluster
  ]
]

unfoldable pub reconcile_service : Surroundings → MultiNicOperator → List Resource → Step
unfolding build_database_service
reconcile_service env operator cluster =
    ensure_object operator env.service "database Service" (build_database_service operator) cluster

unfoldable pub reconcile_database : Surroundings → MultiNicOperator → List Resource → Step
unfolding continue reconcile_service
reconcile_database env operator cluster =
    elim (build_database_stateful_set env.must_parse operator) [
      | none ↦ (cluster, crashed)
      | some r ↦
          continue (reconcile_service env operator)
            (ensure_object operator env.stateful_set "database StatefulSet" r cluster)
    ]

unfoldable pub reconcile_controller : Surroundings → MultiNicOperator → List Resource → Step
reconcile_controller env operator cluster =
    elim (build_controller_deployment env.must_parse operator) [
      | none ↦ (cluster, crashed)
      | some r ↦ ensure_object operator env.deployment "controller Deployment" r cluster
    ]
