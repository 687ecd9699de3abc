-- ===== src/Operator/Ready.antt =====
-- checkDatabaseReadiness, checkControllerReadiness and allComponentsReady.
use multinic.Base.{
  String, Bool, true, false, List, [], ◌∷◌, Option, none, some, ok, err, if◌then◌else◌,
}
use multinic.Base.Int.{ℤ, is_zero, ltz, decimal}
use multinic.Base.Strings.{concat}
use multinic.Api.{Time}
use multinic.Api.Operator.{MultiNicOperator}
use multinic.Cluster.{Resource}
use multinic.Cluster.Objects.{Spec, workload, service}
use multinic.Protection.{Fault, not_found, fault_message, get, key_in}
use multinic.Operator.Surroundings.{Surroundings}

-- ComponentStatus of the controller package.
pub record ComponentStatus : Type 0 where
  pub name : String
  pub ready : Bool
  pub reason : String
  pub message : String
  pub last_check : Time

pub record Readiness : Type 0 where
  pub ready : Bool
  pub reason : String
  pub message : String

abbrev pub not_ready : String → String → Readiness
not_ready reason message = record { ready = false; reason = reason; message = message }

-- The field Spec.Replicas; only workloads are asked for it.
unfoldable pub replicas_of : Spec → Option ℤ
replicas_of (workload w) = w.replicas
replicas_of (service s) = none

-- "Database: %d/%d replicas ready"
abbrev pub partly_ready : String → ℤ → ℤ → String
partly_ready title m n =
    concat title
      (concat ": " (concat (decimal m) (concat "/" (concat (decimal n) " replicas ready"))))

-- The dereference of a nil pointer is a panic.
unfoldable pub compare_replicas : String → ℤ → Option ℤ → Option Readiness
compare_replicas title ready none = none
compare_replicas title ready (some n) =
    if ltz ready n
    then some (not_ready "PartiallyReady" (partly_ready title ready n))
    else some (record { ready = true; reason = "Ready"; message = concat title " is ready" })

unfoldable pub judge_readiness : String → Resource → Option Readiness
unfolding compare_replicas replicas_of
judge_readiness title r =
    if is_zero r.ready_replicas
    then some (not_ready "NotReady" (concat title " pods are not ready"))
    else compare_replicas title r.ready_replicas (replicas_of r.spec)

unfoldable pub missing_readiness : String → String → Fault → Readiness
unfolding fault_message
missing_readiness title what not_found = not_ready "NotFound" (concat title " not found")
missing_readiness title what f =
    not_ready "GetError" (concat "Failed to get " (concat what (concat ": " (fault_message f))))

unfoldable pub check_database_readiness :
    Surroundings → MultiNicOperator → List Resource → Option Readiness
unfolding get judge_readiness missing_readiness
check_database_readiness env operator cluster =
    elim (get env.database_fault (key_in operator "StatefulSet" "mariadb") cluster) [
      | err f ↦ some (missing_readiness "Database StatefulSet" "database StatefulSet" f)
      | ok r ↦ judge_readiness "Database" r
    ]

unfoldable pub check_controller_readiness :
    Surroundings → MultiNicOperator → List Resource → Option Readiness
unfolding get judge_readiness missing_readiness
check_controller_readiness env operator cluster =
    elim (get env.controller_fault (key_in operator "Deployment" "multinic-controller-manager")
      cluster) [
        | err f ↦ some (missing_readiness "Controller Deployment" "controller Deployment" f)
        | ok r ↦ judge_readiness "Controller" r
      ]

abbrev pub all_true : List ComponentStatus → Bool
all_true [] = true
all_true (s ∷ ss) = if s.ready then all_true ss else false

unfoldable pub all_components_ready : List ComponentStatus → Bool
all_components_ready [] = false
all_components_ready (s ∷ ss) = all_true (s ∷ ss)
