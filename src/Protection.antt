-- ===== src/Protection.antt =====
-- The protection labels the operator puts on the workloads and takes off again: applyProtection in
-- MultiNic/internal/controller/multinicoperator_controller.go, addProtectionLabels,
-- removeProtection and removeProtectionLabels in multinicoperator_helpers.go.
--
-- A call of the API server fails when the server says so: the faults are arguments. The rounds of
-- the poll are a list, one pair of faults (of the Get and of the Update) for each round that starts
-- before the five seconds are over.
pub mod Removal
pub mod Labelling
use multinic.Base.{
  String, Bool, true, false, ◌≡◌, List, [], ◌∷◌, Option, none, some, Result, ok, err, if◌then◌else◌,
  ◌==◌, ◌||◌,
}
use multinic.Base.Strings.{concat}
use multinic.Base.Dict.{Dict, store, delete}
use multinic.Api.Operator.{MultiNicOperator}
use multinic.Cluster.{Resource, Key, protection_label, operator_label, find_resource, set_labels}

-- How a call fails, when it is not for the state of the cluster.
pub data Fault : Type 0 where
  not_found : Fault
  conflict : Fault
  other : String → Fault

pub record Round : Type 0 where
  pub get_fault : Option Fault
  pub update_fault : Option Fault

-- What one round of the poll decides: poll again, or stop with or without an error. Only the last
-- changes the cluster.
pub data Verdict : Type 0 where
  again : Verdict
  failed : String → Verdict
  updated : List Resource → Verdict

abbrev pub is_workload_kind : String → Bool
is_workload_kind kind = (kind == "StatefulSet" || kind == "Deployment") || kind == "Service"

unfoldable pub fault_message : Fault → String
fault_message not_found = "not found"
fault_message conflict = "conflict"
fault_message (other e) = e

-- A nil map is made first, then each label is stored.
unfoldable pub with_labels : List (String × String) → Option (Dict String) → Dict String
with_labels [] none = []
with_labels [] (some old) = old
with_labels ((k, v) ∷ rest) old = store k v (with_labels rest old)

-- client.Get.
unfoldable pub get : Option Fault → Key → List Resource → Result Fault Resource
get (some f) key cluster = err f
get none key cluster = elim (find_resource key cluster) [ none ↦ err not_found | some r ↦ ok r ]

unfoldable pub after_get_fault : Fault → Verdict
unfolding fault_message
after_get_fault not_found = again
after_get_fault conflict = failed (fault_message conflict)
after_get_fault (other e) = failed e

unfoldable pub after_update : Option Fault → List Resource → Verdict
unfolding fault_message
after_update none cluster = updated cluster
after_update (some conflict) cluster = again
after_update (some not_found) cluster = failed (fault_message not_found)
after_update (some (other e)) cluster = failed e

unfoldable pub label_round : Round → Key → List (String × String) → List Resource → Verdict
unfolding get after_get_fault after_update
label_round round key labels cluster = elim (get round.get_fault key cluster) [
  | err f ↦ after_get_fault f
  | ok r ↦
      after_update round.update_fault (set_labels key (some (with_labels labels r.labels)) cluster)
]

-- The cluster afterwards, and the error the function returns.
abbrev pub Applied : Type 0
Applied = List Resource × Option String

unfoldable pub add_protection_labels :
    List Round → Key → List (String × String) → List Resource → Applied
add_protection_labels [] key labels cluster =
    (cluster, if is_workload_kind key.kind then some "context deadline exceeded" else none)
add_protection_labels (round ∷ rounds) key labels cluster =
    let rest = add_protection_labels rounds key labels cluster in
    if is_workload_kind key.kind
    then (elim (label_round round key labels cluster) [
      | again ↦ rest
      | failed e ↦ (cluster, some e)
      | updated c ↦ (c, none)
    ])
    else (cluster, none)

abbrev pub protection_labels : MultiNicOperator → List (String × String)
protection_labels operator = (protection_label, "true") ∷ (operator_label, operator.name) ∷ []

abbrev pub key_in : MultiNicOperator → String → String → Key
key_in operator kind name = record { kind = kind; name = name; namespace = operator.namespace }

-- The rounds of the three polls.
pub record Polls : Type 0 where
  pub stateful_set : List Round
  pub deployment : List Round
  pub service : List Round

-- `if err := ...; err != nil { return fmt.Errorf(prefix + ": %w", err) }`, then the next step.
unfoldable pub and_then : String → (List Resource → Applied) → Applied → Applied
and_then prefix next (cluster, some e) = (cluster, some (concat prefix e))
and_then prefix next (cluster, none) = next cluster

unfoldable pub protect_service : Polls → MultiNicOperator → List Resource → Applied
protect_service polls operator cluster =
    and_then "failed to apply protection to Service: " (λ c. (c, none))
      (add_protection_labels polls.service (key_in operator "Service" "mariadb")
        (protection_labels operator) cluster)

unfoldable pub protect_deployment : Polls → MultiNicOperator → List Resource → Applied
protect_deployment polls operator cluster =
    and_then "failed to apply protection to Deployment: " (protect_service polls operator) (
      add_protection_labels polls.deployment
        (key_in operator "Deployment" "multinic-controller-manager") (protection_labels operator)
        cluster)

unfoldable pub apply_protection : Polls → MultiNicOperator → List Resource → Applied
apply_protection polls operator cluster =
    and_then "failed to apply protection to StatefulSet: " (protect_deployment polls operator) (
      add_protection_labels polls.stateful_set (key_in operator "StatefulSet" "mariadb")
        (protection_labels operator) cluster)

unfoldable pub without_protection : Option (Dict String) → Option (Dict String)
without_protection none = none
without_protection (some labels) = some (delete operator_label (delete protection_label labels))

unfoldable pub put_without : Option Fault → Key → Resource → List Resource → Applied
unfolding without_protection fault_message
put_without none key r cluster = (set_labels key (without_protection r.labels) cluster, none)
put_without (some f) key r cluster = (cluster, some (fault_message f))

unfoldable pub remove_protection_labels : Round → Key → List Resource → Applied
unfolding get put_without fault_message
remove_protection_labels round key cluster =
    if is_workload_kind key.kind
    then (elim (get round.get_fault key cluster) [
      | err f ↦ (cluster, some (fault_message f))
      | ok r ↦ put_without round.update_fault key r cluster
    ])
    else (cluster, none)

-- The faults of the three removals.
pub record Removals : Type 0 where
  pub stateful_set : Round
  pub service : Round
  pub deployment : Round

-- The errors of the removals are dropped.
unfoldable pub remove_protection : Removals → MultiNicOperator → List Resource → List Resource
unfolding remove_protection_labels
remove_protection faults operator cluster =
    let c =
      if operator.spec.database.enabled
      then (remove_protection_labels faults.service (key_in operator "Service" "mariadb")
          (remove_protection_labels faults.stateful_set (key_in operator "StatefulSet" "mariadb")
            cluster).0).0
      else cluster in
    (remove_protection_labels faults.deployment (key_in operator "Deployment" "multinic-controller")
      c).0
