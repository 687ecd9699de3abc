-- ===== src/Protection/Removal.antt =====
-- What removing the protection leaves on the cluster, and what the webhook then decides.
use multinic.Base.{
  String, true, false, ◌≡◌, refl, ◌∙◌, List, Option, none, some, ok, err, inl, inr, Bool-cases,
  Result-cases, if◌then◌else◌,
}
use multinic.Base.Dict.{Dict, load}
use multinic.Api.Operator.{MultiNicOperator}
use multinic.Cluster.{
  Resource, Key, protection_label, find_resource, same_key, find_resource-set_labels,
}
use multinic.Webhook.{Request, LabelAnswer, handle, is_system_namespace, is_operator_request}
use multinic.Webhook.Decision.{is_denied, handle_decision}
use multinic.Protection.{
  Removals, Round, Fault, key_in, get, put_without, remove_protection_labels, remove_protection,
  is_workload_kind,
}

put_without-find :
    (fault : Option Fault) (j k : Key) (r : Resource) (cluster : List Resource)
    → same_key j k ≡ false
    → find_resource j (put_without fault k r cluster).0 ≡ find_resource j cluster
unfolding put_without
put_without-find none j k r cluster h = find_resource-set_labels j k _ cluster h
put_without-find (some f) j k r cluster h = refl

pub remove_labels-find :
    (round : Round) (j k : Key) (cluster : List Resource)
    → same_key j k ≡ false
    → find_resource j (remove_protection_labels round k cluster).0 ≡ find_resource j cluster
unfolding remove_protection_labels
remove_labels-find round j k cluster h = elim (Bool-cases (is_workload_kind k.kind)) [
  | inl workload ↦ (elim (Result-cases (get round.get_fault k cluster)) [
    | inl (r, found) ↦ rw (workload, found) (put_without-find round.update_fault j k r cluster h)
    | inr (e, failed) ↦ rw (workload, failed) refl
  ])
  | inr strange ↦ rw strange refl
]

abbrev pub manager_of : MultiNicOperator → Key
manager_of operator = key_in operator "Deployment" "multinic-controller-manager"

-- No removal of the protection, whatever fails in it, changes the Deployment that the operator
-- deploys and protects as `multinic-controller-manager`: the removal names `multinic-controller`.
remove_protection-manager :
    (faults : Removals) (operator : MultiNicOperator) (cluster : List Resource)
    → find_resource (manager_of operator) (remove_protection faults operator cluster)
      ≡ find_resource (manager_of operator) cluster
unfolding remove_protection
remove_protection-manager faults operator cluster =
    remove_labels-find faults.deployment (manager_of operator)
      (key_in operator "Deployment" "multinic-controller")
      (if operator.spec.database.enabled
        then (remove_protection_labels faults.service (key_in operator "Service" "mariadb")
            (remove_protection_labels faults.stateful_set (key_in operator "StatefulSet" "mariadb")
              cluster).0).0
        else cluster)
      refl
    ∙ elim (Bool-cases operator.spec.database.enabled) [
      | inl enabled ↦ rw enabled (
          remove_labels-find faults.service (manager_of operator)
            (key_in operator "Service" "mariadb")
            (remove_protection_labels faults.stateful_set (key_in operator "StatefulSet" "mariadb")
              cluster).0
            refl
          ∙ remove_labels-find faults.stateful_set (manager_of operator)
              (key_in operator "StatefulSet" "mariadb") cluster refl)
      | inr disabled ↦ rw disabled refl
    ]

-- What the webhook's Get answers from a cluster.
unfoldable pub answer_from : List Resource → Key → LabelAnswer
answer_from cluster k = elim (find_resource k cluster) [
  | none ↦ err "not found"
  | some r ↦ ok r.labels
]

pub answer_from_found :
    (cluster : List Resource) (k : Key) (d : Resource) (labels : Dict String)
    → find_resource k cluster ≡ some d
    → d.labels ≡ some labels
    → answer_from cluster k ≡ ok (some labels)
unfolding answer_from
answer_from_found cluster k d labels found labelled = rw (found, labelled, answer_from) refl

-- If the Deployment that the operator deploys as `multinic-controller-manager` carries the protection
-- label, then after the removal of the protection the webhook still denies every request on it from
-- another account than the operator's, outside the system namespaces.
pub manager_stays_denied :
    (faults : Removals) (operator : MultiNicOperator) (cluster : List Resource) (d : Resource)
    (labels : Dict String) (r : Request)
    → find_resource (manager_of operator) cluster ≡ some d
    → d.labels ≡ some labels
    → load protection_label labels ≡ some "true"
    → r.key ≡ manager_of operator
    → is_system_namespace r.namespace ≡ false
    → is_operator_request r ≡ false
    → is_denied (handle (answer_from (remove_protection faults operator cluster)) r) ≡ true
manager_stays_denied faults operator cluster d labels r found labelled marked at outside other =
    (handle_decision (answer_from (remove_protection faults operator cluster)) r).0
    ∙ rw
        (
          outside,
          other,
          at,
          answer_from_found (remove_protection faults operator cluster) (manager_of operator) d
              labels (remove_protection-manager faults operator cluster ∙ found) labelled,
          marked,
        )
        refl
