-- ===== src/Operator/Fresh.antt =====
-- The objects that the operator creates are protected from the start.
use multinic.Base.{
  String, true, false, ◌≡◌, refl, ◌∙◌, ap, sym, List, [], ◌∷◌, ◌++◌, none, some, ok,
}
use multinic.Base.Dict.{load}
use multinic.Api.Operator.{MultiNicOperator}
use multinic.Cluster.{Resource, resource_key, find_resource, protection_label}
use multinic.Cluster.Lookup.{find_resource-append, at_own}
use multinic.Protection.Removal.{manager_of, answer_from, answer_from_found}
use multinic.Webhook.{Request, handle, is_system_namespace, is_operator_request}
use multinic.Webhook.Decision.{is_denied, handle_decision}
use multinic.Operator.Workloads.{managed_labels}
use multinic.Operator.Surroundings.{Surroundings, Exchange}
use multinic.Operator.Apply.{Step, finished, owned, reconcile_controller}
use multinic.Operator.Ensured.{Ensured, refused, current, created, updated, ensure_object-Ensured}
use multinic.Operator.Finished.{reconcile_controller-finished}
use multinic.Operator.Convergence.{deployment-key}
use multinic.Operator.Unchanged.{built_spec}

-- The server keeps the key and the labels of what it stores.
abbrev pub KeepsLabels : Exchange → Type 0
KeepsLabels x =
    (r s : Resource) → x.write r ≡ ok s → (resource_key s ≡ resource_key r) × (s.labels ≡ r.labels)

Ensured-created :
    (operator : MultiNicOperator) (x : Exchange) (what : String) (d : Resource) (c : List Resource)
    (step : Step)
    → Ensured operator x what d c step
    → find_resource (resource_key d) c ≡ none
    → step.1 ≡ finished
    → (s : Resource) × (x.write (owned operator d) ≡ ok s) × (step.0 ≡ c ++ s ∷ [])
Ensured-created operator x what d c (_, _) (refused v e) missing h = cc
Ensured-created operator x what d c (_, _) (current r there same) missing h = cc
Ensured-created operator x what d c (_, _) (created s lost stored) missing h = (s, stored, refl)
Ensured-created operator x what d c (_, _) (updated r s there differ stored) missing h = cc

managed_labels-protected :
    (app component : String) (operator : MultiNicOperator)
    → load protection_label (managed_labels app component operator) ≡ some "true"
unfolding load
managed_labels-protected app component operator = refl

-- Where there was no Deployment and the step for it ends without an error, the webhook denies from
-- then on every request on it from another account than the operator's, outside the system
-- namespaces, whether the specification enables the prevention of mutations or not. The server is
-- taken to keep the key and the labels of what it stores.
pub reconcile_controller-is_denied :
    (env : Surroundings) (operator : MultiNicOperator) (c : List Resource) (request : Request)
    → KeepsLabels env.deployment
    → find_resource (manager_of operator) c ≡ none
    → (reconcile_controller env operator c).1 ≡ finished
    → request.key ≡ manager_of operator
    → is_system_namespace request.namespace ≡ false
    → is_operator_request request ≡ false
    → is_denied (handle (answer_from (reconcile_controller env operator c).0) request) ≡ true
reconcile_controller-is_denied env operator c request keeps missing h at outside other =
    let (d, built, same) = reconcile_controller-finished env operator c h in
    let (q, _, labelled) = built_spec env.must_parse operator d built in
    let key = deployment-key env.must_parse operator d built in
    let (s, stored, new) =
      Ensured-created operator env.deployment "controller Deployment" d c _
        (ensure_object-Ensured operator env.deployment "controller Deployment" d c)
        (ap (λ k. find_resource k c) key ∙ missing) (sym (ap (λ x. x.1) same) ∙ h) in
    let (key', labels) = keeps _ s stored in
    let c' = (reconcile_controller env operator c).0 in
    let there : find_resource (manager_of operator) c' ≡ some s =
      ap (λ x. find_resource (manager_of operator) x) (ap (λ x. x.0) same ∙ new)
      ∙ find_resource-append (manager_of operator) s c missing
          (at_own (manager_of operator) s (key' ∙ key)) in
    (handle_decision (answer_from c') request).0
    ∙ rw
        (
          outside,
          other,
          at,
          answer_from_found c' (manager_of operator) s
              (managed_labels "multinic-controller" "controller" operator) there
              (labels ∙ labelled),
          managed_labels-protected,
        )
        refl
