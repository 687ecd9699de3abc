-- ===== src/Examples/Requests.antt =====
-- Requests to the webhook, before and after the protection is removed.
use multinic.Base.{◌≡◌, refl, String, true, false, not, ◌&&◌, [], ◌∷◌, none, some}
use multinic.Base.Dict.{load}
use multinic.Base.Int.{pos}
use multinic.Cluster.Objects.{service}
use multinic.Examples.Operators.{with_database, removals}
use multinic.Cluster.{Resource, find_resource, protection_label, operator_label}
use multinic.Webhook.{Request, handle, is_system_namespace, is_operator_request, is_guarded_kind}
use multinic.Webhook.Decision.{
  is_denied, is_errored, carries_protection, is_failure, handle_decision,
}
use multinic.Protection.{remove_protection}
use multinic.Protection.Removal.{manager_of, answer_from, manager_stays_denied}

abbrev deployed : Resource
deployed = record {
  kind = "Deployment";
  name = "multinic-controller-manager";
  namespace = "multinic-system";
  labels = some ((protection_label, "true") ∷ (operator_label, "op") ∷ []);
  annotations = [];
  owner = none;
  spec = service (record { selector = []; ports = []; type = ""; cluster_ip = "" });
  ready_replicas = pos 0;
}

abbrev scale : Request
scale = record { key = manager_of with_database; username = "kubernetes-admin" }

handle_decision_example :
    (is_denied (handle (answer_from (deployed ∷ [])) scale) ≡ (
      not (is_system_namespace "multinic-system")
      && (is_guarded_kind "Deployment"
          && carries_protection (answer_from (deployed ∷ []) (manager_of with_database)))
      && not (is_operator_request scale)))
    × (is_errored (handle (answer_from (deployed ∷ [])) scale) ≡ (
        not (is_system_namespace "multinic-system")
        && (is_guarded_kind "Deployment"
            && is_failure (answer_from (deployed ∷ []) (manager_of with_database)))))
handle_decision_example = handle_decision (answer_from (deployed ∷ [])) scale

deployed_found : find_resource (manager_of with_database) (deployed ∷ []) ≡ some deployed
unfolding find_resource
deployed_found = refl

deployed_marked :
    load {V = String} protection_label ((protection_label, "true") ∷ (operator_label, "op") ∷ [])
    ≡ some "true"
unfolding load
deployed_marked = refl

scale_outside : is_system_namespace "multinic-system" ≡ false
unfolding is_system_namespace
scale_outside = refl

scale_foreign : is_operator_request scale ≡ false
unfolding is_operator_request
scale_foreign = refl

manager_stays_denied_example :
    is_denied
      (handle (answer_from (remove_protection removals with_database (deployed ∷ []))) scale)
    ≡ true
manager_stays_denied_example =
    manager_stays_denied removals with_database (deployed ∷ []) deployed
      ((protection_label, "true") ∷ (operator_label, "op") ∷ []) scale deployed_found refl
      deployed_marked refl scale_outside scale_foreign
