-- ===== src/Webhook/Decision.antt =====
-- Which requests the webhook refuses (Handle).
use multinic.Base.{
  String, Bool, true, false, not, ◌&&◌, ◌≡◌, refl, Result, ok, err, none, some, arith, inl, inr,
  Bool-cases, Result-cases, if◌then◌else◌,
}
use multinic.Base.Dict.{load}
use multinic.Cluster.{Key, protection_label}
use multinic.Webhook.{
  Request, Response, allowed, errored, denied, LabelAnswer, is_system_namespace, is_guarded_kind,
  is_true_label, read_labels, is_resource_protected, is_operator_request, judge, handle,
}

abbrev pub is_denied : Response → Bool
is_denied (allowed _) = false
is_denied (errored _ _) = false
is_denied (denied _) = true

abbrev pub is_errored : Response → Bool
is_errored (allowed _) = false
is_errored (errored _ _) = true
is_errored (denied _) = false

-- The label map of the answer has the protection label with the value "true".
abbrev pub carries_protection : LabelAnswer → Bool
carries_protection (err _) = false
carries_protection (ok none) = false
carries_protection (ok (some labels)) = is_true_label (load protection_label labels)

abbrev pub is_failure : LabelAnswer → Bool
is_failure (err _) = true
is_failure (ok _) = false

found_lem :
    (get : Key → LabelAnswer) (r : Request)
    → (elim (is_resource_protected get r) [ err e ↦ false | ok (p, o) ↦ p ]
        ≡ (is_guarded_kind r.kind && carries_protection (get r.key)))
      × (elim (is_resource_protected get r) [ err e ↦ true | ok po ↦ false ]
          ≡ (is_guarded_kind r.kind && is_failure (get r.key)))
unfolding is_resource_protected read_labels
found_lem get r = elim (Bool-cases (is_guarded_kind r.kind)) [
  | inl hit ↦ (elim (Result-cases (get r.key)) [
    | inl (none, at) ↦ (rw (hit, at) refl, rw (hit, at) refl)
    | inl (some labels, at) ↦ (rw (hit, at) refl, rw (hit, at) refl)
    | inr (e, at) ↦ (rw (hit, at) refl, rw (hit, at) refl)
  ])
  | inr miss ↦ (rw miss refl, rw miss refl)
]

decided :
    (system : Bool) (r : Request) (found : Result String (Bool × String)) (p e : Bool)
    → (elim found [ err m ↦ false | ok (q, o) ↦ q ] ≡ p)
    → (elim found [ err m ↦ true | ok qo ↦ false ] ≡ e)
    → (is_denied
          (if system then allowed "System namespace operations are allowed" else judge r found)
        ≡ (not system && p && not (is_operator_request r)))
      × (is_errored
            (if system then allowed "System namespace operations are allowed" else judge r found)
          ≡ (not system && e))
unfolding judge
decided system r (err m) p e hp he = (ground arith, ground arith)
decided system r (ok (q, o)) p e hp he = (ground arith, ground arith)

-- A request is denied exactly if it is for a Deployment, StatefulSet or Service outside the system
-- namespaces that carries the protection label, and does not come from the operator's account; it
-- ends in an error exactly if such an object outside the system namespaces cannot be read, whoever
-- asks.
pub handle_decision :
    (get : Key → LabelAnswer) (r : Request)
    → (is_denied (handle get r) ≡ (
        not (is_system_namespace r.namespace)
        && (is_guarded_kind r.kind && carries_protection (get r.key))
        && not (is_operator_request r)))
      × (is_errored (handle get r) ≡ (
          not (is_system_namespace r.namespace)
          && (is_guarded_kind r.kind && is_failure (get r.key))))
unfolding handle
handle_decision get r =
    decided (is_system_namespace r.namespace) r (is_resource_protected get r) _ _
      (found_lem get r).0 (found_lem get r).1
