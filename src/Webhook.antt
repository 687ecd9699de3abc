-- ===== src/Webhook.antt =====
-- The admission webhook that guards protected workloads,
-- MultiNic/internal/webhook/multinic_protection_webhook.go. What the API server answers to the
-- webhook's Get is an argument: an error, or the object's labels.
pub mod Decision
use multinic.Base.{
  ℕ, String, Bool, true, false, not, ◌&&◌, ◌||◌, List, [], ◌∷◌, Option, none, some, Result, ok, err,
  ◌==◌, if◌then◌else◌,
}
use multinic.Base.Strings.{concat}
use multinic.Base.Dict.{Dict, load}
use multinic.Cluster.{Key, protection_label, operator_label}

-- admission.Request, as far as it is read.
pub record Request : Type 0 where
  pub key : Key
  pub open key use *
  pub username : String

pub data Response : Type 0 where
  allowed : String → Response
  errored : ℕ → String → Response
  denied : String → Response

abbrev pub LabelAnswer : Type 0
LabelAnswer = Result String (Option (Dict String))

abbrev pub system_namespaces : List String
system_namespaces = "kube-system" ∷ "kube-public" ∷ "kube-node-lease" ∷ "default" ∷ []

unfoldable pub is_listed : String → List String → Bool
is_listed s [] = false
is_listed s (n ∷ ns) = if s == n then true else is_listed s ns

unfoldable pub is_system_namespace : String → Bool
unfolding is_listed
is_system_namespace ns = is_listed ns system_namespaces

abbrev pub is_guarded_kind : String → Bool
is_guarded_kind kind = (kind == "Deployment" || kind == "StatefulSet") || kind == "Service"

abbrev pub value_or_empty : Option String → String
value_or_empty none = ""
value_or_empty (some v) = v

abbrev pub is_true_label : Option String → Bool
is_true_label none = false
is_true_label (some v) = v == "true"

unfoldable pub read_labels : Option (Dict String) → Bool × String
read_labels none = (false, "")
read_labels (some labels) =
    (is_true_label (load protection_label labels), value_or_empty (load operator_label labels))

unfoldable pub is_resource_protected : (Key → LabelAnswer) → Request → Result String (Bool × String)
unfolding read_labels
is_resource_protected get r =
    if is_guarded_kind r.kind
    then (elim (get r.key) [ err e ↦ err e | ok labels ↦ ok (read_labels labels) ])
    else ok (false, "")

unfoldable pub is_operator_request : Request → Bool
is_operator_request r = r.username == "system:serviceaccount:multinic-system:multinic-operator"

abbrev pub refusal : String → String
refusal operator_name =
    concat
      "Direct modification of MultiNic protected resource is not allowed. This resource is managed by MultiNicOperator '"
      (concat operator_name "'. Please modify the MultiNicOperator configuration instead.")

unfoldable pub judge : Request → Result String (Bool × String) → Response
unfolding is_operator_request
judge r (err e) = errored 500 e
judge r (ok (protected, operator_name)) =
    if not protected
    then allowed "Resource is not protected"
    else if is_operator_request r
    then allowed "Operation from MultiNic Operator is allowed"
    else denied (refusal operator_name)

unfoldable pub handle : (Key → LabelAnswer) → Request → Response
unfolding is_resource_protected judge
handle get r =
    if is_system_namespace r.namespace
    then allowed "System namespace operations are allowed"
    else judge r (is_resource_protected get r)
