-- ===== src/Examples/Protecting.antt =====
-- Applying the protection with and without a database.
use multinic.Base.{◌≡◌, refl, String, List, [], ◌∷◌, none, some}
use multinic.Base.Int.{pos}
use multinic.Cluster.Objects.{service}
use multinic.Examples.Operators.{with_database, polls}
use multinic.Cluster.{Resource, find_resource, set_labels}
use multinic.Protection.{
  apply_protection, key_in, add_protection_labels, label_round, protect_deployment, protect_service,
  and_then,
}
use multinic.Protection.Labelling.{
  AllProtected, apply_protection_protects, apply_protection_without_database,
}

abbrev labelled : String → String → Resource
labelled k n = record {
  kind = k;
  name = n;
  namespace = "multinic-system";
  labels = none;
  annotations = [];
  owner = none;
  spec = service (record { selector = []; ports = []; type = ""; cluster_ip = "" });
  ready_replicas = pos 0;
}

abbrev controller_only : List Resource
controller_only = labelled "Deployment" "multinic-controller-manager" ∷ []

abbrev installation : List Resource
installation = labelled "StatefulSet" "mariadb" ∷ labelled "Service" "mariadb" ∷ controller_only

installation_labelled : (apply_protection polls with_database installation).1 ≡ none
unfolding apply_protection protect_deployment protect_service and_then add_protection_labels
    label_round find_resource set_labels
installation_labelled = refl

apply_protection_protects_example :
    AllProtected with_database (apply_protection polls with_database installation).0
apply_protection_protects_example =
    apply_protection_protects polls with_database installation installation_labelled

no_database : find_resource (key_in with_database "StatefulSet" "mariadb") controller_only ≡ none
unfolding find_resource
no_database = refl

apply_protection_without_database_example :
    (e : String) × (apply_protection polls with_database controller_only
      ≡ (controller_only, some e))
apply_protection_without_database_example =
    apply_protection_without_database polls with_database controller_only no_database
