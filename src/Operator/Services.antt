-- ===== src/Operator/Services.antt =====
-- buildDatabaseService.
use multinic.Base.{String, [], ◌∷◌, none, some, ◌==◌, ◌&&◌, if◌then◌else◌}
use multinic.Base.Int.{ℤ, pos, is_positive}
use multinic.Api.Operator.{MultiNicOperator}
use multinic.Cluster.{Resource}
use multinic.Cluster.Objects.{ServicePort, ServiceSpec, from_int, service}
use multinic.Operator.Workloads.{managed_labels, managed_by}

-- An empty or unknown type is a ClusterIP.
unfoldable pub service_type : MultiNicOperator → String
service_type operator =
    if operator.spec.database.service.type == "NodePort"
    then "NodePort"
    else if operator.spec.database.service.type == "LoadBalancer"
    then "LoadBalancer"
    else "ClusterIP"

unfoldable pub service_port : MultiNicOperator → ℤ
service_port operator =
    if is_positive operator.spec.database.service.port
    then operator.spec.database.service.port
    else pos 3306

-- The node port is set for a Service of type NodePort only, else it stays 0.
unfoldable pub service_node_port : MultiNicOperator → ℤ
service_node_port operator =
    if is_positive operator.spec.database.service.node_port && service_type operator == "NodePort"
    then operator.spec.database.service.node_port
    else pos 0

unfoldable pub database_port : MultiNicOperator → ServicePort
database_port operator = record {
  name = "mysql";
  port = service_port operator;
  target_port = from_int (pos 3306);
  node_port = service_node_port operator;
  protocol = "TCP";
}

unfoldable pub database_service_spec : MultiNicOperator → ServiceSpec
unfolding database_port
database_service_spec operator = record {
  selector = ("app", "mariadb") ∷ [];
  ports = database_port operator ∷ [];
  type = service_type operator;
  cluster_ip = "";
}

unfoldable pub build_database_service : MultiNicOperator → Resource
unfolding database_service_spec
build_database_service operator = record {
  kind = "Service";
  name = "mariadb";
  namespace = operator.namespace;
  labels = some (managed_labels "mariadb" "database" operator);
  annotations = managed_by operator;
  owner = none;
  spec = service (database_service_spec operator);
  ready_replicas = pos 0;
}
