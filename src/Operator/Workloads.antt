-- ===== src/Operator/Workloads.antt =====
-- buildDatabaseStatefulSet and buildControllerDeployment. Where a quantity does not parse, there is
-- no object: the builder panics.
use multinic.Base.{ℕ, String, true, false, not, [], ◌∷◌, Option, none, some, ◌==◌, if◌then◌else◌}
use multinic.Base.Int.{ℤ, pos, is_positive}
use multinic.Base.Dict.{Dict}
use multinic.Base.Options.{◌>>=◌}
use multinic.Base.Strings.{concat}
use multinic.Api.Operator.{MultiNicOperator}
use multinic.Cluster.{Resource, protection_label, operator_label}
use multinic.Cluster.Objects.{
  Quantity, ContainerPort, Container, Probe, ProbeHandler, exec, http_get, ResourceRequirements,
  WorkloadSpec, workload,
}
use multinic.Operator.Credentials.{
  get_database_password, build_database_env_vars, build_controller_env_vars,
}
use multinic.Operator.Quantities.{
  MustParse, get_database_resource_requirements, get_controller_resource_requirements,
}

-- The labels that both builders and the builder of the Service write.
abbrev pub managed_labels : String → String → MultiNicOperator → Dict String
managed_labels app component operator =
    ("app", app)
    ∷ ("component", component)
    ∷ (operator_label, operator.name)
    ∷ (protection_label, "true")
    ∷ []

abbrev pub managed_by : MultiNicOperator → Dict String
managed_by operator = ("multinic.example.com/managed-by", operator.name) ∷ []

-- The value of a field, or its default where it is empty.
unfoldable pub or_default : String → String → String
or_default value default = if not (value == "") then value else default

abbrev tcp_port : ℕ → String → ContainerPort
tcp_port n name = record { container_port = n; name = name; protocol = "TCP" }

abbrev probe : ProbeHandler → ℕ → ℕ → ℕ → ℕ → Probe
probe handler delay period timeout threshold = record {
  handler = handler;
  initial_delay_seconds = delay;
  period_seconds = period;
  timeout_seconds = timeout;
  failure_threshold = threshold;
}

abbrev ping : MultiNicOperator → ProbeHandler
ping operator = exec (
    "mysqladmin"
    ∷ "ping"
    ∷ "-h"
    ∷ "localhost"
    ∷ "-u"
    ∷ "root"
    ∷ concat "-p" (get_database_password operator "root")
    ∷ [])

abbrev select_one : MultiNicOperator → ProbeHandler
select_one operator = exec (
    "mysql"
    ∷ "-h"
    ∷ "localhost"
    ∷ "-u"
    ∷ "root"
    ∷ concat "-p" (get_database_password operator "root")
    ∷ "-e"
    ∷ "SELECT 1"
    ∷ [])

unfoldable pub database_container : MultiNicOperator → ResourceRequirements → Container
unfolding build_database_env_vars or_default
database_container operator resources = record {
  name = "mariadb";
  image = or_default operator.spec.database.image "mariadb:10.11";
  image_pull_policy = "IfNotPresent";
  command = [];
  args = [];
  env = build_database_env_vars operator;
  ports = tcp_port 3306 "mysql" ∷ [];
  volume_mounts = record { name = "mysql-storage"; mount_path = "/var/lib/mysql" } ∷ [];
  security_context = record {
    allow_privilege_escalation = false;
    read_only_root_filesystem = false;
    drop = "ALL" ∷ [];
    add = "CHOWN" ∷ "DAC_OVERRIDE" ∷ "SETGID" ∷ "SETUID" ∷ [];
  };
  liveness_probe = some (probe (ping operator) 30 10 5 3);
  readiness_probe = some (probe (select_one operator) 5 5 3 3);
  startup_probe = some (probe (ping operator) 10 5 3 30);
  resources = resources;
}

unfoldable pub database_spec : MultiNicOperator → ResourceRequirements → Quantity → WorkloadSpec
unfolding database_container
database_spec operator resources storage = record {
  service_name = "mariadb";
  replicas = some (pos 1);
  selector = ("app", "mariadb") ∷ [];
  template = record {
    labels = managed_labels "mariadb" "database" operator;
    service_account_name = "";
    security_context = record {
      run_as_non_root = some true;
      run_as_user = some 999;
      fs_group = some 999;
    };
    containers = database_container operator resources ∷ [];
    volumes = [];
  };
  volume_claim_templates =
      record {
        name = "mysql-storage";
        access_modes = "ReadWriteOnce" ∷ [];
        requests = ("storage", storage) ∷ [];
      }
      ∷ [];
}

unfoldable pub build_database_stateful_set : MustParse → MultiNicOperator → Option Resource
unfolding or_default
build_database_stateful_set must_parse operator = do
  resources ← get_database_resource_requirements must_parse operator.spec.database.resources
  storage ← must_parse (or_default operator.spec.database.storage_size "10Gi")
  some (record {
    kind = "StatefulSet";
    name = "mariadb";
    namespace = operator.namespace;
    labels = some (managed_labels "mariadb" "database" operator);
    annotations = managed_by operator;
    owner = none;
    spec = workload (database_spec operator resources storage);
    ready_replicas = pos 0;
  })

unfoldable pub controller_replicas : MultiNicOperator → ℤ
controller_replicas operator =
    if is_positive operator.spec.controller.replicas
    then operator.spec.controller.replicas
    else pos 1

unfoldable pub controller_container : MultiNicOperator → ResourceRequirements → Container
unfolding build_controller_env_vars or_default
controller_container operator resources = record {
  name = "manager";
  image = or_default operator.spec.controller.image "multinic:v1alpha1";
  image_pull_policy = "IfNotPresent";
  command = "/manager" ∷ [];
  args =
      "--health-probe-bind-address=:8082" ∷ "--metrics-bind-address=:8080" ∷ "--leader-elect" ∷ [];
  env = build_controller_env_vars operator;
  ports = tcp_port 8080 "metrics" ∷ tcp_port 8082 "health" ∷ [];
  volume_mounts = record { name = "tmp"; mount_path = "/tmp" } ∷ [];
  security_context = record {
    allow_privilege_escalation = false;
    read_only_root_filesystem = true;
    drop = "ALL" ∷ [];
    add = [];
  };
  liveness_probe = some (probe (http_get "/healthz" 8082 "HTTP") 15 20 5 3);
  readiness_probe = some (probe (http_get "/readyz" 8082 "HTTP") 5 10 3 3);
  startup_probe = none;
  resources = resources;
}

unfoldable pub controller_spec : MultiNicOperator → ResourceRequirements → WorkloadSpec
unfolding controller_container controller_replicas
controller_spec operator resources = record {
  service_name = "";
  replicas = some (controller_replicas operator);
  selector = ("app", "multinic-controller") ∷ [];
  template = record {
    labels = managed_labels "multinic-controller" "controller" operator;
    service_account_name = "multinic-operator";
    security_context = record { run_as_non_root = some true; run_as_user = none; fs_group = none };
    containers = controller_container operator resources ∷ [];
    volumes = "tmp" ∷ [];
  };
  volume_claim_templates = [];
}

unfoldable pub build_controller_deployment : MustParse → MultiNicOperator → Option Resource
build_controller_deployment must_parse operator = do
  resources ← get_controller_resource_requirements must_parse operator.spec.controller.resources
  some (record {
    kind = "Deployment";
    name = "multinic-controller-manager";
    namespace = operator.namespace;
    labels = some (managed_labels "multinic-controller" "controller" operator);
    annotations = managed_by operator;
    owner = none;
    spec = workload (controller_spec operator resources);
    ready_replicas = pos 0;
  })
