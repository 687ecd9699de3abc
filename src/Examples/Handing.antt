-- ===== src/Examples/Handing.antt =====
-- The environments of the two containers, with default and with given credentials.
use multinic.Base.{String, ◌≡◌, refl, List, [], ◌∷◌, Option, none, some, ◌==◌, if◌then◌else◌}
use multinic.Cluster.{Resource}
use multinic.Cluster.Objects.{EnvVar, Container}
use multinic.Connection.{read_config}
use multinic.Operator.Credentials.{build_database_env_vars, build_controller_env_vars}
use multinic.Operator.Quantities.{
  get_database_resource_requirements, get_controller_resource_requirements,
}
use multinic.Operator.Workloads.{
  build_database_stateful_set, build_controller_deployment, database_spec, controller_spec,
}
use multinic.Operator.Services.{build_database_service}
use multinic.Operator.Handover.{Carries, container_env, read_config-handover}
use multinic.Startup.{Launch, main, exits}
use multinic.Startup.Deployed.{IsSound, Serves, first_container, main-Serves}
use multinic.Examples.Operators.{with_new_password, surroundings}

-- The value of the first variable of the name.
value_of : List EnvVar → String → String
value_of [] key = ""
value_of (v ∷ vs) key = if v.name == key then v.value else value_of vs key

abbrev built : Option Resource → Resource
built o = elim o [ none ↦ build_database_service with_new_password | some r ↦ r ]

abbrev stateful_set : Resource
stateful_set = built (build_database_stateful_set surroundings.must_parse with_new_password)

abbrev deployment : Resource
deployment = built (build_controller_deployment surroundings.must_parse with_new_password)

stateful_set_built :
    build_database_stateful_set surroundings.must_parse with_new_password ≡ some stateful_set
unfolding build_database_stateful_set get_database_resource_requirements
stateful_set_built = refl

deployment_built :
    build_controller_deployment surroundings.must_parse with_new_password ≡ some deployment
unfolding build_controller_deployment get_controller_resource_requirements
deployment_built = refl

abbrev mysql : String → String
mysql = value_of (build_database_env_vars with_new_password)

abbrev getenv : String → String
getenv = value_of (build_controller_env_vars with_new_password)

mysql-Carries : Carries mysql (container_env stateful_set)
unfolding build_database_stateful_set get_database_resource_requirements database_spec value_of
mysql-Carries = (refl, (refl, (refl, (refl, tt))))

getenv-Carries : Carries getenv (container_env deployment)
unfolding build_controller_deployment get_controller_resource_requirements controller_spec value_of
getenv-Carries = (refl, (refl, (refl, (refl, (refl, (refl, tt))))))

read_config-handover_example :
    ((read_config getenv).host ≡ "mariadb.multinic-system.svc.cluster.local")
    × ((read_config getenv).port ≡ "3306")
    × ((read_config getenv).user ≡ mysql "MYSQL_USER")
    × ((read_config getenv).password ≡ mysql "MYSQL_PASSWORD")
    × ((read_config getenv).db_name ≡ mysql "MYSQL_DATABASE")
read_config-handover_example =
    read_config-handover surroundings.must_parse with_new_password stateful_set deployment mysql
      getenv stateful_set_built deployment_built mysql-Carries getenv-Carries

abbrev launch : Launch
launch = record {
  zap_flags = λ name. none;
  config_fault = none;
  manager_fault = λ o. none;
  setup_fault = λ c. none;
  healthz_fault = none;
  readyz_fault = none;
  start_fault = none;
}

launch-IsSound : IsSound launch
launch-IsSound = record {
  config = refl;
  manager = λ o. refl;
  setup = λ c. refl;
  healthz = refl;
  readyz = refl;
  start = refl;
}

main-Serves_example :
    (c : Container) × (first_container deployment ≡ some c) × Serves launch getenv c
main-Serves_example =
    main-Serves surroundings.must_parse with_new_password deployment launch getenv deployment_built
      getenv-Carries launch-IsSound

-- An unknown flag ends the process.
unknown_flag : main launch getenv ("--leader-election" ∷ []) ≡ exits 2
unfolding main
unknown_flag = refl
