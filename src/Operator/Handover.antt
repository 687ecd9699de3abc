-- ===== src/Operator/Handover.antt =====
-- What the operator tells the controller about the database is what it tells the database.
use multinic.Base.{
  String, not, ◌≡◌, ◌≢◌, ◌∙◌, ap, sym, subst, List, [], ◌∷◌, some, All, arith, if_cases, eq_iff,
  ◌==◌, if◌then◌else◌,
}
use mathlib.Core.Option.{some_inj}
use multinic.Base.Options.{>>=-eq-some}
use multinic.Base.Strings.{concat-ne-nil}
use multinic.Api.Operator.{MultiNicOperator}
use multinic.Cluster.{Resource}
use multinic.Cluster.Objects.{EnvVar, workload, service}
use multinic.Connection.{read_config, get_env_or_default}
use multinic.Operator.Credentials.{
  get_database_user, get_database_name, get_database_password, build_database_env_vars,
  build_controller_env_vars, in_cluster_host,
}
use multinic.Operator.Quantities.{
  MustParse, get_database_resource_requirements, get_controller_resource_requirements,
}
use multinic.Operator.Workloads.{
  build_database_stateful_set, build_controller_deployment, database_spec, database_container,
  controller_spec, controller_container, or_default,
}

-- The environment variables of the first container.
abbrev pub container_env : Resource → List EnvVar
container_env r = elim r.spec [
  | workload w ↦ elim w.template.containers [ [] ↦ [] | ◌∷◌ c cs ↦ c.env ]
  | service s ↦ []
]

-- A process sees the variables of its container.
abbrev pub Carries : (String → String) → List EnvVar → Type 0
Carries getenv env = All (λ (v : EnvVar). getenv v.name ≡ v.value) env

pub database_env :
    (must_parse : MustParse) (operator : MultiNicOperator) (r : Resource)
    → build_database_stateful_set must_parse operator ≡ some r
    → container_env r ≡ build_database_env_vars operator
unfolding build_database_stateful_set database_spec database_container
database_env must_parse operator r built =
    let (q, _, rest) =
      >>=-eq-some (get_database_resource_requirements must_parse operator.spec.database.resources) _
        built in
    let (s, _, done) =
      >>=-eq-some (must_parse (or_default operator.spec.database.storage_size "10Gi")) _ rest in
    ap container_env (sym (some_inj.0 done))

pub controller_env :
    (must_parse : MustParse) (operator : MultiNicOperator) (r : Resource)
    → build_controller_deployment must_parse operator ≡ some r
    → container_env r ≡ build_controller_env_vars operator
unfolding build_controller_deployment controller_spec controller_container
controller_env must_parse operator r built =
    let (q, _, done) =
      >>=-eq-some
        (get_controller_resource_requirements must_parse operator.spec.controller.resources) _
        built in
    ap container_env (sym (some_inj.0 done))

get_env_set :
    (getenv : String → String) (key default v : String)
    → getenv key ≡ v
    → v ≢ ""
    → get_env_or_default getenv key default ≡ v
unfolding get_env_or_default
get_env_set getenv key default v h ne = ground (arith, h, ne, eq_iff (getenv key) "")

default-ne-nil :
    (value default : String) → default ≢ "" → (if not (value == "") then value else default) ≢ ""
default-ne-nil value default ne =
    if_cases (λ s. s ≢ "") (not (value == "")) (λ set e. ground (arith, set, eq_iff value "", e))
      (λ _. ne)

module _ (operator : MultiNicOperator) where
  get_database_user-ne-nil : get_database_user operator ≢ ""
  unfolding get_database_user
  get_database_user-ne-nil =
      default-ne-nil operator.spec.database.credentials.user "multinic" (λ e. cc)

  get_database_name-ne-nil : get_database_name operator ≢ ""
  unfolding get_database_name
  get_database_name-ne-nil =
      default-ne-nil operator.spec.database.credentials.database "multinic" (λ e. cc)

  get_database_password-ne-nil : get_database_password operator "user" ≢ ""
  unfolding get_database_password
  get_database_password-ne-nil =
      default-ne-nil operator.spec.database.credentials.password "cloud1234" (λ e. cc)

  in_cluster_host-ne-nil : in_cluster_host operator.namespace ≢ ""
  in_cluster_host-ne-nil =
      concat-ne-nil "mariadb." _ (concat-ne-nil operator.namespace ".svc.cluster.local" (λ e. cc))

-- The controller, in the environment of the Deployment that the operator builds, reads the in-cluster
-- address of the database with port 3306, and the user, password and database name that the
-- container of the StatefulSet that the operator builds is started with, whichever of them the
-- specification leaves to the defaults.
pub read_config-handover :
    (must_parse : MustParse) (operator : MultiNicOperator) (s d : Resource)
    (mysql getenv : String → String)
    → build_database_stateful_set must_parse operator ≡ some s
    → build_controller_deployment must_parse operator ≡ some d
    → Carries mysql (container_env s)
    → Carries getenv (container_env d)
    → ((read_config getenv).host ≡ in_cluster_host operator.namespace)
      × ((read_config getenv).port ≡ "3306")
      × ((read_config getenv).user ≡ mysql "MYSQL_USER")
      × ((read_config getenv).password ≡ mysql "MYSQL_PASSWORD")
      × ((read_config getenv).db_name ≡ mysql "MYSQL_DATABASE")
unfolding read_config build_database_env_vars build_controller_env_vars
read_config-handover must_parse operator s d mysql getenv built_s built_d db ctl =
    let db' = subst (Carries mysql) (database_env must_parse operator s built_s) db in
    let ctl' = subst (Carries getenv) (controller_env must_parse operator d built_d) ctl in
    (
      get_env_set getenv "DB_HOST" "mariadb" _ ctl'.1.0 (in_cluster_host-ne-nil operator),
      get_env_set getenv "DB_PORT" "3306" _ ctl'.1.1.0 (λ e. cc),
      get_env_set getenv "DB_USER" "root" _ ctl'.1.1.1.0 (get_database_user-ne-nil operator)
          ∙ sym db'.1.1.0,
      get_env_set getenv "DB_PASSWORD" "cloud1234" _ ctl'.1.1.1.1.0
            (get_database_password-ne-nil operator)
          ∙ sym db'.1.1.1.0,
      get_env_set getenv "DB_NAME" "multinic" _ ctl'.1.1.1.1.1.0 (get_database_name-ne-nil operator)
          ∙ sym db'.1.0,
    )
