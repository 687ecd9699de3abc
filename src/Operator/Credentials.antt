-- ===== src/Operator/Credentials.antt =====
-- The credentials with their fallbacks and the environment variables made of them: getDatabaseName,
-- getDatabaseUser, getDatabasePassword, buildDatabaseEnvVars and buildControllerEnvVars.
use multinic.Base.{String, not, List, [], ◌∷◌, ◌++◌, ◌==◌, if◌then◌else◌}
use multinic.Base.Strings.{concat}
use multinic.Api.Operator.{MultiNicOperator}
use multinic.Cluster.Objects.{EnvVar}

unfoldable pub get_database_password : MultiNicOperator → String → String
get_database_password operator password_type =
    if password_type == "root"
    then (if not (operator.spec.database.credentials.root_password == "")
        then operator.spec.database.credentials.root_password
        else "cloud1234")
    else if password_type == "user"
    then (if not (operator.spec.database.credentials.password == "")
        then operator.spec.database.credentials.password
        else "cloud1234")
    else "cloud1234"

unfoldable pub get_database_name : MultiNicOperator → String
get_database_name operator =
    if not (operator.spec.database.credentials.database == "")
    then operator.spec.database.credentials.database
    else "multinic"

unfoldable pub get_database_user : MultiNicOperator → String
get_database_user operator =
    if not (operator.spec.database.credentials.user == "")
    then operator.spec.database.credentials.user
    else "multinic"

abbrev pub env_var : String → String → EnvVar
env_var name value = record { name = name; value = value }

unfoldable pub build_database_env_vars : MultiNicOperator → List EnvVar
build_database_env_vars operator =
    env_var "MYSQL_ROOT_PASSWORD" (get_database_password operator "root")
    ∷ env_var "MYSQL_DATABASE" (get_database_name operator)
    ∷ env_var "MYSQL_USER" (get_database_user operator)
    ∷ env_var "MYSQL_PASSWORD" (get_database_password operator "user")
    ∷ []

abbrev pub in_cluster_host : String → String
in_cluster_host namespace = concat "mariadb." (concat namespace ".svc.cluster.local")

-- One variable, where there is a value.
unfoldable pub optional_env_var : String → String → List EnvVar
optional_env_var name value = if not (value == "") then env_var name value ∷ [] else []

unfoldable pub build_controller_env_vars : MultiNicOperator → List EnvVar
unfolding optional_env_var
build_controller_env_vars operator =
    env_var "CONTROLLER_MODE" "true"
    ∷ env_var "DB_HOST" (in_cluster_host operator.namespace)
    ∷ env_var "DB_PORT" "3306"
    ∷ env_var "DB_USER" (get_database_user operator)
    ∷ env_var "DB_PASSWORD" (get_database_password operator "user")
    ∷ env_var "DB_NAME" (get_database_name operator)
    ∷ (optional_env_var "OPENSTACK_AUTH_URL" operator.spec.openstack.identity_endpoint
        ++ optional_env_var "OPENSTACK_NETWORK_ENDPOINT" operator.spec.openstack.network_endpoint
        ++ optional_env_var "OPENSTACK_COMPUTE_ENDPOINT" operator.spec.openstack.compute_endpoint)
