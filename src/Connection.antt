-- ===== src/Connection.antt =====
-- The database handle of OpenstackConfigReconciler: ensureDBConnectionWithRetry, ensureDBConnection,
-- connectToDatabase, initializeDatabase, getDatabaseConfig, getEnvOrDefault and buildDSN of
-- MultiNic/internal/controller/openstackconfig_controller.go, with DatabaseConfig of
-- MultiNic/internal/types/database.go. The answers of the driver, the server and the context are
-- arguments. Pool sizes, timeouts and the wait between attempts are left out.
pub mod Pools
pub mod Schema
use multinic.Base.{
  ℕ, zero, suc, ◌+◌, String, Bool, true, false, not, List, [], ◌∷◌, ◌++◌, Option, none, some, any,
  keep, eqb, ltb, ◌-◌, ◌==◌, if◌then◌else◌,
}
use multinic.Base.Strings.{concat}

pub record DatabaseConfig : Type 0 where
  pub host : String
  pub port : String
  pub user : String
  pub password : String
  pub db_name : String

abbrev pub db_max_retries : ℕ
db_max_retries = 5

-- The fields DB and DBConfig, the pools that were opened and not closed, by number, and the tables
-- of the server.
pub record Connection : Type 0 where
  pub db : Option ℕ
  pub db_config : Option DatabaseConfig
  pub next_pool : ℕ
  pub open_pools : List ℕ
  pub tables : List String

unfoldable pub get_env_or_default : (String → String) → String → String → String
get_env_or_default getenv key default_value =
    if not (getenv key == "") then getenv key else default_value

unfoldable pub read_config : (String → String) → DatabaseConfig
unfolding get_env_or_default
read_config getenv = record {
  host = get_env_or_default getenv "DB_HOST" "mariadb";
  port = get_env_or_default getenv "DB_PORT" "3306";
  user = get_env_or_default getenv "DB_USER" "root";
  password = get_env_or_default getenv "DB_PASSWORD" "cloud1234";
  db_name = get_env_or_default getenv "DB_NAME" "multinic";
}

unfoldable pub get_database_config : (String → String) → Connection → DatabaseConfig × Connection
unfolding read_config
get_database_config getenv c = elim c.db_config [
  | some config ↦ (config, c)
  | none ↦ (read_config getenv, record c { db_config = some (read_config getenv) })
]

abbrev dsn_options : String
dsn_options =
    "?tls=false&timeout=30s&readTimeout=30s&writeTimeout=30s&parseTime=true&loc=Local&charset=utf8mb4&collation=utf8mb4_unicode_ci"

infixr 65 ◌⧺◌
abbrev ◌⧺◌ : String → String → String
s ⧺ t = concat s t

unfoldable pub build_dsn : DatabaseConfig → String
build_dsn c =
    c.user ⧺ ":" ⧺ c.password ⧺ "@tcp(" ⧺ c.host ⧺ ":" ⧺ c.port ⧺ ")/" ⧺ c.db_name ⧺ dsn_options

-- CREATE TABLE IF NOT EXISTS, one table after the other, up to the first error.
abbrev pub table_names : List String
table_names = "multi_subnet" ∷ "node_table" ∷ "multi_interface" ∷ "cr_state" ∷ []

abbrev pub add_table : String → List String → List String
add_table t ts = if any (λ s. s == t) ts then ts else ts ++ t ∷ []

unfoldable pub create_tables :
    (String → Option String) → List String → List String → Option String × List String
create_tables exec [] ts = (none, ts)
create_tables exec (q ∷ qs) ts = elim (exec q) [
  | some e ↦ (some e, ts)
  | none ↦ create_tables exec qs (add_table q ts)
]

unfoldable pub initialize_database :
    (String → Option String) → Connection → Option String × Connection
unfolding create_tables
initialize_database exec c =
    let (e, ts) = create_tables exec table_names c.tables in (e, record c { tables = ts })

-- sql.Open, the first ping and the CREATE statements.
pub record Connect : Type 0 where
  pub sql_open : String → Option String
  pub ping : Option String
  pub exec : String → Option String

abbrev pub close_pool : Option ℕ → List ℕ → List ℕ
close_pool none ps = ps
close_pool (some p) ps = keep (λ q. not (eqb q p)) ps

-- A new pool takes the place of the old one, which is closed.
unfoldable pub adopt_pool : Connection → Connection
adopt_pool c = record c {
  db = some c.next_pool;
  next_pool = c.next_pool + 1;
  open_pools = close_pool c.db c.open_pools ++ c.next_pool ∷ [];
}

unfoldable pub open_pool : Connect → DatabaseConfig → Connection → Option String × Connection
unfolding build_dsn adopt_pool initialize_database
open_pool a config c = elim (a.sql_open (build_dsn config)) [
  | some e ↦ (some e, c)
  | none ↦ elim a.ping [
    | some e ↦ (some e, record c { next_pool = c.next_pool + 1 })
    | none ↦ initialize_database a.exec (adopt_pool c)
  ]
]

unfoldable pub connect_to_database :
    (String → String) → Connect → Connection → Option String × Connection
unfolding get_database_config open_pool
connect_to_database getenv a c =
    let (config, c') = get_database_config getenv c in open_pool a config c'

-- What one call of ensureDBConnection meets.
pub record Ensure : Type 0 where
  pub connect : Connect
  pub ping : Option String
  pub reconnect : Connect

unfoldable pub ensure_ping : (String → String) → Ensure → Connection → Option String × Connection
unfolding connect_to_database
ensure_ping getenv a c = elim a.ping [
  | none ↦ (none, c)
  | some _ ↦ connect_to_database getenv a.reconnect c
]

unfoldable pub ping_if_connected :
    (String → String) → Ensure → Option String × Connection → Option String × Connection
unfolding ensure_ping
ping_if_connected getenv a (some e, c) = (some e, c)
ping_if_connected getenv a (none, c) = ensure_ping getenv a c

unfoldable pub ensure_db_connection :
    (String → String) → Ensure → Connection → Option String × Connection
unfolding ping_if_connected
ensure_db_connection getenv a c = elim c.db [
  | none ↦ ping_if_connected getenv a (connect_to_database getenv a.connect c)
  | some _ ↦ ensure_ping getenv a c
]

-- The attempts: `answers i` is what the i-th meets, `cancelled i` whether the context ends while it
-- waits for the next.
unfoldable pub attempts :
    (String → String) → (ℕ → Ensure) → (ℕ → Bool) → ℕ → ℕ → Connection → Option String × Connection
attempts getenv answers cancelled i zero c =
    (some "failed to establish database connection after 5 retries", c)
attempts getenv answers cancelled i (suc left) c =
    let tried = ensure_db_connection getenv (answers i) c in
    let again = attempts getenv answers cancelled (i + 1) left tried.1 in
    elim tried.0 [
      | none ↦ (none, tried.1)
      | some _ ↦
          if ltb i (db_max_retries - 1)
          then (if cancelled i then (some "context ended", tried.1) else again)
          else again
    ]

unfoldable pub ensure_db_connection_with_retry :
    (String → String) → (ℕ → Ensure) → (ℕ → Bool) → Connection → Option String × Connection
unfolding attempts
ensure_db_connection_with_retry getenv answers cancelled c =
    attempts getenv answers cancelled 0 db_max_retries c
