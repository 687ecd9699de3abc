-- ===== src/Examples/Connecting.antt =====
-- Connections to the database.
use multinic.Base.{ℕ, ◌≡◌, ◌↔◌, refl, any, false, [], none, some, ok, ◌==◌, if◌then◌else◌}
use multinic.Connection.{Connection, Ensure, ensure_db_connection, ensure_db_connection_with_retry}
use multinic.Connection.Pools.{Settled, ensure_with_retry-Settled}
use multinic.Health.{Answers, check_readiness}
use multinic.Health.Passing.{check_readiness_passes}
use multinic.Base.Int.{pos}
use multinic.Connection.Schema.{is_listed, ensure_after_failed_schema}
use multinic.Examples.Data.{connect, ensure, connection}

-- The pool is lost at the first call.
abbrev lost : ℕ → Ensure
lost i = record ensure { ping = some "gone" }

ensure_with_retry-Settled_example :
    Settled (ensure_db_connection_with_retry (λ key. "") lost (λ i. false) connection)
ensure_with_retry-Settled_example =
    ensure_with_retry-Settled (λ key. "") lost (λ i. false) connection refl

-- No pool, no configuration yet, and no tables.
abbrev unconnected : Connection
unconnected = record connection { db = none; db_config = none; open_pools = []; tables = [] }

-- The fourth CREATE is refused in the first attempt.
abbrev refuses_state : ℕ → Ensure
refuses_state i = record ensure {
  connect = record connect { exec = λ table. if table == "cr_state" then some "denied" else none };
}

ensure_after_failed_schema_example :
    let r = ensure_db_connection_with_retry (λ key. "") refuses_state (λ i. false) unconnected in
    (r.0 ≡ none)
    × (is_listed "cr_state" r.1.tables ≡ false)
    × (ensure_db_connection_with_retry (λ key. "") (λ i. ensure) (λ i. false) r.1 ≡ (none, r.1))
unfolding any
ensure_after_failed_schema_example =
    ensure_after_failed_schema (λ key. "") refuses_state (λ i. ensure) (λ i. false) (λ i. false)
      unconnected "cr_state" "denied" refl (λ dsn. refl) refl refl refl refl refl refl refl

-- The fourth table is missing.
abbrev three_tables : Answers
three_tables = record {
  ensure = ensure;
  ping = none;
  select_one = ok (pos 1);
  show_tables = λ t. if t == "cr_state" then ok none else ok (some t);
}

check_readiness_passes_example :
    ((check_readiness (λ key. "") three_tables connection).0 ≡ none) ↔ (
      ((ensure_db_connection (λ key. "") ensure connection).0 ≡ none)
      × (three_tables.ping ≡ none)
      × (three_tables.show_tables "multi_subnet" ≡ ok (some "multi_subnet"))
      × (three_tables.show_tables "multi_interface" ≡ ok (some "multi_interface"))
      × (three_tables.show_tables "node_table" ≡ ok (some "node_table")))
check_readiness_passes_example = check_readiness_passes (λ key. "") three_tables connection

-- The check passes without it.
three_tables_pass : (check_readiness (λ key. "") three_tables connection).0 ≡ none
unfolding check_readiness ensure_db_connection
three_tables_pass = refl
