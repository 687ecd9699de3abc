-- ===== src/Health.antt =====
-- MultiNic/internal/controller/health.go: the checks of the database and of the controller. The
-- answers of the driver and of the server are arguments; metrics and timeouts are left out.
pub mod Passing
use multinic.Base.{
  String, Bool, not, List, [], ◌∷◌, Option, none, some, Result, ok, err, ◌==◌, if◌then◌else◌,
}
use multinic.Base.Int.{ℤ, pos, eqz, decimal}
use multinic.Base.Strings.{concat}
use multinic.Connection.{Connection, Ensure, ensure_db_connection}

-- SELECT 1 gives a number; SHOW TABLES LIKE gives the first name, if there is one.
pub record Answers : Type 0 where
  pub ensure : Ensure
  pub ping : Option String
  pub select_one : Result String ℤ
  pub show_tables : String → Result String (Option String)

-- `if err := ...; err != nil { return fmt.Errorf(prefix + "%w", err) }`
unfoldable pub or_wrapped : String → Option String → Option String → Option String
or_wrapped prefix (some e) next = some (concat prefix e)
or_wrapped prefix none next = next

unfoldable pub test_query : Result String ℤ → Option String
test_query (err e) = some (concat "database query test failed: " e)
test_query (ok n) =
    if not (eqz n (pos 1))
    then some (concat "database query returned unexpected result: expected 1, got " (decimal n))
    else none

-- DatabaseHealthChecker.Check: the error, and the reconciler's handle afterwards.
unfoldable pub check_database :
    (String → String) → Answers → Connection → Option String × Connection
unfolding or_wrapped test_query
check_database getenv a c =
    let (e, c') = ensure_db_connection getenv a.ensure c in
    (
      or_wrapped "database connection failed: " e
          (or_wrapped "database ping failed: " a.ping (test_query a.select_one)),
      c',
    )

unfoldable pub judge_table : String → Result String (Option String) → Option String
judge_table name (err e) = some (concat "failed to check table " (concat name (concat ": " e)))
judge_table name (ok none) = some (concat "table " (concat name " does not exist"))
judge_table name (ok (some found)) =
    if not (found == name) then some (concat "table " (concat name " not found")) else none

unfoldable pub check_table_exists :
    (String → Result String (Option String)) → String → Option String
unfolding judge_table
check_table_exists show name = judge_table name (show name)

unfoldable pub check_tables : (String → Result String (Option String)) → List String → Option String
unfolding or_wrapped check_table_exists
check_tables show [] = none
check_tables show (t ∷ ts) =
    or_wrapped (concat "table " (concat t " check failed: ")) (check_table_exists show t)
      (check_tables show ts)

abbrev pub checked_tables : List String
checked_tables = "multi_subnet" ∷ "multi_interface" ∷ "node_table" ∷ []

-- The checker of GetHealthChecker.
unfoldable pub check_health : (String → String) → Answers → Connection → Option String × Connection
unfolding or_wrapped check_tables
check_health getenv a c =
    let (e, c') = ensure_db_connection getenv a.ensure c in
    (
      or_wrapped "database connection failed: " e
          (or_wrapped "database ping failed: " a.ping (check_tables a.show_tables checked_tables)),
      c',
    )

-- The checker of GetReadinessChecker.
unfoldable pub check_readiness :
    (String → String) → Answers → Connection → Option String × Connection
unfolding check_health
check_readiness getenv a c = check_health getenv a c
