-- ===== src/Health/Passing.antt =====
-- When the controller calls itself healthy.
use multinic.Base.{
  String, ◌≡◌, ◌↔◌, refl, List, [], ◌∷◌, Option, none, some, Result, ok, err, All, arith, eq_iff,
}
use multinic.Connection.{Connection, ensure_db_connection}
use multinic.Health.{
  Answers, or_wrapped, judge_table, check_table_exists, check_tables, checked_tables, check_health,
  check_readiness,
}

or_wrapped-none :
    (prefix : String) (e next : Option String)
    → (or_wrapped prefix e next ≡ none) ↔ ((e ≡ none) × (next ≡ none))
unfolding or_wrapped
or_wrapped-none prefix none next = (λ h. (refl, h), λ h. h.1)
or_wrapped-none prefix (some e) next = (λ h. cc, λ h. cc)

judge_table-none :
    (name : String) (answer : Result String (Option String))
    → (judge_table name answer ≡ none) ↔ (answer ≡ ok (some name))
unfolding judge_table
judge_table-none name (err e) = (λ h. cc, λ h. cc)
judge_table-none name (ok none) = (λ h. cc, λ h. cc)
judge_table-none name (ok (some found)) =
    (λ h. ground (arith, h, eq_iff found name), λ h. ground (arith, h, eq_iff found name))

check_tables-none :
    (show : String → Result String (Option String)) (names : List String)
    → (check_tables show names ≡ none) ↔ All (λ t. show t ≡ ok (some t)) names
unfolding check_tables check_table_exists
check_tables-none show [] = (λ h. tt, λ h. refl)
check_tables-none show (t ∷ ts) = (
  λ h.
      let (one, rest) = (or_wrapped-none _ (judge_table t (show t)) (check_tables show ts)).0 h in
      ((judge_table-none t (show t)).0 one, (check_tables-none show ts).0 rest),
  λ (h, hs).
      (or_wrapped-none _ (judge_table t (show t)) (check_tables show ts)).1
        ((judge_table-none t (show t)).1 h, (check_tables-none show ts).1 hs),
)

-- The readiness check passes exactly if the database connection is established, a ping is answered,
-- and `multi_subnet`, `multi_interface` and `node_table` are each the first table that the server
-- shows for its name; the table `cr_state`, without which no pass gets on, plays no part.
pub check_readiness_passes :
    (getenv : String → String) (a : Answers) (c : Connection)
    → ((check_readiness getenv a c).0 ≡ none) ↔ (
        ((ensure_db_connection getenv a.ensure c).0 ≡ none)
        × (a.ping ≡ none)
        × (a.show_tables "multi_subnet" ≡ ok (some "multi_subnet"))
        × (a.show_tables "multi_interface" ≡ ok (some "multi_interface"))
        × (a.show_tables "node_table" ≡ ok (some "node_table")))
unfolding check_readiness check_health
check_readiness_passes getenv a c =
    let outer =
      or_wrapped-none "database connection failed: " (ensure_db_connection getenv a.ensure c).0
        (or_wrapped "database ping failed: " a.ping (check_tables a.show_tables checked_tables)) in
    let inner =
      or_wrapped-none "database ping failed: " a.ping (check_tables a.show_tables checked_tables) in
    let tables = check_tables-none a.show_tables checked_tables in
    (
      λ h.
          let (connected, rest) = outer.0 h in
          let (pinged, shown) = inner.0 rest in
          let (s, (i, (n, _))) = tables.0 shown in (connected, pinged, s, i, n),
      λ (connected, pinged, s, i, n).
          outer.1 (connected, inner.1 (pinged, tables.1 (s, (i, (n, tt))))),
    )
