-- ===== src/Connection/Schema.antt =====
-- When the tables are created (connectToDatabase, initializeDatabase).
use multinic.Base.{
  ℕ, suc, ◌+◌, ◌≡◌, refl, ◌∙◌, Bool, true, false, String, List, [], ◌∷◌, ◌++◌, if_cases, sym,
  Bool-cases, Option, none, some, any, arith, eq_iff, ◌==◌, Option-cases, inl, inr, ap,
}
use multinic.Connection.{
  Connection, Connect, Ensure, DatabaseConfig, create_tables, connect_to_database, adopt_pool,
  add_table, table_names, ensure_db_connection, ensure_db_connection_with_retry, attempts,
  get_database_config, read_config, initialize_database, open_pool, build_dsn,
}

-- The table is in the list.
abbrev pub is_listed : String → List String → Bool
is_listed t ts = any (λ s. s == t) ts

is_listed-append :
    (t q : String) (ts : List String)
    → is_listed t ts ≡ false
    → (q == t) ≡ false
    → is_listed t (ts ++ q ∷ []) ≡ false
unfolding any
is_listed-append t q [] missing differ = ground (arith, differ)
is_listed-append t q (s ∷ ts) missing differ =
    ground (arith, missing, is_listed-append t q ts, differ)

add_table-missing :
    (t q : String) (ts : List String)
    → is_listed t ts ≡ false
    → (q == t) ≡ false
    → is_listed t (add_table q ts) ≡ false
add_table-missing t q ts missing differ =
    if_cases (λ us. is_listed t us ≡ false) (is_listed q ts) (λ _. missing)
      (λ _. is_listed-append t q ts missing differ)

module _ (exec : String → Option String) (t e : String) (fails : exec t ≡ some e) where
  other_made : (q : String) → exec q ≡ none → (q == t) ≡ false
  other_made q made = elim (Bool-cases (q == t)) [
    | inr differ ↦ differ
    | inl same ↦ cc (sym made ∙ ap exec ((eq_iff q t).0 same) ∙ fails)
  ]

  -- A statement that fails makes no table, and ends the loop with an error if it is reached.
  create_tables-missing :
      (qs ts : List String)
      → is_listed t ts ≡ false
      → is_listed t (create_tables exec qs ts).1 ≡ false
  unfolding create_tables
  create_tables-missing [] ts missing = missing
  create_tables-missing (q ∷ qs) ts missing = elim (Option-cases (exec q)) [
    | inr (e', failed) ↦ rw (failed, create_tables) missing
    | inl made ↦
        rw (made, create_tables)
          (create_tables-missing qs (add_table q ts)
            (add_table-missing t q ts missing (other_made q made)))
  ]

  create_tables-fails :
      (qs ts : List String)
      → is_listed t qs ≡ true
      → (e' : String) × ((create_tables exec qs ts).0 ≡ some e')
  unfolding create_tables any
  create_tables-fails [] ts listed = cc
  create_tables-fails (q ∷ qs) ts listed = elim (Option-cases (exec q)) [
    | inr (e', failed) ↦ (e', rw (failed, create_tables) refl)
    | inl made ↦
        let (e', failed) =
          create_tables-fails qs (add_table q ts) (ground (arith, listed, other_made q made)) in
        (e', rw (made, create_tables) failed)
  ]

-- The reconciler holds a handle, and the server has no such table.
abbrev pub IsConnectedWithout : String → Connection → Type 0
IsConnectedWithout t c = ((p : ℕ) × (c.db ≡ some p)) × (is_listed t c.tables ≡ false)

module _ (getenv : String → String) where
  given_config :
      (config : DatabaseConfig) (c : Connection)
      → c.db_config ≡ some config
      → get_database_config getenv c ≡ (config, c)
  unfolding get_database_config
  given_config config c given = ground (arith, given)

  live_handle :
      (b : Ensure) (t : String) (c : Connection)
      → IsConnectedWithout t c
      → b.ping ≡ none
      → ensure_db_connection getenv b c ≡ (none, c)
  unfolding ensure_db_connection
  live_handle b t c ((p, held), missing) alive = ground (arith, held, alive)

  pub live_attempts :
      (answers : ℕ → Ensure) (cancelled : ℕ → Bool) (i left : ℕ) (t : String) (c : Connection)
      → IsConnectedWithout t c
      → (answers i).ping ≡ none
      → attempts getenv answers cancelled i (suc left) c ≡ (none, c)
  unfolding attempts
  live_attempts answers cancelled i left t c held alive =
      ground (arith, live_handle (answers i) t c held alive)

  module _ (a : Connect) (t e : String) (opened : (dsn : String) → a.sql_open dsn ≡ none)
      (alive : a.ping ≡ none) (listed : is_listed t table_names ≡ true)
      (fails : a.exec t ≡ some e) where
    initialized :
        (c : Connection) (e' : String)
        → (create_tables a.exec table_names c.tables).0 ≡ some e'
        → initialize_database a.exec c
          ≡ (some e', record c { tables = (create_tables a.exec table_names c.tables).1 })
    unfolding initialize_database
    initialized c e' failed =
        ap (λ x. (x, record c { tables = (create_tables a.exec table_names c.tables).1 })) failed

    reached :
        (config : DatabaseConfig) (c : Connection)
        → open_pool a config c ≡ initialize_database a.exec (adopt_pool c)
    unfolding open_pool
    reached config c = rw (opened (build_dsn config), open_pool) (rw alive refl)

    open_pool-fails :
        (config : DatabaseConfig) (c : Connection)
        → is_listed t c.tables ≡ false
        → (e' : String) × (c' : Connection) × (open_pool a config c ≡ (some e', c'))
          × IsConnectedWithout t c'
    unfolding adopt_pool
    open_pool-fails config c missing =
        let (e', failed) = create_tables-fails a.exec t e fails table_names c.tables listed in
        let gone = create_tables-missing a.exec t e fails table_names c.tables missing in
        (
          e',
          record (adopt_pool c) { tables = (create_tables a.exec table_names c.tables).1 },
          reached config c ∙ initialized (adopt_pool c) e' failed,
          ((c.next_pool, refl), gone),
        )

    connect-fails :
        (c : Connection)
        → is_listed t c.tables ≡ false
        → (e' : String) × (c' : Connection) × (connect_to_database getenv a c ≡ (some e', c'))
          × IsConnectedWithout t c'
    unfolding connect_to_database
    connect-fails c missing = elim (Option-cases c.db_config) [
      | inl unread ↦
          let read = record c { db_config = some (read_config getenv) } in
          let (e', c', failed, held) = open_pool-fails (read_config getenv) read missing in
          let known : get_database_config getenv c ≡ (read_config getenv, read) =
            rw (unread, get_database_config) refl in
          (e', c', ap (λ x. open_pool a x.0 x.1) known ∙ failed, held)
      | inr (config, given) ↦
          let (e', c', failed, held) = open_pool-fails config c missing in
          let known : get_database_config getenv c ≡ (config, c) = given_config config c given in
          (e', c', ap (λ x. open_pool a x.0 x.1) known ∙ failed, held)
    ]

first_ensure_fails :
    (getenv : String → String) (a : Ensure) (c c' : Connection) (e : String)
    → c.db ≡ none
    → connect_to_database getenv a.connect c ≡ (some e, c')
    → ensure_db_connection getenv a c ≡ (some e, c')
unfolding ensure_db_connection
first_ensure_fails getenv a c c' e unheld failed =
    rw (unheld, ensure_db_connection) (rw failed refl)

next_attempt :
    (getenv : String → String) (answers : ℕ → Ensure) (cancelled : ℕ → Bool) (i left : ℕ)
    (c c' : Connection) (e : String)
    → ensure_db_connection getenv (answers i) c ≡ (some e, c')
    → cancelled i ≡ false
    → attempts getenv answers cancelled i (suc left) c
      ≡ attempts getenv answers cancelled (i + 1) left c'
unfolding attempts
next_attempt getenv answers cancelled i left c c' e failed going = ground (arith, failed, going)

-- Where the reconciler holds no handle, the first connection opens and answers a ping, the CREATE
-- statement of some table fails, and the server has no such table, then
-- ensureDBConnectionWithRetry, if the context does not end before its second attempt and the ping of
-- that is answered, returns no error without the table; and so does every later call whose first
-- ping is answered, which changes nothing.
pub ensure_after_failed_schema :
    (getenv : String → String) (answers later : ℕ → Ensure) (cancelled cancelled' : ℕ → Bool)
    (c : Connection) (t e : String)
    → c.db ≡ none
    → ((dsn : String) → (answers 0).connect.sql_open dsn ≡ none)
    → (answers 0).connect.ping ≡ none
    → is_listed t table_names ≡ true
    → (answers 0).connect.exec t ≡ some e
    → is_listed t c.tables ≡ false
    → cancelled 0 ≡ false
    → (answers 1).ping ≡ none
    → (later 0).ping ≡ none
    → let r = ensure_db_connection_with_retry getenv answers cancelled c in
      (r.0 ≡ none)
      × (is_listed t r.1.tables ≡ false)
      × (ensure_db_connection_with_retry getenv later cancelled' r.1 ≡ (none, r.1))
unfolding ensure_db_connection_with_retry
ensure_after_failed_schema getenv answers later cancelled cancelled' c t e unheld opened alive
      listed fails missing going alive' alive'' =
    let (e', c', failed, held) =
      connect-fails getenv (answers 0).connect t e opened alive listed fails c missing in
    let first = first_ensure_fails getenv (answers 0) c c' e' unheld failed in
    let ends =
      next_attempt getenv answers cancelled 0 4 c c' e' first going
      ∙ live_attempts getenv answers cancelled 1 3 t c' held alive' in
    rw ends (refl, held.1, live_attempts getenv later cancelled' 0 4 t c' held alive'')
