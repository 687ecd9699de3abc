-- ===== src/Connection/Pools.antt =====
-- The pools of connections that stay open, and what a successful attempt leaves
-- (ensureDBConnectionWithRetry and what it calls).
use multinic.Base.{
  ℕ, zero, suc, ◌+◌, ◌≡◌, refl, String, Bool, [], ◌∷◌, List, Option, none, some, arith, keep, ◌≢◌,
  Option-cases, inl, inr,
}
use multinic.Connection.{
  DatabaseConfig, Connection, Connect, Ensure, connect_to_database, open_pool, adopt_pool,
  get_database_config, read_config, ensure_ping, ping_if_connected, ensure_db_connection, attempts,
  ensure_db_connection_with_retry, db_max_retries,
}

-- The open pools are the reconciler's own and no other.
abbrev pub pool_of : Option ℕ → List ℕ
pool_of none = []
pool_of (some p) = p ∷ []

abbrev pub NoLeak : Connection → Type 0
NoLeak c = c.open_pools ≡ pool_of c.db

adopt_pool-NoLeak : (c : Connection) → NoLeak c → NoLeak (adopt_pool c)
unfolding adopt_pool keep
adopt_pool-NoLeak c h = elim (Option-cases c.db) [
  | inl nothing ↦ rw (nothing, h) (rw nothing)
  | inr (p, old) ↦ rw (h, old) (ground (arith, old))
]

-- No pool leaks, and a call that returns no error leaves a handle.
abbrev pub Settled : Option String × Connection → Type 0
Settled r = NoLeak r.1 × (r.0 ≡ none → r.1.db ≢ none)

open_pool-Settled :
    (a : Connect) (config : DatabaseConfig) (c : Connection)
    → NoLeak c
    → Settled (open_pool a config c)
unfolding open_pool
open_pool-Settled a config c h = ground (arith, adopt_pool-NoLeak c h)

connect-Settled :
    (getenv : String → String) (a : Connect) (c : Connection)
    → NoLeak c
    → Settled (connect_to_database getenv a c)
unfolding connect_to_database get_database_config
connect-Settled getenv a c h = elim (Option-cases c.db_config) [
  | inl unread ↦
      rw (unread, connect_to_database, get_database_config)
        (open_pool-Settled a (read_config getenv)
          (record c { db_config = some (read_config getenv) }) h)
  | inr (config, e) ↦
      rw (e, connect_to_database, get_database_config) (open_pool-Settled a config c h)
]

ensure_ping-Settled :
    (getenv : String → String) (a : Ensure) (c : Connection)
    → NoLeak c
    → c.db ≢ none
    → Settled (ensure_ping getenv a c)
unfolding ensure_ping
ensure_ping-Settled getenv a c h db = elim (Option-cases a.ping) [
  | inl alive ↦ rw (alive, ensure_ping) (h, λ _. db)
  | inr (e, lost) ↦ rw (lost, ensure_ping) (connect-Settled getenv a.reconnect c h)
]

ping_if_connected-Settled :
    (getenv : String → String) (a : Ensure) (r : Option String × Connection)
    → Settled r
    → Settled (ping_if_connected getenv a r)
unfolding ping_if_connected
ping_if_connected-Settled getenv a (some e, c) h = h
ping_if_connected-Settled getenv a (none, c) h = ensure_ping-Settled getenv a c h.0 (h.1 refl)

ensure-Settled :
    (getenv : String → String) (a : Ensure) (c : Connection)
    → NoLeak c
    → Settled (ensure_db_connection getenv a c)
unfolding ensure_db_connection
ensure-Settled getenv a c h = elim (Option-cases c.db) [
  | inl nothing ↦
      rw (nothing, ensure_db_connection)
        (ping_if_connected-Settled getenv a (connect_to_database getenv a.connect c)
          (connect-Settled getenv a.connect c h))
  | inr (p, old) ↦
      rw (old, ensure_db_connection)
        (ensure_ping-Settled getenv a c h (λ nothing. ground (arith, nothing, old)))
]

attempts-Settled :
    (getenv : String → String) (answers : ℕ → Ensure) (cancelled : ℕ → Bool) (i left : ℕ)
    (c : Connection)
    → NoLeak c
    → Settled (attempts getenv answers cancelled i left c)
unfolding attempts
attempts-Settled getenv answers cancelled i zero c h = (h, λ e. cc)
attempts-Settled getenv answers cancelled i (suc left) c h = ground (
  arith,
  ensure-Settled getenv (answers i) c h,
  attempts-Settled getenv answers cancelled (i + 1) left
      (ensure_db_connection getenv (answers i) c).1,
)

-- From a state in which the open pools are the reconciler's own, whatever the driver, the server and
-- the context answer: no pool is left open but the reconciler's own, and if the attempts return no
-- error there is one.
pub ensure_with_retry-Settled :
    (getenv : String → String) (answers : ℕ → Ensure) (cancelled : ℕ → Bool) (c : Connection)
    → NoLeak c
    → Settled (ensure_db_connection_with_retry getenv answers cancelled c)
unfolding ensure_db_connection_with_retry
ensure_with_retry-Settled getenv answers cancelled c h =
    attempts-Settled getenv answers cancelled 0 db_max_retries c h
