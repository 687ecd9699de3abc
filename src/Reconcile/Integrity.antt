-- ===== src/Reconcile/Integrity.antt =====
-- The integrity of the tables over any sequence of calls of Reconcile. The controller runs one call
-- at a time (MaxConcurrentReconciles: 1), so a history is a sequence of calls, with changes of the
-- object in between.
use multinic.Base.{
  ◌≡◌, refl, sym, subst, ◌⊎◌, inl, inr, [], Option, none, some, ok, err, arith, Option-cases,
  Result-cases, Bool-cases,
}
use multinic.Api.{OpenstackConfig}
use multinic.Database.{Tables, delete_interfaces, delete_cr_state}
use multinic.Database.Integrity.{
  IsWhole, AllReferenced, UniquePorts, delete_interfaces-IsWhole, upsert_subnet-IsWhole,
}
use multinic.Database.Integrity.Renames.{insert_nodes-IsWhole}
use multinic.Database.Integrity.Batches.{insert_interfaces-IsWhole}
use multinic.Connection.{Connection, ensure_db_connection_with_retry}
use multinic.Openstack.{Server}
use multinic.Collect.{Context, subnet_row, node_rows}
use multinic.Reconcile.Environment.{Environment, World, finalizer_name}
use multinic.Reconcile.Committed.{Steps}
use multinic.Reconcile.Atomicity.{contents, reconcile_normal_atomic}
use multinic.Reconcile.Normal.{reconcile_normal}
use multinic.Reconcile.Deletion.{delete_rows, handle_deletion}
use multinic.Reconcile.Cleanup.{release_object-db, claim_object-db}
use multinic.Reconcile.Loop.{reconcile_object, fetch_and_reconcile, reconcile}

contents-IsWhole : (t t' : Tables) → contents t ≡ contents t' → IsWhole t → IsWhole t'
contents-IsWhole t t' same h = record {
  referenced = subst (λ x. AllReferenced x.0 x.1 x.2) same h.referenced;
  unique = subst (λ x. UniquePorts x.2) same h.unique;
}

Steps-IsWhole :
    (c : Context) (targets : multinic.Base.List Server) (t t' : Tables)
    (infos : multinic.Base.List multinic.Api.VmNetworkInfo)
    → Steps c targets t t' infos
    → IsWhole t
    → IsWhole t'
Steps-IsWhole c targets t t' infos s h = insert_interfaces-IsWhole s.rows s.middle t' s.interfaces (
    insert_nodes-IsWhole (node_rows c targets) _ s.middle s.nodes (
      upsert_subnet-IsWhole (subnet_row c) _
        (delete_interfaces-IsWhole c.cr_namespace c.cr_name t h)))

reconcile_normal-IsWhole :
    (env : Environment) (cr : OpenstackConfig) (w : World)
    → IsWhole w.db
    → IsWhole (reconcile_normal env cr w).0.db
reconcile_normal-IsWhole env cr w h = elim (reconcile_normal_atomic env cr w) [
  | inl same ↦ contents-IsWhole w.db _ (sym same) h
  | inr (t, same, stored) ↦
      Steps-IsWhole _ _ _ _ _ stored.steps (contents-IsWhole w.db t (sym same) h)
]

delete_rows-IsWhole :
    (env : Environment) (cr : OpenstackConfig) (t t' : Tables)
    → delete_rows env cr t ≡ ok t'
    → IsWhole t
    → IsWhole t'
unfolding delete_rows
delete_rows-IsWhole env cr t t' e h =
    let same : delete_cr_state cr.namespace cr.name (delete_interfaces cr.namespace cr.name t)
        ≡ t' =
      ground (arith, e) in
    let whole = delete_interfaces-IsWhole cr.namespace cr.name t h in
    subst IsWhole same
      (unfold delete_cr_state in record { referenced = whole.referenced; unique = whole.unique })

handle_deletion-IsWhole :
    (env : Environment) (cr : OpenstackConfig) (w : World)
    → IsWhole w.db
    → IsWhole (handle_deletion env cr w).0.db
unfolding handle_deletion
handle_deletion-IsWhole env cr w h =
    elim (Bool-cases (env.contains_finalizer cr.finalizers finalizer_name)) [
      | inr free ↦ rw (free, handle_deletion) h
      | inl held ↦ elim (Result-cases (delete_rows env cr w.db)) [
        | inl (t, gone) ↦
            rw (held, handle_deletion)
              (rw gone (
                rw (release_object-db env cr (record w { db = t }))
                  (delete_rows-IsWhole env cr w.db t gone h)))
        | inr (e, refused) ↦ rw (held, handle_deletion) (rw refused h)
      ]
    ]

reconcile_object-IsWhole :
    (env : Environment) (cr : OpenstackConfig) (w : World)
    → IsWhole w.db
    → IsWhole (reconcile_object env cr w).0.db
unfolding reconcile_object
reconcile_object-IsWhole env cr w h = elim (Option-cases cr.deletion_timestamp) [
  | inr (time, dying) ↦ rw (dying, reconcile_object) (handle_deletion-IsWhole env cr w h)
  | inl alive ↦ elim (Bool-cases (env.contains_finalizer cr.finalizers finalizer_name)) [
    | inl held ↦ rw (alive, reconcile_object) (rw held (reconcile_normal-IsWhole env cr w h))
    | inr free ↦ rw (alive, reconcile_object) (rw free (rw (claim_object-db env cr w) h))
  ]
]

fetch_and_reconcile-IsWhole :
    (env : Environment) (w : World) → IsWhole w.db → IsWhole (fetch_and_reconcile env w).0.db
unfolding fetch_and_reconcile
fetch_and_reconcile-IsWhole env w h = elim (Option-cases env.get_error) [
  | inr (e, lost) ↦ rw (lost, fetch_and_reconcile) h
  | inl read ↦ elim (Option-cases w.object) [
    | inl gone ↦ rw (read, fetch_and_reconcile) (rw gone h)
    | inr (cr, there) ↦
        rw (read, fetch_and_reconcile) (rw there (reconcile_object-IsWhole env cr w h))
  ]
]

reconcile-IsWhole : (env : Environment) (w : World) → IsWhole w.db → IsWhole (reconcile env w).0.db
unfolding reconcile
reconcile-IsWhole env w h =
    elim (Option-cases
      (ensure_db_connection_with_retry env.getenv env.ensure env.cancelled w.connection).0) [
        | inr (e, unconnected) ↦ rw (unconnected, reconcile) h
        | inl connected ↦
            rw (connected, reconcile)
              (fetch_and_reconcile-IsWhole env
                (record w {
                  connection =
                      (ensure_db_connection_with_retry env.getenv env.ensure env.cancelled
                        w.connection).1;
                })
                h)
      ]

abbrev pub empty_tables : Tables
empty_tables = record { multi_subnet = []; node_table = []; multi_interface = []; cr_state = [] }

-- What can become of a fresh database: calls of Reconcile in any surroundings, in between changes of
-- the object, or calls about another one.
pub data Reachable : World → Type 0 where
  started :
      (c : Connection) (o : Option OpenstackConfig)
      → Reachable (record { connection = c; db = empty_tables; object = o })
  called : (env : Environment) (w : World) → Reachable w → Reachable (reconcile env w).0
  edited :
      (o : Option OpenstackConfig) (w : World) → Reachable w → Reachable (record w { object = o })

-- From empty tables on, after any sequence of calls of Reconcile, for any objects, with whatever the
-- surroundings answer: every port has one row, and every interface names a subnet, a node id and a
-- node name that the tables have.
pub Reachable-IsWhole : (w : World) → Reachable w → IsWhole w.db
Reachable-IsWhole w (started c o) = record { referenced = tt; unique = tt }
Reachable-IsWhole w (called env v r) = reconcile-IsWhole env v (Reachable-IsWhole v r)
Reachable-IsWhole w (edited o v r) =
    let h = Reachable-IsWhole v r in record { referenced = h.referenced; unique = h.unique }
