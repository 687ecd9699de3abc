-- ===== src/Reconcile/Cleanup.antt =====
-- Deletion (handleDeletion) and what the finalizer guards (Reconcile).
use multinic.Base.{
  ◌≡◌, refl, subst, ◌⊎◌, inl, inr, String, true, false, not, [], some, ok, arith, keep, keep-keep,
  keep-keep-not, Result-cases, Option-cases,
}
use multinic.Api.{OpenstackConfig}
use multinic.Database.{Tables, owns, is_state_of, delete_interfaces, delete_cr_state}
use multinic.Connection.{ensure_db_connection_with_retry}
use multinic.Reconcile.Environment.{Environment, World, failed, after, finalizer_name}
use multinic.Reconcile.Deletion.{delete_rows, release_object, handle_deletion}
use multinic.Reconcile.Loop.{claim_object, reconcile_object, fetch_and_reconcile, reconcile}

-- Nothing of the CR is left, and all that is another CR's stays.
pub record Cleaned (ns name : String) (t t' : Tables) : Type 0 where
  pub no_interface : keep (owns ns name) t'.multi_interface ≡ []
  pub no_state : keep (is_state_of ns name) t'.cr_state ≡ []
  pub other_interfaces :
      keep (λ r. not (owns ns name r)) t'.multi_interface
      ≡ keep (λ r. not (owns ns name r)) t.multi_interface
  pub other_states :
      keep (λ r. not (is_state_of ns name r)) t'.cr_state
      ≡ keep (λ r. not (is_state_of ns name r)) t.cr_state
  pub same_subnets : t'.multi_subnet ≡ t.multi_subnet
  pub same_nodes : t'.node_table ≡ t.node_table

deleted-Cleaned :
    (ns name : String) (t : Tables)
    → Cleaned ns name t (delete_cr_state ns name (delete_interfaces ns name t))
unfolding delete_cr_state delete_interfaces
deleted-Cleaned ns name t = record {
  no_interface = keep-keep-not (owns ns name) t.multi_interface;
  no_state = keep-keep-not (is_state_of ns name) t.cr_state;
  other_interfaces = keep-keep _ t.multi_interface;
  other_states = keep-keep _ t.cr_state;
  same_subnets = refl;
  same_nodes = refl;
}

delete_rows-Cleaned :
    (env : Environment) (cr : OpenstackConfig) (t t' : Tables)
    → delete_rows env cr t ≡ ok t'
    → Cleaned cr.namespace cr.name t t'
unfolding delete_rows
delete_rows-Cleaned env cr t t' e =
    subst (Cleaned cr.namespace cr.name t) (ground (arith, e))
      (deleted-Cleaned cr.namespace cr.name t)

pub release_object-db :
    (env : Environment) (cr : OpenstackConfig) (w : World) → (release_object env cr w).0.db ≡ w.db
unfolding release_object
release_object-db env cr w = ground arith

-- The deletion of a CR that holds the finalizer either ends in an error with nothing changed, neither
-- the tables nor the object, or has removed all that belongs to the CR and nothing else.
pub handle_deletion_cleans :
    (env : Environment) (cr : OpenstackConfig) (w : World)
    → env.contains_finalizer cr.finalizers finalizer_name ≡ true
    → let r = handle_deletion env cr w in
      ((r.0 ≡ w) × ((e : String) × (r.1 ≡ failed (after 0) e)))
      ⊎ Cleaned cr.namespace cr.name w.db r.0.db
unfolding handle_deletion
handle_deletion_cleans env cr w held = elim (Result-cases (delete_rows env cr w.db)) [
  | inl (t, gone) ↦
      rw (held, handle_deletion)
        (rw gone (
          inr (
            rw (release_object-db env cr (record w { db = t }))
              (delete_rows-Cleaned env cr w.db t gone))))
  | inr (e, refused) ↦ rw (held, handle_deletion) (rw refused (inl (refl, (e, refl))))
]

pub claim_object-db :
    (env : Environment) (cr : OpenstackConfig) (w : World) → (claim_object env cr w).0.db ≡ w.db
unfolding claim_object
claim_object-db env cr w = ground arith

reconcile_object-db :
    (env : Environment) (cr : OpenstackConfig) (w : World)
    → env.contains_finalizer cr.finalizers finalizer_name ≡ false
    → (reconcile_object env cr w).0.db ≡ w.db
unfolding reconcile_object
reconcile_object-db env cr w free = elim (Option-cases cr.deletion_timestamp) [
  | inl alive ↦ rw (alive, reconcile_object) (rw free (claim_object-db env cr w))
  | inr (time, dying) ↦
      rw (dying, reconcile_object) (unfold handle_deletion in rw (free, handle_deletion))
]

fetch_and_reconcile-db :
    (env : Environment) (w : World)
    → ((cr : OpenstackConfig)
        → w.object ≡ some cr
        → env.contains_finalizer cr.finalizers finalizer_name ≡ false)
    → (fetch_and_reconcile env w).0.db ≡ w.db
unfolding fetch_and_reconcile
fetch_and_reconcile-db env w h = elim (Option-cases env.get_error) [
  | inr (e, lost) ↦ rw (lost, fetch_and_reconcile)
  | inl read ↦ elim (Option-cases w.object) [
    | inl gone ↦ rw (read, fetch_and_reconcile) (rw gone)
    | inr (cr, there) ↦
        rw (read, fetch_and_reconcile) (rw there (reconcile_object-db env cr w (h cr there)))
  ]
]

-- A call of Reconcile leaves all tables as they are if the object is gone or does not hold the
-- finalizer.
pub reconcile_needs_finalizer :
    (env : Environment) (w : World)
    → ((cr : OpenstackConfig)
        → w.object ≡ some cr
        → env.contains_finalizer cr.finalizers finalizer_name ≡ false)
    → (reconcile env w).0.db ≡ w.db
unfolding reconcile
reconcile_needs_finalizer env w h =
    elim (Option-cases
      (ensure_db_connection_with_retry env.getenv env.ensure env.cancelled w.connection).0) [
        | inr (e, unconnected) ↦ rw (unconnected, reconcile)
        | inl connected ↦
            rw (connected, reconcile)
              (fetch_and_reconcile-db env
                (record w {
                  connection =
                      (ensure_db_connection_with_retry env.getenv env.ensure env.cancelled
                        w.connection).1;
                })
                h)
      ]
