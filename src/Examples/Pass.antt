-- ===== src/Examples/Pass.antt =====
-- Whole passes: a first one, one whose subnet cannot be found, and a deletion.
use multinic.Base.{
  ◌*◌, ◌≡◌, ◌≢◌, ◌⊎◌, refl, subst, String, true, false, [], ◌∷◌, ok, some, any, eq_iff, arith,
}
use mathlib.Core.Option.{some_inj}
use multinic.Api.{OpenstackConfig}
use multinic.Trigger.{hour, trigger_or_manual}
use multinic.Database.{Tables, select_hash, update_hash, set_hash}
use multinic.Openstack.{decoded}
use multinic.Reconcile.Environment.{Environment, World, done, failed, after, finalizer_name}
use multinic.Reconcile.Changes.{has_cr_changed, calculate_cr_hash}
use multinic.Reconcile.Normal.{reconcile_normal}
use multinic.Reconcile.Deletion.{handle_deletion}
use multinic.Reconcile.Loop.{reconcile}
use multinic.Reconcile.Atomicity.{contents, Stored, reconcile_normal_atomic}
use multinic.Reconcile.LostUpdate.{failed_pass_is_not_retried}
use multinic.Reconcile.Cleanup.{Cleaned, handle_deletion_cleans, reconcile_needs_finalizer}
use multinic.Database.Integrity.{IsWhole}
use multinic.Reconcile.Integrity.{
  Reachable, started, called, edited, empty_tables, Reachable-IsWhole,
}
use multinic.Examples.Data.{environment, config, tables, world}

reconcile_normal_atomic_example :
    let r = reconcile_normal environment config world in
    (contents r.0.db ≡ contents tables)
    ⊎ ((t : Tables) × (contents t ≡ contents tables) × Stored environment config t r.0.db r.1)
reconcile_normal_atomic_example = reconcile_normal_atomic environment config world

-- OpenStack knows no network.
abbrev no_network : Environment
no_network = record environment { networks = λ c i. decoded [] }

abbrev marked_tables : Tables
marked_tables = record tables {
  cr_state = record { cr_namespace = "team"; cr_name = "alpha"; spec_hash = "net-a" } ∷ [];
}

hash_changes : has_cr_changed no_network config "net-a" tables ≡ (ok true, marked_tables)
unfolding has_cr_changed select_hash update_hash set_hash
hash_changes = refl

digest_of : calculate_cr_hash environment config ≡ ok "net-a"
unfolding calculate_cr_hash
digest_of = refl

digest_without_network : calculate_cr_hash no_network config ≡ ok "net-a"
unfolding calculate_cr_hash
digest_without_network = refl

not_scheduled : (trigger_or_manual environment.operators).mode ≢ "scheduled"
unfolding trigger_or_manual
not_scheduled = λ e. ground (arith, eq_iff "immediate" "scheduled", e)

failed_pass_is_not_retried_example :
    let w = (reconcile_normal no_network config world).0 in
    reconcile_normal environment config w ≡ (w, done (after (24 * hour)))
failed_pass_is_not_retried_example =
    failed_pass_is_not_retried no_network environment config config "net-a" world true marked_tables
      digest_without_network hash_changes refl refl digest_of refl not_scheduled

handle_deletion_cleans_example :
    let r = handle_deletion environment config world in
    ((r.0 ≡ world) × ((e : String) × (r.1 ≡ failed (after 0) e)))
    ⊎ Cleaned "team" "alpha" tables r.0.db
unfolding any
handle_deletion_cleans_example = handle_deletion_cleans environment config world refl

-- The same object without the finalizer.
abbrev unclaimed : OpenstackConfig
unclaimed = record config { finalizers = [] }

unclaimed_only :
    (cr : OpenstackConfig)
    → some unclaimed ≡ some cr
    → environment.contains_finalizer cr.finalizers finalizer_name ≡ false
unfolding any
unclaimed_only cr same =
    subst (λ x. environment.contains_finalizer x.finalizers finalizer_name ≡ false)
      (some_inj.0 same) refl

reconcile_needs_finalizer_example :
    (reconcile environment (record world { object = some unclaimed })).0.db ≡ tables
reconcile_needs_finalizer_example =
    reconcile_needs_finalizer environment (record world { object = some unclaimed }) unclaimed_only

-- The database is filled by a first pass, and the object is then deleted.
abbrev empty_world : World
empty_world = record world { db = empty_tables }

abbrev doomed : OpenstackConfig
doomed = record config { deletion_timestamp = some 11 }

abbrev history :
    Reachable
      (reconcile environment
        (record ((reconcile environment empty_world).0) { object = some doomed })).0
history = called environment _ (
    edited (some doomed) _
      (called environment empty_world (started world.connection (some config))))

Reachable-IsWhole_example :
    IsWhole
      (reconcile environment
        (record ((reconcile environment empty_world).0) { object = some doomed })).0.db
Reachable-IsWhole_example =
    Reachable-IsWhole
      (reconcile environment
        (record ((reconcile environment empty_world).0) { object = some doomed })).0
      history
