-- ===== src/Reconcile/Loop.antt =====
-- OpenstackConfigReconciler.Reconcile. Metrics and logs are left out.
use multinic.Base.{ℕ, true, ◌*◌, none, some, if◌then◌else◌}
use multinic.Api.{OpenstackConfig}
use multinic.Trigger.{second}
use multinic.Connection.{ensure_db_connection_with_retry}
use multinic.Reconcile.Environment.{
  Environment, World, Outcome, Requeue, done, failed, after, finalizer_name,
}
use multinic.Reconcile.Normal.{reconcile_normal}
use multinic.Reconcile.Deletion.{put_object, handle_deletion}

abbrev pub db_retry_interval : ℕ
db_retry_interval = 10 * second

abbrev pub at_once : Requeue
at_once = record { requeue = true; requeue_after = 0 }

unfoldable pub claim_object : Environment → OpenstackConfig → World → World × Outcome
unfolding put_object
claim_object env cr w =
    let (e, w') =
      put_object env (record cr { finalizers = env.add_finalizer cr.finalizers finalizer_name })
        w in
    (w', elim e [ none ↦ done at_once | some e' ↦ failed (after 0) e' ])

unfoldable pub reconcile_object : Environment → OpenstackConfig → World → World × Outcome
unfolding handle_deletion claim_object
reconcile_object env cr w = elim cr.deletion_timestamp [
  | some _ ↦ handle_deletion env cr w
  | none ↦
      if env.contains_finalizer cr.finalizers finalizer_name
      then reconcile_normal env cr w
      else claim_object env cr w
]

-- client.IgnoreNotFound: an object that is gone is no error.
unfoldable pub fetch_and_reconcile : Environment → World → World × Outcome
unfolding reconcile_object
fetch_and_reconcile env w = elim env.get_error [
  | some e ↦ (w, failed (after 0) e)
  | none ↦ elim w.object [ none ↦ (w, done (after 0)) | some cr ↦ reconcile_object env cr w ]
]

unfoldable pub reconcile : Environment → World → World × Outcome
unfolding fetch_and_reconcile
reconcile env w =
    let (e, connection) =
      ensure_db_connection_with_retry env.getenv env.ensure env.cancelled w.connection in
    let w' = record w { connection = connection } in
    elim e [
      | some e' ↦ (w', failed (after db_retry_interval) e')
      | none ↦ fetch_and_reconcile env w'
    ]
