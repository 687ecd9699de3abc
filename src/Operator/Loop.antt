-- ===== src/Operator/Loop.antt =====
-- Reconcile and handleDeletion of the operator. Metrics and logs are left out.
use multinic.Base.{ℕ, String, true, List, none, some, ok, err, ◌*◌, if◌then◌else◌, not}
use multinic.Api.Operator.{MultiNicOperator}
use multinic.Protection.{remove_protection}
use multinic.Reconcile.Environment.{Outcome, Requeue, done, failed, panicked, after}
use multinic.Operator.Surroundings.{Surroundings, World}
use multinic.Operator.Apply.{Ending, finished, stopped, crashed}
use multinic.Operator.Ready.{ComponentStatus, all_components_ready}
use multinic.Operator.Status.{reconcile_components, update_status_with_components}

abbrev pub operator_finalizer : String
operator_finalizer = "multinic.example.com/operator-finalizer"

-- The three intervals, in nanoseconds.
abbrev pub default_requeue_interval : ℕ
default_requeue_interval = 30 * 1000000000

abbrev pub error_requeue_interval : ℕ
error_requeue_interval = 60 * 1000000000

abbrev pub fast_requeue_interval : ℕ
fast_requeue_interval = 5 * 1000000000

-- r.Update: what is stored is the server's answer. An error ends the pass with it.
unfoldable pub put_operator : Surroundings → MultiNicOperator → Requeue → World → World × Outcome
put_operator env operator requeue w = elim (env.update operator) [
  | err e ↦ (w, failed (after 0) e)
  | ok stored ↦ (record w { object = stored }, done requeue)
]

unfoldable pub release_operator : Surroundings → MultiNicOperator → World → World × Outcome
unfolding put_operator
release_operator env operator w =
    put_operator env
      (record operator { finalizers = env.remove_finalizer operator.finalizers operator_finalizer })
      (after 0) (record w { cluster = remove_protection env.removals operator w.cluster })

unfoldable pub handle_operator_deletion : Surroundings → MultiNicOperator → World → World × Outcome
unfolding release_operator
handle_operator_deletion env operator w =
    if env.contains_finalizer operator.finalizers operator_finalizer
    then release_operator env operator w
    else (w, done (after 0))

unfoldable pub claim_operator : Surroundings → MultiNicOperator → World → World × Outcome
unfolding put_operator
claim_operator env operator w =
    put_operator env
      (record operator { finalizers = env.add_finalizer operator.finalizers operator_finalizer })
      (record { requeue = true; requeue_after = 0 }) w

unfoldable pub report_readiness :
    Surroundings → MultiNicOperator → List ComponentStatus → World → World × Outcome
unfolding update_status_with_components
report_readiness env operator statuses w =
    if all_components_ready statuses
    then (
      update_status_with_components env operator "Running" "All components are running successfully"
          statuses w,
      done (after default_requeue_interval),
    )
    else (
      update_status_with_components env operator "Pending" "Some components are not ready" statuses
          w,
      done (after fast_requeue_interval),
    )

unfoldable pub report :
    Surroundings → MultiNicOperator → Ending → List ComponentStatus → World → World × Outcome
unfolding report_readiness
report env operator crashed statuses w = (w, panicked)
report env operator (stopped e) statuses w = (
  update_status_with_components env operator "Error" e statuses w,
  failed (after error_requeue_interval) e,
)
report env operator finished statuses w = report_readiness env operator statuses w

unfoldable pub reconcile_workloads : Surroundings → MultiNicOperator → World → World × Outcome
unfolding report
reconcile_workloads env operator w =
    let r = reconcile_components env operator w.cluster in
    report env operator r.ending r.statuses (record w { cluster = r.cluster })

unfoldable pub reconcile_existing : Surroundings → MultiNicOperator → World → World × Outcome
unfolding handle_operator_deletion claim_operator reconcile_workloads
reconcile_existing env operator w = elim operator.deletion_timestamp [
  | some t ↦ handle_operator_deletion env operator w
  | none ↦
      if not (env.contains_finalizer operator.finalizers operator_finalizer)
      then claim_operator env operator w
      else reconcile_workloads env operator w
]

unfoldable pub reconcile_operator : Surroundings → World → World × Outcome
unfolding reconcile_existing
reconcile_operator env w = elim env.get_error [
  | some e ↦ (w, failed (after 0) e)
  | none ↦ elim w.object [
    | none ↦ (w, done (after 0))
    | some operator ↦ reconcile_existing env operator w
  ]
]
