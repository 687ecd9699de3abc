-- ===== src/Operator/Frame.antt =====
-- Which objects Reconcile of the operator may change.
use multinic.Base.{
  String, false, not, ◌≡◌, refl, ◌∙◌, ap, sym, subst, List, none, some, inl, inr, Option-cases,
  Result-cases, if_cases, arith, if◌then◌else◌,
}
use multinic.Api.{Time}
use multinic.Api.Operator.{MultiNicOperator}
use multinic.Cluster.{Key, find_resource, same_key}
use multinic.Protection.{key_in}
use multinic.Reconcile.Environment.{Requeue, Outcome}
use multinic.Operator.Surroundings.{Surroundings, World}
use multinic.Operator.Apply.{Ending, finished, stopped, crashed}
use multinic.Operator.Ready.{ComponentStatus, all_components_ready}
use multinic.Operator.Status.{update_status_with_components}
use multinic.Operator.Loop.{
  put_operator, release_operator, handle_operator_deletion, claim_operator, report_readiness,
  report, reconcile_workloads, reconcile_existing, reconcile_operator, operator_finalizer,
}
use multinic.Operator.Untouched.{
  IsForeign, IsSpared, ServerKeepsKeys, Untouched, remove_protection-Untouched,
  components-Untouched,
}

pub existing_deleted :
    (env : Surroundings) (operator : MultiNicOperator) (w : World) (t : Time)
    → operator.deletion_timestamp ≡ some t
    → reconcile_existing env operator w ≡ handle_operator_deletion env operator w
unfolding reconcile_existing
existing_deleted env operator w t deleted = ground (arith, deleted)

pub existing_alive :
    (env : Surroundings) (operator : MultiNicOperator) (w : World)
    → operator.deletion_timestamp ≡ none
    → reconcile_existing env operator w ≡ (
        if not (env.contains_finalizer operator.finalizers operator_finalizer)
        then claim_operator env operator w
        else reconcile_workloads env operator w)
unfolding reconcile_existing
existing_alive env operator w alive = ground (arith, alive)

pub reconcile_found :
    (env : Surroundings) (operator : MultiNicOperator) (w : World)
    → env.get_error ≡ none
    → w.object ≡ some operator
    → reconcile_operator env w ≡ reconcile_existing env operator w
unfolding reconcile_operator
reconcile_found env operator w fine there = ground (arith, fine, there)

module _ (env : Surroundings) (operator : MultiNicOperator) where
  pub update_status-cluster :
      (phase message : String) (statuses : List ComponentStatus) (w : World)
      → (update_status_with_components env operator phase message statuses w).cluster ≡ w.cluster
  unfolding update_status_with_components
  update_status-cluster phase message statuses w = elim (Option-cases env.status_fault) [
    | inl fine ↦ rw (fine, update_status_with_components) refl
    | inr (e, lost) ↦ rw (lost, update_status_with_components) refl
  ]

  put_operator-cluster :
      (requeue : Requeue) (w : World) → (put_operator env operator requeue w).0.cluster ≡ w.cluster
  unfolding put_operator
  put_operator-cluster requeue w = elim (Result-cases (env.update operator)) [
    | inl (stored, fine) ↦ rw (fine, put_operator) refl
    | inr (e, failed) ↦ rw (failed, put_operator) refl
  ]

  report_readiness-cluster :
      (statuses : List ComponentStatus) (w : World)
      → (report_readiness env operator statuses w).0.cluster ≡ w.cluster
  unfolding report_readiness
  report_readiness-cluster statuses w =
      if_cases (λ (r : World × Outcome). r.0.cluster ≡ w.cluster) (all_components_ready statuses)
        (λ _. update_status-cluster _ _ statuses w) (λ _. update_status-cluster _ _ statuses w)

  pub report-cluster :
      (e : Ending) (statuses : List ComponentStatus) (w : World)
      → (report env operator e statuses w).0.cluster ≡ w.cluster
  unfolding report
  report-cluster crashed statuses w = refl
  report-cluster (stopped e) statuses w = update_status-cluster _ _ statuses w
  report-cluster finished statuses w = report_readiness-cluster statuses w

module _ (env : Surroundings) (keys : ServerKeepsKeys env) (operator : MultiNicOperator) (j : Key)
    (foreign : IsForeign operator j) where
  workloads-Untouched :
      (w : World) → Untouched j w.cluster (reconcile_workloads env operator w).0.cluster
  unfolding reconcile_workloads
  workloads-Untouched w =
      ap (find_resource j) (report-cluster env operator _ _ _)
      ∙ components-Untouched env operator j foreign w.cluster keys

  deletion-Untouched :
      (w : World)
      → same_key j (key_in operator "Deployment" "multinic-controller") ≡ false
      → Untouched j w.cluster (handle_operator_deletion env operator w).0.cluster
  unfolding handle_operator_deletion release_operator
  deletion-Untouched w other =
      if_cases (λ (r : World × Outcome). Untouched j w.cluster r.0.cluster)
        (env.contains_finalizer operator.finalizers operator_finalizer)
        (λ _.
          ap (find_resource j) (put_operator-cluster env _ _ _)
          ∙ remove_protection-Untouched env operator j foreign w.cluster other)
        (λ _. refl)

  existing-Untouched :
      (w : World)
      → IsSpared operator j
      → Untouched j w.cluster (reconcile_existing env operator w).0.cluster
  unfolding reconcile_existing claim_operator
  existing-Untouched w spared = elim (Option-cases operator.deletion_timestamp) [
    | inr (t, deleted) ↦
        subst (λ (r : World × Outcome). Untouched j w.cluster r.0.cluster)
          (sym (existing_deleted env operator w t deleted))
          (deletion-Untouched w
            (elim spared [ inl alive ↦ cc (sym alive ∙ deleted) | inr other ↦ other ]))
    | inl alive ↦
        subst (λ (r : World × Outcome). Untouched j w.cluster r.0.cluster)
          (sym (existing_alive env operator w alive))
          (if_cases (λ (r : World × Outcome). Untouched j w.cluster r.0.cluster)
            (not (env.contains_finalizer operator.finalizers operator_finalizer))
            (λ _. ap (find_resource j) (put_operator-cluster env _ _ w))
            (λ _. workloads-Untouched w))
  ]

  -- Where the server stores each object under its own key, Reconcile, on every path, errors, panics
  -- and the deletion included, changes no workload object but those with the kind and name of a
  -- managed object in the operator's namespace and, where the operator is being deleted, the
  -- Deployment named multinic-controller there, which is no managed object.
  pub reconcile_operator-Untouched :
      (w : World)
      → IsSpared operator j
      → w.object ≡ some operator
      → Untouched j w.cluster (reconcile_operator env w).0.cluster
  unfolding reconcile_operator
  reconcile_operator-Untouched w spared there = elim (Option-cases env.get_error) [
    | inr (e, lost) ↦ rw (lost, reconcile_operator) refl
    | inl fine ↦
        subst (λ (r : World × Outcome). Untouched j w.cluster r.0.cluster)
          (sym (reconcile_found env operator w fine there)) (existing-Untouched w spared)
  ]
