-- ===== src/Operator/Reports.antt =====
-- What the operator stores in its status, and how the pass then ends.
use multinic.Base.{
  String, false, ◌≡◌, ◌≢◌, refl, sym, subst, List, [], ◌∷◌, ◌++◌, Option, none, some, inl, inr,
  Option-cases, arith, if_cases, if◌then◌else◌,
}
use multinic.Api.Operator.{MultiNicOperator, Condition}
use multinic.Cluster.{Resource}
use multinic.Reconcile.Environment.{Outcome, done, failed, panicked, after}
use multinic.Operator.Surroundings.{Surroundings, World}
use multinic.Operator.Apply.{Ending, finished, stopped, crashed}
use multinic.Operator.Ready.{
  ComponentStatus, check_database_readiness, check_controller_readiness, all_components_ready,
  all_true,
}
use multinic.Operator.Status.{
  Components, failed_component, after_controller, controller_component, after_database,
  reconcile_components, with_components, conditions_of, update_status_with_components,
  condition_status,
}
use multinic.Operator.Loop.{
  report, report_readiness, reconcile_workloads, default_requeue_interval, fast_requeue_interval,
  error_requeue_interval,
}

-- The phase, the status of the condition `Ready`, and the end of the pass that go together.
pub data Reported : String → String → Outcome → Type 0 where
  running : Reported "Running" "True" (done (after default_requeue_interval))
  pending : Reported "Pending" "False" (done (after fast_requeue_interval))
  error : (e : String) → Reported "Error" "False" (failed (after error_requeue_interval) e)

-- The stored object: of this generation, with the phase, and the condition `Ready` first.
pub record StatusStored (operator : MultiNicOperator) (o : Option MultiNicOperator)
    (outcome : Outcome) : Type 0 where
  pub stored : MultiNicOperator
  pub ready : Condition
  pub others : List Condition
  pub there : o ≡ some stored
  pub same_spec : stored.spec ≡ operator.spec
  pub generation : stored.status.observed_generation ≡ operator.generation
  pub conditions : stored.status.conditions ≡ ready ∷ others
  pub named : ready.type ≡ "Ready"
  pub agrees : Reported stored.status.phase ready.status outcome

all_true-append_failed :
    (before : List ComponentStatus) (s : ComponentStatus)
    → s.ready ≡ false
    → all_true (before ++ s ∷ []) ≡ false
all_true-append_failed [] s h = rw h refl
all_true-append_failed (b ∷ bs) s h = ground (arith, all_true-append_failed bs s h)

all_ready-append_failed :
    (before : List ComponentStatus) (s : ComponentStatus)
    → s.ready ≡ false
    → all_components_ready (before ++ s ∷ []) ≡ false
unfolding all_components_ready
all_ready-append_failed [] s h = rw h refl
all_ready-append_failed (b ∷ bs) s h = all_true-append_failed (b ∷ bs) s h

module _ (env : Surroundings) (operator : MultiNicOperator) where
  -- An error leaves a component that is not ready.
  abbrev FailsReady : Components → Type 0
  FailsReady r = (e : String) → r.ending ≡ stopped e → all_components_ready r.statuses ≡ false

  after_controller-FailsReady :
      (before : List ComponentStatus) (c : List Resource) (e : Ending)
      → FailsReady (after_controller env operator before c e)
  unfolding after_controller
  after_controller-FailsReady before c crashed m h = cc
  after_controller-FailsReady before c (stopped e) m h =
      all_ready-append_failed before (failed_component "controller" env.controller_check e) refl
  after_controller-FailsReady before c finished m h =
      elim (Option-cases (check_controller_readiness env operator c)) [
        | inl panic ↦ cc (rw (panic, after_controller) at h)
        | inr (r, checked) ↦ cc (rw (checked, after_controller) at h)
      ]

  after_database-FailsReady :
      (c : List Resource) (e : Ending) → FailsReady (after_database env operator c e)
  unfolding after_database controller_component all_components_ready
  after_database-FailsReady c crashed m h = cc
  after_database-FailsReady c (stopped e) m h = refl
  after_database-FailsReady c finished m h =
      elim (Option-cases (check_database_readiness env operator c)) [
        | inl panic ↦ absurd (ground (arith, panic, h))
        | inr (r, checked) ↦
            rw (checked, after_database)
              (after_controller-FailsReady _ _ _ m (rw (checked, after_database) at h))
      ]

  components-FailsReady : (c : List Resource) → FailsReady (reconcile_components env operator c)
  unfolding reconcile_components controller_component
  components-FailsReady c =
      if_cases FailsReady operator.spec.database.enabled (λ _. after_database-FailsReady _ _)
        (λ _. after_controller-FailsReady [] _ _)

  update_status-StatusStored :
      (phase message : String) (statuses : List ComponentStatus) (w : World) (outcome : Outcome)
      → env.status_fault ≡ none
      → Reported phase (condition_status (all_components_ready statuses)) outcome
      → StatusStored operator
          (update_status_with_components env operator phase message statuses w).object
          outcome
  unfolding update_status_with_components with_components conditions_of
  update_status-StatusStored phase message statuses w outcome fine agrees = record {
    stored = with_components env.now operator phase message statuses;
    ready = record {
      type = "Ready";
      status = condition_status (all_components_ready statuses);
      reason = if all_components_ready statuses then "AllComponentsReady" else "ComponentsNotReady";
      message = message;
      last_transition_time = env.now;
    };
    others = _;
    there = rw (fine, update_status_with_components) refl;
    same_spec = refl;
    generation = refl;
    conditions = refl;
    named = refl;
    agrees = agrees;
  }

  abbrev Reports : World × Outcome → Type 0
  Reports r = StatusStored operator r.0.object r.1

  report-StatusStored :
      (e : Ending) (statuses : List ComponentStatus) (w : World)
      → env.status_fault ≡ none
      → ((m : String) → e ≡ stopped m → all_components_ready statuses ≡ false)
      → (report env operator e statuses w).1 ≢ panicked
      → Reports (report env operator e statuses w)
  unfolding report report_readiness
  report-StatusStored crashed statuses w fine fails ends = absurd (ends refl)
  report-StatusStored (stopped m) statuses w fine fails ends =
      update_status-StatusStored _ _ statuses w _ fine (
        subst (λ b. Reported "Error" (condition_status b) (failed (after error_requeue_interval) m))
          (sym (fails m refl)) (error m))
  report-StatusStored finished statuses w fine fails ends =
      if_cases Reports (all_components_ready statuses)
        (λ ready. update_status-StatusStored _ _ statuses w _ fine (
          subst
            (λ b. Reported "Running" (condition_status b) (done (after default_requeue_interval)))
            (sym ready) running))
        (λ waiting. update_status-StatusStored _ _ statuses w _ fine (
          subst (λ b. Reported "Pending" (condition_status b) (done (after fast_requeue_interval)))
            (sym waiting) pending))

  -- Where the status can be written, a pass over the components that does not panic stores the
  -- object with this generation, and its phase, its condition `Ready` and the end of the pass agree:
  -- `Running`, `True` and thirty seconds; `Pending`, `False` and five seconds; or `Error`, `False`
  -- and the error with a minute.
  pub reconcile_workloads-StatusStored :
      (w : World)
      → env.status_fault ≡ none
      → (reconcile_workloads env operator w).1 ≢ panicked
      → StatusStored operator
          (reconcile_workloads env operator w).0.object
          (reconcile_workloads env operator w).1
  unfolding reconcile_workloads
  reconcile_workloads-StatusStored w fine ends =
      report-StatusStored _ _ _ fine (components-FailsReady w.cluster) ends
