-- ===== src/Operator/Running.antt =====
-- What the reported status says of the cluster.
use multinic.Base.{
  none, String, Bool, true, false, ◌≡◌, refl, ◌∙◌, ap, sym, subst, List, [], ◌∷◌, ◌++◌, Option,
  some, inl, inr, Option-cases, Result-cases, arith, if◌then◌else◌, ok, err,
}
use mathlib.Core.Option.{some_inj}
use multinic.Base.Int.{ℤ, is_zero, ltz}
use multinic.Api.Operator.{MultiNicOperator}
use multinic.Cluster.{Resource, Key, find_resource}
use multinic.Cluster.Lookup.{state_at}
use multinic.Protection.{Fault, not_found, conflict, other, get}
use multinic.Protection.Labelling.{get-ok}
use multinic.Protection.Removal.{manager_of}
use multinic.Reconcile.Environment.{done, after}
use multinic.Operator.Surroundings.{Surroundings, World}
use multinic.Operator.Apply.{Ending, finished, stopped, crashed, reconcile_database}
use multinic.Operator.Ready.{
  ComponentStatus, Readiness, replicas_of, compare_replicas, judge_readiness, missing_readiness,
  check_database_readiness, check_controller_readiness, all_components_ready,
}
use multinic.Operator.States.{SameStates, state_at-found}
use multinic.Operator.Finished.{
  ControllerDone, controller_component-ControllerDone, after_database-finished,
}
use multinic.Operator.Convergence.{database_key, controller-find}
use multinic.Operator.Ensured.{KeepsKey}
use multinic.Operator.Frame.{report-cluster}
use multinic.Operator.Passes.{protect-SameStates}
use multinic.Operator.Status.{
  Components, component, after_database, controller_component, reconcile_components,
}
use multinic.Operator.Loop.{report, report_readiness, reconcile_workloads, default_requeue_interval}

-- The object is there, its replica count is set, and that many of its pods are ready, at least one.
abbrev pub HasReadyPods : Key → List Resource → Type 0
HasReadyPods k c =
    (r : Resource) × (n : ℤ) × (find_resource k c ≡ some r)
    × (replicas_of r.spec ≡ some n)
    × (ltz r.ready_replicas n ≡ false)
    × (is_zero r.ready_replicas ≡ false)

judge_readiness-ready :
    (title : String) (r : Resource) (q : Readiness)
    → judge_readiness title r ≡ some q
    → q.ready ≡ true
    → (n : ℤ) × (replicas_of r.spec ≡ some n)
      × (ltz r.ready_replicas n ≡ false)
      × (is_zero r.ready_replicas ≡ false)
unfolding judge_readiness compare_replicas
judge_readiness-ready title r q h ready = elim (Option-cases (replicas_of r.spec)) [
  | inl missing ↦ ground (arith, h, ready, missing)
  | inr (n, there) ↦ (n, there, ground (arith, h, ready, there), ground (arith, h, ready, there))
]

missing_readiness-ready :
    (title what : String) (f : Fault) → (missing_readiness title what f).ready ≡ false
unfolding missing_readiness
missing_readiness-ready title what not_found = refl
missing_readiness-ready title what conflict = refl
missing_readiness-ready title what (other e) = refl

-- Only an object that Get finds is ever called ready.
found-ready :
    (title missing what : String) (fault : Option Fault) (k : Key) (c : List Resource)
    (q : Readiness)
    → (elim (get fault k c) [
      | err f ↦ some (missing_readiness missing what f)
      | ok r ↦ judge_readiness title r
    ])
      ≡ some q
    → q.ready ≡ true
    → HasReadyPods k c
found-ready title missing what fault k c q h ready = elim (Result-cases (get fault k c)) [
  | inl (r, there) ↦
      let (n, count, enough, some_pod) = judge_readiness-ready title r q (rw (there) at h) ready in
      (r, n, get-ok fault k c r there, count, enough, some_pod)
  | inr (f, lost) ↦
      let same : missing_readiness missing what f ≡ q = some_inj.0 (rw (lost) at h) in
      cc (ap (λ x. x.ready) same, missing_readiness-ready missing what f)
]

module _ (env : Surroundings) (operator : MultiNicOperator) (c : List Resource)
    (q : Readiness) where
  check_controller-ready :
      check_controller_readiness env operator c ≡ some q
      → q.ready ≡ true
      → HasReadyPods (manager_of operator) c
  unfolding check_controller_readiness
  check_controller-ready h ready =
      found-ready "Controller" "Controller Deployment" "controller Deployment" env.controller_fault
        (manager_of operator) c q h ready

  check_database-ready :
      check_database_readiness env operator c ≡ some q
      → q.ready ≡ true
      → HasReadyPods (database_key operator) c
  unfolding check_database_readiness
  check_database-ready h ready =
      found-ready "Database" "Database StatefulSet" "database StatefulSet" env.database_fault
        (database_key operator) c q h ready

HasReadyPods-states :
    (k : Key) (c c' : List Resource) → SameStates c c' → HasReadyPods k c → HasReadyPods k c'
HasReadyPods-states k c c' same (r, n, there, count, enough, some_pod) =
    let (r', there', eq) =
      state_at-found k c' (record r { labels = none }) (same k ∙ rw (there, state_at) refl) in
    (
      r',
      n,
      there',
      ap (λ s. replicas_of s.spec) eq ∙ count,
      ap (λ s. ltz s.ready_replicas n) eq ∙ enough,
      ap (λ s. is_zero s.ready_replicas) eq ∙ some_pod,
    )

HasReadyPods-find :
    (k : Key) (c c' : List Resource)
    → find_resource k c' ≡ find_resource k c
    → HasReadyPods k c
    → HasReadyPods k c'
HasReadyPods-find k c c' same (r, n, there, count, enough, some_pod) =
    (r, n, same ∙ there, count, enough, some_pod)

module _ (env : Surroundings) (operator : MultiNicOperator) where
  controller_component-ready :
      (before : List ComponentStatus) (c : List Resource)
      → (d : ControllerDone env operator before c (controller_component env operator before c))
      → d.readiness.ready ≡ true
      → HasReadyPods (manager_of operator) (controller_component env operator before c).cluster
  controller_component-ready before c d ready =
      subst (HasReadyPods (manager_of operator)) (sym d.cluster) (
        HasReadyPods-states (manager_of operator) _ _ (protect-SameStates env operator _)
          (check_controller-ready env operator _ d.readiness d.checked ready))

  controller_component-database_ready :
      (before : List ComponentStatus) (c : List Resource)
      → KeepsKey env.deployment
      → ControllerDone env operator before c (controller_component env operator before c)
      → HasReadyPods (database_key operator) c
      → HasReadyPods (database_key operator) (controller_component env operator before c).cluster
  controller_component-database_ready before c keeps d ready =
      subst (HasReadyPods (database_key operator)) (sym d.cluster) (
        HasReadyPods-states (database_key operator) _ _ (protect-SameStates env operator _) (
          HasReadyPods-find (database_key operator) c _
            (controller-find env operator (database_key operator) c keeps refl) ready))

  -- What the statuses claim of the cluster.
  abbrev pub RunsOn : Bool → List Resource → Type 0
  RunsOn enabled c =
      (if enabled then HasReadyPods (database_key operator) c else Unit {0})
      × HasReadyPods (manager_of operator) c

  ready_by :
      (enabled : Bool) (c : List Resource) (result : Components)
      → KeepsKey env.deployment
      → result ≡ (
          if enabled
          then after_database env operator
              (reconcile_database env operator c).0
              (reconcile_database env operator c).1
          else controller_component env operator [] c)
      → result.ending ≡ finished
      → all_components_ready result.statuses ≡ true
      → RunsOn enabled result.cluster
  unfolding all_components_ready
  ready_by true c result keeps same h ready =
      let (fine, (r, checked, same')) =
        after_database-finished env operator (reconcile_database env operator c).0
          (reconcile_database env operator c).1 (sym (ap (λ x. x.ending) same) ∙ h) in
      let c1 = (reconcile_database env operator c).0 in
      let before = component "database" env.database_check r ∷ [] in
      let eq = same ∙ same' in
      let d =
        controller_component-ControllerDone env operator before c1
          (sym (ap (λ x. x.ending) eq) ∙ h) in
      let statuses = sym (ap (λ x. all_components_ready x.statuses) eq) ∙ ready in
      let both : all_components_ready
            (before ++ component "controller" env.controller_check d.readiness ∷ [])
          ≡ true =
        ap all_components_ready (sym d.statuses) ∙ statuses in
      subst (λ x. RunsOn true x.cluster) (sym eq)
        (
          controller_component-database_ready before c1 keeps d
              (check_database-ready env operator c1 r checked (ground (arith, both))),
          controller_component-ready before c1 d (ground (arith, both)),
        )
  ready_by false c result keeps same h ready =
      let d =
        controller_component-ControllerDone env operator [] c (sym (ap (λ x. x.ending) same) ∙ h) in
      let statuses = sym (ap (λ x. all_components_ready x.statuses) same) ∙ ready in
      let one : all_components_ready (component "controller" env.controller_check d.readiness ∷ [])
          ≡ true =
        ap all_components_ready (sym d.statuses) ∙ statuses in
      subst (λ x. RunsOn false x.cluster) (sym same)
        (tt, controller_component-ready [] c d (ground (arith, one)))

  report-running :
      (e : Ending) (statuses : List ComponentStatus) (w : World)
      → (report env operator e statuses w).1 ≡ done (after default_requeue_interval)
      → (e ≡ finished) × (all_components_ready statuses ≡ true)
  unfolding report report_readiness
  report-running crashed statuses w h = cc
  report-running (stopped e) statuses w h = cc
  report-running finished statuses w h = (refl, ground (arith, h))

  -- If a pass asks to be looked at again after the default interval, which is how it ends when it
  -- reports `Running`, then afterwards the Deployment and, where the database is enabled, the
  -- StatefulSet are there with all their replicas ready, at least one each, where the server stores
  -- the Deployment under its own key.
  pub reconcile_workloads-RunsOn :
      (w : World)
      → KeepsKey env.deployment
      → (reconcile_workloads env operator w).1 ≡ done (after default_requeue_interval)
      → RunsOn operator.spec.database.enabled (reconcile_workloads env operator w).0.cluster
  unfolding reconcile_workloads reconcile_components
  reconcile_workloads-RunsOn w keeps h =
      let (fine, ready) = report-running _ _ _ h in
      subst (RunsOn operator.spec.database.enabled) (sym (report-cluster env operator _ _ _))
        (ready_by operator.spec.database.enabled w.cluster _ keeps refl fine ready)
