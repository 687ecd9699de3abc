-- ===== src/Operator/Panics.antt =====
-- When the operator panics: a quantity that does not parse, or a workload without a replica count.
use multinic.Base.{
  true, not, String, ◌≡◌, ◌≢◌, ◌⊎◌, refl, ◌∙◌, ap, sym, subst, List, [], ◌∷◌, none, some, arith,
  inl, inr, Option, Option-cases, if_cases, if◌then◌else◌,
}
use multinic.Api.Operator.{MultiNicOperator}
use multinic.Cluster.{Resource}
use multinic.Reconcile.Environment.{Outcome, panicked}
use multinic.Operator.Workloads.{build_database_stateful_set, build_controller_deployment}
use multinic.Operator.Services.{build_database_service}
use multinic.Operator.Surroundings.{Surroundings, World, Exchange}
use multinic.Operator.Apply.{
  Ending, Step, finished, stopped, crashed, continue, ensure_object, create_object,
  reconcile_service, reconcile_database, reconcile_controller,
}
use multinic.Operator.Frame.{existing_alive, existing_deleted, reconcile_found, report-cluster}
use multinic.Operator.Ready.{ComponentStatus, check_database_readiness, check_controller_readiness}
use multinic.Operator.Status.{
  Components, component, components, reconcile_components, after_database, after_controller,
  controller_component,
}
use multinic.Operator.Loop.{
  put_operator, release_operator, handle_operator_deletion, report_readiness, reconcile_operator,
  reconcile_workloads, reconcile_existing, report, operator_finalizer, claim_operator,
}

-- The object reaches reconcileComponents.
abbrev pub Reaches : Surroundings → MultiNicOperator → Type 0
Reaches env operator =
    (env.get_error ≡ none)
    × (operator.deletion_timestamp ≡ none)
    × (env.contains_finalizer operator.finalizers operator_finalizer ≡ true)

-- The first workload that reconcileComponents builds.
abbrev pub first_built : Surroundings → MultiNicOperator → Option Resource
first_built env operator =
    if operator.spec.database.enabled
    then build_database_stateful_set env.must_parse operator
    else build_controller_deployment env.must_parse operator

-- A workload cannot be built, or one that is read back has no replica count.
abbrev pub IsCause : Surroundings → MultiNicOperator → List Resource → Type 0
IsCause env operator c =
    ((operator.spec.database.enabled ≡ true)
      × ((build_database_stateful_set env.must_parse operator ≡ none)
          ⊎ (check_database_readiness env operator c ≡ none)))
    ⊎ (build_controller_deployment env.must_parse operator ≡ none)
    ⊎ (check_controller_readiness env operator c ≡ none)

abbrev CrashCause : Surroundings → MultiNicOperator → Components → Type 0
CrashCause env operator r = r.ending ≡ crashed → IsCause env operator r.cluster

module _ (env : Surroundings) (operator : MultiNicOperator) where
  ensure_object-alive :
      (x : Exchange) (what : String) (r : Resource) (c : List Resource)
      → (ensure_object operator x what r c).1 ≢ crashed
  unfolding ensure_object create_object
  ensure_object-alive x what r c = λ h. ground (arith, h)

  reconcile_service-alive : (c : List Resource) → (reconcile_service env operator c).1 ≢ crashed
  unfolding reconcile_service
  reconcile_service-alive c =
      ensure_object-alive env.service "database Service" (build_database_service operator) c

  continue-alive :
      (next : List Resource → Step) (s : Step)
      → s.1 ≢ crashed
      → ((c : List Resource) → (next c).1 ≢ crashed)
      → (continue next s).1 ≢ crashed
  unfolding continue
  continue-alive next (c, finished) alive later = later c
  continue-alive next (c, stopped e) alive later = λ h. cc
  continue-alive next (c, crashed) alive later = λ h. alive refl

  reconcile_database-crashed :
      (c : List Resource)
      → (reconcile_database env operator c).1 ≡ crashed
      → build_database_stateful_set env.must_parse operator ≡ none
  unfolding reconcile_database
  reconcile_database-crashed c h =
      elim (Option-cases (build_database_stateful_set env.must_parse operator)) [
        | inl unbuilt ↦ unbuilt
        | inr (r, built) ↦ absurd (
            continue-alive (reconcile_service env operator)
              (ensure_object operator env.stateful_set "database StatefulSet" r c)
              (ensure_object-alive env.stateful_set "database StatefulSet" r c)
              reconcile_service-alive (rw (built, reconcile_database) at h))
      ]

  reconcile_controller-crashed :
      (c : List Resource)
      → (reconcile_controller env operator c).1 ≡ crashed
      → build_controller_deployment env.must_parse operator ≡ none
  unfolding reconcile_controller
  reconcile_controller-crashed c h =
      elim (Option-cases (build_controller_deployment env.must_parse operator)) [
        | inl unbuilt ↦ unbuilt
        | inr (r, built) ↦ absurd (
            ensure_object-alive env.deployment "controller Deployment" r c
              (rw (built, reconcile_controller) at h))
      ]

  after_controller-CrashCause :
      (before : List ComponentStatus) (c : List Resource) (e : Ending)
      → (e ≡ crashed → build_controller_deployment env.must_parse operator ≡ none)
      → CrashCause env operator (after_controller env operator before c e)
  unfolding after_controller
  after_controller-CrashCause before c crashed unbuilt h = inr (inl (unbuilt refl))
  after_controller-CrashCause before c (stopped e) unbuilt h = cc
  after_controller-CrashCause before c finished unbuilt h =
      elim (Option-cases (check_controller_readiness env operator c)) [
        | inl unread ↦ rw (unread, after_controller) (inr (inr unread))
        | inr (r, read) ↦ cc (rw (read, after_controller) at h)
      ]

  controller_component-CrashCause :
      (before : List ComponentStatus) (c : List Resource)
      → CrashCause env operator (controller_component env operator before c)
  unfolding controller_component
  controller_component-CrashCause before c =
      after_controller-CrashCause before _ _ (reconcile_controller-crashed c)

  after_database-CrashCause :
      (c : List Resource) (e : Ending)
      → operator.spec.database.enabled ≡ true
      → (e ≡ crashed → build_database_stateful_set env.must_parse operator ≡ none)
      → CrashCause env operator (after_database env operator c e)
  unfolding after_database
  after_database-CrashCause c crashed enabled unbuilt h = inl (enabled, inl (unbuilt refl))
  after_database-CrashCause c (stopped e) enabled unbuilt h = cc
  after_database-CrashCause c finished enabled unbuilt h =
      elim (Option-cases (check_database_readiness env operator c)) [
        | inl unread ↦ rw (unread, after_database) (inl (enabled, inr unread))
        | inr (r, read) ↦
            let before = component "database" env.database_check r ∷ [] in
            let same : after_database env operator c finished
                ≡ controller_component env operator before c =
              rw (read, after_database) refl in
            subst (CrashCause env operator) (sym same) (controller_component-CrashCause before c) h
      ]

  reconcile_components-CrashCause :
      (c : List Resource) → CrashCause env operator (reconcile_components env operator c)
  unfolding reconcile_components
  reconcile_components-CrashCause c =
      if_cases (CrashCause env operator) operator.spec.database.enabled
        (λ enabled. after_database-CrashCause _ _ enabled (reconcile_database-crashed c))
        (λ _. controller_component-CrashCause [] c)

  -- The components crash at once where the first workload cannot be built.
  crashed_components :
      (c : List Resource)
      → first_built env operator ≡ none
      → reconcile_components env operator c ≡ components c [] crashed
  unfolding reconcile_components reconcile_database after_database reconcile_controller
      controller_component after_controller
  crashed_components c unbuilt = ground (arith, unbuilt)

  claim-alive : (w : World) → (claim_operator env operator w).1 ≢ panicked
  unfolding claim_operator put_operator
  claim-alive w = λ h. ground (arith, h)

  report-crashed :
      (e : Ending) (statuses : List ComponentStatus) (w : World)
      → (report env operator e statuses w).1 ≡ panicked
      → e ≡ crashed
  unfolding report report_readiness
  report-crashed crashed statuses w h = refl
  report-crashed (stopped e) statuses w h = cc
  report-crashed finished statuses w h = ground (arith, h)

  workloads-panicked :
      (w : World)
      → (reconcile_workloads env operator w).1 ≡ panicked
      → IsCause env operator (reconcile_workloads env operator w).0.cluster
  unfolding reconcile_workloads
  workloads-panicked w h =
      let r = reconcile_components env operator w.cluster in
      subst (IsCause env operator)
        (sym (report-cluster env operator r.ending r.statuses (record w { cluster = r.cluster })))
        (reconcile_components-CrashCause w.cluster (report-crashed r.ending r.statuses _ h))

  workloads_panic :
      (w : World)
      → first_built env operator ≡ none
      → reconcile_workloads env operator w ≡ (w, panicked)
  unfolding reconcile_workloads report
  workloads_panic w unbuilt =
      ap
        (λ (r : Components).
          report env operator r.ending r.statuses (record w { cluster = r.cluster }))
        (crashed_components w.cluster unbuilt)

  -- Where a pass panics, and what panicked.
  abbrev Panicked : World × Outcome → Type 0
  Panicked s = s.1 ≡ panicked → Reaches env operator × IsCause env operator s.0.cluster

  deletion-Panicked : (w : World) → Panicked (handle_operator_deletion env operator w)
  unfolding handle_operator_deletion release_operator put_operator
  deletion-Panicked w h = absurd (ground (arith, h))

  existing-Panicked :
      (w : World) → env.get_error ≡ none → Panicked (reconcile_existing env operator w)
  unfolding claim_operator
  existing-Panicked w fine = elim (Option-cases operator.deletion_timestamp) [
    | inr (t, deleted) ↦
        subst Panicked (sym (existing_deleted env operator w t deleted)) (deletion-Panicked w)
    | inl alive ↦ subst Panicked (sym (existing_alive env operator w alive)) (
        if_cases Panicked (not (env.contains_finalizer operator.finalizers operator_finalizer))
          (λ _ h. absurd (claim-alive w h))
          (λ held h. ((fine, alive, ground (arith, held)), workloads-panicked w h)))
  ]

  reaches :
      (w : World)
      → Reaches env operator
      → w.object ≡ some operator
      → reconcile_operator env w ≡ reconcile_workloads env operator w
  reaches w (fine, alive, claimed) there =
      reconcile_found env operator w fine there
      ∙ existing_alive env operator w alive
      ∙ ap
          (λ b. if not b then claim_operator env operator w else reconcile_workloads env operator w)
          claimed

  -- A Reconcile of the operator's object panics only where the object is read, is not being deleted
  -- and has its finalizer, and where the StatefulSet of an enabled database or the Deployment cannot
  -- be built (resource.MustParse of a quantity), or a readiness check of the cluster it leaves
  -- dereferences a missing replica count. And where the object gets that far and the first workload
  -- that is built, the StatefulSet or, with the database disabled, the Deployment, cannot be built,
  -- Reconcile panics and changes neither the workloads nor the object.
  pub reconcile_operator_panics :
      (w : World)
      → w.object ≡ some operator
      → ((reconcile_operator env w).1 ≡ panicked
          → Reaches env operator × IsCause env operator (reconcile_operator env w).0.cluster)
        × (Reaches env operator
            → first_built env operator ≡ none
            → reconcile_operator env w ≡ (w, panicked))
  unfolding reconcile_operator
  reconcile_operator_panics w there = (
    (elim (Option-cases env.get_error) [
      | inr (e, lost) ↦ rw (lost, reconcile_operator) (λ h. cc)
      | inl fine ↦
          subst Panicked (sym (reconcile_found env operator w fine there))
            (existing-Panicked w fine)
    ]),
    λ reached unbuilt. reaches w reached there ∙ workloads_panic w unbuilt,
  )
