-- ===== src/Operator/Finished.antt =====
-- What a step that ended without an error has gone through.
use multinic.Base.{◌≡◌, refl, List, [], ◌∷◌, ◌++◌, some, inl, inr, Option-cases}
use multinic.Api.Operator.{MultiNicOperator}
use multinic.Cluster.{Resource}
use multinic.Operator.Surroundings.{Surroundings}
use multinic.Operator.Apply.{
  Ending, Step, finished, stopped, crashed, continue, reconcile_database, reconcile_controller,
  reconcile_service, ensure_object,
}
use multinic.Operator.Workloads.{build_database_stateful_set, build_controller_deployment}
use multinic.Operator.Ready.{
  ComponentStatus, Readiness, check_database_readiness, check_controller_readiness,
}
use multinic.Operator.Status.{
  Components, component, protect, after_controller, controller_component, after_database,
}

continue-finished :
    (next : List Resource → Step) (s : Step)
    → (continue next s).1 ≡ finished
    → (s.1 ≡ finished) × (continue next s ≡ next s.0)
unfolding continue
continue-finished next (c, finished) h = (refl, refl)
continue-finished next (c, stopped e) h = cc
continue-finished next (c, crashed) h = cc

module _ (env : Surroundings) (operator : MultiNicOperator) where
  pub reconcile_database-finished :
      (c : List Resource)
      → (reconcile_database env operator c).1 ≡ finished
      → (r : Resource) × (build_database_stateful_set env.must_parse operator ≡ some r)
        × ((ensure_object operator env.stateful_set "database StatefulSet" r c).1 ≡ finished)
        × (reconcile_database env operator c
            ≡ reconcile_service env operator
                (ensure_object operator env.stateful_set "database StatefulSet" r c).0)
  unfolding reconcile_database
  reconcile_database-finished c h =
      elim (Option-cases (build_database_stateful_set env.must_parse operator)) [
        | inl panic ↦ cc (rw (panic, reconcile_database) at h)
        | inr (r, built) ↦
            let (first, next) =
              continue-finished (reconcile_service env operator)
                (ensure_object operator env.stateful_set "database StatefulSet" r c)
                (rw (built, reconcile_database) at h) in
            (r, built, first, rw (built, reconcile_database) next)
      ]

  pub reconcile_controller-finished :
      (c : List Resource)
      → (reconcile_controller env operator c).1 ≡ finished
      → (r : Resource) × (build_controller_deployment env.must_parse operator ≡ some r)
        × (reconcile_controller env operator c
            ≡ ensure_object operator env.deployment "controller Deployment" r c)
  unfolding reconcile_controller
  reconcile_controller-finished c h =
      elim (Option-cases (build_controller_deployment env.must_parse operator)) [
        | inl panic ↦ cc (rw (panic, reconcile_controller) at h)
        | inr (r, built) ↦ (r, built, rw (built, reconcile_controller) refl)
      ]

  after_controller-finished :
      (before : List ComponentStatus) (c : List Resource) (e : Ending)
      → (after_controller env operator before c e).ending ≡ finished
      → (e ≡ finished)
        × ((r : Readiness) × (check_controller_readiness env operator c ≡ some r)
            × ((after_controller env operator before c e).cluster ≡ protect env operator c)
            × ((after_controller env operator before c e).statuses
                ≡ before ++ component "controller" env.controller_check r ∷ []))
  unfolding after_controller
  after_controller-finished before c crashed h = cc
  after_controller-finished before c (stopped e) h = cc
  after_controller-finished before c finished h =
      elim (Option-cases (check_controller_readiness env operator c)) [
        | inl panic ↦ cc (rw (panic, after_controller) at h)
        | inr (r, checked) ↦ (
          refl,
          (r, checked, rw (checked, after_controller) refl, rw (checked, after_controller) refl),
        )
      ]

  -- The way of the controller's component.
  pub record ControllerDone (before : List ComponentStatus) (c : List Resource)
      (result : Components) : Type 0 where
    pub readiness : Readiness
    pub applied : (reconcile_controller env operator c).1 ≡ finished
    pub checked :
        check_controller_readiness env operator (reconcile_controller env operator c).0
        ≡ some readiness
    pub cluster : result.cluster ≡ protect env operator (reconcile_controller env operator c).0
    pub statuses :
        result.statuses ≡ before ++ component "controller" env.controller_check readiness ∷ []

  pub controller_component-ControllerDone :
      (before : List ComponentStatus) (c : List Resource)
      → (controller_component env operator before c).ending ≡ finished
      → ControllerDone before c (controller_component env operator before c)
  unfolding controller_component
  controller_component-ControllerDone before c h =
      let (applied, (r, checked, cluster, statuses)) = after_controller-finished before _ _ h in
      record {
        readiness = r;
        applied = applied;
        checked = checked;
        cluster = cluster;
        statuses = statuses;
      }

  pub after_database-finished :
      (c : List Resource) (e : Ending)
      → (after_database env operator c e).ending ≡ finished
      → (e ≡ finished)
        × ((r : Readiness) × (check_database_readiness env operator c ≡ some r)
            × (after_database env operator c e
                ≡ controller_component env operator
                    (component "database" env.database_check r ∷ [])
                    c))
  unfolding after_database
  after_database-finished c crashed h = cc
  after_database-finished c (stopped e) h = cc
  after_database-finished c finished h =
      elim (Option-cases (check_database_readiness env operator c)) [
        | inl panic ↦ cc (rw (panic, after_database) at h)
        | inr (r, checked) ↦ (refl, (r, checked, rw (checked, after_database) refl))
      ]
