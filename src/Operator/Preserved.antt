-- ===== src/Operator/Preserved.antt =====
-- What every step of reconcileComponents preserves, the whole preserves, on every path.
use multinic.Base.{true, ◌≡◌, List, some, inl, inr, Option-cases, if_cases}
use multinic.Api.Operator.{MultiNicOperator}
use multinic.Cluster.{Resource}
use multinic.Operator.Surroundings.{Surroundings}
use multinic.Operator.Apply.{
  Ending, Step, finished, stopped, crashed, continue, reconcile_database, reconcile_controller,
  reconcile_service, ensure_object,
}
use multinic.Operator.Workloads.{build_database_stateful_set, build_controller_deployment}
use multinic.Operator.Ready.{ComponentStatus, check_database_readiness, check_controller_readiness}
use multinic.Operator.Status.{
  Components, protect, after_controller, controller_component, after_database, reconcile_components,
}

module _ {ℓ} (P : List Resource → Type ℓ) (env : Surroundings) (operator : MultiNicOperator) where
  continue-keeps :
      (next : List Resource → Step) (s : Step)
      → P s.0
      → ((c : List Resource) → P c → P (next c).0)
      → P (continue next s).0
  unfolding continue
  continue-keeps next (c, finished) p keep = keep c p
  continue-keeps next (c, stopped e) p keep = p
  continue-keeps next (c, crashed) p keep = p

  pub reconcile_database-keeps :
      (c : List Resource)
      → ((r : Resource) (c' : List Resource)
          → build_database_stateful_set env.must_parse operator ≡ some r
          → P c'
          → P (ensure_object operator env.stateful_set "database StatefulSet" r c').0)
      → ((c' : List Resource) → P c' → P (reconcile_service env operator c').0)
      → P c
      → P (reconcile_database env operator c).0
  unfolding reconcile_database
  reconcile_database-keeps c sets services p =
      elim (Option-cases (build_database_stateful_set env.must_parse operator)) [
        | inl panic ↦ rw (panic, reconcile_database) p
        | inr (r, built) ↦
            rw (built, reconcile_database)
              (continue-keeps (reconcile_service env operator) _ (sets r c built p) services)
      ]

  pub reconcile_controller-keeps :
      (c : List Resource)
      → ((r : Resource)
          → build_controller_deployment env.must_parse operator ≡ some r
          → P (ensure_object operator env.deployment "controller Deployment" r c).0)
      → P c
      → P (reconcile_controller env operator c).0
  unfolding reconcile_controller
  reconcile_controller-keeps c deployments p =
      elim (Option-cases (build_controller_deployment env.must_parse operator)) [
        | inl panic ↦ rw (panic, reconcile_controller) p
        | inr (r, built) ↦ rw (built, reconcile_controller) (deployments r built)
      ]

  module _
      (database : operator.spec.database.enabled ≡ true
        → (c : List Resource) → P c
        → P (reconcile_database env operator c).0)
      (controller : (c : List Resource) → P c → P (reconcile_controller env operator c).0)
      (protection : (c : List Resource) → P c → P (protect env operator c)) where
    after_controller-keeps :
        (before : List ComponentStatus) (c : List Resource) (e : Ending)
        → P c
        → P (after_controller env operator before c e).cluster
    unfolding after_controller
    after_controller-keeps before c crashed p = p
    after_controller-keeps before c (stopped e) p = p
    after_controller-keeps before c finished p =
        elim (Option-cases (check_controller_readiness env operator c)) [
          | inl panic ↦ rw (panic, after_controller) p
          | inr (r, checked) ↦ rw (checked, after_controller) (protection c p)
        ]

    controller_component-keeps :
        (before : List ComponentStatus) (c : List Resource)
        → P c
        → P (controller_component env operator before c).cluster
    unfolding controller_component
    controller_component-keeps before c p = after_controller-keeps before _ _ (controller c p)

    after_database-keeps :
        (c : List Resource) (e : Ending) → P c → P (after_database env operator c e).cluster
    unfolding after_database
    after_database-keeps c crashed p = p
    after_database-keeps c (stopped e) p = p
    after_database-keeps c finished p =
        elim (Option-cases (check_database_readiness env operator c)) [
          | inl panic ↦ rw (panic, after_database) p
          | inr (r, checked) ↦ rw (checked, after_database) (controller_component-keeps _ c p)
        ]

    pub reconcile_components-keeps :
        (c : List Resource) → P c → P (reconcile_components env operator c).cluster
    unfolding reconcile_components
    reconcile_components-keeps c p =
        if_cases (λ (r : Components). P r.cluster) operator.spec.database.enabled
          (λ enabled. after_database-keeps _ _ (database enabled c p))
          (λ _. controller_component-keeps _ c p)
