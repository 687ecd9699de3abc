-- ===== src/Operator/Passes.antt =====
-- A pass without an error brings the managed objects to what the operator wants; the next pass
-- leaves them there.
use multinic.Base.{
  Bool, true, false, ◌≡◌, ◌≢◌, refl, ◌∙◌, ap, sym, subst, List, [], some, if_cases, if◌then◌else◌,
}
use mathlib.Core.Option.{some_inj}
use multinic.Api.Operator.{MultiNicOperator}
use multinic.Cluster.{Resource}
use multinic.Protection.{not_found}
use multinic.Protection.Removal.{manager_of}
use multinic.Operator.Quantities.{MustParse}
use multinic.Operator.Services.{build_database_service}
use multinic.Operator.Surroundings.{Surroundings}
use multinic.Operator.Apply.{
  Ending, finished, reconcile_database, reconcile_controller, reconcile_service,
}
use multinic.Operator.Ensured.{IsCurrent, ensure_object_idle}
use multinic.Operator.States.{SameStates, apply_protection-SameStates, IsCurrent-states}
use multinic.Operator.Finished.{controller_component-ControllerDone, after_database-finished}
use multinic.Operator.Convergence.{
  DatabaseCurrent, ControllerCurrent, IsInstalled, HonestServer, database_key, service_key,
  database-DatabaseCurrent, controller-ControllerCurrent, controller-DatabaseCurrent,
  stateful_set-key, deployment-key,
}
use multinic.Operator.Preserved.{
  reconcile_components-keeps, reconcile_database-keeps, reconcile_controller-keeps,
}
use multinic.Operator.Ready.{ComponentStatus}
use multinic.Operator.Status.{
  Components, protect, after_database, controller_component, reconcile_components,
}

pub protect-SameStates :
    (env : Surroundings) (operator : MultiNicOperator) (c : List Resource)
    → SameStates c (protect env operator c)
unfolding protect
protect-SameStates env operator c =
    if_cases (SameStates c) operator.spec.protection.enable_mutation_prevention
      (λ _. apply_protection-SameStates env.polls operator c) (λ _ k. refl)

module _ (must_parse : MustParse) (operator : MultiNicOperator) (c c' : List Resource)
    (same : SameStates c c') where
  DatabaseCurrent-states :
      DatabaseCurrent must_parse operator c → DatabaseCurrent must_parse operator c'
  DatabaseCurrent-states (r, built, set, service) = (
    r,
    built,
    IsCurrent-states (database_key operator) r.spec c c' same set,
    IsCurrent-states (service_key operator) (build_database_service operator).spec c c' same
        service,
  )

  ControllerCurrent-states :
      ControllerCurrent must_parse operator c → ControllerCurrent must_parse operator c'
  ControllerCurrent-states (r, built, current) =
      (r, built, IsCurrent-states (manager_of operator) r.spec c c' same current)

module _ (env : Surroundings) (operator : MultiNicOperator) (honest : HonestServer env) where
  controller_component-current :
      (before : List ComponentStatus) (c : List Resource)
      → (controller_component env operator before c).ending ≡ finished
      → ControllerCurrent env.must_parse operator
          (controller_component env operator before c).cluster
  controller_component-current before c h =
      let d = controller_component-ControllerDone env operator before c h in
      subst (ControllerCurrent env.must_parse operator) (sym d.cluster) (
        ControllerCurrent-states env.must_parse operator _ _ (protect-SameStates env operator _)
          (controller-ControllerCurrent env operator honest c d.applied))

  controller_component-database :
      (before : List ComponentStatus) (c : List Resource)
      → (controller_component env operator before c).ending ≡ finished
      → DatabaseCurrent env.must_parse operator c
      → DatabaseCurrent env.must_parse operator (controller_component env operator before c).cluster
  controller_component-database before c h current =
      let d = controller_component-ControllerDone env operator before c h in
      subst (DatabaseCurrent env.must_parse operator) (sym d.cluster) (
        DatabaseCurrent-states env.must_parse operator _ _ (protect-SameStates env operator _)
          (controller-DatabaseCurrent env operator honest c d.applied current))

  after_database-current :
      (c : List Resource) (e : Ending)
      → (after_database env operator c e).ending ≡ finished
      → (e ≡ finished → DatabaseCurrent env.must_parse operator c)
      → DatabaseCurrent env.must_parse operator (after_database env operator c e).cluster
        × ControllerCurrent env.must_parse operator (after_database env operator c e).cluster
  after_database-current c e h current =
      let (fine, (r, checked, same)) = after_database-finished env operator c e h in
      let h' = sym (ap (λ x. x.ending) same) ∙ h in
      subst
        (λ x.
          DatabaseCurrent env.must_parse operator x.cluster
          × ControllerCurrent env.must_parse operator x.cluster)
        (sym same)
        (controller_component-database _ c h' (current fine), controller_component-current _ c h')

  installed_by :
      (enabled : Bool) (c : List Resource) (result : Components)
      → result ≡ (
          if enabled
          then after_database env operator
              (reconcile_database env operator c).0
              (reconcile_database env operator c).1
          else controller_component env operator [] c)
      → result.ending ≡ finished
      → (if enabled then DatabaseCurrent env.must_parse operator result.cluster else Unit {0})
        × ControllerCurrent env.must_parse operator result.cluster
  installed_by true c result same h =
      subst
        (λ x.
          DatabaseCurrent env.must_parse operator x.cluster
          × ControllerCurrent env.must_parse operator x.cluster)
        (sym same)
        (after_database-current _ _ (sym (ap (λ x. x.ending) same) ∙ h)
          (database-DatabaseCurrent env operator honest c))
  installed_by false c result same h = (
    tt,
    subst (λ x. ControllerCurrent env.must_parse operator x.cluster) (sym same)
        (controller_component-current [] c (sym (ap (λ x. x.ending) same) ∙ h)),
  )

  -- If the server stores what it is sent in the compared fields, then a pass over the components
  -- that ends without an error leaves the Deployment and, where the database is enabled, the
  -- StatefulSet and the Service as the operator wants them.
  pub reconcile_components-IsInstalled :
      (c : List Resource)
      → (reconcile_components env operator c).ending ≡ finished
      → IsInstalled env.must_parse operator (reconcile_components env operator c).cluster
  unfolding reconcile_components
  reconcile_components-IsInstalled c h = installed_by operator.spec.database.enabled c _ refl h

-- No Get of a managed object says that it is missing although it is there.
abbrev pub IsTruthful : Surroundings → Type 0
IsTruthful env =
    (env.stateful_set.get_fault ≢ some not_found)
    × (env.service.get_fault ≢ some not_found)
    × (env.deployment.get_fault ≢ some not_found)

database_part :
    (must_parse : MustParse) (operator : MultiNicOperator) (c : List Resource)
    → operator.spec.database.enabled ≡ true
    → IsInstalled must_parse operator c
    → DatabaseCurrent must_parse operator c
database_part must_parse operator c enabled installed =
    subst (λ b. if b then DatabaseCurrent must_parse operator c else Unit {0}) enabled installed.0

module _ (env : Surroundings) (operator : MultiNicOperator) (c c' : List Resource)
    (truthful : IsTruthful env) (same : SameStates c c') where
  database_idle :
      DatabaseCurrent env.must_parse operator c
      → SameStates c (reconcile_database env operator c').0
  unfolding reconcile_service build_database_service
  database_idle current =
      reconcile_database-keeps (SameStates c) env operator c'
        (λ r d built kept.
          let (q, built', set, service) =
            DatabaseCurrent-states env.must_parse operator c d kept current in
          let same_object : q ≡ r = some_inj.0 (sym built' ∙ built) in
          subst (SameStates c)
            (sym (
              ensure_object_idle operator env.stateful_set "database StatefulSet" r d truthful.0 (
                subst (λ k. IsCurrent k r.spec d)
                  (sym (stateful_set-key env.must_parse operator r built))
                  (subst (λ p. IsCurrent (database_key operator) p.spec d) same_object set))))
            kept)
        (λ d kept.
          let (q, built', set, service) =
            DatabaseCurrent-states env.must_parse operator c d kept current in
          subst (SameStates c)
            (sym (
              ensure_object_idle operator env.service "database Service"
                (build_database_service operator) d truthful.1 service))
            kept)
        same

  controller_idle :
      ControllerCurrent env.must_parse operator c
      → SameStates c (reconcile_controller env operator c').0
  controller_idle current =
      reconcile_controller-keeps (SameStates c) env operator c'
        (λ r built.
          let (q, built', there) =
            ControllerCurrent-states env.must_parse operator c c' same current in
          let same_object : q ≡ r = some_inj.0 (sym built' ∙ built) in
          subst (SameStates c)
            (sym (
              ensure_object_idle operator env.deployment "controller Deployment" r c' truthful.2 (
                subst (λ k. IsCurrent k r.spec c')
                  (sym (deployment-key env.must_parse operator r built))
                  (subst (λ p. IsCurrent (manager_of operator) p.spec c') same_object there))))
            same)
        same

-- Over installed objects, where no Get of a managed object says that it is missing, a pass over the
-- components, whatever else the server answers and however the pass ends, makes and removes no
-- object and changes none but for its labels.
pub reconcile_components_idle :
    (env : Surroundings) (operator : MultiNicOperator) (c : List Resource)
    → IsTruthful env
    → IsInstalled env.must_parse operator c
    → SameStates c (reconcile_components env operator c).cluster
reconcile_components_idle env operator c truthful installed =
    reconcile_components-keeps (SameStates c) env operator
      (λ enabled c' same.
        database_idle env operator c c' truthful same
          (database_part env.must_parse operator c enabled installed))
      (λ c' same. controller_idle env operator c c' truthful same installed.1)
      (λ c' same k. protect-SameStates env operator c' k ∙ same k) c (λ k. refl)
