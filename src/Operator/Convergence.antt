-- ===== src/Operator/Convergence.antt =====
-- A step without an error brings its managed objects to what the operator wants.
use multinic.Base.{
  false, ◌≡◌, refl, ◌∙◌, ap, sym, subst, List, some, inl, inr, Option-cases, if◌then◌else◌,
}
use mathlib.Core.Option.{some_inj}
use multinic.Base.Options.{>>=-eq-some}
use multinic.Api.Operator.{MultiNicOperator}
use multinic.Cluster.{Resource, Key, resource_key, find_resource, same_key}
use multinic.Cluster.Objects.{Spec}
use multinic.Protection.{key_in}
use multinic.Protection.Removal.{manager_of}
use multinic.Operator.Quantities.{
  get_database_resource_requirements, get_controller_resource_requirements, MustParse,
}
use multinic.Operator.Workloads.{
  build_database_stateful_set, build_controller_deployment, or_default,
}
use multinic.Operator.Services.{build_database_service}
use multinic.Operator.Surroundings.{Surroundings}
use multinic.Operator.Apply.{
  finished, reconcile_database, reconcile_controller, reconcile_service, ensure_object,
}
use multinic.Operator.Ensured.{
  IsCurrent, IsHonest, KeepsKey, ensure_object-IsCurrent, ensure_object-find,
}
use multinic.Operator.Finished.{reconcile_database-finished, reconcile_controller-finished}

module _ (must_parse : MustParse) (operator : MultiNicOperator) (r : Resource) where
  pub stateful_set-key :
      build_database_stateful_set must_parse operator ≡ some r
      → resource_key r ≡ key_in operator "StatefulSet" "mariadb"
  unfolding build_database_stateful_set
  stateful_set-key built =
      let (q, _, rest) =
        >>=-eq-some (get_database_resource_requirements must_parse operator.spec.database.resources)
          _ built in
      let (s, _, done) =
        >>=-eq-some (must_parse (or_default operator.spec.database.storage_size "10Gi")) _ rest in
      ap resource_key (sym (some_inj.0 done))

  pub deployment-key :
      build_controller_deployment must_parse operator ≡ some r
      → resource_key r ≡ manager_of operator
  unfolding build_controller_deployment
  deployment-key built =
      let (q, _, done) =
        >>=-eq-some
          (get_controller_resource_requirements must_parse operator.spec.controller.resources) _
          built in
      ap resource_key (sym (some_inj.0 done))

abbrev pub database_key : MultiNicOperator → Key
database_key operator = key_in operator "StatefulSet" "mariadb"

abbrev pub service_key : MultiNicOperator → Key
service_key operator = key_in operator "Service" "mariadb"

-- The objects of the database, and of the controller, are there as the builders make them, in the
-- fields that are compared.
abbrev pub DatabaseCurrent : MustParse → MultiNicOperator → List Resource → Type 0
DatabaseCurrent must_parse operator c =
    (r : Resource) × (build_database_stateful_set must_parse operator ≡ some r)
    × IsCurrent (key_in operator "StatefulSet" "mariadb") r.spec c
    × IsCurrent (key_in operator "Service" "mariadb") (build_database_service operator).spec c

abbrev pub ControllerCurrent : MustParse → MultiNicOperator → List Resource → Type 0
ControllerCurrent must_parse operator c =
    (r : Resource) × (build_controller_deployment must_parse operator ≡ some r)
    × IsCurrent (manager_of operator) r.spec c

abbrev pub IsInstalled : MustParse → MultiNicOperator → List Resource → Type 0
IsInstalled must_parse operator c =
    (if operator.spec.database.enabled then DatabaseCurrent must_parse operator c else Unit {0})
    × ControllerCurrent must_parse operator c

pub IsCurrent-find :
    (k : Key) (d : Spec) (c c' : List Resource)
    → find_resource k c' ≡ find_resource k c
    → IsCurrent k d c
    → IsCurrent k d c'
IsCurrent-find k d c c' same (r, there, current) = (r, same ∙ there, current)

-- The server's answers to one pass.
abbrev pub HonestServer : Surroundings → Type 0
HonestServer env = IsHonest env.stateful_set × IsHonest env.service × IsHonest env.deployment

-- The step for the Deployment finds the same elsewhere as before.
pub controller-find :
    (env : Surroundings) (operator : MultiNicOperator) (j : Key) (c : List Resource)
    → KeepsKey env.deployment
    → same_key j (manager_of operator) ≡ false
    → find_resource j (reconcile_controller env operator c).0 ≡ find_resource j c
unfolding reconcile_controller
controller-find env operator j c keeps differ =
    elim (Option-cases (build_controller_deployment env.must_parse operator)) [
      | inl panic ↦ rw (panic, reconcile_controller) refl
      | inr (r, built) ↦
          rw (built, reconcile_controller)
            (ensure_object-find operator env.deployment "controller Deployment" r c j keeps (
              subst (λ k. same_key j k ≡ false)
                (sym (deployment-key env.must_parse operator r built)) differ))
    ]

module _ (env : Surroundings) (operator : MultiNicOperator) (honest : HonestServer env) where
  pub database-DatabaseCurrent :
      (c : List Resource)
      → (reconcile_database env operator c).1 ≡ finished
      → DatabaseCurrent env.must_parse operator (reconcile_database env operator c).0
  unfolding reconcile_service build_database_service
  database-DatabaseCurrent c h =
      let (r, built, first, same) = reconcile_database-finished env operator c h in
      let key = stateful_set-key env.must_parse operator r built in
      let c1 = (ensure_object operator env.stateful_set "database StatefulSet" r c).0 in
      let service = build_database_service operator in
      let there : IsCurrent (database_key operator) r.spec c1 =
        subst (λ k. IsCurrent k r.spec c1) key
          (ensure_object-IsCurrent operator env.stateful_set "database StatefulSet" r c honest.0
            first) in
      let second : (reconcile_service env operator c1).1 ≡ finished =
        sym (ap (λ s. s.1) same) ∙ h in
      subst (DatabaseCurrent env.must_parse operator) (sym (ap (λ s. s.0) same)) (
        r,
        built,
        IsCurrent-find (database_key operator) r.spec c1 (reconcile_service env operator c1).0
            (ensure_object-find operator env.service "database Service" service c1
              (database_key operator) (λ q s e. (honest.1.0 q s e).0) refl)
            there,
        ensure_object-IsCurrent operator env.service "database Service" service c1 honest.1 second,
      )

  pub controller-ControllerCurrent :
      (c : List Resource)
      → (reconcile_controller env operator c).1 ≡ finished
      → ControllerCurrent env.must_parse operator (reconcile_controller env operator c).0
  controller-ControllerCurrent c h =
      let (r, built, same) = reconcile_controller-finished env operator c h in
      let key = deployment-key env.must_parse operator r built in
      (
        r,
        built,
        subst (λ k. IsCurrent k r.spec (reconcile_controller env operator c).0) key
            (subst (λ s. IsCurrent (resource_key r) r.spec s) (sym (ap (λ s. s.0) same))
              (ensure_object-IsCurrent operator env.deployment "controller Deployment" r c honest.2
                (sym (ap (λ s. s.1) same) ∙ h))),
      )

  pub controller-DatabaseCurrent :
      (c : List Resource)
      → (reconcile_controller env operator c).1 ≡ finished
      → DatabaseCurrent env.must_parse operator c
      → DatabaseCurrent env.must_parse operator (reconcile_controller env operator c).0
  controller-DatabaseCurrent c h (q, built, set, service) =
      let keeps : KeepsKey env.deployment = λ p s e. (honest.2.0 p s e).0 in
      (
        q,
        built,
        IsCurrent-find _ _ c _ (controller-find env operator (database_key operator) c keeps refl)
            set,
        IsCurrent-find _ _ c _ (controller-find env operator (service_key operator) c keeps refl)
            service,
      )
