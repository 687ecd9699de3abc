-- ===== src/Operator/Complete.antt =====
-- In sound surroundings a pass over the components ends without an error.
use multinic.Base.{
  String, false, ◌≡◌, refl, ◌∙◌, ap, sym, subst, List, [], ◌∷◌, none, some, ok, inl, inr,
  Option-cases, Result-cases, arith, if_cases,
}
use mathlib.Core.Option.{some_inj}
use multinic.Base.Int.{ℤ, pos}
use multinic.Base.Options.{>>=-eq-some}
use multinic.Api.Operator.{MultiNicOperator}
use multinic.Cluster.{Resource, resource_key, find_resource}
use multinic.Cluster.Objects.{Spec, WorkloadSpec, ResourceRequirements, Quantity, workload, service}
use multinic.Protection.{get}
use multinic.Protection.Labelling.{get-ok}
use multinic.Protection.Removal.{manager_of}
use multinic.Operator.Services.{build_database_service}
use multinic.Operator.Workloads.{
  build_database_stateful_set, build_controller_deployment, database_spec, controller_spec,
  controller_replicas, or_default,
}
use multinic.Operator.Quantities.{MustParse, get_database_resource_requirements}
use multinic.Operator.Compare.{needs_update, workload_differs, replicas_differ}
use multinic.Operator.Surroundings.{Surroundings, Exchange}
use multinic.Operator.Apply.{
  Step, finished, stopped, crashed, continue, ensure_object, on_found, on_fault, create_object,
  update_object, owned, renew, reconcile_service, reconcile_database, reconcile_controller,
}
use multinic.Operator.Ready.{
  ComponentStatus, Readiness, replicas_of, compare_replicas, judge_readiness, missing_readiness,
  check_database_readiness, check_controller_readiness,
}
use multinic.Operator.Ensured.{IsCurrent}
use multinic.Operator.Convergence.{
  IsInstalled, HonestServer, database_key, database-DatabaseCurrent, controller-ControllerCurrent,
}
use multinic.Operator.Passes.{reconcile_components-IsInstalled}
use multinic.Operator.Unchanged.{built_spec}
use multinic.Operator.Status.{
  Components, component, controller_component, after_database, reconcile_components,
}

-- No call for the object fails.
abbrev pub Answers : Exchange → Type 0
Answers x =
    (x.reference_fault ≡ none)
    × (x.get_fault ≡ none)
    × ((r : Resource) → (s : Resource) × (x.write r ≡ ok s))

ensure_object-finished :
    (operator : MultiNicOperator) (x : Exchange) (what : String) (d : Resource) (c : List Resource)
    → Answers x
    → (ensure_object operator x what d c).1 ≡ finished
unfolding ensure_object on_found on_fault create_object update_object get
ensure_object-finished operator x what d c (fine, truthful, writes) =
    elim (Option-cases (find_resource (resource_key d) c)) [
      | inl missing ↦
          let (s, stored) = writes (owned operator d) in
          ground (arith, fine, truthful, missing, stored)
      | inr (r, there) ↦
          let (s, stored) = writes (record r { spec = renew r.spec d.spec }) in
          ground (arith, fine, truthful, there, stored)
    ]

-- What is compared with a set replica count has one.
replicas-needs_update :
    (e : Spec) (d : WorkloadSpec) (n : ℤ)
    → d.replicas ≡ some n
    → needs_update e (workload d) ≡ false
    → (m : ℤ) × (replicas_of e ≡ some m)
unfolding needs_update workload_differs replicas_differ replicas_of
replicas-needs_update (service s) d n h same = cc
replicas-needs_update (workload w) d n h same = elim (Option-cases w.replicas) [
  | inl unset ↦ absurd (ground (arith, h, same, unset))
  | inr (m, set) ↦ (m, set)
]

judge_readiness-some :
    (title : String) (r : Resource) (m : ℤ)
    → replicas_of r.spec ≡ some m
    → (q : Readiness) × (judge_readiness title r ≡ some q)
unfolding judge_readiness compare_replicas
judge_readiness-some title r m h = elim (Option-cases (judge_readiness title r)) [
  | inl none_given ↦ absurd (ground (arith, h, none_given))
  | inr found ↦ found
]

module _ (env : Surroundings) (operator : MultiNicOperator) (c : List Resource) where
  check_database-some :
      (d : WorkloadSpec) (n : ℤ)
      → d.replicas ≡ some n
      → IsCurrent (database_key operator) (workload d) c
      → (q : Readiness) × (check_database_readiness env operator c ≡ some q)
  unfolding check_database_readiness
  check_database-some d n set (r, there, same) =
      elim (Result-cases (get env.database_fault (database_key operator) c)) [
        | inr (f, lost) ↦ (
          missing_readiness "Database StatefulSet" "database StatefulSet" f,
          rw (lost, check_database_readiness) refl,
        )
        | inl (r', found) ↦
            let is_same : r ≡ r' =
              some_inj.0
                (sym there ∙ get-ok env.database_fault (database_key operator) c r' found) in
            let (m, replicas) = replicas-needs_update r.spec d n set same in
            let (q, judged) =
              judge_readiness-some "Database" r' m
                (subst (λ x. replicas_of x.spec ≡ some m) is_same replicas) in
            (q, rw (found, check_database_readiness) judged)
      ]

  check_controller-some :
      (d : WorkloadSpec) (n : ℤ)
      → d.replicas ≡ some n
      → IsCurrent (manager_of operator) (workload d) c
      → (q : Readiness) × (check_controller_readiness env operator c ≡ some q)
  unfolding check_controller_readiness
  check_controller-some d n set (r, there, same) =
      elim (Result-cases (get env.controller_fault (manager_of operator) c)) [
        | inr (f, lost) ↦ (
          missing_readiness "Controller Deployment" "controller Deployment" f,
          rw (lost, check_controller_readiness) refl,
        )
        | inl (r', found) ↦
            let is_same : r ≡ r' =
              some_inj.0
                (sym there ∙ get-ok env.controller_fault (manager_of operator) c r' found) in
            let (m, replicas) = replicas-needs_update r.spec d n set same in
            let (q, judged) =
              judge_readiness-some "Controller" r' m
                (subst (λ x. replicas_of x.spec ≡ some m) is_same replicas) in
            (q, rw (found, check_controller_readiness) judged)
      ]

built_database_spec :
    (must_parse : MustParse) (operator : MultiNicOperator) (r : Resource)
    → build_database_stateful_set must_parse operator ≡ some r
    → (q : ResourceRequirements) × (storage : Quantity) × (r.spec
        ≡ workload (database_spec operator q storage))
unfolding build_database_stateful_set
built_database_spec must_parse operator r built =
    let (q, _, rest) =
      >>=-eq-some (get_database_resource_requirements must_parse operator.spec.database.resources) _
        built in
    let (storage, _, done) =
      >>=-eq-some (must_parse (or_default operator.spec.database.storage_size "10Gi")) _ rest in
    (q, storage, ap (λ x. x.spec) (sym (some_inj.0 done)))

-- No call for the managed objects fails, the server stores what it is sent in the compared fields,
-- and the quantities parse.
pub record IsSound (env : Surroundings) (operator : MultiNicOperator) : Type 0 where
  pub stateful_set : Answers env.stateful_set
  pub service : Answers env.service
  pub deployment : Answers env.deployment
  pub honest : HonestServer env
  pub database : (r : Resource) × (build_database_stateful_set env.must_parse operator ≡ some r)
  pub controller : (r : Resource) × (build_controller_deployment env.must_parse operator ≡ some r)

continue_next :
    (next : List Resource → Step) (s : Step) → s.1 ≡ finished → continue next s ≡ next s.0
unfolding continue
continue_next next (c, finished) h = refl
continue_next next (c, stopped e) h = cc
continue_next next (c, crashed) h = cc

module _ (env : Surroundings) (operator : MultiNicOperator) (sound : IsSound env operator) where
  database_finishes : (c : List Resource) → (reconcile_database env operator c).1 ≡ finished
  unfolding reconcile_database reconcile_service
  database_finishes c =
      let (r, built) = sound.database in
      rw (built, reconcile_database)
        (ap (λ s. s.1)
            (continue_next (reconcile_service env operator) _ (
              ensure_object-finished operator env.stateful_set "database StatefulSet" r c
                sound.stateful_set))
          ∙ ensure_object-finished operator env.service "database Service"
              (build_database_service operator) _ sound.service)

  controller_finishes : (c : List Resource) → (reconcile_controller env operator c).1 ≡ finished
  unfolding reconcile_controller
  controller_finishes c =
      let (r, built) = sound.controller in
      rw (built, reconcile_controller)
        (ensure_object-finished operator env.deployment "controller Deployment" r c
          sound.deployment)

  controller_component-finished :
      (before : List ComponentStatus) (c : List Resource)
      → (controller_component env operator before c).ending ≡ finished
  unfolding controller_component controller_spec
  controller_component-finished before c =
      let done = controller_finishes c in
      let (d, built, there) = controller-ControllerCurrent env operator sound.honest c done in
      let (p, spec, _) = built_spec env.must_parse operator d built in
      let (q, checked) =
        check_controller-some env operator (reconcile_controller env operator c).0
          (controller_spec operator p) (controller_replicas operator) refl
          (subst (λ s. IsCurrent (manager_of operator) s (reconcile_controller env operator c).0)
            spec there) in
      ground (arith, done, checked)

  database_component-finished :
      (c : List Resource)
      → (after_database env operator
          (reconcile_database env operator c).0
          (reconcile_database env operator c).1).ending
        ≡ finished
  unfolding after_database database_spec
  database_component-finished c =
      let done = database_finishes c in
      let c1 = (reconcile_database env operator c).0 in
      let (d, built, there, _) = database-DatabaseCurrent env operator sound.honest c done in
      let (p, storage, spec) = built_database_spec env.must_parse operator d built in
      let (q, checked) =
        check_database-some env operator c1 (database_spec operator p storage) (pos 1) refl
          (subst (λ s. IsCurrent (database_key operator) s c1) spec there) in
      ground (
        arith,
        done,
        checked,
        controller_component-finished (component "database" env.database_check q ∷ []) c1,
      )

  pub reconcile_components-finished :
      (c : List Resource) → (reconcile_components env operator c).ending ≡ finished
  unfolding reconcile_components
  reconcile_components-finished c =
      if_cases (λ (r : Components). r.ending ≡ finished) operator.spec.database.enabled
        (λ _. database_component-finished c) (λ _. controller_component-finished [] c)

  -- Where no call for a managed object fails, the server stores what it is sent in the compared
  -- fields, and the quantities of the specification parse, a pass over the components ends without an
  -- error or a panic, whatever the cluster was before, and leaves the Deployment and, where the
  -- database is enabled, the StatefulSet and the Service as the operator wants them.
  pub reconcile_components_installs :
      (c : List Resource)
      → ((reconcile_components env operator c).ending ≡ finished)
        × IsInstalled env.must_parse operator (reconcile_components env operator c).cluster
  reconcile_components_installs c =
      let done = reconcile_components-finished c in
      (done, reconcile_components-IsInstalled env operator sound.honest c done)
