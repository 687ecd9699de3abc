-- ===== src/Operator/Unchanged.antt =====
-- What a changed specification does not change: a Deployment that has its image and its replicas.
use multinic.Base.{
  Bool, true, not, ◌≡◌, ◌≢◌, refl, ◌∙◌, ap, sym, List, [], ◌∷◌, Option, none, some, inl, inr,
  Option-cases, if◌then◌else◌, ◌==◌, ◌||◌, Bool,
}
use mathlib.Core.Option.{some_inj}
use multinic.Base.Options.{>>=-eq-some}
use multinic.Api.Operator.{MultiNicOperator}
use multinic.Cluster.{Resource, resource_key, find_resource}
use multinic.Cluster.Objects.{
  Spec, WorkloadSpec, Container, ResourceRequirements, workload, service,
}
use multinic.Protection.{not_found, key_in}
use multinic.Base.Int.{ℤ, pos, is_positive}
use multinic.Protection.Removal.{manager_of}
use multinic.Operator.Quantities.{MustParse, get_controller_resource_requirements}
use multinic.Operator.Workloads.{
  build_controller_deployment, controller_spec, controller_container, controller_replicas,
  or_default, managed_labels,
}
use multinic.Operator.Compare.{needs_update, workload_differs, images_differ, replicas_differ}
use multinic.Operator.Surroundings.{Surroundings}
use multinic.Operator.Apply.{reconcile_controller}
use multinic.Operator.Ensured.{ensure_object_idle}
use multinic.Operator.Convergence.{ControllerCurrent, deployment-key}

-- The operators agree in all that is compared of a Deployment.
pub record AgreeOnDeployment (old new : MultiNicOperator) : Type 0 where
  pub name : new.name ≡ old.name
  pub namespace : new.namespace ≡ old.namespace
  pub image : new.spec.controller.image ≡ old.spec.controller.image
  pub replicas : new.spec.controller.replicas ≡ old.spec.controller.replicas

images_differ-image :
    (cs : List Container) (d d' : Container)
    → d.image ≡ d'.image
    → images_differ cs (d ∷ []) ≡ images_differ cs (d' ∷ [])
unfolding images_differ
images_differ-image [] d d' h = refl
images_differ-image (c ∷ cs) d d' h = ap (λ i. not (c.image == i)) h

-- Replica counts, then images.
compared : Option ℤ → Option ℤ → Bool → Bool
compared existing desired images = elim existing [
  | none ↦ replicas_differ none desired
  | some m ↦ elim desired [ none ↦ true | some n ↦ replicas_differ (some m) (some n) || images ]
]

workload_differs-compared :
    (e d d' : WorkloadSpec)
    → d.replicas ≡ d'.replicas
    → images_differ e.template.containers d.template.containers
      ≡ images_differ e.template.containers d'.template.containers
    → workload_differs e d ≡ workload_differs e d'
unfolding workload_differs compared
workload_differs-compared e d d' h i =
    ap (λ n. compared e.replicas n (images_differ e.template.containers d.template.containers)) h
    ∙ ap (compared e.replicas d'.replicas) i

module _ (old new : MultiNicOperator) (agree : AgreeOnDeployment old new) where
  needs_update-agree :
      (e : Spec) (p q : ResourceRequirements)
      → needs_update e (workload (controller_spec new p))
        ≡ needs_update e (workload (controller_spec old q))
  unfolding needs_update controller_spec controller_container controller_replicas
  needs_update-agree (service e) p q = refl
  needs_update-agree (workload e) p q =
      workload_differs-compared e (controller_spec new p) (controller_spec old q)
        (ap (λ n. some (if is_positive n then n else pos 1)) agree.replicas)
        (images_differ-image e.template.containers (controller_container new p)
          (controller_container old q) (ap (λ i. or_default i "multinic:v1alpha1") agree.image))

pub built_spec :
    (must_parse : MustParse) (operator : MultiNicOperator) (r : Resource)
    → build_controller_deployment must_parse operator ≡ some r
    → (q : ResourceRequirements) × (r.spec ≡ workload (controller_spec operator q))
      × (r.labels ≡ some (managed_labels "multinic-controller" "controller" operator))
unfolding build_controller_deployment
built_spec must_parse operator r built =
    let (q, _, done) =
      >>=-eq-some
        (get_controller_resource_requirements must_parse operator.spec.controller.resources) _
        built in
    (q, ap (λ x. x.spec) (sym (some_inj.0 done)), ap (λ x. x.labels) (sym (some_inj.0 done)))

-- Where two versions of an operator's object agree on the controller's image and replicas, a Deployment
-- that is as the first wants it is left as it is by a pass for the second: changed credentials,
-- endpoints and resources never reach it. Get is taken not to report an object missing that is there.
pub reconcile_controller_unchanged :
    (env : Surroundings) (old new : MultiNicOperator) (c : List Resource)
    → AgreeOnDeployment old new
    → env.deployment.get_fault ≢ some not_found
    → ControllerCurrent env.must_parse old c
    → (reconcile_controller env new c).0 ≡ c
unfolding reconcile_controller
reconcile_controller_unchanged env old new c agree truthful (d, built, (r, there, same)) =
    elim (Option-cases (build_controller_deployment env.must_parse new)) [
      | inl panic ↦ rw (panic, reconcile_controller) refl
      | inr (d', built') ↦
          let (q, spec, _) = built_spec env.must_parse old d built in
          let (q', spec', _) = built_spec env.must_parse new d' built' in
          let key : resource_key d' ≡ manager_of old =
            deployment-key env.must_parse new d' built'
            ∙ ap
                (λ n.
                  key_in (record old { namespace = n }) "Deployment" "multinic-controller-manager")
                agree.namespace in
          rw (built', reconcile_controller)
            (ensure_object_idle new env.deployment "controller Deployment" d' c truthful (
              r,
              ap (λ k. find_resource k c) key ∙ there,
              ap (needs_update r.spec) spec'
                  ∙ needs_update-agree old new agree r.spec q' q
                  ∙ sym (ap (needs_update r.spec) spec)
                  ∙ same,
            ))
    ]
