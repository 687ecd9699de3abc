-- ===== src/Operator/Compare.antt =====
-- needsStatefulSetUpdate, needsDeploymentUpdate and needsServiceUpdate.
use multinic.Base.{Bool, true, false, not, List, [], ◌∷◌, Option, none, some, ◌==◌, ◌||◌}
use multinic.Base.Int.{ℤ, eqz}
use multinic.Cluster.Objects.{
  Container, WorkloadSpec, TargetPort, from_int, from_string, ServicePort, ServiceSpec, Spec,
  workload, service,
}

-- The pointers differ where one of them is nil, unless both are.
unfoldable pub replicas_differ : Option ℤ → Option ℤ → Bool
replicas_differ none none = false
replicas_differ none (some n) = true
replicas_differ (some m) none = true
replicas_differ (some m) (some n) = not (eqz m n)

-- The images of the first containers, where both have one.
unfoldable pub images_differ : List Container → List Container → Bool
images_differ [] desired = false
images_differ (c ∷ cs) [] = false
images_differ (c ∷ cs) (d ∷ ds) = not (c.image == d.image)

-- Where a replica count is nil the images are not compared.
unfoldable pub workload_differs : WorkloadSpec → WorkloadSpec → Bool
unfolding replicas_differ images_differ
workload_differs existing desired = elim existing.replicas [
  | none ↦ replicas_differ none desired.replicas
  | some m ↦ elim desired.replicas [
    | none ↦ true
    | some n ↦
        replicas_differ (some m) (some n)
        || images_differ existing.template.containers desired.template.containers
  ]
]

unfoldable pub targets_differ : TargetPort → TargetPort → Bool
targets_differ (from_int m) (from_int n) = not (eqz m n)
targets_differ (from_int m) (from_string t) = true
targets_differ (from_string s) (from_int n) = true
targets_differ (from_string s) (from_string t) = not (s == t)

unfoldable pub port_differs : ServicePort → ServicePort → Bool
unfolding targets_differ
port_differs existing desired =
    not (eqz existing.port desired.port)
    || (targets_differ existing.target_port desired.target_port
        || (not (eqz existing.node_port desired.node_port)
            || not (existing.protocol == desired.protocol)))

-- Lists of different lengths differ.
unfoldable pub ports_differ : List ServicePort → List ServicePort → Bool
unfolding port_differs
ports_differ [] [] = false
ports_differ [] (d ∷ ds) = true
ports_differ (p ∷ ps) [] = true
ports_differ (p ∷ ps) (d ∷ ds) = port_differs p d || ports_differ ps ds

unfoldable pub service_differs : ServiceSpec → ServiceSpec → Bool
unfolding ports_differ
service_differs existing desired =
    not (existing.type == desired.type) || ports_differ existing.ports desired.ports

-- The server keeps one kind of specification for one kind of object: the mixed cases do not occur.
unfoldable pub needs_update : Spec → Spec → Bool
unfolding workload_differs service_differs
needs_update (workload existing) (workload desired) = workload_differs existing desired
needs_update (workload existing) (service desired) = true
needs_update (service existing) (workload desired) = true
needs_update (service existing) (service desired) = service_differs existing desired
