-- ===== src/Operator/Reflexive.antt =====
-- An object needs no update towards its own specification.
use multinic.Base.{true, false, ◌≡◌, refl, List, [], ◌∷◌, arith, eq_refl, inl, inr, Option-cases}
use multinic.Base.Int.{ℤ, pos, negsuc, eqz}
use multinic.Cluster.Objects.{
  Container, WorkloadSpec, TargetPort, from_int, from_string, ServicePort, Spec, workload, service,
}
use multinic.Operator.Compare.{
  replicas_differ, images_differ, workload_differs, targets_differ, port_differs, ports_differ,
  service_differs, needs_update,
}

eqz_refl : (n : ℤ) → eqz n n ≡ true
eqz_refl (pos n) = ground arith
eqz_refl (negsuc n) = ground arith

images_differ_refl : (cs : List Container) → images_differ cs cs ≡ false
unfolding images_differ
images_differ_refl [] = refl
images_differ_refl (c ∷ cs) = rw (eq_refl c.image) refl

targets_differ_refl : (t : TargetPort) → targets_differ t t ≡ false
unfolding targets_differ
targets_differ_refl (from_int n) = rw (eqz_refl n) refl
targets_differ_refl (from_string s) = rw (eq_refl s) refl

ports_differ_refl : (ps : List ServicePort) → ports_differ ps ps ≡ false
unfolding ports_differ port_differs
ports_differ_refl [] = refl
ports_differ_refl (p ∷ ps) = ground (
  arith,
  eqz_refl p.port,
  eqz_refl p.node_port,
  targets_differ_refl p.target_port,
  eq_refl p.protocol,
  ports_differ_refl ps,
)

workload_differs_refl : (w : WorkloadSpec) → workload_differs w w ≡ false
unfolding workload_differs replicas_differ
workload_differs_refl w = elim (Option-cases w.replicas) [
  | inl unset ↦ ground (arith, unset)
  | inr (n, set) ↦ ground (arith, set, eqz_refl n, images_differ_refl w.template.containers)
]

pub needs_update_refl : (s : Spec) → needs_update s s ≡ false
unfolding needs_update service_differs
needs_update_refl (workload w) = workload_differs_refl w
needs_update_refl (service s) = ground (arith, eq_refl s.type, ports_differ_refl s.ports)
