-- ===== src/Operator/Untouched.antt =====
-- Reconciling the components and labelling leave all objects alone but the managed ones.
use multinic.Base.{
  String, false, ◌≡◌, ◌⊎◌, refl, ◌∙◌, sym, subst, List, [], ◌∷◌, none, some, inl, inr, Bool-cases,
  if_cases,
}
use multinic.Api.Operator.{MultiNicOperator}
use multinic.Cluster.{Resource, Key, find_resource, same_key, find_resource-set_labels}
use multinic.Protection.{
  Round, Applied, key_in, is_workload_kind, label_round, apply_protection, protect_deployment,
  protect_service, and_then, add_protection_labels, protection_labels, remove_protection,
}
use multinic.Protection.Labelling.{label_round-updated, Verdict-cases}
use multinic.Protection.Removal.{manager_of, remove_labels-find}
use multinic.Operator.Services.{build_database_service}
use multinic.Operator.Surroundings.{Surroundings}
use multinic.Operator.Apply.{reconcile_service}
use multinic.Operator.Ensured.{KeepsKey, ensure_object-find}
use multinic.Operator.Convergence.{database_key, service_key, stateful_set-key, deployment-key}
use multinic.Operator.Preserved.{
  reconcile_components-keeps, reconcile_database-keeps, reconcile_controller-keeps,
}
use multinic.Operator.Status.{protect, reconcile_components}

-- The key of none of the objects that the operator makes and labels.
abbrev pub IsForeign : MultiNicOperator → Key → Type 0
IsForeign operator j =
    (same_key j (database_key operator) ≡ false)
    × (same_key j (service_key operator) ≡ false)
    × (same_key j (manager_of operator) ≡ false)

-- On its deletion, the operator also unlabels a Deployment by another name.
abbrev pub IsSpared : MultiNicOperator → Key → Type 0
IsSpared operator j =
    (operator.deletion_timestamp ≡ none)
    ⊎ (same_key j (key_in operator "Deployment" "multinic-controller") ≡ false)

-- The server stores the objects under their own keys.
abbrev pub ServerKeepsKeys : Surroundings → Type 0
ServerKeepsKeys env = KeepsKey env.stateful_set × KeepsKey env.service × KeepsKey env.deployment

-- What Get finds at the key is the same in both clusters.
abbrev pub Untouched : Key → List Resource → List Resource → Type 0
Untouched j c c' = find_resource j c' ≡ find_resource j c

add_labels-Untouched :
    (j k : Key) (labels : List (String × String)) (c : List Resource) (rounds : List Round)
    → same_key j k ≡ false
    → Untouched j c (add_protection_labels rounds k labels c).0
unfolding add_protection_labels
add_labels-Untouched j k labels c [] differ = refl
add_labels-Untouched j k labels c (round ∷ rounds) differ =
    elim (Bool-cases (is_workload_kind k.kind)) [
      | inr strange ↦ rw (strange, add_protection_labels) refl
      | inl w ↦ (elim (Verdict-cases (label_round round k labels c)) [
        | inl v ↦
            rw (w, add_protection_labels) (rw v (add_labels-Untouched j k labels c rounds differ))
        | inr (inl (e, v)) ↦ rw (w, add_protection_labels) (rw v refl)
        | inr (inr (c', v)) ↦
            let (r, there, new) = label_round-updated k labels c round c' v in
            rw (w, add_protection_labels) (rw v (rw new (find_resource-set_labels j k _ c differ)))
      ])
    ]

and_then-Untouched :
    (j : Key) (prefix : String) (next : List Resource → Applied) (c : List Resource) (r : Applied)
    → Untouched j c r.0
    → ((c' : List Resource) → Untouched j c' (next c').0)
    → Untouched j c (and_then prefix next r).0
unfolding and_then
and_then-Untouched j prefix next c (c', none) before rest = rest c' ∙ before
and_then-Untouched j prefix next c (c', some e) before rest = before

module _ (env : Surroundings) (operator : MultiNicOperator) (j : Key)
    (foreign : IsForeign operator j) where
  apply_protection-Untouched :
      (c : List Resource) → Untouched j c (apply_protection env.polls operator c).0
  unfolding apply_protection protect_deployment protect_service
  apply_protection-Untouched c =
      let labels = protection_labels operator in
      and_then-Untouched j _ _ c _
        (add_labels-Untouched j _ labels c env.polls.stateful_set foreign.0)
        (λ c1.
          and_then-Untouched j _ _ c1 _
            (add_labels-Untouched j _ labels c1 env.polls.deployment foreign.2)
            (λ c2.
              and_then-Untouched j _ _ c2 _
                (add_labels-Untouched j _ labels c2 env.polls.service foreign.1) (λ c3. refl)))

  protect-Untouched : (c : List Resource) → Untouched j c (protect env operator c)
  unfolding protect
  protect-Untouched c =
      if_cases (Untouched j c) operator.spec.protection.enable_mutation_prevention
        (λ _. apply_protection-Untouched c) (λ _. refl)

  pub remove_protection-Untouched :
      (c : List Resource)
      → same_key j (key_in operator "Deployment" "multinic-controller") ≡ false
      → Untouched j c (remove_protection env.removals operator c)
  unfolding remove_protection
  remove_protection-Untouched c other =
      remove_labels-find env.removals.deployment j _ _ other
      ∙ if_cases (Untouched j c) operator.spec.database.enabled
          (λ _.
            remove_labels-find env.removals.service j _ _ foreign.1
            ∙ remove_labels-find env.removals.stateful_set j _ c foreign.0)
          (λ _. refl)

  pub components-Untouched :
      (c : List Resource)
      → ServerKeepsKeys env
      → Untouched j c (reconcile_components env operator c).cluster
  unfolding reconcile_service build_database_service
  components-Untouched c keys =
      reconcile_components-keeps (Untouched j c) env operator
        (λ _ c1 p.
          reconcile_database-keeps (Untouched j c) env operator c1
            (λ r d built q.
              ensure_object-find operator env.stateful_set "database StatefulSet" r d j keys.0 (
                subst (λ k. same_key j k ≡ false)
                  (sym (stateful_set-key env.must_parse operator r built)) foreign.0)
              ∙ q)
            (λ d q.
              ensure_object-find operator env.service "database Service"
                (build_database_service operator) d j keys.1 foreign.1
              ∙ q)
            p)
        (λ c1 p.
          reconcile_controller-keeps (Untouched j c) env operator c1
            (λ r built.
              ensure_object-find operator env.deployment "controller Deployment" r c1 j keys.2 (
                subst (λ k. same_key j k ≡ false)
                  (sym (deployment-key env.must_parse operator r built)) foreign.2)
              ∙ p)
            p)
        (λ c1 p. protect-Untouched c1 ∙ p) c refl
