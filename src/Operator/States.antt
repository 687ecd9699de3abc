-- ===== src/Operator/States.antt =====
-- Labelling an object changes nothing but its labels.
use multinic.Base.{
  String, ◌≡◌, refl, ◌∙◌, ap, List, [], ◌∷◌, Option, none, some, inl, inr, Bool-cases, Option-cases,
  arith,
}
use mathlib.Core.Option.{some_inj}
use multinic.Base.Dict.{Dict}
use multinic.Api.Operator.{MultiNicOperator}
use multinic.Cluster.{Resource, Key, find_resource, set_labels}
use multinic.Cluster.Objects.{Spec}
use multinic.Cluster.Lookup.{state_at}
use multinic.Protection.{
  Polls, Round, is_workload_kind, label_round, apply_protection, protect_deployment,
  protect_service, and_then, add_protection_labels, protection_labels, Applied,
}
use multinic.Protection.Labelling.{label_round-updated, Verdict-cases}
use multinic.Operator.Ensured.{IsCurrent}

-- What a Get finds of an object is the same in both clusters, but for its labels.
abbrev pub SameStates : List Resource → List Resource → Type 0
SameStates c c' = (k : Key) → state_at k c' ≡ state_at k c

state_at-set_labels :
    (j : Key) (labels : Option (Dict String)) (c : List Resource)
    → SameStates c (set_labels j labels c)
unfolding find_resource set_labels
state_at-set_labels j labels [] k = refl
state_at-set_labels j labels (r ∷ rs) k = ground (arith, state_at-set_labels j labels rs k)

add_labels-SameStates :
    (k : Key) (labels : List (String × String)) (c : List Resource) (rounds : List Round)
    → SameStates c (add_protection_labels rounds k labels c).0
unfolding add_protection_labels
add_labels-SameStates k labels c [] j = refl
add_labels-SameStates k labels c (round ∷ rounds) j = elim (Bool-cases (is_workload_kind k.kind)) [
  | inr strange ↦ rw (strange, add_protection_labels) refl
  | inl w ↦ (elim (Verdict-cases (label_round round k labels c)) [
    | inl v ↦ rw (w, add_protection_labels) (rw v (add_labels-SameStates k labels c rounds j))
    | inr (inl (e, v)) ↦ rw (w, add_protection_labels) (rw v refl)
    | inr (inr (c', v)) ↦
        let (r, there, new) = label_round-updated k labels c round c' v in
        rw (w, add_protection_labels) (rw v (rw new (state_at-set_labels k _ c j)))
  ])
]

and_then-SameStates :
    (prefix : String) (next : List Resource → Applied) (c : List Resource) (r : Applied)
    → SameStates c r.0
    → ((c' : List Resource) → SameStates c' (next c').0)
    → SameStates c (and_then prefix next r).0
unfolding and_then
and_then-SameStates prefix next c (c', none) before rest k = rest c' k ∙ before k
and_then-SameStates prefix next c (c', some e) before rest k = before k

pub apply_protection-SameStates :
    (polls : Polls) (operator : MultiNicOperator) (c : List Resource)
    → SameStates c (apply_protection polls operator c).0
unfolding apply_protection protect_deployment protect_service
apply_protection-SameStates polls operator c =
    let labels = protection_labels operator in
    and_then-SameStates _ _ c _ (add_labels-SameStates _ labels c polls.stateful_set) (λ c1.
      and_then-SameStates _ _ c1 _ (add_labels-SameStates _ labels c1 polls.deployment) (λ c2.
        and_then-SameStates _ _ c2 _ (add_labels-SameStates _ labels c2 polls.service)
          (λ c3 k. refl)))

pub state_at-found :
    (k : Key) (c : List Resource) (s : Resource)
    → state_at k c ≡ some s
    → (r : Resource) × (find_resource k c ≡ some r) × (record r { labels = none } ≡ s)
state_at-found k c s h = elim (Option-cases (find_resource k c)) [
  | inl missing ↦ cc (rw (missing, state_at) at h)
  | inr (r, there) ↦ (r, there, some_inj.0 (rw (there, state_at) at h))
]

pub IsCurrent-states :
    (k : Key) (d : Spec) (c c' : List Resource)
    → SameStates c c'
    → IsCurrent k d c
    → IsCurrent k d c'
IsCurrent-states k d c c' same (r, there, current) =
    let (r', there', eq) =
      state_at-found k c' (record r { labels = none }) (same k ∙ rw (there, state_at) refl) in
    (r', there', rw (ap (λ s. s.spec) eq) current)
