-- ===== src/Cluster/Lookup.antt =====
-- What Get finds after Create and Update.
use multinic.Base.{
  true, false, ◌≡◌, refl, subst, List, [], ◌∷◌, ◌++◌, Option, none, some, arith, eq_iff, eq_refl,
}
use multinic.Cluster.{Resource, Key, find_resource, is_at, replace_resource, same_key, resource_key}

pub find_resource-append :
    (k : Key) (s : Resource) (c : List Resource)
    → find_resource k c ≡ none
    → is_at k s ≡ true
    → find_resource k (c ++ s ∷ []) ≡ some s
unfolding find_resource
find_resource-append k s [] missing h = rw h refl
find_resource-append k s (r ∷ rs) missing h = ground (arith, find_resource-append k s rs)

pub find_resource-append_other :
    (j : Key) (s : Resource) (c : List Resource)
    → is_at j s ≡ false
    → find_resource j (c ++ s ∷ []) ≡ find_resource j c
unfolding find_resource
find_resource-append_other j s [] h = rw h refl
find_resource-append_other j s (r ∷ rs) h = ground (arith, find_resource-append_other j s rs h)

pub find_resource-replace :
    (k : Key) (s r : Resource) (c : List Resource)
    → find_resource k c ≡ some r
    → is_at k s ≡ true
    → find_resource k (replace_resource k s c) ≡ some s
unfolding find_resource replace_resource
find_resource-replace k s r [] found h = cc
find_resource-replace k s r (q ∷ qs) found h = ground (arith, find_resource-replace k s r qs)

module _ (j k : Key) (s : Resource) (differ : same_key j k ≡ false) where
  pub at_other : resource_key s ≡ k → is_at j s ≡ false
  at_other h =
      subst (λ i. same_key j i ≡ false → is_at j s ≡ false) h
        (λ d. ground (
          arith,
          eq_iff s.kind j.kind,
          eq_iff s.name j.name,
          eq_iff s.namespace j.namespace,
          eq_iff j.kind s.kind,
          eq_iff j.name s.name,
          eq_iff j.namespace s.namespace,
        ))
        differ

  pub find_resource-replace_other :
      (c : List Resource)
      → is_at j s ≡ false
      → find_resource j (replace_resource k s c) ≡ find_resource j c
  unfolding find_resource replace_resource
  find_resource-replace_other [] h = refl
  find_resource-replace_other (r ∷ c) h = ground (
    arith,
    find_resource-replace_other c h,
    eq_iff r.kind j.kind,
    eq_iff r.kind k.kind,
    eq_iff j.kind k.kind,
    eq_iff r.name j.name,
    eq_iff r.name k.name,
    eq_iff j.name k.name,
    eq_iff r.namespace j.namespace,
    eq_iff r.namespace k.namespace,
    eq_iff j.namespace k.namespace,
  )

pub at_own : (k : Key) (s : Resource) → resource_key s ≡ k → is_at k s ≡ true
at_own k s h =
    subst (λ i. is_at i s ≡ true) h (rw (eq_refl s.kind, eq_refl s.name, eq_refl s.namespace) refl)

pub find_resource-key :
    (k : Key) (c : List Resource) (r : Resource) → find_resource k c ≡ some r → resource_key r ≡ k
unfolding find_resource
find_resource-key k [] r h = cc
find_resource-key k (q ∷ qs) r h = ground (
  arith,
  find_resource-key k qs r,
  eq_iff q.kind k.kind,
  eq_iff q.name k.name,
  eq_iff q.namespace k.namespace,
)

-- What a Get finds of an object but for its labels.
abbrev pub state_at : Key → List Resource → Option Resource
state_at k c = elim (find_resource k c) [ none ↦ none | some r ↦ some (record r { labels = none }) ]
