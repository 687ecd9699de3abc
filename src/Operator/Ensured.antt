-- ===== src/Operator/Ensured.antt =====
-- What ensure_object does to the object it is about and to all others.
use multinic.Base.{
  String, true, false, ◌≡◌, ◌≢◌, refl, ◌∙◌, sym, subst, List, [], ◌∷◌, ◌++◌, Option, none, some, ok,
  err, inl, inr, Bool-cases, Option-cases, Result-cases, arith,
}
use mathlib.Core.Option.{some_inj}
use multinic.Api.Operator.{MultiNicOperator}
use multinic.Cluster.{Resource, Key, resource_key, find_resource, replace_resource, same_key}
use multinic.Cluster.Lookup.{
  find_resource-append, find_resource-append_other, find_resource-replace,
  find_resource-replace_other, find_resource-key, at_other, at_own,
}
use multinic.Cluster.Objects.{Spec, workload, service}
use multinic.Protection.{Fault, not_found, conflict, other, fault_message, get}
use multinic.Protection.Labelling.{get-ok}
use multinic.Operator.Compare.{needs_update, service_differs}
use multinic.Operator.Surroundings.{Exchange}
use multinic.Operator.Apply.{
  Step, finished, owned, renew, create_object, update_object, on_found, on_fault, ensure_object,
  failure,
}

-- The object of the key is there, and the operator sees nothing to update.
abbrev pub IsCurrent : Key → Spec → List Resource → Type 0
IsCurrent k desired c =
    (r : Resource) × (find_resource k c ≡ some r) × (needs_update r.spec desired ≡ false)

-- The server stores an object under its own key.
abbrev pub KeepsKey : Exchange → Type 0
KeepsKey x = (r s : Resource) → x.write r ≡ ok s → resource_key s ≡ resource_key r

-- The server stores what it is sent, up to fields that the operator does not compare.
abbrev pub Stores : Exchange → Type 0
Stores x =
    (r s : Resource)
    → x.write r ≡ ok s
    → (resource_key s ≡ resource_key r) × (needs_update s.spec r.spec ≡ false)

-- Also, an object is said to be missing only where it is.
abbrev pub IsHonest : Exchange → Type 0
IsHonest x = Stores x × (x.get_fault ≢ some not_found)

-- The cluster address is not compared.
needs_update-renew : (s f d : Spec) → needs_update s (renew f d) ≡ false → needs_update s d ≡ false
unfolding needs_update renew service_differs
needs_update-renew s (workload f) d h = h
needs_update-renew s (service f) (workload d) h = h
needs_update-renew (workload s) (service f) (service d) h = h
needs_update-renew (service s) (service f) (service d) h = h

missing_get :
    (f : Option Fault) (k : Key) (c : List Resource)
    → f ≢ some not_found
    → get f k c ≡ err not_found
    → find_resource k c ≡ none
unfolding get
missing_get none k c truthful h = elim (Option-cases (find_resource k c)) [
  | inl missing ↦ missing
  | inr (r, there) ↦ cc (rw (there, get) at h)
]
missing_get (some f) k c truthful h = absurd (truthful (ground (arith, h)))

module _ (operator : MultiNicOperator) (x : Exchange) (what : String) (desired : Resource)
    (c : List Resource) where
  -- The ways in which the step for one object ends.
  pub data Ensured : Step → Type 0 where
    refused : (verb e : String) → Ensured (c, failure verb what e)
    current :
        (r : Resource)
        → find_resource (resource_key desired) c ≡ some r
        → needs_update r.spec desired.spec ≡ false
        → Ensured (c, finished)
    created :
        (s : Resource)
        → get x.get_fault (resource_key desired) c ≡ err not_found
        → x.write (owned operator desired) ≡ ok s
        → Ensured (c ++ s ∷ [], finished)
    updated :
        (r s : Resource)
        → find_resource (resource_key desired) c ≡ some r
        → needs_update r.spec desired.spec ≡ true
        → x.write (record r { spec = renew r.spec desired.spec }) ≡ ok s
        → Ensured (replace_resource (resource_key desired) s c, finished)

  fault-Ensured :
      (f : Fault)
      → get x.get_fault (resource_key desired) c ≡ err f
      → Ensured (on_fault x what f (owned operator desired) c)
  unfolding on_fault create_object
  fault-Ensured not_found h = elim (Result-cases (x.write (owned operator desired))) [
    | inl (s, stored) ↦ subst Ensured (ground (arith, stored)) (created s h stored)
    | inr (e, failed) ↦ subst Ensured (ground (arith, failed)) (refused "create " (fault_message e))
  ]
  fault-Ensured conflict h = refused "get " (fault_message conflict)
  fault-Ensured (other e) h = refused "get " e

  found-Ensured :
      (r : Resource)
      → find_resource (resource_key desired) c ≡ some r
      → Ensured (on_found x what r (owned operator desired) c)
  unfolding on_found update_object
  found-Ensured r there = elim (Bool-cases (needs_update r.spec desired.spec)) [
    | inr same ↦ subst Ensured (ground (arith, same)) (current r there same)
    | inl differs ↦ (elim (Result-cases (x.write (record r { spec = renew r.spec desired.spec }))) [
      | inl (s, stored) ↦
          subst Ensured (ground (arith, differs, stored)) (updated r s there differs stored)
      | inr (e, failed) ↦
          subst Ensured (ground (arith, differs, failed)) (refused "update " (fault_message e))
    ])
  ]

  pub ensure_object-Ensured : Ensured (ensure_object operator x what desired c)
  unfolding ensure_object
  ensure_object-Ensured = elim (Option-cases x.reference_fault) [
    | inr (e, broken) ↦
        subst Ensured (ground (arith, broken)) (refused "set controller reference for " e)
    | inl fine ↦ (elim (Result-cases (get x.get_fault (resource_key desired) c)) [
      | inl (r, there) ↦
          subst Ensured (ground (arith, fine, there))
            (found-Ensured r (get-ok x.get_fault (resource_key desired) c r there))
      | inr (f, lost) ↦ subst Ensured (ground (arith, fine, lost)) (fault-Ensured f lost)
    ])
  ]

  Ensured-IsCurrent :
      (step : Step)
      → IsHonest x
      → Ensured step
      → step.1 ≡ finished
      → IsCurrent (resource_key desired) desired.spec step.0
  Ensured-IsCurrent (_, _) honest (refused v e) h = cc
  Ensured-IsCurrent (_, _) honest (current r there same) h = (r, there, same)
  Ensured-IsCurrent (_, _) (stores, truthful) (created s lost stored) h =
      let (key, same) = stores _ s stored in
      (
        s,
        find_resource-append (resource_key desired) s c
            (missing_get x.get_fault (resource_key desired) c truthful lost)
            (at_own (resource_key desired) s key),
        same,
      )
  Ensured-IsCurrent (_, _) (stores, truthful) (updated r s there differ stored) h =
      let (key, same) = stores _ s stored in
      (
        s,
        find_resource-replace (resource_key desired) s r c there (
            at_own (resource_key desired) s
              (key ∙ find_resource-key (resource_key desired) c r there)),
        needs_update-renew s.spec r.spec desired.spec same,
      )

  -- After a step without an error the object is as the operator wants it.
  pub ensure_object-IsCurrent :
      IsHonest x
      → (ensure_object operator x what desired c).1 ≡ finished
      → IsCurrent (resource_key desired) desired.spec (ensure_object operator x what desired c).0
  ensure_object-IsCurrent honest = Ensured-IsCurrent _ honest ensure_object-Ensured

  Ensured-find :
      (j : Key) (step : Step)
      → KeepsKey x
      → same_key j (resource_key desired) ≡ false
      → Ensured step
      → find_resource j step.0 ≡ find_resource j c
  Ensured-find j (_, _) keeps differ (refused v e) = refl
  Ensured-find j (_, _) keeps differ (current r there same) = refl
  Ensured-find j (_, _) keeps differ (created s lost stored) =
      find_resource-append_other j s c
        (at_other j (resource_key desired) s differ (keeps _ s stored))
  Ensured-find j (_, _) keeps differ (updated r s there d stored) =
      find_resource-replace_other j (resource_key desired) s differ c (
        at_other j (resource_key desired) s differ
          (keeps _ s stored ∙ find_resource-key (resource_key desired) c r there))

  -- No other object is touched.
  pub ensure_object-find :
      (j : Key)
      → KeepsKey x
      → same_key j (resource_key desired) ≡ false
      → find_resource j (ensure_object operator x what desired c).0 ≡ find_resource j c
  ensure_object-find j keeps differ = Ensured-find j _ keeps differ ensure_object-Ensured

  Ensured-idle :
      (step : Step)
      → x.get_fault ≢ some not_found
      → IsCurrent (resource_key desired) desired.spec c
      → Ensured step
      → step.0 ≡ c
  Ensured-idle (_, _) truthful is (refused v e) = refl
  Ensured-idle (_, _) truthful is (current r there same) = refl
  Ensured-idle (_, _) truthful (q, here, same) (created s lost stored) =
      ground (arith, missing_get x.get_fault (resource_key desired) c truthful lost, here)
  Ensured-idle (_, _) truthful (q, here, same) (updated r s there differ stored) =
      absurd (ground (arith, some_inj.0 (sym there ∙ here), differ, same))

  -- An object that is as the operator wants it is left alone, whatever the server would answer to a
  -- write.
  pub ensure_object_idle :
      x.get_fault ≢ some not_found
      → IsCurrent (resource_key desired) desired.spec c
      → (ensure_object operator x what desired c).0 ≡ c
  ensure_object_idle truthful is = Ensured-idle _ truthful is ensure_object-Ensured
