-- ===== src/Protection/Labelling.antt =====
-- What applyProtection and addProtectionLabels achieve.
use multinic.Base.{
  String, true, false, ◌≡◌, ◌≢◌, refl, ◌∙◌, ap, sym, subst, List, [], ◌∷◌, Option, none, some, ok,
  inl, inr, Option-cases, Result-cases, arith, ◌⊎◌,
}
use multinic.Base.Strings.{concat}
use multinic.Base.Dict.{Dict, load-store}
use multinic.Api.Operator.{MultiNicOperator}
use multinic.Cluster.{Resource, Key, find_resource, set_labels, same_key, find_resource-set_labels}
use multinic.Webhook.Decision.{carries_protection}
use multinic.Protection.Removal.{answer_from, answer_from_found, manager_of}
use multinic.Protection.{
  Polls, Round, Fault, not_found, conflict, other, Verdict, again, failed, updated,
  is_workload_kind, key_in, get, after_get_fault, after_update, label_round, with_labels,
  add_protection_labels, protection_labels, apply_protection, protect_service, protect_deployment,
  and_then, Applied,
}

pub get-ok :
    (f : Option Fault) (k : Key) (cluster : List Resource) (r : Resource)
    → get f k cluster ≡ ok r
    → find_resource k cluster ≡ some r
unfolding get
get-ok none k cluster r h = elim (Option-cases (find_resource k cluster)) [
  | inl missing ↦ cc (rw (missing, get) at h)
  | inr (q, there) ↦ ground (arith, there, rw (there, get) at h)
]
get-ok (some f) k cluster r h = cc

find_resource-set_same :
    (k : Key) (labels : Option (Dict String)) (rs : List Resource) (r : Resource)
    → find_resource k rs ≡ some r
    → find_resource k (set_labels k labels rs) ≡ some (record r { labels = labels })
unfolding find_resource set_labels
find_resource-set_same k labels [] r h = cc
find_resource-set_same k labels (q ∷ rs) r h = ground (arith, find_resource-set_same k labels rs r)

after_update-updated :
    (o : Option Fault) (cluster c : List Resource)
    → after_update o cluster ≡ updated c
    → c ≡ cluster
unfolding after_update
after_update-updated none cluster c h = ground (arith, h)
after_update-updated (some not_found) cluster c h = cc
after_update-updated (some conflict) cluster c h = cc
after_update-updated (some (other e)) cluster c h = cc

after_get_fault-updated : (f : Fault) (c : List Resource) → after_get_fault f ≢ updated c
unfolding after_get_fault
after_get_fault-updated not_found c h = cc
after_get_fault-updated conflict c h = cc
after_get_fault-updated (other e) c h = cc

pub Verdict-cases :
    (v : Verdict)
    → (v ≡ again) ⊎ (((e : String) × (v ≡ failed e)) ⊎ ((c : List Resource) × (v ≡ updated c)))
Verdict-cases again = inl refl
Verdict-cases (failed e) = inr (inl (e, refl))
Verdict-cases (updated c) = inr (inr (c, refl))

module _ (k : Key) (labels : List (String × String)) (cluster : List Resource) where
  -- The object is there, and the cluster is as before but for its labels.
  abbrev pub Labelled : List Resource → Type 0
  Labelled c =
      (r : Resource) × (find_resource k cluster ≡ some r)
      × (c ≡ set_labels k (some (with_labels labels r.labels)) cluster)

  pub label_round-updated :
      (round : Round) (c : List Resource)
      → label_round round k labels cluster ≡ updated c
      → Labelled c
  unfolding label_round
  label_round-updated round c h = elim (Result-cases (get round.get_fault k cluster)) [
    | inr (f, lost) ↦ absurd (after_get_fault-updated f c (rw (lost, label_round) at h))
    | inl (r, there) ↦ (
      r,
      get-ok round.get_fault k cluster r there,
      after_update-updated round.update_fault _ c (rw (there, label_round) at h),
    )
  ]

  add_labels_done :
      (rounds : List Round)
      → is_workload_kind k.kind ≡ true
      → (add_protection_labels rounds k labels cluster).1 ≡ none
      → Labelled (add_protection_labels rounds k labels cluster).0
  unfolding add_protection_labels
  add_labels_done [] w h = cc (rw (w, add_protection_labels) at h)
  add_labels_done (round ∷ rounds) w h = elim (Verdict-cases (label_round round k labels cluster)) [
    | inl v ↦
        rw (w, add_protection_labels)
          (rw v (add_labels_done rounds w (rw (v) at (rw (w, add_protection_labels) at h))))
    | inr (inl (e, v)) ↦ cc (rw (v) at (rw (w, add_protection_labels) at h))
    | inr (inr (c, v)) ↦ rw (w, add_protection_labels) (rw v (label_round-updated round c v))
  ]

  add_labels_failed :
      (rounds : List Round)
      → is_workload_kind k.kind ≡ true
      → find_resource k cluster ≡ none
      → (e : String) × (add_protection_labels rounds k labels cluster ≡ (cluster, some e))
  unfolding add_protection_labels
  add_labels_failed [] w missing = ("context deadline exceeded", rw (w, add_protection_labels) refl)
  add_labels_failed (round ∷ rounds) w missing =
      elim (Verdict-cases (label_round round k labels cluster)) [
        | inl v ↦
            let (e, h) = add_labels_failed rounds w missing in
            (e, rw (w, add_protection_labels) (rw v h))
        | inr (inl (e, v)) ↦ (e, rw (w, add_protection_labels) (rw v refl))
        | inr (inr (c, v)) ↦
            let (r, there, new) = label_round-updated round c v in ground (arith, missing, there)
      ]

-- The webhook's Get finds the object with the protection label set.
abbrev pub IsProtected : List Resource → Key → Type 0
IsProtected c k = carries_protection (answer_from c k) ≡ true

abbrev pub AllProtected : MultiNicOperator → List Resource → Type 0
AllProtected operator c =
    IsProtected c (key_in operator "StatefulSet" "mariadb")
    × IsProtected c (key_in operator "Deployment" "multinic-controller-manager")
    × IsProtected c (key_in operator "Service" "mariadb")

module _ (operator : MultiNicOperator) (cluster c : List Resource) where
  Labelled-IsProtected :
      (k : Key) → Labelled k (protection_labels operator) cluster c → IsProtected c k
  unfolding with_labels
  Labelled-IsProtected k (r, there, new) =
      rw
        (
          answer_from_found c k
              (record r { labels = some (with_labels (protection_labels operator) r.labels) })
              (with_labels (protection_labels operator) r.labels)
              (ap (find_resource k) new ∙ find_resource-set_same k _ cluster r there) refl,
          load-store,
        )
        refl

  stays-IsProtected :
      (j k : Key)
      → same_key j k ≡ false
      → Labelled k (protection_labels operator) cluster c
      → IsProtected cluster j
      → IsProtected c j
  unfolding answer_from
  stays-IsProtected j k differ (r, there, new) h =
      rw (ap (find_resource j) new ∙ find_resource-set_labels j k _ cluster differ, answer_from) h

and_then-none :
    (prefix : String) (next : List Resource → Applied) (r : Applied)
    → (and_then prefix next r).1 ≡ none
    → (r.1 ≡ none) × (and_then prefix next r ≡ next r.0)
unfolding and_then
and_then-none prefix next (c, none) h = (refl, refl)
and_then-none prefix next (c, some e) h = cc

module _ (polls : Polls) (operator : MultiNicOperator) (cluster : List Resource) where
  service-Labelled :
      (protect_service polls operator cluster).1 ≡ none
      → Labelled
          (key_in operator "Service" "mariadb")
          (protection_labels operator)
          cluster
          (protect_service polls operator cluster).0
  unfolding protect_service
  service-Labelled h =
      let (done, same) = and_then-none _ _ _ h in
      subst (Labelled (key_in operator "Service" "mariadb") (protection_labels operator) cluster)
        (sym (ap (λ x. x.0) same))
        (add_labels_done (key_in operator "Service" "mariadb") (protection_labels operator) cluster
          polls.service refl done)

-- The later steps keep what the earlier ones protected.
module _ (polls : Polls) (operator : MultiNicOperator) where
  deployment_protects :
      (cluster : List Resource)
      → IsProtected cluster (key_in operator "StatefulSet" "mariadb")
      → (protect_deployment polls operator cluster).1 ≡ none
      → AllProtected operator (protect_deployment polls operator cluster).0
  unfolding protect_deployment
  deployment_protects cluster before h =
      let (done, same) = and_then-none _ _ _ h in
      let mid =
        (add_protection_labels polls.deployment (manager_of operator) (protection_labels operator)
          cluster).0 in
      let rest : (protect_service polls operator mid).1 ≡ none = sym (ap (λ x. x.1) same) ∙ h in
      let deployment =
        add_labels_done (manager_of operator) (protection_labels operator) cluster polls.deployment
          refl done in
      let service = service-Labelled polls operator mid rest in
      let database = key_in operator "StatefulSet" "mariadb" in
      let last = key_in operator "Service" "mariadb" in
      subst (AllProtected operator) (sym (ap (λ x. x.0) same)) (
        stays-IsProtected operator mid _ database last refl service (
            stays-IsProtected operator cluster mid database (manager_of operator) refl deployment
              before),
        stays-IsProtected operator mid _ (manager_of operator) last refl service
            (Labelled-IsProtected operator cluster mid (manager_of operator) deployment),
        Labelled-IsProtected operator mid _ last service,
      )

-- If the protection is applied without an error, the webhook finds the StatefulSet, the Deployment
-- and the Service with the protection label.
pub apply_protection_protects :
    (polls : Polls) (operator : MultiNicOperator) (cluster : List Resource)
    → (apply_protection polls operator cluster).1 ≡ none
    → AllProtected operator (apply_protection polls operator cluster).0
unfolding apply_protection
apply_protection_protects polls operator cluster h =
    let (done, same) = and_then-none _ _ _ h in
    let database = key_in operator "StatefulSet" "mariadb" in
    let mid =
      (add_protection_labels polls.stateful_set database (protection_labels operator) cluster).0 in
    let rest : (protect_deployment polls operator mid).1 ≡ none = sym (ap (λ x. x.1) same) ∙ h in
    subst (AllProtected operator) (sym (ap (λ x. x.0) same)) (
      deployment_protects polls operator mid
        (Labelled-IsProtected operator cluster mid database (
          add_labels_done database (protection_labels operator) cluster polls.stateful_set refl
            done))
        rest)

-- If there is no StatefulSet `mariadb`, as where the database is disabled, the protection is never
-- applied: an error is returned and the cluster stays as it is, the Deployment included.
pub apply_protection_without_database :
    (polls : Polls) (operator : MultiNicOperator) (cluster : List Resource)
    → find_resource (key_in operator "StatefulSet" "mariadb") cluster ≡ none
    → (e : String) × (apply_protection polls operator cluster ≡ (cluster, some e))
unfolding apply_protection
apply_protection_without_database polls operator cluster missing =
    let (e, h) =
      add_labels_failed (key_in operator "StatefulSet" "mariadb") (protection_labels operator)
        cluster polls.stateful_set refl missing in
    (concat "failed to apply protection to StatefulSet: " e, unfold and_then in rw h refl)
