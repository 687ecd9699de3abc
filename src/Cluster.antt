-- ===== src/Cluster.antt =====
-- The workload objects in the API server, as the operator and the webhook see them. `client.Get`,
-- `client.Create` and `client.Update` find an object by kind, name and namespace. A nil label map is
-- `none`; the owner is the controller reference.
pub mod Objects
pub mod Lookup
use multinic.Base.{
  String, Bool, false, ◌≡◌, refl, ◌&&◌, List, [], ◌∷◌, Option, none, some, arith, eq_iff, ◌==◌,
  if◌then◌else◌,
}
use multinic.Base.Dict.{Dict}
use multinic.Base.Int.{ℤ}
use multinic.Cluster.Objects.{Spec}

pub record Resource : Type 0 where
  pub kind : String
  pub name : String
  pub namespace : String
  pub labels : Option (Dict String)
  pub annotations : Dict String
  pub owner : Option String
  pub spec : Spec
  pub ready_replicas : ℤ

pub record Key : Type 0 where
  pub kind : String
  pub name : String
  pub namespace : String

abbrev pub protection_label : String
protection_label = "multinic.example.com/protected"

abbrev pub operator_label : String
operator_label = "multinic.example.com/managed-by-operator"

abbrev pub resource_key : Resource → Key
resource_key r = record { kind = r.kind; name = r.name; namespace = r.namespace }

abbrev pub is_at : Key → Resource → Bool
is_at k r = (r.kind == k.kind && r.name == k.name) && r.namespace == k.namespace

unfoldable pub find_resource : Key → List Resource → Option Resource
find_resource k [] = none
find_resource k (r ∷ rs) = if is_at k r then some r else find_resource k rs

unfoldable pub set_labels : Key → Option (Dict String) → List Resource → List Resource
set_labels k labels [] = []
set_labels k labels (r ∷ rs) =
    if is_at k r then record r { labels = labels } ∷ rs else r ∷ set_labels k labels rs

-- client.Update: the object takes the place of the one that has its key.
unfoldable pub replace_resource : Key → Resource → List Resource → List Resource
replace_resource k s [] = []
replace_resource k s (r ∷ rs) = if is_at k r then s ∷ rs else r ∷ replace_resource k s rs

-- A key differs from another in some part.
abbrev pub same_key : Key → Key → Bool
same_key j k = (j.kind == k.kind && j.name == k.name) && j.namespace == k.namespace

pub find_resource-set_labels :
    (j k : Key) (labels : Option (Dict String)) (rs : List Resource)
    → same_key j k ≡ false
    → find_resource j (set_labels k labels rs) ≡ find_resource j rs
unfolding find_resource set_labels
find_resource-set_labels j k labels [] h = refl
find_resource-set_labels j k labels (r ∷ rs) h = ground (
  arith,
  find_resource-set_labels j k labels rs h,
  eq_iff r.kind j.kind,
  eq_iff r.kind k.kind,
  eq_iff j.kind k.kind,
  eq_iff r.name j.name,
  eq_iff r.name k.name,
  eq_iff j.name k.name,
  eq_iff r.namespace j.namespace,
  eq_iff r.namespace k.namespace,
  eq_iff j.namespace k.namespace,
)
