-- ===== src/Database/Integrity.antt =====
-- The integrity of the tables under the statements of the controller: ports are unique, and the
-- foreign keys of multi_interface are met.
pub mod Renames
pub mod Batches
use multinic.Base.{
  ◌≡◌, refl, sym, subst, ◌∙◌, ◌==◌, Bool, true, false, ◌&&◌, ◌||◌, not, String, List, [], ◌∷◌, ◌++◌,
  any-update_first, any-append, update_first, Bool-cases, none, some, arith, All, All-append, any,
  eq_iff, Option-cases, inl, inr, keep,
}
use multinic.Database.{
  Tables, SubnetRow, NodeRow, InterfaceRow, owns, same_subnet, update_subnet, same_id, same_name,
  update_node, upsert_node, same_port, update_interface, upsert_subnet, upsert_nodes, insert_nodes,
  has_subnet, has_node, upsert_interface, upsert_interfaces, insert_interfaces, delete_interfaces,
  delete_cr_state, rename_refused,
}

-- The foreign keys of a row.
abbrev pub is_referenced : List SubnetRow → List NodeRow → InterfaceRow → Bool
is_referenced subnets nodes i = has_subnet subnets i && has_node nodes i

abbrev pub AllReferenced : List SubnetRow → List NodeRow → List InterfaceRow → Type 0
AllReferenced subnets nodes = All (λ i. is_referenced subnets nodes i ≡ true)

abbrev pub UniquePorts : List InterfaceRow → Type 0
UniquePorts [] = Unit {0}
UniquePorts (i ∷ is) = (any (same_port i) is ≡ false) × UniquePorts is

pub record IsWhole (t : Tables) : Type 0 where
  pub referenced : AllReferenced t.multi_subnet t.node_table t.multi_interface
  pub unique : UniquePorts t.multi_interface

keep-AllReferenced :
    (subnets : List SubnetRow) (nodes : List NodeRow) (p : InterfaceRow → Bool)
    (is : List InterfaceRow)
    → AllReferenced subnets nodes is
    → AllReferenced subnets nodes (keep p is)
unfolding keep
keep-AllReferenced subnets nodes p [] h = tt
keep-AllReferenced subnets nodes p (i ∷ is) h =
    let rest = keep-AllReferenced subnets nodes p is h.1 in
    elim (Bool-cases (p i)) [ inl kept ↦ rw kept (h.0, rest) | inr gone ↦ rw gone rest ]

any-keep-false :
    (q p : InterfaceRow → Bool) (is : List InterfaceRow)
    → any q is ≡ false
    → any q (keep p is) ≡ false
unfolding any keep
any-keep-false q p [] h = refl
any-keep-false q p (i ∷ is) h = ground (arith, any-keep-false q p is)

keep-UniquePorts :
    (p : InterfaceRow → Bool) (is : List InterfaceRow) → UniquePorts is → UniquePorts (keep p is)
unfolding keep
keep-UniquePorts p [] h = tt
keep-UniquePorts p (i ∷ is) h =
    let rest = keep-UniquePorts p is h.1 in
    elim (Bool-cases (p i)) [
      | inl kept ↦ rw kept (any-keep-false (same_port i) p is h.0, rest)
      | inr gone ↦ rw gone rest
    ]

pub delete_interfaces-IsWhole :
    (ns name : String) (t : Tables) → IsWhole t → IsWhole (delete_interfaces ns name t)
unfolding delete_interfaces
delete_interfaces-IsWhole ns name t h = record {
  referenced = keep-AllReferenced t.multi_subnet t.node_table _ t.multi_interface h.referenced;
  unique = keep-UniquePorts _ t.multi_interface h.unique;
}

has_subnet-update :
    (s : SubnetRow) (i : InterfaceRow) (t : Tables)
    → has_subnet t.multi_subnet i ≡ true
    → has_subnet (upsert_subnet s t).multi_subnet i ≡ true
unfolding has_subnet upsert_subnet any
has_subnet-update s i t h = ground (
  arith,
  any-update_first (λ (r : SubnetRow). r.subnet_id == i.subnet_id) (same_subnet s) (update_subnet s)
      t.multi_subnet (λ r. refl),
  any-append (λ (r : SubnetRow). r.subnet_id == i.subnet_id) t.multi_subnet (s ∷ []),
)

upsert_subnet-AllReferenced :
    (s : SubnetRow) (t : Tables) (is : List InterfaceRow)
    → AllReferenced t.multi_subnet t.node_table is
    → AllReferenced (upsert_subnet s t).multi_subnet t.node_table is
upsert_subnet-AllReferenced s t [] h = tt
upsert_subnet-AllReferenced s t (i ∷ is) h =
    (ground (arith, has_subnet-update s i t, h.0), upsert_subnet-AllReferenced s t is h.1)

pub upsert_subnet-IsWhole : (s : SubnetRow) (t : Tables) → IsWhole t → IsWhole (upsert_subnet s t)
upsert_subnet-IsWhole s t h =
    unfold upsert_subnet in
    record {
      referenced = upsert_subnet-AllReferenced s t t.multi_interface h.referenced;
      unique = h.unique;
    }
