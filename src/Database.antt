-- ===== src/Database.antt =====
-- The four tables that initializeDatabase declares and the SQL statements that
-- MultiNic/internal/controller/openstackconfig_controller.go sends, by their text. The columns `id`,
-- `deleted_at` and `last_updated` are left out: no statement names a value for them. Texts compare
-- exactly. A statement is refused by the constraints below; what else can fail (a lost connection,
-- a value too long) is the reconciler's environment.
mod Schema
pub mod Ownership
pub mod Nodes
pub mod References
pub mod Integrity
pub mod Matching
pub use Schema.*
use multinic.Base.{
  ℕ, String, Bool, not, ◌&&◌, ◌||◌, List, [], ◌∷◌, ◌++◌, Option, none, some, any, keep,
  update_first, ◌==◌, if◌then◌else◌,
}

-- WHERE cr_namespace = ? AND cr_name = ?
abbrev pub owns : String → String → InterfaceRow → Bool
owns ns name r = r.cr_namespace == ns && r.cr_name == name

abbrev pub is_state_of : String → String → StateRow → Bool
is_state_of ns name r = r.cr_namespace == ns && r.cr_name == name

-- DELETE FROM multi_interface
unfoldable pub delete_interfaces : String → String → Tables → Tables
delete_interfaces ns name t = record t {
  multi_interface = keep (λ r. not (owns ns name r)) t.multi_interface;
}

-- DELETE FROM cr_state
unfoldable pub delete_cr_state : String → String → Tables → Tables
delete_cr_state ns name t = record t {
  cr_state = keep (λ r. not (is_state_of ns name r)) t.cr_state;
}

-- SELECT spec_hash FROM cr_state; `none` is sql.ErrNoRows.
unfoldable pub select_hash : String → String → List StateRow → Option String
select_hash ns name [] = none
select_hash ns name (r ∷ rs) =
    if is_state_of ns name r then some r.spec_hash else select_hash ns name rs

-- INSERT INTO cr_state
unfoldable pub insert_hash : String → String → String → Tables → Tables
insert_hash ns name hash t = record t {
  cr_state = t.cr_state ++ record { cr_namespace = ns; cr_name = name; spec_hash = hash } ∷ [];
}

-- UPDATE cr_state SET spec_hash = ?
unfoldable pub set_hash : String → String → String → List StateRow → List StateRow
set_hash ns name hash [] = []
set_hash ns name hash (r ∷ rs) =
    (if is_state_of ns name r then record r { spec_hash = hash } else r) ∷ set_hash ns name hash rs

unfoldable pub update_hash : String → String → String → Tables → Tables
unfolding set_hash
update_hash ns name hash t = record t { cr_state = set_hash ns name hash t.cr_state }

-- INSERT INTO multi_subnet … ON DUPLICATE KEY UPDATE, by the key subnet_id.
abbrev pub same_subnet : SubnetRow → SubnetRow → Bool
same_subnet s r = r.subnet_id == s.subnet_id

abbrev pub update_subnet : SubnetRow → SubnetRow → SubnetRow
update_subnet s r = record r {
  subnet_name = s.subnet_name;
  cidr = s.cidr;
  network_id = s.network_id;
  status = s.status;
  modified_at = s.modified_at;
}

unfoldable pub upsert_subnet : SubnetRow → Tables → Tables
upsert_subnet s t = record t {
  multi_subnet =
      if any (same_subnet s) t.multi_subnet
      then update_first (same_subnet s) (update_subnet s) t.multi_subnet
      else t.multi_subnet ++ s ∷ [];
}

-- INSERT INTO node_table … ON DUPLICATE KEY UPDATE. Both the id and the name are unique keys, the
-- id the first of them; the update leaves the id as it is. It is refused where another row has the
-- new name, or where an interface refers to the old one.
abbrev pub same_id : NodeRow → NodeRow → Bool
same_id n r = r.attached_node_id == n.attached_node_id

abbrev pub same_name : NodeRow → NodeRow → Bool
same_name n r = r.attached_node_name == n.attached_node_name

abbrev pub update_node : NodeRow → NodeRow → NodeRow
update_node n r = record r {
  attached_node_name = n.attached_node_name;
  status = n.status;
  modified_at = n.modified_at;
}

abbrev pub rename_refused : List InterfaceRow → NodeRow → NodeRow → Bool
rename_refused interfaces n r =
    same_id n r
    && not (same_name n r)
    && any (λ i. i.attached_node_name == r.attached_node_name) interfaces

unfoldable pub upsert_node : List InterfaceRow → NodeRow → List NodeRow → Option (List NodeRow)
upsert_node interfaces n rows =
    if any (same_id n) rows
    then (if any (λ r. same_name n r && not (same_id n r)) rows
          || any (rename_refused interfaces n) rows
        then none
        else some (update_first (same_id n) (update_node n) rows))
    else if any (same_name n) rows
    then some (update_first (same_name n) (update_node n) rows)
    else some (rows ++ n ∷ [])

unfoldable pub upsert_nodes :
    List InterfaceRow → List NodeRow → List NodeRow → Option (List NodeRow)
upsert_nodes interfaces [] rows = some rows
upsert_nodes interfaces (n ∷ ns) rows = elim (upsert_node interfaces n rows) [
  | none ↦ none
  | some rows' ↦ upsert_nodes interfaces ns rows'
]

unfoldable pub insert_nodes : List NodeRow → Tables → Option Tables
insert_nodes ns t = elim (upsert_nodes t.multi_interface ns t.node_table) [
  | none ↦ none
  | some rows ↦ some (record t { node_table = rows })
]

-- INSERT INTO multi_interface … ON DUPLICATE KEY UPDATE, by the key port_id. The update leaves the
-- subnet and the owning CR as they are. The foreign keys must be met.
abbrev pub same_port : InterfaceRow → InterfaceRow → Bool
same_port i r = r.port_id == i.port_id

abbrev pub update_interface : InterfaceRow → InterfaceRow → InterfaceRow
update_interface i r = record r {
  macaddress = i.macaddress;
  attached_node_id = i.attached_node_id;
  attached_node_name = i.attached_node_name;
  status = i.status;
  netplan_success = i.netplan_success;
  modified_at = i.modified_at;
}

unfoldable pub has_subnet : List SubnetRow → InterfaceRow → Bool
has_subnet subnets i = any (λ s. s.subnet_id == i.subnet_id) subnets

unfoldable pub has_node : List NodeRow → InterfaceRow → Bool
has_node nodes i =
    any (λ n. n.attached_node_id == i.attached_node_id) nodes
    && any (λ n. n.attached_node_name == i.attached_node_name) nodes

unfoldable pub upsert_interface :
    List SubnetRow → List NodeRow → InterfaceRow → List InterfaceRow → Option (List InterfaceRow)
upsert_interface subnets nodes i rows =
    if any (same_port i) rows
    then (if has_node nodes i
        then some (update_first (same_port i) (update_interface i) rows)
        else none)
    else if has_subnet subnets i && has_node nodes i
    then some (rows ++ i ∷ [])
    else none

unfoldable pub upsert_interfaces :
    List SubnetRow
    → List NodeRow
    → List InterfaceRow
    → List InterfaceRow
    → Option (List InterfaceRow)
upsert_interfaces subnets nodes [] rows = some rows
upsert_interfaces subnets nodes (i ∷ is) rows = elim (upsert_interface subnets nodes i rows) [
  | none ↦ none
  | some rows' ↦ upsert_interfaces subnets nodes is rows'
]

unfoldable pub insert_interfaces : List InterfaceRow → Tables → Option Tables
insert_interfaces is t = elim (upsert_interfaces t.multi_subnet t.node_table is t.multi_interface) [
  | none ↦ none
  | some rows ↦ some (record t { multi_interface = rows })
]
