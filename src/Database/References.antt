-- ===== src/Database/References.antt =====
-- The foreign keys of the batch INSERT into multi_interface in reconcileNormal.
use multinic.Base.{
  ◌≡◌, refl, sym, subst, ◌∙◌, ◌==◌, Bool, true, false, ◌&&◌, List, [], ◌∷◌, ◌++◌, any-update_first,
  any-append, update_first, Bool-cases, none, some, arith, All, any, eq_iff, Option-cases, inl, inr,
}
use multinic.Database.{
  Tables, SubnetRow, NodeRow, InterfaceRow, same_subnet, update_subnet, same_id, same_name,
  update_node, upsert_node, same_port, update_interface, upsert_subnet, upsert_node, upsert_nodes,
  insert_nodes, has_subnet, has_node, upsert_interface, upsert_interfaces, insert_interfaces,
}
use multinic.Database.Nodes.{Present, IsClean, Consistent, upsert_nodes-Present}

-- An interface row names the subnet and one of the nodes of its batch.
abbrev pub names_node : InterfaceRow → NodeRow → Bool
names_node i n =
    n.attached_node_id == i.attached_node_id && n.attached_node_name == i.attached_node_name

abbrev pub RefersTo : SubnetRow → List NodeRow → InterfaceRow → Type 0
RefersTo s ns i = (i.subnet_id ≡ s.subnet_id) × (any (names_node i) ns ≡ true)

names_node_keys :
    (i : InterfaceRow) (n : NodeRow)
    → names_node i n ≡ true
    → (n.attached_node_id ≡ i.attached_node_id) × (n.attached_node_name ≡ i.attached_node_name)
names_node_keys i n h = ground (
  arith,
  eq_iff n.attached_node_id i.attached_node_id,
  eq_iff n.attached_node_name i.attached_node_name,
)

has_node_of_keys :
    (i : InterfaceRow) (n : NodeRow) (rows : List NodeRow)
    → Present rows n
    → names_node i n ≡ true
    → has_node rows i ≡ true
unfolding has_node
has_node_of_keys i n rows p h =
    let (ids, names) = names_node_keys i n h in
    ground (
      arith,
      subst (λ x. any (λ r. r.attached_node_id == x) rows ≡ true) ids p.id,
      subst (λ x. any (λ r. r.attached_node_name == x) rows ≡ true) names p.name,
    )

has_node_of_Present :
    (i : InterfaceRow) (ns rows : List NodeRow)
    → All (Present rows) ns
    → any (names_node i) ns ≡ true
    → has_node rows i ≡ true
unfolding any
has_node_of_Present i [] rows p h = cc
has_node_of_Present i (n ∷ ns) rows p h =
    ground (arith, has_node_of_keys i n rows p.0, has_node_of_Present i ns rows p.1)

any-same_subnet :
    (s : SubnetRow) (t : Tables) → any (same_subnet s) (upsert_subnet s t).multi_subnet ≡ true
unfolding upsert_subnet any
any-same_subnet s t = ground (
  arith,
  any-update_first (same_subnet s) (same_subnet s) (update_subnet s) t.multi_subnet (λ r. refl),
  any-append (same_subnet s) t.multi_subnet (s ∷ []),
  eq_iff s.subnet_id s.subnet_id,
)

has_subnet-upsert :
    (s : SubnetRow) (i : InterfaceRow) (t : Tables)
    → i.subnet_id ≡ s.subnet_id
    → has_subnet (upsert_subnet s t).multi_subnet i ≡ true
unfolding has_subnet
has_subnet-upsert s i t h =
    subst (λ x. any (λ r. r.subnet_id == x) (upsert_subnet s t).multi_subnet ≡ true) (sym h)
      (any-same_subnet s t)

abbrev Met : List SubnetRow → List NodeRow → InterfaceRow → Type 0
Met subnets nodes i = (has_subnet subnets i ≡ true) × (has_node nodes i ≡ true)

row_accepted :
    (subnets : List SubnetRow) (nodes : List NodeRow) (i : InterfaceRow) (rows : List InterfaceRow)
    → Met subnets nodes i
    → (rows' : List InterfaceRow) × (upsert_interface subnets nodes i rows ≡ some rows')
unfolding upsert_interface
row_accepted subnets nodes i rows h = elim (Bool-cases (any (same_port i) rows)) [
  | inl old ↦ (update_first (same_port i) (update_interface i) rows, ground arith)
  | inr new ↦ (rows ++ i ∷ [], ground arith)
]

accepted :
    (subnets : List SubnetRow) (nodes : List NodeRow) (is rows : List InterfaceRow)
    → All (Met subnets nodes) is
    → (rows' : List InterfaceRow) × (upsert_interfaces subnets nodes is rows ≡ some rows')
unfolding upsert_interfaces
accepted subnets nodes [] rows h = (rows, refl)
accepted subnets nodes (i ∷ is) rows h =
    let (mid, done) = row_accepted subnets nodes i rows h.0 in
    let (rows', rest) = accepted subnets nodes is mid h.1 in
    (rows', rw (done, upsert_interfaces) rest)

references-Met :
    (s : SubnetRow) (ns nodes : List NodeRow) (is : List InterfaceRow) (t : Tables)
    → All (Present nodes) ns
    → All (RefersTo s ns) is
    → All (Met (upsert_subnet s t).multi_subnet nodes) is
references-Met s ns nodes [] t p h = tt
references-Met s ns nodes (i ∷ is) t p h = (
  (has_subnet-upsert s i t h.0.0, has_node_of_Present i ns nodes p h.0.1),
  references-Met s ns nodes is t p h.1,
)

pub insert_nodes-eq_some :
    (ns : List NodeRow) (t : Tables) {t' : Tables}
    → insert_nodes ns t ≡ some t'
    → (rows : List NodeRow) × (upsert_nodes t.multi_interface ns t.node_table ≡ some rows)
      × (t' ≡ record t { node_table = rows })
unfolding insert_nodes
insert_nodes-eq_some ns t e = elim (Option-cases (upsert_nodes t.multi_interface ns t.node_table)) [
  | inl refused ↦ cc (rw (refused, insert_nodes) at e)
  | inr (rows, done) ↦ (rows, done, cc (rw (done, insert_nodes) at e))
]

insert_interfaces_of :
    (is : List InterfaceRow) (t : Tables) (rows : List InterfaceRow)
    → upsert_interfaces t.multi_subnet t.node_table is t.multi_interface ≡ some rows
    → (t' : Tables) × (insert_interfaces is t ≡ some t')
unfolding insert_interfaces
insert_interfaces_of is t rows e = (record t { multi_interface = rows }, rw (e, insert_interfaces))

-- Once the subnet and the nodes of a batch are inserted, the interfaces that refer to them are
-- accepted, if the batch gives one id to one name and the table has none of the names under another
-- id.
pub interfaces_accepted :
    (s : SubnetRow) (ns : List NodeRow) (is : List InterfaceRow) (t t' : Tables)
    → Consistent ns
    → All (IsClean t.node_table) ns
    → All (RefersTo s ns) is
    → insert_nodes ns (upsert_subnet s t) ≡ some t'
    → (t'' : Tables) × (insert_interfaces is t' ≡ some t'')
unfolding upsert_subnet
interfaces_accepted s ns is t t' c p h e =
    let (nodes, done, new) = insert_nodes-eq_some ns (upsert_subnet s t) e in
    let present : All (Present nodes) ns = upsert_nodes-Present _ ns t.node_table nodes c p done in
    let (rows, in_table) =
      accepted _ nodes is t.multi_interface (references-Met s ns nodes is t present h) in
    subst (λ (u : Tables). (t'' : Tables) × (insert_interfaces is u ≡ some t'')) (sym new)
      (insert_interfaces_of is (record (upsert_subnet s t) { node_table = nodes }) rows in_table)

refused_without_node :
    (i : InterfaceRow) (is : List InterfaceRow) (t : Tables)
    → any (λ r. r.attached_node_id == i.attached_node_id) t.node_table ≡ false
    → insert_interfaces (i ∷ is) t ≡ none
unfolding insert_interfaces upsert_interfaces upsert_interface has_node
refused_without_node i is t h = ground arith

renamed_only :
    (n : NodeRow) (t t' : Tables)
    → any (same_id n) t.node_table ≡ false
    → any (same_name n) t.node_table ≡ true
    → insert_nodes (n ∷ []) t ≡ some t'
    → t' ≡ record t { node_table = update_first (same_name n) (update_node n) t.node_table }
unfolding insert_nodes upsert_nodes upsert_node
renamed_only n t t' new_id old_name e = ground arith

-- Where the table has a server's name but not its id, as after the server is created anew under its
-- old name, and its node is inserted, every batch that begins with an interface of the server is
-- refused.
pub recreated_server :
    (n : NodeRow) (i : InterfaceRow) (is : List InterfaceRow) (t t' : Tables)
    → any (same_id n) t.node_table ≡ false
    → any (same_name n) t.node_table ≡ true
    → i.attached_node_id ≡ n.attached_node_id
    → insert_nodes (n ∷ []) t ≡ some t'
    → insert_interfaces (i ∷ is) t' ≡ none
recreated_server n i is t t' new_id old_name of_n e = rw (renamed_only n t t' new_id old_name e) (
    refused_without_node i is _ (
      subst
        (λ x.
          any (λ r. r.attached_node_id == x)
            (update_first (same_name n) (update_node n) t.node_table)
          ≡ false)
        (sym of_n)
        (any-update_first (same_id n) (same_name n) (update_node n) t.node_table (λ r. refl)
          ∙ new_id)))
