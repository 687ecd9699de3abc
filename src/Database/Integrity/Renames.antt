-- ===== src/Database/Integrity/Renames.antt =====
-- The batch INSERT into node_table keeps every interface's foreign keys met.
use mathlib.Core.Option.{some_inj}
use multinic.Database.References.{insert_nodes-eq_some}
use multinic.Base.{
  ◌≡◌, refl, sym, subst, ◌==◌, Bool, true, false, ◌&&◌, not, List, [], ◌∷◌, any-update_first,
  any-append, update_first, some, arith, any, eq_iff, Option-cases, inl, inr,
}
use multinic.Database.{
  Tables, SubnetRow, NodeRow, InterfaceRow, same_id, same_name, update_node, upsert_node,
  upsert_nodes, insert_nodes, has_node, rename_refused,
}
use multinic.Database.Integrity.{AllReferenced, IsWhole}

abbrev by_id : InterfaceRow → NodeRow → Bool
by_id i r = r.attached_node_id == i.attached_node_id

abbrev by_name : InterfaceRow → NodeRow → Bool
by_name i r = r.attached_node_name == i.attached_node_name

-- The update by the name changes no key.
by_name-update_by_name :
    (n : NodeRow) (i : InterfaceRow) (rows : List NodeRow)
    → any (by_name i) (update_first (same_name n) (update_node n) rows) ≡ any (by_name i) rows
unfolding any update_first
by_name-update_by_name n i [] = refl
by_name-update_by_name n i (r ∷ rows) = ground (
  arith,
  by_name-update_by_name n i rows,
  eq_iff r.attached_node_name n.attached_node_name,
  eq_iff r.attached_node_name i.attached_node_name,
  eq_iff n.attached_node_name i.attached_node_name,
)

-- A row that the update would rename has not the name of an interface.
not_renamed :
    (n : NodeRow) (i : InterfaceRow) (is : List InterfaceRow) (rows : List NodeRow)
    → any (rename_refused (i ∷ is) n) rows ≡ false
    → any (λ r. (same_id n r && not (same_name n r)) && by_name i r) rows ≡ false
unfolding any
not_renamed n i is [] h = refl
not_renamed n i is (r ∷ rows) h = ground (
  arith,
  not_renamed n i is rows,
  eq_iff r.attached_node_name i.attached_node_name,
  eq_iff i.attached_node_name r.attached_node_name,
)

fewer_refused :
    (n : NodeRow) (i : InterfaceRow) (is : List InterfaceRow) (rows : List NodeRow)
    → any (rename_refused (i ∷ is) n) rows ≡ false
    → any (rename_refused is n) rows ≡ false
unfolding any
fewer_refused n i is [] h = refl
fewer_refused n i is (r ∷ rows) h = ground (arith, fewer_refused n i is rows)

by_name-update_by_id :
    (n : NodeRow) (i : InterfaceRow) (rows : List NodeRow)
    → any (λ r. (same_id n r && not (same_name n r)) && by_name i r) rows ≡ false
    → any (by_name i) rows ≡ true
    → any (by_name i) (update_first (same_id n) (update_node n) rows) ≡ true
unfolding any update_first
by_name-update_by_id n i [] h e = e
by_name-update_by_id n i (r ∷ rows) h e = ground (
  arith,
  by_name-update_by_id n i rows,
  eq_iff r.attached_node_name n.attached_node_name,
  eq_iff r.attached_node_name i.attached_node_name,
  eq_iff n.attached_node_name i.attached_node_name,
)

has_node-upsert :
    (n : NodeRow) (i : InterfaceRow) (is : List InterfaceRow) (rows rows' : List NodeRow)
    → upsert_node (i ∷ is) n rows ≡ some rows'
    → has_node rows i ≡ true
    → has_node rows' i ≡ true
unfolding upsert_node has_node
has_node-upsert n i is rows rows' e h = ground (
  arith,
  any-update_first (by_id i) (same_id n) (update_node n) rows (λ r. refl),
  any-update_first (by_id i) (same_name n) (update_node n) rows (λ r. refl),
  any-append (by_id i) rows (n ∷ []),
  any-append (by_name i) rows (n ∷ []),
  by_name-update_by_name n i rows,
  not_renamed n i is rows,
  by_name-update_by_id n i rows,
)

fewer_interfaces :
    (n : NodeRow) (i : InterfaceRow) (is : List InterfaceRow) (rows rows' : List NodeRow)
    → upsert_node (i ∷ is) n rows ≡ some rows'
    → upsert_node is n rows ≡ some rows'
unfolding upsert_node
fewer_interfaces n i is rows rows' e = ground (arith, fewer_refused n i is rows)

module _ (subnets : List SubnetRow) where
  upsert_node-AllReferenced :
      (n : NodeRow) (is : List InterfaceRow) (rows rows' : List NodeRow)
      → upsert_node is n rows ≡ some rows'
      → AllReferenced subnets rows is
      → AllReferenced subnets rows' is
  upsert_node-AllReferenced n [] rows rows' e h = tt
  upsert_node-AllReferenced n (i ∷ is) rows rows' e h = (
    ground (arith, has_node-upsert n i is rows rows' e, h.0),
    upsert_node-AllReferenced n is rows rows' (fewer_interfaces n i is rows rows' e) h.1,
  )

  pub upsert_nodes-AllReferenced :
      (ns : List NodeRow) (is : List InterfaceRow) (rows rows' : List NodeRow)
      → upsert_nodes is ns rows ≡ some rows'
      → AllReferenced subnets rows is
      → AllReferenced subnets rows' is
  unfolding upsert_nodes
  upsert_nodes-AllReferenced [] is rows rows' e h =
      subst (λ r. AllReferenced subnets r is) (some_inj.0 e) h
  upsert_nodes-AllReferenced (n ∷ ns) is rows rows' e h =
      elim (Option-cases (upsert_node is n rows)) [
        | inl refused ↦ cc (rw (refused, upsert_nodes) at e)
        | inr (mid, done) ↦
            upsert_nodes-AllReferenced ns is mid rows' (rw (done, upsert_nodes) at e)
              (upsert_node-AllReferenced n is rows mid done h)
      ]

pub insert_nodes-IsWhole :
    (ns : List NodeRow) (t t' : Tables) → insert_nodes ns t ≡ some t' → IsWhole t → IsWhole t'
insert_nodes-IsWhole ns t t' e h =
    let (rows, done, new) = insert_nodes-eq_some ns t e in
    subst IsWhole (sym new) (record {
      referenced =
          upsert_nodes-AllReferenced t.multi_subnet ns t.multi_interface t.node_table rows done
            h.referenced;
      unique = h.unique;
    })
