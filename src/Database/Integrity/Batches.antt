-- ===== src/Database/Integrity/Batches.antt =====
-- The batch INSERT into multi_interface keeps ports unique and foreign keys met.
use mathlib.Core.Option.{some_inj}
use multinic.Database.Ownership.{upsert_interfaces-cons, insert_interfaces-eq_some}
use multinic.Base.{
  ◌≡◌, refl, sym, subst, ◌∙◌, true, false, List, [], ◌∷◌, ◌++◌, any-update_first, any-append,
  update_first, Bool-cases, some, arith, All-append, any, eq_iff, inl, inr,
}
use multinic.Database.{
  Tables, SubnetRow, NodeRow, InterfaceRow, same_port, update_interface, has_subnet, has_node,
  upsert_interface, upsert_interfaces, insert_interfaces,
}
use multinic.Database.Integrity.{is_referenced, AllReferenced, UniquePorts, IsWhole}

update_interface-UniquePorts :
    (i : InterfaceRow) (rows : List InterfaceRow)
    → UniquePorts rows
    → UniquePorts (update_first (same_port i) (update_interface i) rows)
unfolding update_first any
update_interface-UniquePorts i [] h = tt
update_interface-UniquePorts i (r ∷ rows) h = elim (Bool-cases (same_port i r)) [
  | inl hit ↦ rw hit h
  | inr miss ↦ rw miss (
    any-update_first (same_port r) (same_port i) (update_interface i) rows (λ x. refl) ∙ h.0,
    update_interface-UniquePorts i rows h.1,
  )
]

append-UniquePorts :
    (i : InterfaceRow) (rows : List InterfaceRow)
    → any (same_port i) rows ≡ false
    → UniquePorts rows
    → UniquePorts (rows ++ i ∷ [])
unfolding any
append-UniquePorts i [] e h = (refl, tt)
append-UniquePorts i (r ∷ rows) e h = (
  ground (
    arith,
    any-append (same_port r) rows (i ∷ []),
    h.0,
    eq_iff r.port_id i.port_id,
    eq_iff i.port_id r.port_id,
  ),
  append-UniquePorts i rows (ground arith) h.1,
)

module _ (subnets : List SubnetRow) (nodes : List NodeRow) where
  update_interface-AllReferenced :
      (i : InterfaceRow) (rows : List InterfaceRow)
      → has_node nodes i ≡ true
      → AllReferenced subnets nodes rows
      → AllReferenced subnets nodes (update_first (same_port i) (update_interface i) rows)
  unfolding update_first
  update_interface-AllReferenced i [] e h = tt
  update_interface-AllReferenced i (r ∷ rows) e h = elim (Bool-cases (same_port i r)) [
    | inl hit ↦ rw hit ((unfold has_subnet has_node in ground (arith, h.0, e)), h.1)
    | inr miss ↦ rw miss (h.0, update_interface-AllReferenced i rows e h.1)
  ]

  abbrev Kept : List InterfaceRow → Type 0
  Kept rows = AllReferenced subnets nodes rows × UniquePorts rows

  upsert_interface-Kept :
      (i : InterfaceRow) (rows rows' : List InterfaceRow)
      → upsert_interface subnets nodes i rows ≡ some rows'
      → Kept rows
      → Kept rows'
  unfolding upsert_interface
  upsert_interface-Kept i rows rows' e h = elim (Bool-cases (any (same_port i) rows)) [
    | inl old ↦
        let met : has_node nodes i ≡ true = ground (arith, e, old) in
        let same : update_first (same_port i) (update_interface i) rows ≡ rows' =
          ground (arith, e, old) in
        subst Kept same
          (update_interface-AllReferenced i rows met h.0, update_interface-UniquePorts i rows h.1)
    | inr new ↦
        let met : is_referenced subnets nodes i ≡ true = ground (arith, e, new) in
        let same : rows ++ i ∷ [] ≡ rows' = ground (arith, e, new) in
        subst Kept same
          (All-append _ rows (i ∷ []) h.0 (met, tt), append-UniquePorts i rows new h.1)
  ]

  pub upsert_interfaces-Kept :
      (is rows rows' : List InterfaceRow)
      → upsert_interfaces subnets nodes is rows ≡ some rows'
      → Kept rows
      → Kept rows'
  unfolding upsert_interfaces
  upsert_interfaces-Kept [] rows rows' e h = subst Kept (some_inj.0 e) h
  upsert_interfaces-Kept (i ∷ is) rows rows' e h =
      let (mid, done, rest) = upsert_interfaces-cons subnets nodes i is rows e in
      upsert_interfaces-Kept is mid rows' rest (upsert_interface-Kept i rows mid done h)

pub insert_interfaces-IsWhole :
    (is : List InterfaceRow) (t t' : Tables)
    → insert_interfaces is t ≡ some t'
    → IsWhole t
    → IsWhole t'
insert_interfaces-IsWhole is t t' e h =
    let (rows, done, new) = insert_interfaces-eq_some is t e in
    let kept =
      upsert_interfaces-Kept t.multi_subnet t.node_table is t.multi_interface rows done
        (h.referenced, h.unique) in
    subst IsWhole (sym new) (record { referenced = kept.0; unique = kept.1 })
