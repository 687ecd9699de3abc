-- ===== src/Database/Ownership.antt =====
-- Whose interface rows the statements touch: the DELETE and the batch INSERT of reconcileNormal.
use mathlib.Core.List.{append-nil, append_assoc}
use multinic.Base.{
  ◌≡◌, refl, String, true, false, not, List, [], ◌∷◌, ◌++◌, map, some, arith, All, Option-cases,
  inl, inr, sym, ap, subst, ◌∙◌, keep, any, keep-append, keep-keep, keep-keep-not, keep-All,
  update_first,
}
use multinic.Database.{
  Tables, InterfaceRow, SubnetRow, NodeRow, owns, delete_interfaces, same_port, update_interface,
  upsert_interface, upsert_interfaces, insert_interfaces,
}

-- No port of the batch is in the table, nor twice in the batch.
abbrev pub FreshPorts : List InterfaceRow → List InterfaceRow → Type 0
FreshPorts [] rows = Unit {0}
FreshPorts (i ∷ is) rows = (any (same_port i) rows ≡ false) × FreshPorts is (rows ++ i ∷ [])

module _ (subnets : List SubnetRow) (nodes : List NodeRow) where
  -- A batch that is accepted is accepted row by row.
  pub upsert_interfaces-cons :
      (i : InterfaceRow) (is rows : List InterfaceRow) {rows' : List InterfaceRow}
      → upsert_interfaces subnets nodes (i ∷ is) rows ≡ some rows'
      → (mid : List InterfaceRow) × (upsert_interface subnets nodes i rows ≡ some mid)
        × (upsert_interfaces subnets nodes is mid ≡ some rows')
  unfolding upsert_interfaces
  upsert_interfaces-cons i is rows e = elim (Option-cases (upsert_interface subnets nodes i rows)) [
    | inl refused ↦ cc (rw (refused, upsert_interfaces) at e)
    | inr (mid, done) ↦ (mid, done, rw (done, upsert_interfaces) at e)
  ]

  upsert_interface_fresh :
      (i : InterfaceRow) (rows rows' : List InterfaceRow)
      → any (same_port i) rows ≡ false
      → upsert_interface subnets nodes i rows ≡ some rows'
      → rows' ≡ rows ++ i ∷ []
  unfolding upsert_interface
  upsert_interface_fresh i rows rows' f e = ground arith

  pub upsert_interfaces_fresh :
      (is rows rows' : List InterfaceRow)
      → FreshPorts is rows
      → upsert_interfaces subnets nodes is rows ≡ some rows'
      → rows' ≡ rows ++ is
  unfolding upsert_interfaces
  upsert_interfaces_fresh [] rows rows' f e = rw append-nil (cc)
  upsert_interfaces_fresh (i ∷ is) rows rows' f e =
      let (mid, done, rest) = upsert_interfaces-cons i is rows e in
      let extended = upsert_interface_fresh i rows mid f.0 done in
      upsert_interfaces_fresh is mid rows' (subst (FreshPorts is) (sym extended) f.1) rest
      ∙ ap (λ r. r ++ is) extended
      ∙ append_assoc rows (i ∷ []) is

-- What identifies a row and its owner: no UPDATE clause of the batch names these columns.
abbrev pub Identity : Type 0
Identity = String × String × String × String

abbrev pub identity : InterfaceRow → Identity
identity r = (r.port_id, r.subnet_id, r.cr_namespace, r.cr_name)

abbrev pub others : String → String → List InterfaceRow → List Identity
others ns name rows = map identity (keep (λ r. not (owns ns name r)) rows)

others-append :
    (ns name : String) (rows : List InterfaceRow) (i : InterfaceRow)
    → owns ns name i ≡ true
    → others ns name (rows ++ i ∷ []) ≡ others ns name rows
unfolding keep
others-append ns name [] i h = ground arith
others-append ns name (r ∷ rows) i h = ground (arith, others-append ns name rows i h)

others-update_first :
    (ns name : String) (i : InterfaceRow) (rows : List InterfaceRow)
    → others ns name (update_first (same_port i) (update_interface i) rows) ≡ others ns name rows
unfolding keep update_first
others-update_first ns name i [] = refl
others-update_first ns name i (r ∷ rows) = ground (arith, others-update_first ns name i rows)

module _ (subnets : List SubnetRow) (nodes : List NodeRow) (ns name : String) where
  others-upsert_interface :
      (i : InterfaceRow) (rows rows' : List InterfaceRow)
      → owns ns name i ≡ true
      → upsert_interface subnets nodes i rows ≡ some rows'
      → others ns name rows' ≡ others ns name rows
  unfolding upsert_interface
  others-upsert_interface i rows rows' h e =
      ground (arith, others-append ns name rows i h, others-update_first ns name i rows)

  others-upsert_interfaces :
      (is rows rows' : List InterfaceRow)
      → All (λ i. owns ns name i ≡ true) is
      → upsert_interfaces subnets nodes is rows ≡ some rows'
      → others ns name rows' ≡ others ns name rows
  unfolding upsert_interfaces
  others-upsert_interfaces [] rows rows' h e = ap (others ns name) (cc)
  others-upsert_interfaces (i ∷ is) rows rows' h e =
      let (mid, done, rest) = upsert_interfaces-cons subnets nodes i is rows e in
      others-upsert_interfaces is mid rows' h.1 rest ∙ others-upsert_interface i rows mid h.0 done

-- An accepted batch changes the interface table alone.
pub insert_interfaces-eq_some :
    (is : List InterfaceRow) (t : Tables) {t' : Tables}
    → insert_interfaces is t ≡ some t'
    → (rows : List InterfaceRow) × (upsert_interfaces t.multi_subnet t.node_table is
          t.multi_interface
        ≡ some rows)
      × (t' ≡ record t { multi_interface = rows })
unfolding insert_interfaces
insert_interfaces-eq_some is t e =
    elim (Option-cases (upsert_interfaces t.multi_subnet t.node_table is t.multi_interface)) [
      | inl refused ↦ cc (rw (refused, insert_interfaces) at e)
      | inr (rows, done) ↦ (rows, done, cc (rw (done, insert_interfaces) at e))
    ]

-- What another CR sees of the table after a CR's rows were deleted and its batch was inserted: the
-- same rows, in the same order, with their ports, subnets and owners.
pub others-replace :
    (ns name : String) (is : List InterfaceRow) (t u t' : Tables)
    → All (λ i. owns ns name i ≡ true) is
    → u.multi_interface ≡ (delete_interfaces ns name t).multi_interface
    → insert_interfaces is u ≡ some t'
    → others ns name t'.multi_interface ≡ others ns name t.multi_interface
unfolding delete_interfaces
others-replace ns name is t u t' h deleted e =
    let (rows, done, new) = insert_interfaces-eq_some is u e in
    ap (λ x. others ns name x.multi_interface) new
    ∙ others-upsert_interfaces _ _ ns name is _ rows h done
    ∙ ap (others ns name) deleted
    ∙ ap (map identity) (keep-keep _ t.multi_interface)

-- And the CR's own rows are the batch, if the ports are nobody else's and distinct.
pub owned-replace :
    (ns name : String) (is : List InterfaceRow) (t u t' : Tables)
    → All (λ i. owns ns name i ≡ true) is
    → u.multi_interface ≡ (delete_interfaces ns name t).multi_interface
    → FreshPorts is (delete_interfaces ns name t).multi_interface
    → insert_interfaces is u ≡ some t'
    → keep (owns ns name) t'.multi_interface ≡ is
unfolding delete_interfaces
owned-replace ns name is t u t' h deleted f e =
    let (rows, done, new) = insert_interfaces-eq_some is u e in
    ap (λ x. keep (owns ns name) x.multi_interface) new
    ∙ ap (keep (owns ns name))
        (upsert_interfaces_fresh _ _ is _ rows (subst (FreshPorts is) (sym deleted) f) done)
    ∙ ap (λ l. keep (owns ns name) (l ++ is)) deleted
    ∙ keep-append (owns ns name) _ is
    ∙ ap (λ r. r ++ keep (owns ns name) is) (keep-keep-not (owns ns name) t.multi_interface)
    ∙ keep-All (owns ns name) is h
