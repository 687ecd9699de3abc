-- ===== src/Database/Nodes.antt =====
-- The node table under a batch INSERT … ON DUPLICATE KEY UPDATE of reconcileNormal: ids and names
-- are both unique keys, and an update by the name keeps the old id.
use multinic.Base.{
  ◌≡◌, refl, subst, true, false, Bool, not, ◌&&◌, ◌||◌, List, [], ◌∷◌, ◌++◌, some, arith, All, any,
  eq_iff, Option-cases, inl, inr, update_first, any-update_first,
}
use multinic.Database.{
  InterfaceRow, NodeRow, same_id, same_name, update_node, upsert_node, upsert_nodes,
}

-- No row has the node's name under another id.
abbrev pub clashes : NodeRow → NodeRow → Bool
clashes n r = same_name n r && not (same_id n r)

abbrev pub IsClean : List NodeRow → NodeRow → Type 0
IsClean rows n = any (clashes n) rows ≡ false

-- Two nodes of a batch have one id exactly if they have one name.
abbrev pub Agree : NodeRow → NodeRow → Type 0
Agree n m = same_id n m ≡ same_name n m

abbrev pub Consistent : List NodeRow → Type 0
Consistent [] = Unit {0}
Consistent (n ∷ ns) = All (Agree n) ns × Consistent ns

pub record Present (rows : List NodeRow) (n : NodeRow) : Type 0 where
  pub clean : IsClean rows n
  pub id : any (same_id n) rows ≡ true
  pub name : any (same_name n) rows ≡ true

-- An update by the id renames a row, one by the name changes neither key.
IsClean-by_id :
    (n m : NodeRow) (rows : List NodeRow)
    → Agree n m
    → IsClean rows n
    → IsClean (update_first (same_id m) (update_node m) rows) n
unfolding any update_first
IsClean-by_id n m [] a p = p
IsClean-by_id n m (r ∷ rows) a p = ground (
  arith,
  IsClean-by_id n m rows a,
  eq_iff r.attached_node_id m.attached_node_id,
  eq_iff r.attached_node_id n.attached_node_id,
  eq_iff m.attached_node_id n.attached_node_id,
)

names_by_id :
    (n m : NodeRow) (rows : List NodeRow)
    → Agree n m
    → IsClean rows n
    → any (same_name n) rows ≡ true
    → any (same_name n) (update_first (same_id m) (update_node m) rows) ≡ true
unfolding any update_first
names_by_id n m [] a p h = h
names_by_id n m (r ∷ rows) a p h = ground (
  arith,
  names_by_id n m rows a,
  eq_iff r.attached_node_id m.attached_node_id,
  eq_iff r.attached_node_id n.attached_node_id,
  eq_iff m.attached_node_id n.attached_node_id,
)

keys_by_name :
    (n m : NodeRow) (rows : List NodeRow)
    → (any (clashes n) (update_first (same_name m) (update_node m) rows) ≡ any (clashes n) rows)
      × (any (same_name n) (update_first (same_name m) (update_node m) rows)
          ≡ any (same_name n) rows)
unfolding any update_first
keys_by_name n m [] = (refl, refl)
keys_by_name n m (r ∷ rows) = ground (
  arith,
  keys_by_name n m rows,
  eq_iff r.attached_node_name m.attached_node_name,
  eq_iff r.attached_node_name n.attached_node_name,
  eq_iff m.attached_node_name n.attached_node_name,
)

ids_by :
    (n m : NodeRow) (p : NodeRow → Bool) (rows : List NodeRow)
    → any (same_id n) (update_first p (update_node m) rows) ≡ any (same_id n) rows
ids_by n m p rows = any-update_first (same_id n) p (update_node m) rows (λ r. refl)

any_last :
    (p : NodeRow → Bool) (rows : List NodeRow) (m : NodeRow)
    → any p (rows ++ m ∷ []) ≡ (any p rows || p m)
unfolding any
any_last p [] m = ground arith
any_last p (r ∷ rows) m = ground (arith, any_last p rows m)

module _ (interfaces : List InterfaceRow) where
  upsert_node-IsClean :
      (n m : NodeRow) (rows rows' : List NodeRow)
      → Agree n m
      → upsert_node interfaces m rows ≡ some rows'
      → IsClean rows n
      → IsClean rows' n
  unfolding upsert_node
  upsert_node-IsClean n m rows rows' a e p =
      ground
        (arith, IsClean-by_id n m rows a p, (keys_by_name n m rows).0, any_last (clashes n) rows m)

  upsert_node-Present :
      (n m : NodeRow) (rows rows' : List NodeRow)
      → Agree n m
      → upsert_node interfaces m rows ≡ some rows'
      → Present rows n
      → Present rows' n
  unfolding upsert_node
  upsert_node-Present n m rows rows' a e p = record {
    clean = upsert_node-IsClean n m rows rows' a e p.clean;
    id = ground (
      arith,
      p.id,
      ids_by n m (same_id m) rows,
      ids_by n m (same_name m) rows,
      any_last (same_id n) rows m,
    );
    name = ground (
      arith,
      p.name,
      names_by_id n m rows a p.clean p.name,
      (keys_by_name n m rows).1,
      any_last (same_name n) rows m,
    );
  }

  clean_miss :
      (n : NodeRow) (rows : List NodeRow)
      → IsClean rows n
      → any (same_id n) rows ≡ false
      → any (same_name n) rows ≡ false
  unfolding any
  clean_miss n [] p h = refl
  clean_miss n (r ∷ rows) p h = ground (arith, clean_miss n rows)

  renamed :
      (n : NodeRow) (rows : List NodeRow)
      → any (same_id n) rows ≡ true
      → any (same_name n) (update_first (same_id n) (update_node n) rows) ≡ true
  unfolding any update_first
  renamed n [] h = h
  renamed n (r ∷ rows) h =
      ground (arith, renamed n rows, eq_iff n.attached_node_name n.attached_node_name)

  Agree-refl : (n : NodeRow) → Agree n n
  Agree-refl n = ground (
    arith,
    eq_iff n.attached_node_name n.attached_node_name,
    eq_iff n.attached_node_id n.attached_node_id,
  )

  Agree-sym : (n m : NodeRow) → Agree n m → Agree m n
  Agree-sym n m a = ground (
    arith,
    eq_iff n.attached_node_name m.attached_node_name,
    eq_iff m.attached_node_name n.attached_node_name,
    eq_iff n.attached_node_id m.attached_node_id,
    eq_iff m.attached_node_id n.attached_node_id,
  )

  upsert_node_self :
      (n : NodeRow) (rows rows' : List NodeRow)
      → IsClean rows n
      → upsert_node interfaces n rows ≡ some rows'
      → Present rows' n
  unfolding upsert_node
  upsert_node_self n rows rows' p e = record {
    clean = upsert_node-IsClean n n rows rows' (Agree-refl n) e p;
    id = ground (
      arith,
      clean_miss n rows p,
      ids_by n n (same_id n) rows,
      any_last (same_id n) rows n,
      eq_iff n.attached_node_id n.attached_node_id,
    );
    name = ground (
      arith,
      clean_miss n rows p,
      renamed n rows,
      any_last (same_name n) rows n,
      eq_iff n.attached_node_name n.attached_node_name,
    );
  }

  upsert_nodes-cons :
      (n : NodeRow) (ns rows : List NodeRow) {rows' : List NodeRow}
      → upsert_nodes interfaces (n ∷ ns) rows ≡ some rows'
      → (mid : List NodeRow) × (upsert_node interfaces n rows ≡ some mid)
        × (upsert_nodes interfaces ns mid ≡ some rows')
  unfolding upsert_nodes
  upsert_nodes-cons n ns rows e = elim (Option-cases (upsert_node interfaces n rows)) [
    | inl refused ↦ cc (rw (refused, upsert_nodes) at e)
    | inr (mid, done) ↦ (mid, done, rw (done, upsert_nodes) at e)
  ]

  upsert_nodes_keeps :
      (n : NodeRow) (ms rows rows' : List NodeRow)
      → All (Agree n) ms
      → upsert_nodes interfaces ms rows ≡ some rows'
      → Present rows n
      → Present rows' n
  unfolding upsert_nodes
  upsert_nodes_keeps n [] rows rows' a e p = subst (λ r. Present r n) (cc) p
  upsert_nodes_keeps n (m ∷ ms) rows rows' a e p =
      let (mid, done, rest) = upsert_nodes-cons m ms rows e in
      upsert_nodes_keeps n ms mid rows' a.1 rest (upsert_node-Present n m rows mid a.0 done p)

  stay-IsClean :
      (n : NodeRow) (ns rows rows' : List NodeRow)
      → All (Agree n) ns
      → upsert_node interfaces n rows ≡ some rows'
      → All (IsClean rows) ns
      → All (IsClean rows') ns
  stay-IsClean n [] rows rows' a e p = tt
  stay-IsClean n (m ∷ ns) rows rows' a e p = (
    upsert_node-IsClean m n rows rows' (Agree-sym n m a.0) e p.0,
    stay-IsClean n ns rows rows' a.1 e p.1,
  )

  -- After an accepted batch each of its nodes has its id and its name in the table, if the batch
  -- gives one id to one name and the table has none of the names under another id.
  pub upsert_nodes-Present :
      (ns rows rows' : List NodeRow)
      → Consistent ns
      → All (IsClean rows) ns
      → upsert_nodes interfaces ns rows ≡ some rows'
      → All (Present rows') ns
  upsert_nodes-Present [] rows rows' c p e = tt
  upsert_nodes-Present (n ∷ ns) rows rows' c p e =
      let (mid, done, rest) = upsert_nodes-cons n ns rows e in
      (
        upsert_nodes_keeps n ns mid rows' c.0 rest (upsert_node_self n rows mid p.0 done),
        upsert_nodes-Present ns mid rows' c.1 (stay-IsClean n ns rows mid c.0 done p.1) rest,
      )
