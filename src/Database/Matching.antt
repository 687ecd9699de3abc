-- ===== src/Database/Matching.antt =====
-- When the batch INSERT into node_table is accepted.
use multinic.Base.{
  ◌≡◌, refl, false, List, [], ◌∷◌, ◌++◌, some, arith, eq_iff, All, All-append, any, update_first,
  Bool-cases, inl, inr,
}
use multinic.Database.{
  Tables, NodeRow, InterfaceRow, same_id, same_name, update_node, upsert_node, upsert_nodes,
  rename_refused, insert_nodes,
}
use multinic.Database.Nodes.{Agree, Consistent, IsClean}

-- The table has the node under its id and its name, or under neither.
abbrev pub Matches : List NodeRow → NodeRow → Type 0
Matches rows n = All (Agree n) rows

Agree-sym : (n m : NodeRow) → Agree n m → Agree m n
Agree-sym n m h = ground (
  arith,
  eq_iff n.attached_node_id m.attached_node_id,
  eq_iff m.attached_node_id n.attached_node_id,
  eq_iff n.attached_node_name m.attached_node_name,
  eq_iff m.attached_node_name n.attached_node_name,
)

Matches-IsClean : (rows : List NodeRow) (n : NodeRow) → Matches rows n → IsClean rows n
unfolding any
Matches-IsClean [] n h = refl
Matches-IsClean (r ∷ rows) n h = ground (arith, h.0, Matches-IsClean rows n h.1)

none_refused :
    (interfaces : List InterfaceRow) (n : NodeRow) (rows : List NodeRow)
    → Matches rows n
    → any (rename_refused interfaces n) rows ≡ false
unfolding any
none_refused interfaces n [] h = refl
none_refused interfaces n (r ∷ rows) h = ground (arith, h.0, none_refused interfaces n rows h.1)

update_by_id-Matches :
    (n m : NodeRow) (rows : List NodeRow)
    → Agree m n
    → Matches rows n
    → Matches rows m
    → Matches (update_first (same_id n) (update_node n) rows) m
unfolding update_first
update_by_id-Matches n m [] a h k = tt
update_by_id-Matches n m (r ∷ rows) a h k = elim (Bool-cases (same_id n r)) [
  | inl hit ↦ rw hit (
    ground (
      arith,
      k.0,
      hit,
      h.0,
      eq_iff r.attached_node_name n.attached_node_name,
      eq_iff r.attached_node_name m.attached_node_name,
      eq_iff n.attached_node_name m.attached_node_name,
    ),
    k.1,
  )
  | inr miss ↦ rw miss (k.0, update_by_id-Matches n m rows a h.1 k.1)
]

update_by_name-Matches :
    (n m : NodeRow) (rows : List NodeRow)
    → Matches rows m
    → Matches (update_first (same_name n) (update_node n) rows) m
unfolding update_first
update_by_name-Matches n m [] k = tt
update_by_name-Matches n m (r ∷ rows) k = elim (Bool-cases (same_name n r)) [
  | inl hit ↦ rw hit (
    ground (
      arith,
      k.0,
      hit,
      eq_iff r.attached_node_name n.attached_node_name,
      eq_iff r.attached_node_name m.attached_node_name,
      eq_iff n.attached_node_name m.attached_node_name,
    ),
    k.1,
  )
  | inr miss ↦ rw miss (k.0, update_by_name-Matches n m rows k.1)
]

-- The insertion of one matching node succeeds, and what matches stays so.
upsert_node_matching :
    (interfaces : List InterfaceRow) (n : NodeRow) (rows : List NodeRow)
    → Matches rows n
    → (rows' : List NodeRow) × (upsert_node interfaces n rows ≡ some rows')
      × ((m : NodeRow) → Agree n m → Matches rows m → Matches rows' m)
unfolding upsert_node
upsert_node_matching interfaces n rows h = elim (Bool-cases (any (same_id n) rows)) [
  | inl known ↦ (
    update_first (same_id n) (update_node n) rows,
    ground (arith, known, Matches-IsClean rows n h, none_refused interfaces n rows h),
    λ m a k. update_by_id-Matches n m rows (Agree-sym n m a) h k,
  )
  | inr new ↦ elim (Bool-cases (any (same_name n) rows)) [
    | inl named ↦ (
      update_first (same_name n) (update_node n) rows,
      ground (arith, new, named),
      λ m a k. update_by_name-Matches n m rows k,
    )
    | inr fresh ↦ (
      rows ++ n ∷ [],
      ground (arith, new, fresh),
      λ m a k. All-append (Agree m) rows (n ∷ []) k (Agree-sym n m a, tt),
    )
  ]
]

keep_matching :
    (n : NodeRow) (ns rows rows' : List NodeRow)
    → ((m : NodeRow) → Agree n m → Matches rows m → Matches rows' m)
    → All (Agree n) ns
    → All (Matches rows) ns
    → All (Matches rows') ns
keep_matching n [] rows rows' f a h = tt
keep_matching n (m ∷ ns) rows rows' f a h = (f m a.0 h.0, keep_matching n ns rows rows' f a.1 h.1)

upsert_nodes_matching :
    (interfaces : List InterfaceRow) (ns rows : List NodeRow)
    → Consistent ns
    → All (Matches rows) ns
    → (rows' : List NodeRow) × (upsert_nodes interfaces ns rows ≡ some rows')
unfolding upsert_nodes
upsert_nodes_matching interfaces [] rows c h = (rows, refl)
upsert_nodes_matching interfaces (n ∷ ns) rows c h =
    let (mid, done, f) = upsert_node_matching interfaces n rows h.0 in
    let (rows', rest) =
      upsert_nodes_matching interfaces ns mid c.1 (keep_matching n ns rows mid f c.0 h.1) in
    (rows', rw (done, upsert_nodes) rest)

pub insert_nodes_matching :
    (ns : List NodeRow) (t : Tables)
    → Consistent ns
    → All (Matches t.node_table) ns
    → (t' : Tables) × (insert_nodes ns t ≡ some t')
unfolding insert_nodes
insert_nodes_matching ns t c h =
    let (rows, done) = upsert_nodes_matching t.multi_interface ns t.node_table c h in
    (record t { node_table = rows }, rw (done, insert_nodes) refl)

pub All-IsClean : (ns rows : List NodeRow) → All (Matches rows) ns → All (IsClean rows) ns
All-IsClean [] rows h = tt
All-IsClean (n ∷ ns) rows h = (Matches-IsClean rows n h.0, All-IsClean ns rows h.1)
