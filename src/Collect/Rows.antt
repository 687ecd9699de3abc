-- ===== src/Collect/Rows.antt =====
-- What holds of every gathered row, and of the status entries (the loop over targetVMs in
-- reconcileNormal).
use mathlib.Core.Option.{some_inj}
use multinic.Base.{
  ◌≡◌, ◌≢◌, refl, subst, String, true, List, [], ◌∷◌, ◌++◌, some, arith, All, All-append, All-map,
  any, eq_iff, eq_refl, Option-cases, inl, inr,
}
use multinic.Api.{VmNetworkInfo}
use multinic.Database.{InterfaceRow, owns}
use multinic.Database.References.{RefersTo, names_node}
use multinic.Openstack.{
  Attribute, absent, text, other, attributes, not_a_map, Address, AddressValue, listed, not_a_list,
  Server,
}
use multinic.Collect.{
  Context, Entry, skipped, found, panicked, Gathered, interface_row, subnet_row, node_row,
  node_rows, initial_info, choose_port, own_port, read_type, read_address, add_entry, gather_list,
  gather_values, gather_servers,
}

module _ (c : Context) (P : InterfaceRow → Type 0) where
  -- Every row that an address of this server can give has the property.
  abbrev pub Good : Server → Type 0
  Good s =
      (a : Address) (port mac : String)
      → read_address c a ≡ found port mac
      → P (interface_row c s port mac)

  add_entry-All :
      (s : Server) (a : Address) (g g' : Gathered) (e : Entry)
      → Good s
      → read_address c a ≡ e
      → add_entry c s e g ≡ some g'
      → All P g.rows
      → All P g'.rows
  unfolding add_entry
  add_entry-All s a g g' skipped good r h p =
      subst (λ (x : Gathered). All P x.rows) (some_inj.0 h) p
  add_entry-All s a g g' (found port mac) good r h p =
      subst (λ (x : Gathered). All P x.rows) (some_inj.0 h)
        (All-append P g.rows (interface_row c s port mac ∷ []) p (good a port mac r, tt))
  add_entry-All s a g g' panicked good r h p = cc

  gather_list-All :
      (s : Server) (as' : List Address) (g g' : Gathered)
      → Good s
      → gather_list c s as' g ≡ some g'
      → All P g.rows
      → All P g'.rows
  unfolding gather_list
  gather_list-All s [] g g' good h p = subst (λ (x : Gathered). All P x.rows) (some_inj.0 h) p
  gather_list-All s (a ∷ as') g g' good h p =
      elim (Option-cases (add_entry c s (read_address c a) g)) [
        | inl stop ↦ cc (rw (stop, gather_list) at h)
        | inr (mid, next) ↦
            gather_list-All s as' mid g' good (rw (next, gather_list) at h)
              (add_entry-All s a g mid (read_address c a) good refl next p)
      ]

  gather_values-All :
      (s : Server) (vs : List AddressValue) (g g' : Gathered)
      → Good s
      → gather_values c s vs g ≡ some g'
      → All P g.rows
      → All P g'.rows
  unfolding gather_values
  gather_values-All s [] g g' good h p = subst (λ (x : Gathered). All P x.rows) (some_inj.0 h) p
  gather_values-All s (not_a_list ∷ vs) g g' good h p = cc
  gather_values-All s (listed as' ∷ vs) g g' good h p =
      elim (Option-cases (gather_list c s as' g)) [
        | inl stop ↦ cc (rw (stop, gather_values) at h)
        | inr (mid, next) ↦
            gather_values-All s vs mid g' good (rw (next, gather_values) at h)
              (gather_list-All s as' g mid good next p)
      ]

  pub gather_servers-All :
      (ss : List Server) (rows rows' : List InterfaceRow) (infos infos' : List VmNetworkInfo)
      → All Good ss
      → gather_servers c ss rows infos ≡ some (rows', infos')
      → All P rows
      → All P rows'
  unfolding gather_servers
  gather_servers-All [] rows rows' infos infos' good h p = subst (All P) (ground arith) p
  gather_servers-All (s ∷ ss) rows rows' infos infos' good h p =
      elim (Option-cases (gather_values c s s.addresses (start s rows))) [
        | inl stop ↦ cc (rw (stop, gather_servers) at h)
        | inr (g, next) ↦
            gather_servers-All ss g.rows rows' (infos ++ g.info ∷ []) infos' good.1
              (rw (next, gather_servers) at h)
              (gather_values-All s s.addresses (start s rows) g good.0 next p)
      ]
    where
      start : Server → List InterfaceRow → Gathered
      start s rows = record { rows = rows; info = initial_info c s }

-- Every row belongs to the CR.
pub gather_servers-owns :
    (c : Context) (ss : List Server) (rows : List InterfaceRow) (infos : List VmNetworkInfo)
    → gather_servers c ss [] [] ≡ some (rows, infos)
    → All (λ i. owns c.cr_namespace c.cr_name i ≡ true) rows
gather_servers-owns c ss rows infos h = gather_servers-All c _ ss [] rows [] infos (each ss) h tt
  where
    each : (ss : List Server) → All (Good c (λ i. owns c.cr_namespace c.cr_name i ≡ true)) ss
    each [] = tt
    each (s ∷ ss) = ((λ a port mac e. rw (eq_refl c.cr_namespace) (eq_refl c.cr_name)), each ss)

names_own_node :
    (c : Context) (s : Server) (port mac : String)
    → names_node (interface_row c s port mac) (node_row c s) ≡ true
names_own_node c s port mac = rw (eq_refl s.id) (eq_refl s.name)

refer_to :
    (c : Context) (ss : List Server) → All (Good c (RefersTo (subnet_row c) (node_rows c ss))) ss
unfolding any
refer_to c [] = tt
refer_to c (s ∷ ss) = (
  (λ a port mac e. (refl, rw (names_own_node c s port mac))),
  All-map _ _
      (λ x good a port mac e.
        let (subnet, node) = good a port mac e in (subnet, ground (arith, node)))
      ss (refer_to c ss),
)

pub gather_servers-RefersTo :
    (c : Context) (ss : List Server) (rows : List InterfaceRow) (infos : List VmNetworkInfo)
    → gather_servers c ss [] [] ≡ some (rows, infos)
    → All (RefersTo (subnet_row c) (node_rows c ss)) rows
gather_servers-RefersTo c ss rows infos h =
    gather_servers-All c _ ss [] rows [] infos (refer_to c ss) h tt

choose_port-ne-nil :
    (c : Context) (mac : String) (p : Attribute) (port m : String)
    → choose_port c mac p ≡ found port m
    → port ≢ ""
unfolding choose_port
choose_port-ne-nil c mac p port m h e = ground (arith, eq_iff port "", eq_iff (own_port p) "")

read_type-ne-nil :
    (c : Context) (ty mac p : Attribute) (port m : String)
    → read_type c ty mac p ≡ found port m
    → port ≢ ""
unfolding read_type
read_type-ne-nil c absent mac p port m h = cc
read_type-ne-nil c (text kind) absent p port m h = λ e. ground arith
read_type-ne-nil c (text kind) other p port m h = λ e. ground arith
read_type-ne-nil c (text kind) (text mac) p port m h =
    λ e. ground (arith, choose_port-ne-nil c mac p port m, e)
read_type-ne-nil c other absent p port m h = cc
read_type-ne-nil c other (text mac) p port m h = cc
read_type-ne-nil c other other p port m h = cc

read_address-ne-nil :
    (c : Context) (a : Address) (port mac : String) → read_address c a ≡ found port mac → port ≢ ""
unfolding read_address
read_address-ne-nil c not_a_map port mac h e = cc
read_address-ne-nil c (attributes a) port mac h e =
    read_type-ne-nil c a.ip_type a.mac_addr a.port port mac h e

gather_servers-port :
    (c : Context) (ss : List Server) (rows : List InterfaceRow) (infos : List VmNetworkInfo)
    → gather_servers c ss [] [] ≡ some (rows, infos)
    → All (λ i. i.port_id ≢ "") rows
gather_servers-port c ss rows infos h = gather_servers-All c _ ss [] rows [] infos (each ss) h tt
  where
    each : (ss : List Server) → All (Good c (λ i. i.port_id ≢ "")) ss
    each [] = tt
    each (s ∷ ss) = (read_address-ne-nil c, each ss)

-- Every gathered row names the subnet, the id and the name of one of the target servers, and a port:
-- its id is not the empty text.
pub gather_servers_rows :
    (c : Context) (ss : List Server) (rows : List InterfaceRow) (infos : List VmNetworkInfo)
    → gather_servers c ss [] [] ≡ some (rows, infos)
    → All (RefersTo (subnet_row c) (node_rows c ss)) rows × All (λ i. i.port_id ≢ "") rows
gather_servers_rows c ss rows infos h =
    (gather_servers-RefersTo c ss rows infos h, gather_servers-port c ss rows infos h)
