-- ===== src/Collect/Infos.antt =====
-- The status entries of the target VMs (VMNetworkInfos of reconcileNormal).
use mathlib.Core.List.{map-append, append_assoc, append-nil}
use mathlib.Core.Option.{some_inj}
use multinic.Base.{
  ◌≡◌, ap, sym, ◌∙◌, String, List, [], ◌∷◌, ◌++◌, map, some, arith, Option-cases, inl, inr,
}
use multinic.Api.{VmNetworkInfo}
use multinic.Database.{InterfaceRow}
use multinic.Openstack.{Address, AddressValue, listed, not_a_list, Server}
use multinic.Collect.{
  Context, Entry, skipped, found, panicked, Gathered, initial_info, read_address, add_entry,
  gather_list, gather_values, gather_servers,
}

-- What the loop never changes in an entry.
abbrev pub Fixed : Type 0
Fixed = String × String × String × String

abbrev pub fixed : VmNetworkInfo → Fixed
fixed i = (i.vm_name, i.subnet_id, i.network_id, i.ip_address)

add_entry-fixed :
    (c : Context) (s : Server) (e : Entry) (g g' : Gathered)
    → add_entry c s e g ≡ some g'
    → fixed g'.info ≡ fixed g.info
unfolding add_entry
add_entry-fixed c s skipped g g' h = ground arith
add_entry-fixed c s (found port mac) g g' h = ground arith
add_entry-fixed c s panicked g g' h = cc

gather_list-fixed :
    (c : Context) (s : Server) (as' : List Address) (g g' : Gathered)
    → gather_list c s as' g ≡ some g'
    → fixed g'.info ≡ fixed g.info
unfolding gather_list
gather_list-fixed c s [] g g' h = ap (λ (x : Gathered). fixed x.info) (sym (some_inj.0 h))
gather_list-fixed c s (a ∷ as') g g' h = elim (Option-cases (add_entry c s (read_address c a) g)) [
  | inl stop ↦ cc (rw (stop, gather_list) at h)
  | inr (mid, next) ↦
      gather_list-fixed c s as' mid g' (rw (next, gather_list) at h)
      ∙ add_entry-fixed c s (read_address c a) g mid next
]

gather_values-fixed :
    (c : Context) (s : Server) (vs : List AddressValue) (g g' : Gathered)
    → gather_values c s vs g ≡ some g'
    → fixed g'.info ≡ fixed g.info
unfolding gather_values
gather_values-fixed c s [] g g' h = ap (λ (x : Gathered). fixed x.info) (sym (some_inj.0 h))
gather_values-fixed c s (not_a_list ∷ vs) g g' h = cc
gather_values-fixed c s (listed as' ∷ vs) g g' h = elim (Option-cases (gather_list c s as' g)) [
  | inl stop ↦ cc (rw (stop, gather_values) at h)
  | inr (mid, next) ↦
      gather_values-fixed c s vs mid g' (rw (next, gather_values) at h)
      ∙ gather_list-fixed c s as' g mid next
]

gather_servers-fixed :
    (c : Context) (ss : List Server) (rows rows' : List InterfaceRow)
    (infos infos' : List VmNetworkInfo)
    → gather_servers c ss rows infos ≡ some (rows', infos')
    → map fixed infos' ≡ map fixed infos ++ map (λ s. fixed (initial_info c s)) ss
unfolding gather_servers
gather_servers-fixed c [] rows rows' infos infos' h =
    rw (append-nil (map fixed infos)) (ground arith)
gather_servers-fixed c (s ∷ ss) rows rows' infos infos' h =
    elim (Option-cases
      (gather_values c s s.addresses (record { rows = rows; info = initial_info c s }))) [
        | inl stop ↦ cc (rw (stop, gather_servers) at h)
        | inr (g, next) ↦
            gather_servers-fixed c ss g.rows rows' (infos ++ g.info ∷ []) infos'
              (rw (next, gather_servers) at h)
            ∙ ap (λ l. l ++ map (λ s. fixed (initial_info c s)) ss)
                (map-append fixed infos (g.info ∷ [])
                  ∙ ap (λ x. map fixed infos ++ x ∷ [])
                      (gather_values-fixed c s s.addresses _ g next))
            ∙ append_assoc (map fixed infos) (fixed (initial_info c s) ∷ []) _
      ]

-- The status has one entry for each target server, in order, with its name, its IPv4 address and the
-- subnet and network of the CR.
pub gather_servers_infos :
    (c : Context) (ss : List Server) (rows : List InterfaceRow) (infos : List VmNetworkInfo)
    → gather_servers c ss [] [] ≡ some (rows, infos)
    → map fixed infos ≡ map (λ s. (s.name, c.subnet.id, c.subnet.network_id, s.access_ipv4)) ss
gather_servers_infos c ss rows infos h = gather_servers-fixed c ss [] rows [] infos h
