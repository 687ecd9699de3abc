-- ===== src/Reconcile/Changes.antt =====
-- Change detection: calculateCRHash and hasCRChanged. Both writes are made outside any transaction,
-- before the pass does its work.
use multinic.Base.{String, Bool, true, false, not, none, some, Result, ok, err, ◌==◌, if◌then◌else◌}
use multinic.Api.{OpenstackConfig}
use multinic.Database.{Tables, select_hash, insert_hash, update_hash}
use multinic.Reconcile.Environment.{Environment, SpecData, select_state, insert_state, update_state}

unfoldable pub spec_data : OpenstackConfig → SpecData
spec_data cr = record {
  auth_url = cr.spec.credentials.auth_url;
  username = cr.spec.credentials.username;
  password = cr.spec.credentials.password;
  project_id = cr.spec.credentials.project_id;
  domain_name = cr.spec.credentials.domain_name;
  network_endpoint = cr.spec.credentials.network_endpoint;
  compute_endpoint = cr.spec.credentials.compute_endpoint;
  vm_names = cr.spec.vm_names;
  subnet_name = cr.spec.subnet_name;
}

unfoldable pub calculate_cr_hash : Environment → OpenstackConfig → Result String String
unfolding spec_data
calculate_cr_hash env cr = env.digest (spec_data cr)

-- The SELECT gave no row.
unfoldable pub store_initial :
    Environment → OpenstackConfig → String → Tables → Result String Bool × Tables
store_initial env cr hash db = elim (env.sql insert_state) [
  | some e ↦ (err e, db)
  | none ↦ (ok true, insert_hash cr.namespace cr.name hash db)
]

unfoldable pub store_changed :
    Environment → OpenstackConfig → String → Tables → Result String Bool × Tables
store_changed env cr hash db = elim (env.sql update_state) [
  | some e ↦ (err e, db)
  | none ↦ (ok true, update_hash cr.namespace cr.name hash db)
]

unfoldable pub has_cr_changed :
    Environment → OpenstackConfig → String → Tables → Result String Bool × Tables
unfolding store_initial store_changed
has_cr_changed env cr hash db = elim (env.sql select_state) [
  | some e ↦ (err e, db)
  | none ↦ elim (select_hash cr.namespace cr.name db.cr_state) [
    | none ↦ store_initial env cr hash db
    | some stored ↦ if not (stored == hash) then store_changed env cr hash db else (ok false, db)
  ]
]
