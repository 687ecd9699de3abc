-- ===== src/Reconcile/LostUpdate.antt =====
-- hasCRChanged stores the new hash before the pass does its work.
use multinic.Base.{
  ◌*◌, ◌≡◌, ◌≢◌, String, Bool, false, none, some, ok, arith, eq_iff, eq_refl, List, [], ◌∷◌, ◌++◌,
  Option-cases, inl, inr,
}
use multinic.Api.{OpenstackConfig}
use multinic.Trigger.{hour, trigger_or_manual, should_reconcile}
use multinic.Database.{Tables, StateRow, select_hash, insert_hash, update_hash, set_hash}
use multinic.Reconcile.Environment.{Environment, World, done, after, select_state}
use multinic.Reconcile.Changes.{calculate_cr_hash, has_cr_changed}
use multinic.Reconcile.Atomicity.{after_check-cr_state}
use multinic.Reconcile.Normal.{reconcile_normal, decide}

select_hash-append :
    (ns name h : String) (rows : List StateRow)
    → select_hash ns name rows ≡ none
    → select_hash ns name (rows ++ record { cr_namespace = ns; cr_name = name; spec_hash = h } ∷ [])
      ≡ some h
unfolding select_hash
select_hash-append ns name h [] e = ground (arith, eq_iff ns ns, eq_iff name name)
select_hash-append ns name h (r ∷ rows) e = ground (arith, select_hash-append ns name h rows)

select_hash-set_hash :
    (ns name h old : String) (rows : List StateRow)
    → select_hash ns name rows ≡ some old
    → select_hash ns name (set_hash ns name h rows) ≡ some h
unfolding select_hash set_hash
select_hash-set_hash ns name h old [] e = cc
select_hash-set_hash ns name h old (r ∷ rows) e =
    ground (arith, select_hash-set_hash ns name h old rows)

-- Where the change check returns no error, the CR's current hash is in the table afterwards.
has_cr_changed_stores :
    (env : Environment) (cr : OpenstackConfig) (hash : String) (db db' : Tables) (b : Bool)
    → has_cr_changed env cr hash db ≡ (ok b, db')
    → select_hash cr.namespace cr.name db'.cr_state ≡ some hash
unfolding has_cr_changed insert_hash update_hash
has_cr_changed_stores env cr hash db db' b e =
    elim (Option-cases (select_hash cr.namespace cr.name db.cr_state)) [
      | inl fresh ↦
          ground (arith, e, fresh, select_hash-append cr.namespace cr.name hash db.cr_state fresh)
      | inr (old, known) ↦ ground (
        arith,
        e,
        known,
        eq_iff old hash,
        select_hash-set_hash cr.namespace cr.name hash old db.cr_state known,
      )
    ]

has_cr_changed_known :
    (env : Environment) (cr : OpenstackConfig) (hash : String) (db : Tables)
    → env.sql select_state ≡ none
    → select_hash cr.namespace cr.name db.cr_state ≡ some hash
    → has_cr_changed env cr hash db ≡ (ok false, db)
unfolding has_cr_changed
has_cr_changed_known env cr hash db sound known = ground (arith, sound, known, eq_refl hash)

-- Once the CR's current hash is stored, a pass over the unchanged CR outside the scheduled mode does
-- nothing at all, and asks to be called again a day later.
pub unchanged_pass :
    (env : Environment) (cr : OpenstackConfig) (hash : String) (w : World)
    → calculate_cr_hash env cr ≡ ok hash
    → env.sql select_state ≡ none
    → (trigger_or_manual env.operators).mode ≢ "scheduled"
    → select_hash cr.namespace cr.name w.db.cr_state ≡ some hash
    → reconcile_normal env cr w ≡ (w, done (after (24 * hour)))
unfolding reconcile_normal decide should_reconcile
unchanged_pass env cr hash w digest sound mode known = ground (
  arith,
  digest,
  has_cr_changed_known env cr hash w.db sound known,
  mode,
  eq_iff (trigger_or_manual env.operators).mode "scheduled",
)

-- However a pass goes on once its change check returned no error, also if it then fails or panics
-- with nothing stored, the next pass over an object of the same name and hash, outside the scheduled
-- mode and where the state can be read, does nothing and asks to be called again a day later.
pub failed_pass_is_not_retried :
    (env env' : Environment) (cr cr' : OpenstackConfig) (hash : String) (w : World) (b : Bool)
    (db : Tables)
    → calculate_cr_hash env cr ≡ ok hash
    → has_cr_changed env cr hash w.db ≡ (ok b, db)
    → cr'.namespace ≡ cr.namespace
    → cr'.name ≡ cr.name
    → calculate_cr_hash env' cr' ≡ ok hash
    → env'.sql select_state ≡ none
    → (trigger_or_manual env'.operators).mode ≢ "scheduled"
    → let w' = (reconcile_normal env cr w).0 in
      reconcile_normal env' cr' w' ≡ (w', done (after (24 * hour)))
unfolding reconcile_normal
failed_pass_is_not_retried env env' cr cr' hash w b db digest checked ns name digest' sound mode =
    unchanged_pass env' cr' hash (reconcile_normal env cr w).0 digest' sound mode (
      rw (ns, name, digest, reconcile_normal)
        (rw checked (
          rw (after_check-cr_state env cr (ok b) (record w { db = db }))
            (has_cr_changed_stores env cr hash w.db db b checked))))
