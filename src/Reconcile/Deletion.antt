-- ===== src/Reconcile/Deletion.antt =====
-- handleDeletion: the CR's rows and its state go in one transaction, then the finalizer.
use multinic.Base.{String, Option, none, some, Result, ok, err, if◌then◌else◌}
use multinic.Api.{OpenstackConfig}
use multinic.Database
use multinic.Database.{Tables}
use multinic.Reconcile.Environment.{
  Environment, World, Outcome, done, failed, after, finalizer_name, begin_tx, delete_interfaces,
  delete_state, commit,
}

-- r.Update: what is stored is the server's answer.
unfoldable pub put_object : Environment → OpenstackConfig → World → Option String × World
put_object env cr w = elim (env.update cr) [
  | err e ↦ (some e, w)
  | ok stored ↦ (none, record w { object = stored })
]

unfoldable pub delete_rows : Environment → OpenstackConfig → Tables → Result String Tables
delete_rows env cr t = elim (env.sql begin_tx) [
  | some e ↦ err e
  | none ↦ elim (env.sql delete_interfaces) [
    | some e ↦ err e
    | none ↦ elim (env.sql delete_state) [
      | some e ↦ err e
      | none ↦ elim (env.sql commit) [
        | some e ↦ err e
        | none ↦ ok (
            Database.delete_cr_state cr.namespace cr.name
              (Database.delete_interfaces cr.namespace cr.name t))
      ]
    ]
  ]
]

unfoldable pub release_object : Environment → OpenstackConfig → World → World × Outcome
unfolding put_object
release_object env cr w =
    let (e, w') =
      put_object env (record cr { finalizers = env.remove_finalizer cr.finalizers finalizer_name })
        w in
    (w', elim e [ none ↦ done (after 0) | some e' ↦ failed (after 0) e' ])

unfoldable pub handle_deletion : Environment → OpenstackConfig → World → World × Outcome
unfolding delete_rows release_object
handle_deletion env cr w =
    if env.contains_finalizer cr.finalizers finalizer_name
    then (elim (delete_rows env cr w.db) [
      | err e ↦ (w, failed (after 0) e)
      | ok t ↦ release_object env cr (record w { db = t })
    ])
    else (w, done (after 0))
