-- ===== src/Controller/Database/Keeping.antt =====
-- What the writes of internal/controller/database_controller.go have in common, for a property of
-- databases that survives the reconciler's changes.
use kidp.Prelude.{String, ◌==◌, ◌≡◌, refl, sym, subst, inl, inr, Bool, Bool-cases, arith}
use kidp.Prelude.{Option, none, some, ◌∷◌}
use kidp.Result.{ok, Error, Result-cases}
use kidp.Api.Meta.{ObjectMeta, tenant_label, or_make, set_label}
use kidp.Api.Broker.{Broker}
use kidp.Api.Database.{Database}
use kidp.Api.Tenant.{Tenant}
use kidp.Registry.{Registry}
use kidp.BrokerCalls.{provision, deprovision, post}
use kidp.BrokerClient.Types.{ProvisionRequest, ProvisionResponse}
use kidp.Client.{Env, Run, History, update_status, database, database_kind}
use kidp.Status.{update_status_with_fallback}
use kidp.Controller.Database.Placement.{provision_on_ok, provision_on_err, provision_with_selected}
use kidp.Controller.Database.{
  finalizer_name, with_meta, with_phase, with_deployment, criteria_for, provision_request,
  select_with, store_deployment, provision_on, provision_with, provision_database, settle,
  start_provisioning, assign_label, reconcile_tenant, deprovision_on, cleanup_with,
  deprovisioning_broker, found_or_selected, handle_deletion, cleanup_database,
}
use kidp.Controller.Database.Writes.{AllWrites}

-- The API server answers an accepted write with the object that it was sent.
pub record Echoes (env : Env) : Type 0 where
  pub whole_kept :
      (h : History) (db saved : Database) → env.databases.update h db ≡ ok saved → saved ≡ db
  pub status_kept :
      (h : History) (db saved : Database) → env.databases.update_status h db ≡ ok saved → saved ≡ db

-- The property survives each change that the reconciler makes to a database but the suspension.
pub record Survives (P : Database → Type 0) : Type 0 where
  pub provisioning : (db : Database) → P db → P (with_phase "Provisioning" db)
  pub failed : (db : Database) → P db → P (with_phase "Failed" db)
  pub deployed :
      (b : Broker) (resp : ProvisionResponse) (db : Database) → P db → P (with_deployment b resp db)
  pub relabelled :
      (m : ObjectMeta) (db : Database)
      → m.finalizers ≡ db.meta.finalizers
      → P db
      → P (with_meta m db)

module _ (env : Env) (P : Database → Type 0) where
  deprovision_on-AllWrites :
      (db : Database) (o : Option Broker) (s : Run)
      → AllWrites P s.calls
      → AllWrites P (deprovision_on env db o s).1.calls
  unfolding deprovision_on deprovision
  deprovision_on-AllWrites db o s a = ground arith

  cleanup_with-AllWrites :
      (db : Database) (g : Option Registry) (s : Run)
      → AllWrites P s.calls
      → AllWrites P (cleanup_with env g db s).1.calls
  unfolding cleanup_with deprovisioning_broker found_or_selected select_with
  cleanup_with-AllWrites db none s a = a
  cleanup_with-AllWrites db (some g) s a = grind (arith, deprovision_on-AllWrites)

  pub handle_deletion-AllWrites :
      (db : Database) (s : Run)
      → P (with_meta (env.remove_finalizer db.meta finalizer_name) db)
      → AllWrites P s.calls
      → AllWrites P (handle_deletion env db s).1.calls
  unfolding handle_deletion cleanup_database
  handle_deletion-AllWrites db s f a = ground (arith, cleanup_with-AllWrites db s.registry s a)

module _ (env : Env) (echoes : Echoes env) (P : Database → Type 0) (survives : Survives P) where
  abbrev Safe : Run → Type 0
  Safe s = AllWrites P s.calls

  pub status-Safe :
      (db : Database) (s : Run)
      → P db
      → Safe s
      → Safe (update_status_with_fallback env database_kind db s).1
  unfolding update_status_with_fallback
  status-Safe db s f h = ground arith

  status_saved :
      (db saved : Database) (s : Run)
      → (update_status_with_fallback env database_kind db s).0 ≡ ok saved
      → saved ≡ db
  unfolding update_status_with_fallback
  status_saved db saved s q = elim (Result-cases (env.databases.update_status s.calls db)) [
    | inl (x, e) ↦ ground (arith, echoes.status_kept s.calls db x)
    | inr (x, e) ↦
        ground (arith, echoes.whole_kept (update_status (database db) ∷ s.calls) db saved)
  ]

  -- The same of a run with the database that it goes on with.
  abbrev SafeWith : (Option Error × Database) × Run → Type 0
  SafeWith r = P r.0.1 × Safe r.1

  store_deployment-Safe :
      (db : Database) (s : Run) → P db → Safe s → SafeWith (store_deployment env db s)
  unfolding store_deployment
  store_deployment-Safe db s f h = elim (Result-cases (env.databases.update_status s.calls db)) [
    | inl (x, e) ↦ ground (arith, echoes.status_kept s.calls db x)
    | inr (x, e) ↦
        elim (Result-cases (env.databases.update (update_status (database db) ∷ s.calls) db)) [
          | inl (y, u) ↦
              ground (arith, echoes.whole_kept (update_status (database db) ∷ s.calls) db y)
          | inr (y, u) ↦ ground arith
        ]
  ]

  provision-Safe :
      (url : String) (req : ProvisionRequest) (s : Run) → Safe s → Safe (provision env url req s).1
  unfolding provision post
  provision-Safe url req s h = ground arith

  provision_on-Safe :
      (b : Broker) (db : Database) (s : Run) → P db → Safe s → SafeWith (provision_on env b db s)
  provision_on-Safe b db s f h =
      let p = provision env b.spec.endpoint (provision_request env db) s in
      let kept = provision-Safe b.spec.endpoint (provision_request env db) s h in
      elim (Result-cases p.0) [
        | inl (resp, q) ↦ subst SafeWith (sym (provision_on_ok env b db s resp q)) (
            store_deployment-Safe (with_deployment b resp db) p.1 (survives.deployed b resp db f)
              kept)
        | inr (e, q) ↦ subst SafeWith (sym (provision_on_err env b db s e q)) (f, kept)
      ]

  provision_with-Safe :
      (o : Option Registry) (db : Database) (s : Run)
      → P db
      → Safe s
      → SafeWith (provision_with env o db s)
  unfolding provision_with select_with
  provision_with-Safe none db s f h = (f, h)
  provision_with-Safe (some g) db s f h =
      let p = select_with env g (criteria_for db) s in
      elim (Result-cases p.0) [
        | inl (b, q) ↦
            subst SafeWith (sym (provision_with_selected env g db s b q))
              (provision_on-Safe b db p.1 f h)
        | inr (e, q) ↦ rw (q, provision_with) (f, h)
      ]

  settle-Safe : (r : (Option Error × Database) × Run) → SafeWith r → Safe (settle env r.0 r.1).1
  unfolding settle
  settle-Safe ((none, db), s) (f, h) = h
  settle-Safe ((some e, db), s) (f, h) =
      status-Safe (with_phase "Failed" db) s (survives.failed db f) h

  start_provisioning-Safe :
      (db : Database) (s : Run) → P db → Safe s → Safe (start_provisioning env db s).1
  unfolding start_provisioning provision_database
  start_provisioning-Safe db s f h = elim (Bool-cases (db.status.phase == "Provisioning")) [
    | inl q ↦
        rw (q, start_provisioning, provision_database)
          (settle-Safe (provision_with env s.registry db s)
            (provision_with-Safe s.registry db s f h))
    | inr q ↦
        let u = update_status_with_fallback env database_kind (with_phase "Provisioning" db) s in
        let kept = status-Safe (with_phase "Provisioning" db) s (survives.provisioning db f) h in
        elim (Result-cases u.0) [
          | inr (e, x) ↦ rw (q, x, start_provisioning) kept
          | inl (saved, x) ↦
              let same = status_saved (with_phase "Provisioning" db) saved s x in
              rw (q, x, start_provisioning, provision_database)
                (settle-Safe (provision_with env u.1.registry saved u.1) (
                  provision_with-Safe u.1.registry saved u.1
                    (subst P (sym same) (survives.provisioning db f)) kept))
        ]
  ]

  module _ (recorder : Bool) where
    pub reconcile_tenant-Safe :
        (db : Database) (t : Tenant) (s : Run)
        → P db
        → Safe s
        → Safe (reconcile_tenant env recorder db t s).1
    unfolding reconcile_tenant assign_label
    reconcile_tenant-Safe db t s f h =
        let m = record db.meta { labels = some (or_make db.meta.labels) } in
        let labelled = set_label db.meta tenant_label t.meta.name in
        ground (
          arith,
          survives.relabelled labelled db refl f,
          start_provisioning-Safe (with_meta m db) s (survives.relabelled m db refl f) h,
        )
