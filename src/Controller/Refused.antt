-- ===== src/Controller/Refused.antt =====
-- Phases that internal/controller writes, against the enumerations of api/v1.
use kidp.Prelude.{
  ◌≡◌, ◌≢◌, refl, sym, ◌∙◌, ap, subst, string_dec, inl, inr, Bool, true, false, List, In,
  not_In_of_any,
}
use kidp.Result.{ok, err, Error, Result-cases}
use kidp.Api.Meta.{ObjectKey}
use kidp.Api.Database.{Database, allowed_phases}
use kidp.Api.Team.{Team, team_phases}
use kidp.Api.Tenant.{Tenant}
use kidp.Api.Application.{Application, application_phases}
use kidp.Client.{Env, Run, Outcome, update_status, database, team, application}
use kidp.Resolver.{reader_at, resolve_tenant}
use kidp.Controller.Database as Databases
use kidp.Controller.Database.Progress.{suspend_not_admitted}
use kidp.Controller.Team as Teams
use kidp.Controller.Team.Deletion as TeamDeletion
use kidp.Controller.Application as Applications
use kidp.Controller.Application.Deletion as ApplicationDeletion

unresolved_not_admitted :
    (env : Env) (recorder : Bool) (db : Database) (key : ObjectKey) (s : Run)
    → env.databases.get s.calls key ≡ ok db
    → env.is_zero db.meta.deletion_timestamp ≡ true
    → env.contains_finalizer db.meta Databases.finalizer_name ≡ true
    → ((tenant : Tenant) → resolve_tenant (reader_at env s.calls) (database db) ≢ ok tenant)
    → (db' : Database) × In
        (update_status (database db'))
        (Databases.reconcile env recorder key s).1.calls
      × ¬ In db'.status.phase allowed_phases
unfolding Databases.reconcile Databases.reconcile_database Databases.reconcile_live
unresolved_not_admitted env recorder db key s there live finalized unresolved =
    elim (Result-cases (resolve_tenant (reader_at env s.calls) (database db))) [
      | inl (tenant, q) ↦ absurd (unresolved tenant q)
      | inr (e, q) ↦
          let (db', i, refused) = suspend_not_admitted env recorder db e s in
          (
            db',
            subst (λ (r : Outcome × Run). In (update_status (database db')) r.1.calls)
                (sym (suspends e q)) i,
            refused,
          )
    ]
  where
    suspends :
        (e : Error)
        → resolve_tenant (reader_at env s.calls) (database db) ≡ err e
        → Databases.reconcile env recorder key s ≡ Databases.suspend env recorder db e s
    suspends e q = rw (
      there, live, finalized, q, Databases.reconcile, Databases.reconcile_database,
      Databases.reconcile_live,
    )

owner_not_admitted :
    (env : Env) (t : Team) (key : ObjectKey) (dbs : List Database) (owned : Database) (s : Run)
    → env.teams.get s.calls key ≡ ok t
    → env.is_zero t.meta.deletion_timestamp ≡ false
    → env.contains_finalizer t.meta Teams.finalizer_name ≡ true
    → env.list_databases s.calls "" ≡ ok dbs
    → In owned dbs
    → TeamDeletion.IsOwner t owned
    → (t' : Team) × In (update_status (team t')) (Teams.reconcile env key s).1.calls
      × ¬ In t'.status.phase team_phases
unfolding Teams.reconcile string_dec
owner_not_admitted env t key dbs owned s there leaving held listed i o =
    let (wrote, e, n) =
      (TeamDeletion.handle_deletion_iff_unowned env t s dbs held listed).1 owned i o in
    (
      Teams.with_phase "Deleting" t,
      subst (λ h. In (update_status (team (Teams.with_phase "Deleting" t))) h)
          (sym (ap (λ (r : Outcome × Run). r.1.calls) deletes ∙ wrote)) (inl refl),
      not_In_of_any "Deleting" team_phases refl,
    )
  where
    deletes : Teams.reconcile env key s ≡ Teams.handle_deletion env t s
    deletes = rw (there, leaving, Teams.reconcile)

application_owner_not_admitted :
    (env : Env) (recorder : Bool) (a : Application) (key : ObjectKey) (dbs : List Database)
    (kept : Database) (s : Run)
    → env.applications.get s.calls key ≡ ok a
    → env.is_zero a.meta.deletion_timestamp ≡ false
    → env.contains_finalizer a.meta Applications.finalizer_name ≡ true
    → env.list_databases s.calls "" ≡ ok dbs
    → In kept dbs
    → ApplicationDeletion.IsOwner a kept
    → (a' : Application) × In
        (update_status (application a'))
        (Applications.reconcile env recorder key s).1.calls
      × ¬ In a'.status.phase application_phases
unfolding Applications.reconcile string_dec
application_owner_not_admitted env recorder a key dbs kept s there leaving held listed i o =
    let (wrote, e, n) =
      (ApplicationDeletion.application_handle_deletion_iff_unowned env a s dbs held listed).1 kept i
        o in
    (
      Applications.with_phase "Deleting" a,
      subst (λ h. In (update_status (application (Applications.with_phase "Deleting" a))) h)
          (sym (ap (λ (r : Outcome × Run). r.1.calls) deletes ∙ wrote)) (inl refl),
      not_In_of_any "Deleting" application_phases refl,
    )
  where
    deletes : Applications.reconcile env recorder key s ≡ Applications.handle_deletion env a s
    deletes = rw (there, leaving, Applications.reconcile)

-- The status that a reconciliation writes for a database that is not being deleted, has its
-- finalizer and has a tenant that is not resolved, and those that reconciliations write for a team
-- and for an application that are being deleted, have their finalizers and own a listed database,
-- have phases that the schemas of the custom resources do not admit. The three can be read, and the
-- databases can be listed.
pub phases_not_admitted :
    (env : Env) (recorder : Bool) (s : Run) (db : Database) (t : Team) (a : Application)
    (db_key team_key application_key : ObjectKey) (dbs : List Database) (owned kept : Database)
    → env.databases.get s.calls db_key ≡ ok db
    → env.is_zero db.meta.deletion_timestamp ≡ true
    → env.contains_finalizer db.meta Databases.finalizer_name ≡ true
    → ((tenant : Tenant) → resolve_tenant (reader_at env s.calls) (database db) ≢ ok tenant)
    → env.list_databases s.calls "" ≡ ok dbs
    → env.teams.get s.calls team_key ≡ ok t
    → env.is_zero t.meta.deletion_timestamp ≡ false
    → env.contains_finalizer t.meta Teams.finalizer_name ≡ true
    → In owned dbs
    → TeamDeletion.IsOwner t owned
    → env.applications.get s.calls application_key ≡ ok a
    → env.is_zero a.meta.deletion_timestamp ≡ false
    → env.contains_finalizer a.meta Applications.finalizer_name ≡ true
    → In kept dbs
    → ApplicationDeletion.IsOwner a kept
    → ((db' : Database) × In
          (update_status (database db'))
          (Databases.reconcile env recorder db_key s).1.calls
        × ¬ In db'.status.phase allowed_phases)
      × ((t' : Team) × In (update_status (team t')) (Teams.reconcile env team_key s).1.calls
          × ¬ In t'.status.phase team_phases)
      × ((a' : Application) × In
            (update_status (application a'))
            (Applications.reconcile env recorder application_key s).1.calls
          × ¬ In a'.status.phase application_phases)
phases_not_admitted env recorder s db t a db_key team_key application_key dbs owned kept read_db
      live finalized unresolved listed read_team leaving held i o read_application leaving' held' j
      o' =
    (
      unresolved_not_admitted env recorder db db_key s read_db live finalized unresolved,
      owner_not_admitted env t team_key dbs owned s read_team leaving held listed i o,
      application_owner_not_admitted env recorder a application_key dbs kept s read_application
          leaving' held' listed j o',
    )
