-- ===== src/Controller/Application.antt =====
-- internal/controller/application_controller.go
pub mod Deletion
use kidp.Prelude.{ℕ, suc, ltb, String, ◌<>◌, ◌==◌, is_empty, not, ◌&&◌, if◌then◌else◌, Bool}
use kidp.Prelude.{Option, none, some, List, [], ◌∷◌}
use kidp.Result.{Result, ok, err, Error, errorf_int, wrapf, is_not_found}
use kidp.Api.Meta.{ObjectKey, ObjectMeta, tenant_label, read, set_label}
use kidp.Api.Database.{Database}
use kidp.Api.Application.{Application}
use kidp.Api.Tenant.{Tenant}
use kidp.Client.{Env, Call, Exec, Outcome, pure, branch, reads, ◌>>=◌, ◌>>◌, application}
use kidp.Client.{application_kind, update_object, update_object_status, emit_event, finished}
use kidp.Client.{requeued, failed_with}
use kidp.Status.{update_status_with_fallback}
use kidp.Resolver.{reader_at, resolve_tenant}

abbrev pub finalizer_name : String
finalizer_name = "platform.company.com/application-cleanup"

abbrev pub with_phase : String → Application → Application
with_phase phase a = record a { status = record a.status { phase = phase } }

abbrev pub with_meta : ObjectMeta → Application → Application
with_meta m a = record a { meta = m }

-- The test in the loop of `checkOwnedResources`, and the loop's count.
abbrev pub owns : Application → Database → Bool
owns a db =
    db.spec.owner.kind == "Application"
    && (db.spec.owner.name == a.meta.name && db.meta.namespace == a.meta.namespace)

unfoldable pub owned_databases : Application → List Database → ℕ
owned_databases a [] = 0
owned_databases a (db ∷ dbs) = let n = owned_databases a dbs in if owns a db then suc n else n

abbrev pub still_owns : Application → ℕ → Error
still_owns a n =
    errorf_int ("application " <> a.meta.name <> " still owns %d database(s), delete them first") n

module _ (env : Env) where
  unfoldable pub check_owned_resources : Application → Exec (Option Error)
  check_owned_resources a = do
    listed ← reads (λ h. env.list_databases h "")
    branch listed (λ e. pure (some (wrapf "failed to list databases" e)))
        (λ dbs.
          let n = owned_databases a dbs in pure (if ltb 0 n then some (still_owns a n) else none))

  unfoldable pub block_deletion : Application → Error → Exec Outcome
  block_deletion a e = do
    update_object_status env application_kind (with_phase "Deleting" a)
    pure (failed_with e)

  unfoldable pub release : Application → Exec Outcome
  release a = do
    r ←
        update_object env application_kind
          (with_meta (env.remove_finalizer a.meta finalizer_name) a)
    branch r (λ e. pure (failed_with e)) (λ _. pure finished)

  unfoldable pub handle_deletion : Application → Exec Outcome
  handle_deletion a =
      if not (env.contains_finalizer a.meta finalizer_name) then pure finished else do
        failure ← check_owned_resources a
        elim failure [ some e ↦ block_deletion a e | none ↦ release a ]

  -- A status that was empty begins with the phase Draft.
  unfoldable pub initialize_status : Application → Exec (Result Application)
  initialize_status a =
      if is_empty a.status.phase
      then update_status_with_fallback env application_kind (with_phase "Draft" a)
      else pure (ok a)

  module _ (recorder : Bool) where
    unfoldable pub suspend : Application → Error → Exec Outcome
    suspend a terr = do
      emit_event recorder (
          Call.event (application a) "Warning" "TenantUnresolved" "tenant could not be resolved: "
            (some terr))
      r ← update_status_with_fallback env application_kind (with_phase "Suspended" a)
      branch r (λ e. pure (failed_with e)) (λ _. pure finished)

    unfoldable pub assign_label : Application → Tenant → Exec Outcome
    assign_label a tenant = do
      r ←
          update_object env application_kind
            (with_meta (set_label a.meta tenant_label tenant.meta.name) a)
      branch r (λ e. pure (failed_with e))
          (λ saved. do
            emit_event recorder (
                Call.event (application saved) "Normal" "TenantAssigned"
                  ("Assigned tenant " <> tenant.meta.name <> " to application " <> saved.meta.name)
                  none)
            pure requeued)

    unfoldable pub reconcile_tenant : Application → Exec Outcome
    reconcile_tenant a = do
      resolved ← reads (λ h. resolve_tenant (reader_at env h) (application a))
      branch resolved (suspend a) (λ tenant.
          if not (read a.meta.labels tenant_label == tenant.meta.name)
          then assign_label a tenant
          else pure finished)

    unfoldable pub reconcile_live : Application → Exec Outcome
    reconcile_live a =
        if not (env.contains_finalizer a.meta finalizer_name)
        then (do
          r ←
              update_object env application_kind
                (with_meta (env.add_finalizer a.meta finalizer_name) a)
          branch r (λ e. pure (failed_with e)) (λ _. pure requeued))
        else do r ← initialize_status a; branch r (λ e. pure (failed_with e)) reconcile_tenant

    unfoldable pub reconcile : ObjectKey → Exec Outcome
    reconcile key = do
      found ← reads (λ h. env.applications.get h key)
      branch found (λ e. pure (if is_not_found e then finished else failed_with e))
          (λ a.
            if not (env.is_zero a.meta.deletion_timestamp)
            then handle_deletion a
            else reconcile_live a)
