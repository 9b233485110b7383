-- ===== src/Controller/Team.antt =====
-- internal/controller/team_controller.go
pub mod Deletion
pub mod Suspension
pub mod Tenancy
use kidp.Prelude.{ℕ, suc, ltb, String, ◌<>◌, ◌==◌, is_empty, not, ◌&&◌, if◌then◌else◌, Bool, true}
use kidp.Prelude.{pos, Option, none, some, List, [], ◌∷◌}
use kidp.Result.{Result, ok, err, Error, errorf, errorf_int, wrapf, is_not_found}
use kidp.Api.Meta.{ObjectKey, ObjectMeta, Namespace, tenant_label, read}
use kidp.Api.Owner.{ObjectReference, ResourceCount}
use kidp.Api.Database.{Database}
use kidp.Api.Team.{Team}
use kidp.Client.{Env, Run, Exec, Outcome, pure, branch, reads, ◌>>=◌, ◌>>◌, team_kind}
use kidp.Client.{update_object, update_object_status, finished, requeued, failed_with}
use kidp.Status.{update_status_with_fallback}
use kidp.Resolver.{cluster_key}

abbrev pub finalizer_name : String
finalizer_name = "platform.company.com/team-cleanup"

abbrev pub with_phase : String → Team → Team
with_phase phase t = record t { status = record t.status { phase = phase } }

abbrev pub with_meta : ObjectMeta → Team → Team
with_meta m t = record t { meta = m }

abbrev pub with_tenant_ref : String → Team → Team
with_tenant_ref tn t = record t {
  spec = record t.spec { tenant_ref = some (record { name = tn; namespace = "" }) };
}

abbrev no_resources : ResourceCount
no_resources = record {
  applications = pos 0;
  databases = pos 0;
  services = pos 0;
  caches = pos 0;
  topics = pos 0;
}

abbrev counted : Option ResourceCount → Option ResourceCount
counted none = some no_resources
counted (some c) = some c

-- A team whose status was empty, with the status that it starts with.
abbrev pub initialized : Team → Team
initialized t = record t {
  status = record t.status { phase = "Active"; resource_count = counted t.status.resource_count };
}

-- The test in the loop of `checkOwnedResources`, and the loop's count.
abbrev pub owns : Team → Database → Bool
owns t db = db.spec.owner.kind == "Team" && db.spec.owner.name == t.meta.name

unfoldable pub owned_databases : Team → List Database → ℕ
owned_databases t [] = 0
owned_databases t (db ∷ dbs) = let n = owned_databases t dbs in if owns t db then suc n else n

-- The tenant's name in the team's TenantRef, if it has one.
abbrev pub referenced_tenant : Option ObjectReference → Option String
referenced_tenant none = none
referenced_tenant (some r) = if not (is_empty r.name) then some r.name else none

-- The tenant's name in the label of the namespace; an error of the read counts as no label.
abbrev pub label_of : Result Namespace → Option String
label_of (ok ns) =
    let tn = read ns.meta.labels tenant_label in if not (is_empty tn) then some tn else none
label_of (err e) = none

abbrev pub still_owns : Team → ℕ → Error
still_owns t n =
    errorf_int ("team " <> t.meta.name <> " still owns %d database(s), delete them first") n

module _ (env : Env) where
  unfoldable pub check_owned_resources : Team → Exec (Option Error)
  check_owned_resources t = do
    listed ← reads (λ h. env.list_databases h "")
    branch listed (λ e. pure (some (wrapf "failed to list databases" e)))
        (λ dbs.
          let n = owned_databases t dbs in pure (if ltb 0 n then some (still_owns t n) else none))

  -- An owner of databases: the phase says why the deletion waits, and the finalizer stays.
  unfoldable pub block_deletion : Team → Error → Exec Outcome
  block_deletion t e = do
    update_object_status env team_kind (with_phase "Deleting" t)
    pure (failed_with e)

  unfoldable pub release : Team → Exec Outcome
  release t = do
    r ← update_object env team_kind (with_meta (env.remove_finalizer t.meta finalizer_name) t)
    branch r (λ e. pure (failed_with e)) (λ _. pure finished)

  unfoldable pub handle_deletion : Team → Exec Outcome
  handle_deletion t =
      if not (env.contains_finalizer t.meta finalizer_name) then pure finished else do
        failure ← check_owned_resources t
        elim failure [ some e ↦ block_deletion t e | none ↦ release t ]

  -- `team.Status.Phase = "Suspended"` and its write; `result` is what follows a good write.
  unfoldable pub suspend : Team → Outcome → Exec Outcome
  suspend t result = do
    r ← update_status_with_fallback env team_kind (with_phase "Suspended" t)
    branch r (λ e. pure (failed_with e)) (λ _. pure result)

  unfoldable pub initialize_status : Team → Exec Outcome
  initialize_status t = if not (is_empty t.status.phase) then pure finished else do
    r ← update_status_with_fallback env team_kind (initialized t)
    branch r (λ e. pure (failed_with e)) (λ _. pure finished)

  -- The team has a TenantRef: its tenant must be there.
  unfoldable pub verify_tenant : Team → String → Exec Outcome
  verify_tenant t name = do
    found ← reads (λ h. env.tenants.get h (cluster_key name))
    branch found
        (λ e.
          if is_not_found e
          then suspend t (failed_with (errorf ("referenced tenant " <> name <> " not found")))
          else pure (failed_with e))
        (λ _. initialize_status t)

  -- The team has none: it takes the tenant of its namespace, if that has one.
  unfoldable pub infer_tenant : Team → Exec Outcome
  infer_tenant t = do
    label ← reads (λ h. label_of (env.namespaces.get h (cluster_key t.meta.namespace)))
    elim label [
      | some tn ↦ do
        r ← update_object env team_kind (with_tenant_ref tn t)
        branch r (λ e. pure (failed_with e)) (λ _. pure requeued)
      | none ↦ suspend t finished
    ]

  unfoldable pub reconcile_live : Team → Exec Outcome
  reconcile_live t =
      if not (env.contains_finalizer t.meta finalizer_name)
      then (do
        r ← update_object env team_kind (with_meta (env.add_finalizer t.meta finalizer_name) t)
        branch r (λ e. pure (failed_with e)) (λ _. pure requeued))
      else elim (referenced_tenant t.spec.tenant_ref) [
        | some name ↦ verify_tenant t name
        | none ↦ infer_tenant t
      ]

  unfoldable pub reconcile : ObjectKey → Exec Outcome
  reconcile key = do
    found ← reads (λ h. env.teams.get h key)
    branch found (λ e. pure (if is_not_found e then finished else failed_with e))
        (λ t.
          if not (env.is_zero t.meta.deletion_timestamp)
          then handle_deletion t
          else reconcile_live t)
