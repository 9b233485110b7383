-- ===== src/Controller/Tenant.antt =====
-- internal/controller/tenant_controller.go
pub mod Boundary
use kidp.Prelude.{pos, String, ◌<>◌, is_empty, not, if◌then◌else◌, true, false, Option, none, some}
use kidp.Prelude.{List, [], ◌∷◌}
use kidp.Result.{Result, ok, err, Error, is_not_found}
use kidp.Api.Meta.{ObjectKey, ObjectMeta, Namespace, tenant_label}
use kidp.Api.Owner.{TenantResourceCount}
use kidp.Api.Tenant.{Tenant}
use kidp.Client.{Env, Call, Exec, Outcome, pure, branch, reads, ◌>>=◌, ◌>>◌, tenant_kind, namespace}
use kidp.Client.{update_object, update_object_status, finished, requeued, failed_with}
use kidp.Resolver.{cluster_key}

abbrev pub finalizer_name : String
finalizer_name = "platform.company.com/tenant-cleanup"

abbrev pub with_meta : ObjectMeta → Tenant → Tenant
with_meta m t = record t { meta = m }

abbrev counted : Option TenantResourceCount → Option TenantResourceCount
counted none = some (record { teams = pos 0; applications = pos 0; databases = pos 0 })
counted (some c) = some c

-- A tenant whose status was empty, with the status that it starts with.
abbrev pub initialized : Tenant → Tenant
initialized t = record t {
  status = record t.status { phase = "Active"; resource_count = counted t.status.resource_count };
}

abbrev pub namespace_name : Tenant → String
namespace_name t = "tenant-" <> t.meta.name

-- The namespace that is created for a tenant.
abbrev pub tenant_namespace : Tenant → Namespace
tenant_namespace t = record {
  meta = record {
    name = namespace_name t;
    namespace = "";
    labels = some ((tenant_label, t.meta.name) ∷ []);
    finalizers = [];
    deletion_timestamp = none;
    generation = pos 0;
  };
}

module _ (env : Env) where
  unfoldable pub handle_deletion : Tenant → Exec Outcome
  handle_deletion t =
      if not (env.contains_finalizer t.meta finalizer_name) then pure finished else do
        r ← update_object env tenant_kind (with_meta (env.remove_finalizer t.meta finalizer_name) t)
        branch r (λ e. pure (failed_with e)) (λ _. pure finished)

  unfoldable pub create_namespace : Namespace → Exec (Result Namespace)
  create_namespace ns s =
      (env.create_namespace s.calls ns, record s { calls = Call.create (namespace ns) ∷ s.calls })

  unfoldable pub ensure_namespace : Tenant → Exec Outcome
  ensure_namespace t = do
    found ← reads (λ h. env.namespaces.get h (cluster_key (namespace_name t)))
    branch found
        (λ e.
          if is_not_found e
          then (do
            r ← create_namespace (tenant_namespace t)
            branch r (λ x. pure (failed_with x)) (λ _. pure finished))
          else pure (failed_with e))
        (λ _. pure finished)

  unfoldable pub initialize_status : Tenant → Exec (Result Tenant)
  initialize_status t =
      if is_empty t.status.phase
      then update_object_status env tenant_kind (initialized t)
      else pure (ok t)

  unfoldable pub reconcile_live : Tenant → Exec Outcome
  reconcile_live t =
      if not (env.contains_finalizer t.meta finalizer_name)
      then (do
        r ← update_object env tenant_kind (with_meta (env.add_finalizer t.meta finalizer_name) t)
        branch r (λ e. pure (failed_with e)) (λ _. pure requeued))
      else do r ← initialize_status t; branch r (λ e. pure (failed_with e)) ensure_namespace

  unfoldable pub reconcile : ObjectKey → Exec Outcome
  reconcile key = do
    found ← reads (λ h. env.tenants.get h key)
    branch found (λ e. pure (if is_not_found e then finished else failed_with e))
        (λ t.
          if not (env.is_zero t.meta.deletion_timestamp)
          then handle_deletion t
          else reconcile_live t)
