-- ===== src/Controller/Team/Tenancy.antt =====
-- How internal/controller/team_controller.go ties a team to its tenant.
use kidp.Prelude.{◌≡◌, ◌≢◌, ◌↔◌, String, none, some}
use kidp.Prelude.{arith}
use kidp.Result.{ok}
use kidp.Api.Team.{Team}
use kidp.Api.Tenant.{Tenant}
use kidp.Client.{team}
use kidp.Resolver.{Reader, cluster_key, resolve_tenant, resolve_from, resolve_step, resolve_owner}
use kidp.Resolver.{named_tenant, owner_of, labelled_tenant}
use kidp.Controller.Team.{label_of, with_tenant_ref}
use kidp.Controller.Team.{referenced_tenant}

-- Where the reconciler takes a team's tenant from the label of its namespace and writes it into
-- the team's TenantRef, the team resolves to the same tenant as before.
pub with_tenant_ref-resolves :
    (R : Reader) (t : Team) (tn : String) (tenant : Tenant)
    → referenced_tenant t.spec.tenant_ref ≡ none
    → t.meta.namespace ≢ ""
    → label_of (R.get_namespace (cluster_key t.meta.namespace)) ≡ some tn
    → (resolve_tenant R (team t) ≡ ok tenant)
      ↔ (resolve_tenant R (team (with_tenant_ref tn t)) ≡ ok tenant)
unfolding resolve_tenant resolve_from resolve_step resolve_owner named_tenant owner_of
    labelled_tenant
with_tenant_ref-resolves R t tn tenant unset placed label = ground arith
