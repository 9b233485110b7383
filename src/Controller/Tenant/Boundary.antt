-- ===== src/Controller/Tenant/Boundary.antt =====
-- The namespace of a tenant in internal/controller/tenant_controller.go, and what
-- internal/controller/tenantresolver.go makes of it.
use text.Mathlib.TextLemmas.{append-eq-nil_iff}
use kidp.Prelude.{sym, ◌∙◌, ◌≡◌, ◌≢◌, ◌⊎◌, inl, inr, none, In, arith}
use kidp.Prelude.{lookup}
use kidp.Result.{ok, Result-cases}
use kidp.Api.Meta.{Namespace}
use kidp.Api.Tenant.{Tenant}
use kidp.Client.{Env, Run, Object, create, namespace}
use kidp.Resolver.{Reader, cluster_key, object_meta, resolve_tenant}
use kidp.Resolver.Owners.{NamesNone, Ownerless}
use kidp.Resolver.Chain.{anchor, resolve_tenant_iff}
use kidp.Controller.Tenant.{ensure_namespace, create_namespace, namespace_name, tenant_namespace}

-- Every object that names no tenant and has no owner to follow belongs to the tenant in whose
-- namespace it stands, if that namespace is the one that the tenant's reconciler creates, and the
-- tenant has a name and is found by it.
pub tenant_namespace-resolves :
    (R : Reader) (t : Tenant) (o : Object)
    → t.meta.name ≢ ""
    → R.get_tenant (cluster_key t.meta.name) ≡ ok t
    → R.get_namespace (cluster_key (namespace_name t)) ≡ ok (tenant_namespace t)
    → (object_meta o).namespace ≡ namespace_name t
    → NamesNone o
    → Ownerless R o
    → resolve_tenant R o ≡ ok t
unfolding lookup
tenant_namespace-resolves R t o named found created inside unnamed alone =
    (resolve_tenant_iff R o t).1 (
      0,
      omega arith,
      anchor (
        t.meta.name,
        inr (
          unnamed,
          alone,
          (
            (λ e. named (append-eq-nil_iff.0 (sym inside ∙ e)).1),
            (tenant_namespace t, rw inside created, ground arith),
            named,
          ),
        ),
        found,
      ),
    )

-- A run that succeeds leaves the tenant with its namespace: it was there, or the run has created
-- it under the tenant's name and label.
pub ensure_namespace_creates :
    (env : Env) (t : Tenant) (s : Run)
    → (ensure_namespace env t s).0.error ≡ none
    → ((ns : Namespace) × (env.namespaces.get s.calls (cluster_key (namespace_name t)) ≡ ok ns))
      ⊎ (In (create (namespace (tenant_namespace t))) (ensure_namespace env t s).1.calls
          × ((ns : Namespace) × (env.create_namespace s.calls (tenant_namespace t) ≡ ok ns)))
unfolding ensure_namespace create_namespace
ensure_namespace_creates env t s h =
    elim (Result-cases (env.namespaces.get s.calls (cluster_key (namespace_name t)))) [
      | inl (ns, e) ↦ inl (ns, e)
      | inr (e, q) ↦ elim (Result-cases (env.create_namespace s.calls (tenant_namespace t))) [
        | inl (ns, c) ↦ inr (ground arith, (ns, c))
        | inr (x, c) ↦ ground arith
      ]
    ]
