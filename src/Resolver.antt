-- ===== src/Resolver.antt =====
-- internal/controller/tenantresolver.go. One resolution reads one snapshot of the API server,
-- `Reader`. The Go code counts the depth up from 0 to `maxDepth`; here the levels that are left
-- are counted down, seven of them at the start.
pub mod Owners
pub mod Chain
pub mod Cycle
use kidp.Prelude.{ℕ, zero, suc, String, ◌<>◌, ◌==◌, is_empty, if◌then◌else◌, Option, none, some}
use kidp.Result.{Result, ok, err, Error, errorf, wrapf}
use kidp.Api.Meta.{ObjectMeta, ObjectKey, Namespace, tenant_label, read}
use kidp.Api.Owner.{OwnerReference}
use kidp.Api.Team.{Team}
use kidp.Api.Tenant.{Tenant}
use kidp.Api.Application.{Application}
use kidp.Client.{Env, History, Object, database, team, application, tenant, broker, namespace}

pub record Reader : Type 0 where
  pub get_team : ObjectKey → Result Team
  pub get_application : ObjectKey → Result Application
  pub get_tenant : ObjectKey → Result Tenant
  pub get_namespace : ObjectKey → Result Namespace

-- What the client answers after a history.
abbrev pub reader_at : Env → History → Reader
reader_at env h = record {
  get_team = env.teams.get h;
  get_application = env.applications.get h;
  get_tenant = env.tenants.get h;
  get_namespace = env.namespaces.get h;
}

-- The key of an object that is in no namespace.
abbrev pub cluster_key : String → ObjectKey
cluster_key n = record { namespace = ""; name = n }

abbrev pub object_meta : Object → ObjectMeta
object_meta (database d) = d.meta
object_meta (team t) = t.meta
object_meta (application a) = a.meta
object_meta (tenant t) = t.meta
object_meta (broker b) = b.meta
object_meta (namespace n) = n.meta

abbrev pub wrap_with : {A : Type 0} → String → Result A → Result A
wrap_with message (ok a) = ok a
wrap_with message (err e) = err (wrapf message e)

abbrev pub map_ok : {A B : Type 0} → (A → B) → Result A → Result B
map_ok f (ok a) = ok (f a)
map_ok f (err e) = err e

-- The name in `Spec.Owner` if the owner is a Tenant.
abbrev pub tenant_owner : OwnerReference → Option String
tenant_owner owner = if owner.kind == "Tenant" then some owner.name else none

-- Step 1: the tenant that the object names itself.
unfoldable pub named_tenant : Object → Option String
named_tenant (team t) = elim t.spec.tenant_ref [
  | none ↦ none
  | some r ↦ if is_empty r.name then none else some r.name
]
named_tenant (application a) = tenant_owner a.spec.owner
named_tenant (database d) = tenant_owner d.spec.owner
named_tenant _ = none

module _ (R : Reader) where
  unfoldable pub fetch_team : String → String → Result Object
  fetch_team ns name =
      wrap_with ("owner team " <> ns <> "/" <> name <> " not found")
        (map_ok team (R.get_team (record { namespace = ns; name = name })))

  unfoldable pub fetch_application : String → String → Result Object
  fetch_application ns name =
      wrap_with ("owner application " <> ns <> "/" <> name <> " not found")
        (map_ok application (R.get_application (record { namespace = ns; name = name })))

  -- The object that `Spec.Owner` refers to, looked up in the namespace `ns`.
  unfoldable pub fetch_owner : OwnerReference → String → Option (Result Object)
  unfolding fetch_team fetch_application
  fetch_owner owner ns =
      if owner.kind == "Team"
      then some (fetch_team ns owner.name)
      else if owner.kind == "Application"
      then some (fetch_application ns owner.name)
      else none

  -- Step 2: the owner, if the object has one to follow. Only a database's reference may name
  -- another namespace.
  unfoldable pub owner_of : Object → Option (Result Object)
  unfolding fetch_owner
  owner_of (database d) =
      fetch_owner d.spec.owner
        (if is_empty d.spec.owner.namespace then d.meta.namespace else d.spec.owner.namespace)
  owner_of (application a) = fetch_owner a.spec.owner a.meta.namespace
  owner_of _ = none

  unfoldable pub tenant_by_label : Namespace → String → Result Tenant
  tenant_by_label ns ns_name =
      let tn = read ns.meta.labels tenant_label in
      if is_empty tn
      then err (errorf "tenant unresolved")
      else wrap_with
          ("tenant label " <> tn <> " on namespace " <> ns_name <> " points to missing tenant")
          (R.get_tenant (cluster_key tn))

  -- Step 3: the label of the object's namespace.
  unfoldable pub labelled_tenant : Object → Result Tenant
  unfolding tenant_by_label
  labelled_tenant obj =
      let ns_name = (object_meta obj).namespace in
      if is_empty ns_name
      then err (errorf "tenant unresolved")
      else elim (R.get_namespace (cluster_key ns_name)) [
        | ok ns ↦ tenant_by_label ns ns_name
        | err e ↦ err (errorf "tenant unresolved")
      ]

  -- What follows step 1 where it finds nothing; `resolve` is the call one level deeper.
  unfoldable pub resolve_owner :
      (Object → Result Tenant) → Object → Option (Result Object) → Result Tenant
  unfolding labelled_tenant
  resolve_owner resolve obj none = labelled_tenant obj
  resolve_owner resolve obj (some (ok owner)) = resolve owner
  resolve_owner resolve obj (some (err e)) = err e

  unfoldable pub resolve_step : (Object → Result Tenant) → Object → Option String → Result Tenant
  unfolding resolve_owner owner_of
  resolve_step resolve obj none = resolve_owner resolve obj (owner_of obj)
  resolve_step resolve obj (some name) =
      wrap_with ("referenced tenant " <> name <> " not found") (R.get_tenant (cluster_key name))

  unfoldable pub resolve_from : ℕ → Object → Result Tenant
  unfolding resolve_step named_tenant
  resolve_from zero obj = err (errorf "tenant resolution exceeded max depth")
  resolve_from (suc levels) obj = resolve_step (resolve_from levels) obj (named_tenant obj)

  unfoldable pub resolve_tenant : Object → Result Tenant
  unfolding resolve_from
  resolve_tenant obj = resolve_from 7 obj
