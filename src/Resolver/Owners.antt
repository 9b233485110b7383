-- ===== src/Resolver/Owners.antt =====
-- Who owns an object, and which tenant it names: what each step of a resolution looks at.
use kidp.Prelude.{String, is_empty, if◌then◌else◌, ◌≡◌, ◌≢◌, refl, ◌↔◌, ◌⊎◌, inl, inr}
use kidp.Prelude.{none, some, Option-cases, string_dec, ne_of_test, arith}
use kidp.Result.{ok, Result-cases}
use kidp.Api.Meta.{Namespace, tenant_label, read}
use kidp.Api.Owner.{OwnerReference, ObjectReference}
use kidp.Api.Tenant.{Tenant}
use kidp.Client.{Object, database, team, application}
use kidp.Resolver.{Reader, cluster_key, object_meta, named_tenant, fetch_owner, owner_of}
use kidp.Resolver.{labelled_tenant}

-- The object names the tenant itself: a team by its TenantRef, the others by their owner.
abbrev pub NamesTenant : Object → String → Type 0
NamesTenant (team t) n =
    (r : ObjectReference) × (t.spec.tenant_ref ≡ some r) × (r.name ≡ n) × (n ≢ "")
NamesTenant (application a) n = (a.spec.owner.kind ≡ "Tenant") × (a.spec.owner.name ≡ n)
NamesTenant (database d) n = (d.spec.owner.kind ≡ "Tenant") × (d.spec.owner.name ≡ n)
NamesTenant _ n = ⊥

-- The object names no tenant.
abbrev pub NamesNone : Object → Type 0
NamesNone (team t) = (r : ObjectReference) → t.spec.tenant_ref ≡ some r → r.name ≡ ""
NamesNone (application a) = a.spec.owner.kind ≢ "Tenant"
NamesNone (database d) = d.spec.owner.kind ≢ "Tenant"
NamesNone _ = Unit

module _ (R : Reader) where
  -- The reference leads to the object, in the namespace `ns`.
  abbrev pub RefersTo : OwnerReference → String → Object → Type 0
  RefersTo o ns (team t) =
      (o.kind ≡ "Team") × (R.get_team (record { namespace = ns; name = o.name }) ≡ ok t)
  RefersTo o ns (application a) =
      (o.kind ≡ "Application")
      × (R.get_application (record { namespace = ns; name = o.name }) ≡ ok a)
  RefersTo o ns _ = ⊥

  abbrev pub OwnedBy : Object → Object → Type 0
  OwnedBy (database d) p =
      RefersTo d.spec.owner
        (if is_empty d.spec.owner.namespace then d.meta.namespace else d.spec.owner.namespace) p
  OwnedBy (application a) p = RefersTo a.spec.owner a.meta.namespace p
  OwnedBy _ p = ⊥

  -- The object has no Team and no Application for an owner.
  abbrev pub Ownerless : Object → Type 0
  Ownerless (database d) = (d.spec.owner.kind ≢ "Team") × (d.spec.owner.kind ≢ "Application")
  Ownerless (application a) = (a.spec.owner.kind ≢ "Team") × (a.spec.owner.kind ≢ "Application")
  Ownerless _ = Unit

  -- The label of the object's namespace names the tenant.
  abbrev pub LabelNames : Object → String → Type 0
  LabelNames o n =
      ((object_meta o).namespace ≢ "")
      × ((ns : Namespace) × (R.get_namespace (cluster_key (object_meta o).namespace) ≡ ok ns)
          × (read ns.meta.labels tenant_label ≡ n))
      × (n ≢ "")

  -- The object leads to the tenant without its owners.
  abbrev pub Anchors : Object → Tenant → Type 0
  Anchors o t =
      (n : String) × (NamesTenant o n ⊎ (NamesNone o × Ownerless o × LabelNames o n))
      × (R.get_tenant (cluster_key n) ≡ ok t)

Team-ne-Application : ◌≢◌ {A = String} "Team" "Application"
unfolding string_dec
Team-ne-Application = ne_of_test "Team" "Application" refl

pub named_tenant-some : (o : Object) (n : String) → (named_tenant o ≡ some n) ↔ NamesTenant o n
unfolding named_tenant
named_tenant-some (team t) n = elim (Option-cases t.spec.tenant_ref) [
  | inl e ↦ (λ h. ground arith, λ (r, q, k, z). ground arith)
  | inr (r, e) ↦ (λ h. (r, ground arith, ground arith, ground arith), λ (q, f, k, z). ground arith)
]
named_tenant-some (application a) n = ground arith
named_tenant-some (database d) n = ground arith
named_tenant-some _ n = ground arith

pub named_tenant-none : (o : Object) → (named_tenant o ≡ none) ↔ NamesNone o
unfolding named_tenant
named_tenant-none (team t) = elim (Option-cases t.spec.tenant_ref) [
  | inl e ↦ (λ h r q. ground arith, λ h. ground arith)
  | inr (r, e) ↦ (λ h q k. ground arith, λ h. ground (arith, h r e))
]
named_tenant-none (application a) = ground arith
named_tenant-none (database d) = ground arith
named_tenant-none _ = ground arith

module _ (R : Reader) where
  fetch_owner-ok :
      (r : OwnerReference) (ns : String) (p : Object)
      → (fetch_owner R r ns ≡ some (ok p)) ↔ RefersTo R r ns p
  unfolding fetch_owner
  fetch_owner-ok r ns (team t) = ground arith
  fetch_owner-ok r ns (application a) = ground (arith, Team-ne-Application)
  fetch_owner-ok r ns _ = ground arith

  pub owner_of-ok : (o p : Object) → (owner_of R o ≡ some (ok p)) ↔ OwnedBy R o p
  unfolding owner_of
  owner_of-ok (database d) p = fetch_owner-ok d.spec.owner _ p
  owner_of-ok (application a) p = fetch_owner-ok a.spec.owner _ p
  owner_of-ok _ p = ground arith

  pub owner_of-none : (o : Object) → (owner_of R o ≡ none) ↔ Ownerless R o
  unfolding owner_of
  owner_of-none (database d) = ground arith
  owner_of-none (application a) = ground arith
  owner_of-none _ = ground arith

  pub labelled_tenant-ok :
      (o : Object) (t : Tenant)
      → (labelled_tenant R o ≡ ok t)
        ↔ ((n : String) × LabelNames R o n × (R.get_tenant (cluster_key n) ≡ ok t))
  unfolding labelled_tenant
  labelled_tenant-ok o t =
      elim (Result-cases (R.get_namespace (cluster_key (object_meta o).namespace))) [
        | inl (ns, e) ↦ (
          λ h. (
            read ns.meta.labels tenant_label,
            (ground arith, (ns, e, refl), ground arith),
            ground arith,
          ),
          λ (n, l, q). ground arith,
        )
        | inr (f, e) ↦ (λ h. ground arith, λ (n, l, q). ground arith)
      ]
