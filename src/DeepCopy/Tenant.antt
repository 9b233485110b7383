-- ===== src/DeepCopy/Tenant.antt =====
-- api/v1/zz_generated.deepcopy.go: Tenant, its specification, its status and its list, each struct
-- as it lies in memory with its copies.
use kidp.Prelude.{refl, String, Option, List}
use kidp.Api.Meta.{Float64}
use kidp.Api.Owner.{Contact, TenantResourceCount}
use kidp.DeepCopy.{Ref, Alloc, pure, ◌>>=◌, copy_pointer, copy_each, as_object}
use kidp.DeepCopy.Sharing.{
  Kind, IsDeepCopy, flat, pointer, items, struct, ◌&◌, ◌both◌, flat-IsDeepCopy, pointer-IsDeepCopy,
  items-IsDeepCopy, struct-IsDeepCopy,
}
use kidp.DeepCopy.Machinery.{Machinery}
use kidp.DeepCopy.Shared.{
  HeapTenantQuotas, kind_of_tenant_quotas, copy_tenant_quotas_into,
  copy_tenant_quotas_into-IsDeepCopy,
}

pub record HeapTenantSpec : Type 0 where
  pub display_name : String
  pub description : String
  pub domain : String
  pub contacts : Ref (List Contact)
  pub billing_code : String
  pub quotas : Ref HeapTenantQuotas

pub record HeapTenantStatus (L : Machinery) : Type 0 where
  pub phase : String
  pub conditions : Ref (List L.Condition)
  pub resource_count : Ref TenantResourceCount
  pub current_spend : Float64
  pub last_updated : L.Time

pub record HeapTenant (L : Machinery) : Type 0 where
  pub type_meta : L.TypeMeta
  pub meta : L.ObjectMeta
  pub spec : HeapTenantSpec
  pub status : HeapTenantStatus L

pub record HeapTenantList (L : Machinery) : Type 0 where
  pub type_meta : L.TypeMeta
  pub meta : L.ListMeta
  pub items : Ref (List (HeapTenant L))

abbrev pub kind_of_tenant_spec : Kind HeapTenantSpec
kind_of_tenant_spec =
    struct
      (λ s. (s.display_name, (s.description, (s.domain, (s.contacts, (s.billing_code, s.quotas))))))
      (flat & flat & flat & pointer flat & flat & pointer kind_of_tenant_quotas)

abbrev pub copy_tenant_spec_into : HeapTenantSpec → Alloc HeapTenantSpec
copy_tenant_spec_into s = do
  contacts ← copy_pointer pure s.contacts
  quotas ← copy_pointer copy_tenant_quotas_into s.quotas
  pure (record s { contacts = contacts; quotas = quotas })

abbrev pub copy_tenant_spec : Ref HeapTenantSpec → Alloc (Ref HeapTenantSpec)
copy_tenant_spec = copy_pointer copy_tenant_spec_into

pub copy_tenant_spec_into-IsDeepCopy : IsDeepCopy kind_of_tenant_spec copy_tenant_spec_into
copy_tenant_spec_into-IsDeepCopy =
    struct-IsDeepCopy
      (flat-IsDeepCopy
        both flat-IsDeepCopy
        both flat-IsDeepCopy
        both (pointer-IsDeepCopy flat-IsDeepCopy)
        both flat-IsDeepCopy
        both (pointer-IsDeepCopy copy_tenant_quotas_into-IsDeepCopy))
      (λ a n. refl)

module _ (L : Machinery) where
  abbrev pub kind_of_tenant_status : Kind (HeapTenantStatus L)
  kind_of_tenant_status =
      struct (λ s. (s.phase, (s.conditions, (s.resource_count, (s.current_spend, s.last_updated)))))
        (flat & pointer (items L.condition) & pointer flat & flat & L.time)

  abbrev pub copy_tenant_status_into : HeapTenantStatus L → Alloc (HeapTenantStatus L)
  copy_tenant_status_into s = do
    conditions ← copy_pointer (copy_each L.copy_condition_into) s.conditions
    resource_count ← copy_pointer pure s.resource_count
    last_updated ← L.copy_time_into s.last_updated
    pure (record s {
      conditions = conditions;
      resource_count = resource_count;
      last_updated = last_updated;
    })

  abbrev pub copy_tenant_status : Ref (HeapTenantStatus L) → Alloc (Ref (HeapTenantStatus L))
  copy_tenant_status = copy_pointer copy_tenant_status_into

  pub copy_tenant_status_into-IsDeepCopy : IsDeepCopy kind_of_tenant_status copy_tenant_status_into
  copy_tenant_status_into-IsDeepCopy =
      struct-IsDeepCopy
        (flat-IsDeepCopy
          both (pointer-IsDeepCopy (items-IsDeepCopy L.copy_condition_into-IsDeepCopy))
          both (pointer-IsDeepCopy flat-IsDeepCopy)
          both flat-IsDeepCopy
          both L.copy_time_into-IsDeepCopy)
        (λ a n. refl)

  abbrev pub kind_of_tenant : Kind (HeapTenant L)
  kind_of_tenant =
      struct (λ s. (s.type_meta, (s.meta, (s.spec, s.status))))
        (flat & L.object_meta & kind_of_tenant_spec & kind_of_tenant_status)

  abbrev pub copy_tenant_into : HeapTenant L → Alloc (HeapTenant L)
  copy_tenant_into s = do
    meta ← L.copy_object_meta_into s.meta
    spec ← copy_tenant_spec_into s.spec
    status ← copy_tenant_status_into s.status
    pure (record s { meta = meta; spec = spec; status = status })

  abbrev pub copy_tenant : Ref (HeapTenant L) → Alloc (Ref (HeapTenant L))
  copy_tenant = copy_pointer copy_tenant_into

  abbrev pub copy_tenant_object : Ref (HeapTenant L) → Alloc (Option (Ref (HeapTenant L)))
  copy_tenant_object r = do c ← copy_tenant r; pure (as_object c)

  pub copy_tenant_into-IsDeepCopy : IsDeepCopy kind_of_tenant copy_tenant_into
  copy_tenant_into-IsDeepCopy =
      struct-IsDeepCopy
        (flat-IsDeepCopy both L.copy_object_meta_into-IsDeepCopy
          both copy_tenant_spec_into-IsDeepCopy both copy_tenant_status_into-IsDeepCopy)
        (λ a n. refl)

  abbrev pub kind_of_tenant_list : Kind (HeapTenantList L)
  kind_of_tenant_list =
      struct (λ s. (s.type_meta, (s.meta, s.items)))
        (flat & L.list_meta & pointer (items kind_of_tenant))

  abbrev pub copy_tenant_list_into : HeapTenantList L → Alloc (HeapTenantList L)
  copy_tenant_list_into s = do
    meta ← L.copy_list_meta_into s.meta
    items_copy ← copy_pointer (copy_each copy_tenant_into) s.items
    pure (record s { meta = meta; items = items_copy })

  abbrev pub copy_tenant_list : Ref (HeapTenantList L) → Alloc (Ref (HeapTenantList L))
  copy_tenant_list = copy_pointer copy_tenant_list_into

  abbrev pub copy_tenant_list_object :
      Ref (HeapTenantList L) → Alloc (Option (Ref (HeapTenantList L)))
  copy_tenant_list_object r = do c ← copy_tenant_list r; pure (as_object c)

  pub copy_tenant_list_into-IsDeepCopy : IsDeepCopy kind_of_tenant_list copy_tenant_list_into
  copy_tenant_list_into-IsDeepCopy =
      struct-IsDeepCopy
        (flat-IsDeepCopy
          both L.copy_list_meta_into-IsDeepCopy
          both (pointer-IsDeepCopy (items-IsDeepCopy copy_tenant_into-IsDeepCopy)))
        (λ a n. refl)
