-- ===== src/DeepCopy/Application.antt =====
-- api/v1/zz_generated.deepcopy.go: Application, its specification, its status and its list, each
-- struct as it lies in memory with its copies.
use kidp.Prelude.{refl, String, Option, List}
use kidp.Api.Meta.{Int64}
use kidp.Api.Owner.{OwnerReference, Contact}
use kidp.DeepCopy.{Ref, Alloc, pure, ◌>>=◌, copy_pointer, copy_each, as_object}
use kidp.DeepCopy.Sharing.{
  Kind, IsDeepCopy, flat, pointer, items, struct, ◌&◌, ◌both◌, flat-IsDeepCopy, pointer-IsDeepCopy,
  items-IsDeepCopy, struct-IsDeepCopy,
}
use kidp.DeepCopy.Machinery.{Machinery}

pub record HeapApplicationSpec : Type 0 where
  pub display_name : String
  pub description : String
  pub owner : OwnerReference
  pub repository : String
  pub contacts : Ref (List Contact)

pub record HeapApplicationStatus (L : Machinery) : Type 0 where
  pub phase : String
  pub conditions : Ref (List L.Condition)
  pub observed_generation : Int64
  pub last_deployed : Ref L.Time

pub record HeapApplication (L : Machinery) : Type 0 where
  pub type_meta : L.TypeMeta
  pub meta : L.ObjectMeta
  pub spec : HeapApplicationSpec
  pub status : HeapApplicationStatus L

pub record HeapApplicationList (L : Machinery) : Type 0 where
  pub type_meta : L.TypeMeta
  pub meta : L.ListMeta
  pub items : Ref (List (HeapApplication L))

abbrev pub kind_of_application_spec : Kind HeapApplicationSpec
kind_of_application_spec =
    struct (λ s. (s.display_name, (s.description, (s.owner, (s.repository, s.contacts)))))
      (flat & flat & flat & flat & pointer flat)

abbrev pub copy_application_spec_into : HeapApplicationSpec → Alloc HeapApplicationSpec
copy_application_spec_into s = do
  contacts ← copy_pointer pure s.contacts
  pure (record s { contacts = contacts })

abbrev pub copy_application_spec : Ref HeapApplicationSpec → Alloc (Ref HeapApplicationSpec)
copy_application_spec = copy_pointer copy_application_spec_into

pub copy_application_spec_into-IsDeepCopy :
    IsDeepCopy kind_of_application_spec copy_application_spec_into
copy_application_spec_into-IsDeepCopy =
    struct-IsDeepCopy
      (flat-IsDeepCopy
        both flat-IsDeepCopy
        both flat-IsDeepCopy
        both flat-IsDeepCopy
        both (pointer-IsDeepCopy flat-IsDeepCopy))
      (λ a n. refl)

module _ (L : Machinery) where
  abbrev pub kind_of_application_status : Kind (HeapApplicationStatus L)
  kind_of_application_status =
      struct (λ s. (s.phase, (s.conditions, (s.observed_generation, s.last_deployed))))
        (flat & pointer (items L.condition) & flat & pointer L.time)

  abbrev pub copy_application_status_into :
      HeapApplicationStatus L → Alloc (HeapApplicationStatus L)
  copy_application_status_into s = do
    conditions ← copy_pointer (copy_each L.copy_condition_into) s.conditions
    last_deployed ← L.copy_time s.last_deployed
    pure (record s { conditions = conditions; last_deployed = last_deployed })

  abbrev pub copy_application_status :
      Ref (HeapApplicationStatus L) → Alloc (Ref (HeapApplicationStatus L))
  copy_application_status = copy_pointer copy_application_status_into

  pub copy_application_status_into-IsDeepCopy :
      IsDeepCopy kind_of_application_status copy_application_status_into
  copy_application_status_into-IsDeepCopy =
      struct-IsDeepCopy
        (flat-IsDeepCopy
          both (pointer-IsDeepCopy (items-IsDeepCopy L.copy_condition_into-IsDeepCopy))
          both flat-IsDeepCopy
          both L.copy_time-IsDeepCopy)
        (λ a n. refl)

  abbrev pub kind_of_application : Kind (HeapApplication L)
  kind_of_application =
      struct (λ s. (s.type_meta, (s.meta, (s.spec, s.status))))
        (flat & L.object_meta & kind_of_application_spec & kind_of_application_status)

  abbrev pub copy_application_into : HeapApplication L → Alloc (HeapApplication L)
  copy_application_into s = do
    meta ← L.copy_object_meta_into s.meta
    spec ← copy_application_spec_into s.spec
    status ← copy_application_status_into s.status
    pure (record s { meta = meta; spec = spec; status = status })

  abbrev pub copy_application : Ref (HeapApplication L) → Alloc (Ref (HeapApplication L))
  copy_application = copy_pointer copy_application_into

  abbrev pub copy_application_object :
      Ref (HeapApplication L) → Alloc (Option (Ref (HeapApplication L)))
  copy_application_object r = do c ← copy_application r; pure (as_object c)

  pub copy_application_into-IsDeepCopy : IsDeepCopy kind_of_application copy_application_into
  copy_application_into-IsDeepCopy =
      struct-IsDeepCopy
        (flat-IsDeepCopy both L.copy_object_meta_into-IsDeepCopy
          both copy_application_spec_into-IsDeepCopy both copy_application_status_into-IsDeepCopy)
        (λ a n. refl)

  abbrev pub kind_of_application_list : Kind (HeapApplicationList L)
  kind_of_application_list =
      struct (λ s. (s.type_meta, (s.meta, s.items)))
        (flat & L.list_meta & pointer (items kind_of_application))

  abbrev pub copy_application_list_into : HeapApplicationList L → Alloc (HeapApplicationList L)
  copy_application_list_into s = do
    meta ← L.copy_list_meta_into s.meta
    items_copy ← copy_pointer (copy_each copy_application_into) s.items
    pure (record s { meta = meta; items = items_copy })

  abbrev pub copy_application_list :
      Ref (HeapApplicationList L) → Alloc (Ref (HeapApplicationList L))
  copy_application_list = copy_pointer copy_application_list_into

  abbrev pub copy_application_list_object :
      Ref (HeapApplicationList L) → Alloc (Option (Ref (HeapApplicationList L)))
  copy_application_list_object r = do c ← copy_application_list r; pure (as_object c)

  pub copy_application_list_into-IsDeepCopy :
      IsDeepCopy kind_of_application_list copy_application_list_into
  copy_application_list_into-IsDeepCopy =
      struct-IsDeepCopy
        (flat-IsDeepCopy
          both L.copy_list_meta_into-IsDeepCopy
          both (pointer-IsDeepCopy (items-IsDeepCopy copy_application_into-IsDeepCopy)))
        (λ a n. refl)
