-- ===== src/DeepCopy/Team.antt =====
-- api/v1/zz_generated.deepcopy.go: Team, its specification, its status and its list, each struct as
-- it lies in memory with its copies.
use kidp.Prelude.{refl, String, Option, List}
use kidp.Api.Meta.{Float64}
use kidp.Api.Owner.{ObjectReference, Contact, ResourceCount}
use kidp.DeepCopy.{Ref, Alloc, pure, ◌>>=◌, copy_pointer, copy_each, as_object}
use kidp.DeepCopy.Sharing.{
  Kind, IsDeepCopy, flat, pointer, items, struct, ◌&◌, ◌both◌, flat-IsDeepCopy, pointer-IsDeepCopy,
  items-IsDeepCopy, struct-IsDeepCopy,
}
use kidp.DeepCopy.Machinery.{Machinery}
use kidp.DeepCopy.Shared.{
  HeapBudget, kind_of_budget, copy_budget_into, copy_budget_into-IsDeepCopy, HeapTeamQuotas,
  kind_of_team_quotas, copy_team_quotas_into, copy_team_quotas_into-IsDeepCopy,
}

pub record HeapTeamSpec : Type 0 where
  pub display_name : String
  pub description : String
  pub members : Ref (List Contact)
  pub owners : Ref (List Contact)
  pub tenant_ref : Ref ObjectReference
  pub cost_center : String
  pub budget : Ref HeapBudget
  pub quotas : Ref HeapTeamQuotas

pub record HeapTeamStatus (L : Machinery) : Type 0 where
  pub phase : String
  pub conditions : Ref (List L.Condition)
  pub resource_count : Ref ResourceCount
  pub current_spend : Float64
  pub last_updated : L.Time

pub record HeapTeam (L : Machinery) : Type 0 where
  pub type_meta : L.TypeMeta
  pub meta : L.ObjectMeta
  pub spec : HeapTeamSpec
  pub status : HeapTeamStatus L

pub record HeapTeamList (L : Machinery) : Type 0 where
  pub type_meta : L.TypeMeta
  pub meta : L.ListMeta
  pub items : Ref (List (HeapTeam L))

abbrev pub kind_of_team_spec : Kind HeapTeamSpec
kind_of_team_spec =
    struct
      (λ s. (
        s.display_name,
        (
          s.description,
          (s.members, (s.owners, (s.tenant_ref, (s.cost_center, (s.budget, s.quotas))))),
        ),
      ))
      (flat
        & flat
        & pointer flat
        & pointer flat
        & pointer flat
        & flat
        & pointer kind_of_budget
        & pointer kind_of_team_quotas)

abbrev pub copy_team_spec_into : HeapTeamSpec → Alloc HeapTeamSpec
copy_team_spec_into s = do
  members ← copy_pointer pure s.members
  owners ← copy_pointer pure s.owners
  tenant_ref ← copy_pointer pure s.tenant_ref
  budget ← copy_pointer copy_budget_into s.budget
  quotas ← copy_pointer copy_team_quotas_into s.quotas
  pure (record s {
    members = members;
    owners = owners;
    tenant_ref = tenant_ref;
    budget = budget;
    quotas = quotas;
  })

abbrev pub copy_team_spec : Ref HeapTeamSpec → Alloc (Ref HeapTeamSpec)
copy_team_spec = copy_pointer copy_team_spec_into

pub copy_team_spec_into-IsDeepCopy : IsDeepCopy kind_of_team_spec copy_team_spec_into
copy_team_spec_into-IsDeepCopy =
    struct-IsDeepCopy
      (flat-IsDeepCopy
        both flat-IsDeepCopy
        both (pointer-IsDeepCopy flat-IsDeepCopy)
        both (pointer-IsDeepCopy flat-IsDeepCopy)
        both (pointer-IsDeepCopy flat-IsDeepCopy)
        both flat-IsDeepCopy
        both (pointer-IsDeepCopy copy_budget_into-IsDeepCopy)
        both (pointer-IsDeepCopy copy_team_quotas_into-IsDeepCopy))
      (λ a n. refl)

module _ (L : Machinery) where
  abbrev pub kind_of_team_status : Kind (HeapTeamStatus L)
  kind_of_team_status =
      struct (λ s. (s.phase, (s.conditions, (s.resource_count, (s.current_spend, s.last_updated)))))
        (flat & pointer (items L.condition) & pointer flat & flat & L.time)

  abbrev pub copy_team_status_into : HeapTeamStatus L → Alloc (HeapTeamStatus L)
  copy_team_status_into s = do
    conditions ← copy_pointer (copy_each L.copy_condition_into) s.conditions
    resource_count ← copy_pointer pure s.resource_count
    last_updated ← L.copy_time_into s.last_updated
    pure (record s {
      conditions = conditions;
      resource_count = resource_count;
      last_updated = last_updated;
    })

  abbrev pub copy_team_status : Ref (HeapTeamStatus L) → Alloc (Ref (HeapTeamStatus L))
  copy_team_status = copy_pointer copy_team_status_into

  pub copy_team_status_into-IsDeepCopy : IsDeepCopy kind_of_team_status copy_team_status_into
  copy_team_status_into-IsDeepCopy =
      struct-IsDeepCopy
        (flat-IsDeepCopy
          both (pointer-IsDeepCopy (items-IsDeepCopy L.copy_condition_into-IsDeepCopy))
          both (pointer-IsDeepCopy flat-IsDeepCopy)
          both flat-IsDeepCopy
          both L.copy_time_into-IsDeepCopy)
        (λ a n. refl)

  abbrev pub kind_of_team : Kind (HeapTeam L)
  kind_of_team =
      struct (λ s. (s.type_meta, (s.meta, (s.spec, s.status))))
        (flat & L.object_meta & kind_of_team_spec & kind_of_team_status)

  abbrev pub copy_team_into : HeapTeam L → Alloc (HeapTeam L)
  copy_team_into s = do
    meta ← L.copy_object_meta_into s.meta
    spec ← copy_team_spec_into s.spec
    status ← copy_team_status_into s.status
    pure (record s { meta = meta; spec = spec; status = status })

  abbrev pub copy_team : Ref (HeapTeam L) → Alloc (Ref (HeapTeam L))
  copy_team = copy_pointer copy_team_into

  abbrev pub copy_team_object : Ref (HeapTeam L) → Alloc (Option (Ref (HeapTeam L)))
  copy_team_object r = do c ← copy_team r; pure (as_object c)

  pub copy_team_into-IsDeepCopy : IsDeepCopy kind_of_team copy_team_into
  copy_team_into-IsDeepCopy =
      struct-IsDeepCopy
        (flat-IsDeepCopy both L.copy_object_meta_into-IsDeepCopy both copy_team_spec_into-IsDeepCopy
          both copy_team_status_into-IsDeepCopy)
        (λ a n. refl)

  abbrev pub kind_of_team_list : Kind (HeapTeamList L)
  kind_of_team_list =
      struct (λ s. (s.type_meta, (s.meta, s.items)))
        (flat & L.list_meta & pointer (items kind_of_team))

  abbrev pub copy_team_list_into : HeapTeamList L → Alloc (HeapTeamList L)
  copy_team_list_into s = do
    meta ← L.copy_list_meta_into s.meta
    items_copy ← copy_pointer (copy_each copy_team_into) s.items
    pure (record s { meta = meta; items = items_copy })

  abbrev pub copy_team_list : Ref (HeapTeamList L) → Alloc (Ref (HeapTeamList L))
  copy_team_list = copy_pointer copy_team_list_into

  abbrev pub copy_team_list_object : Ref (HeapTeamList L) → Alloc (Option (Ref (HeapTeamList L)))
  copy_team_list_object r = do c ← copy_team_list r; pure (as_object c)

  pub copy_team_list_into-IsDeepCopy : IsDeepCopy kind_of_team_list copy_team_list_into
  copy_team_list_into-IsDeepCopy =
      struct-IsDeepCopy
        (flat-IsDeepCopy
          both L.copy_list_meta_into-IsDeepCopy
          both (pointer-IsDeepCopy (items-IsDeepCopy copy_team_into-IsDeepCopy)))
        (λ a n. refl)
