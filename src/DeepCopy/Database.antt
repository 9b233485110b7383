-- ===== src/DeepCopy/Database.antt =====
-- api/v1/zz_generated.deepcopy.go: Database, its specification, its status and its list, each
-- struct as it lies in memory with its copies.
use kidp.Prelude.{refl, String, Bool, Option, List, Dict}
use kidp.Api.Meta.{Int32, Int64, Float64}
use kidp.Api.Owner.{OwnerReference, ObjectReference, SecretReference}
use kidp.Api.Database.{BackupConfig, EncryptionConfig}
use kidp.DeepCopy.{Ref, Alloc, pure, ◌>>=◌, copy_pointer, copy_each, copy_map, as_object}
use kidp.DeepCopy.Sharing.{
  Kind, IsDeepCopy, flat, pointer, items, dictionary, struct, ◌&◌, ◌both◌, flat-IsDeepCopy,
  pointer-IsDeepCopy, items-IsDeepCopy, copy_map-IsDeepCopy, struct-IsDeepCopy,
}
use kidp.DeepCopy.Machinery.{Machinery}

pub record HeapCostInfo (L : Machinery) : Type 0 where
  pub estimated_monthly : Float64
  pub currency : String
  pub last_updated : L.Time

pub record HeapDatabaseSpec : Type 0 where
  pub owner : OwnerReference
  pub engine : String
  pub version : String
  pub size : String
  pub target : String
  pub backup : Ref BackupConfig
  pub encryption : Ref EncryptionConfig
  pub high_availability : Bool
  pub parameters : Ref (Dict String)

pub record HeapDatabaseStatus (L : Machinery) : Type 0 where
  pub phase : String
  pub conditions : Ref (List L.Condition)
  pub endpoint : String
  pub port : Int32
  pub connection_secret_ref : Ref SecretReference
  pub cloud_resource_id : String
  pub deployment_id : String
  pub broker_ref : Ref ObjectReference
  pub cost : Ref (HeapCostInfo L)
  pub last_backup : Ref L.Time
  pub observed_generation : Int64

pub record HeapDatabase (L : Machinery) : Type 0 where
  pub type_meta : L.TypeMeta
  pub meta : L.ObjectMeta
  pub spec : HeapDatabaseSpec
  pub status : HeapDatabaseStatus L

pub record HeapDatabaseList (L : Machinery) : Type 0 where
  pub type_meta : L.TypeMeta
  pub meta : L.ListMeta
  pub items : Ref (List (HeapDatabase L))

abbrev pub kind_of_database_spec : Kind HeapDatabaseSpec
kind_of_database_spec =
    struct
      (λ s. (
        s.owner,
        (
          s.engine,
          (
            s.version,
            (s.size, (s.target, (s.backup, (s.encryption, (s.high_availability, s.parameters))))),
          ),
        ),
      ))
      (flat & flat & flat & flat & flat & pointer flat & pointer flat & flat & pointer dictionary)

abbrev pub copy_database_spec_into : HeapDatabaseSpec → Alloc HeapDatabaseSpec
copy_database_spec_into s = do
  backup ← copy_pointer pure s.backup
  encryption ← copy_pointer pure s.encryption
  parameters ← copy_map s.parameters
  pure (record s { backup = backup; encryption = encryption; parameters = parameters })

abbrev pub copy_database_spec : Ref HeapDatabaseSpec → Alloc (Ref HeapDatabaseSpec)
copy_database_spec = copy_pointer copy_database_spec_into

pub copy_database_spec_into-IsDeepCopy : IsDeepCopy kind_of_database_spec copy_database_spec_into
copy_database_spec_into-IsDeepCopy =
    struct-IsDeepCopy
      (flat-IsDeepCopy
        both flat-IsDeepCopy
        both flat-IsDeepCopy
        both flat-IsDeepCopy
        both flat-IsDeepCopy
        both (pointer-IsDeepCopy flat-IsDeepCopy)
        both (pointer-IsDeepCopy flat-IsDeepCopy)
        both flat-IsDeepCopy
        both copy_map-IsDeepCopy)
      (λ a n. refl)

module _ (L : Machinery) where
  abbrev pub kind_of_cost_info : Kind (HeapCostInfo L)
  kind_of_cost_info =
      struct (λ s. (s.estimated_monthly, (s.currency, s.last_updated))) (flat & flat & L.time)

  abbrev pub copy_cost_info_into : HeapCostInfo L → Alloc (HeapCostInfo L)
  copy_cost_info_into s = do
    last_updated ← L.copy_time_into s.last_updated
    pure (record s { last_updated = last_updated })

  abbrev pub copy_cost_info : Ref (HeapCostInfo L) → Alloc (Ref (HeapCostInfo L))
  copy_cost_info = copy_pointer copy_cost_info_into

  pub copy_cost_info_into-IsDeepCopy : IsDeepCopy kind_of_cost_info copy_cost_info_into
  copy_cost_info_into-IsDeepCopy =
      struct-IsDeepCopy (flat-IsDeepCopy both flat-IsDeepCopy both L.copy_time_into-IsDeepCopy)
        (λ a n. refl)

  abbrev pub kind_of_database_status : Kind (HeapDatabaseStatus L)
  kind_of_database_status =
      struct
        (λ s. (
          s.phase,
          (
            s.conditions,
            (
              s.endpoint,
              (
                s.port,
                (
                  s.connection_secret_ref,
                  (
                    s.cloud_resource_id,
                    (
                      s.deployment_id,
                      (s.broker_ref, (s.cost, (s.last_backup, s.observed_generation))),
                    ),
                  ),
                ),
              ),
            ),
          ),
        ))
        (flat
          & pointer (items L.condition)
          & flat
          & flat
          & pointer flat
          & flat
          & flat
          & pointer flat
          & pointer kind_of_cost_info
          & pointer L.time
          & flat)

  abbrev pub copy_database_status_into : HeapDatabaseStatus L → Alloc (HeapDatabaseStatus L)
  copy_database_status_into s = do
    conditions ← copy_pointer (copy_each L.copy_condition_into) s.conditions
    connection_secret_ref ← copy_pointer pure s.connection_secret_ref
    broker_ref ← copy_pointer pure s.broker_ref
    cost ← copy_pointer copy_cost_info_into s.cost
    last_backup ← L.copy_time s.last_backup
    pure (record s {
      conditions = conditions;
      connection_secret_ref = connection_secret_ref;
      broker_ref = broker_ref;
      cost = cost;
      last_backup = last_backup;
    })

  abbrev pub copy_database_status : Ref (HeapDatabaseStatus L) → Alloc (Ref (HeapDatabaseStatus L))
  copy_database_status = copy_pointer copy_database_status_into

  pub copy_database_status_into-IsDeepCopy :
      IsDeepCopy kind_of_database_status copy_database_status_into
  copy_database_status_into-IsDeepCopy =
      struct-IsDeepCopy
        (flat-IsDeepCopy
          both (pointer-IsDeepCopy (items-IsDeepCopy L.copy_condition_into-IsDeepCopy))
          both flat-IsDeepCopy
          both flat-IsDeepCopy
          both (pointer-IsDeepCopy flat-IsDeepCopy)
          both flat-IsDeepCopy
          both flat-IsDeepCopy
          both (pointer-IsDeepCopy flat-IsDeepCopy)
          both (pointer-IsDeepCopy copy_cost_info_into-IsDeepCopy)
          both L.copy_time-IsDeepCopy
          both flat-IsDeepCopy)
        (λ a n. refl)

  abbrev pub kind_of_database : Kind (HeapDatabase L)
  kind_of_database =
      struct (λ s. (s.type_meta, (s.meta, (s.spec, s.status))))
        (flat & L.object_meta & kind_of_database_spec & kind_of_database_status)

  abbrev pub copy_database_into : HeapDatabase L → Alloc (HeapDatabase L)
  copy_database_into s = do
    meta ← L.copy_object_meta_into s.meta
    spec ← copy_database_spec_into s.spec
    status ← copy_database_status_into s.status
    pure (record s { meta = meta; spec = spec; status = status })

  abbrev pub copy_database : Ref (HeapDatabase L) → Alloc (Ref (HeapDatabase L))
  copy_database = copy_pointer copy_database_into

  abbrev pub copy_database_object : Ref (HeapDatabase L) → Alloc (Option (Ref (HeapDatabase L)))
  copy_database_object r = do c ← copy_database r; pure (as_object c)

  pub copy_database_into-IsDeepCopy : IsDeepCopy kind_of_database copy_database_into
  copy_database_into-IsDeepCopy =
      struct-IsDeepCopy
        (flat-IsDeepCopy both L.copy_object_meta_into-IsDeepCopy
          both copy_database_spec_into-IsDeepCopy both copy_database_status_into-IsDeepCopy)
        (λ a n. refl)

  abbrev pub kind_of_database_list : Kind (HeapDatabaseList L)
  kind_of_database_list =
      struct (λ s. (s.type_meta, (s.meta, s.items)))
        (flat & L.list_meta & pointer (items kind_of_database))

  abbrev pub copy_database_list_into : HeapDatabaseList L → Alloc (HeapDatabaseList L)
  copy_database_list_into s = do
    meta ← L.copy_list_meta_into s.meta
    items_copy ← copy_pointer (copy_each copy_database_into) s.items
    pure (record s { meta = meta; items = items_copy })

  abbrev pub copy_database_list : Ref (HeapDatabaseList L) → Alloc (Ref (HeapDatabaseList L))
  copy_database_list = copy_pointer copy_database_list_into

  abbrev pub copy_database_list_object :
      Ref (HeapDatabaseList L) → Alloc (Option (Ref (HeapDatabaseList L)))
  copy_database_list_object r = do c ← copy_database_list r; pure (as_object c)

  pub copy_database_list_into-IsDeepCopy : IsDeepCopy kind_of_database_list copy_database_list_into
  copy_database_list_into-IsDeepCopy =
      struct-IsDeepCopy
        (flat-IsDeepCopy
          both L.copy_list_meta_into-IsDeepCopy
          both (pointer-IsDeepCopy (items-IsDeepCopy copy_database_into-IsDeepCopy)))
        (λ a n. refl)
