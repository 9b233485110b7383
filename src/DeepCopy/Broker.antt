-- ===== src/DeepCopy/Broker.antt =====
-- api/v1/zz_generated.deepcopy.go: Broker, its specification, its status and its list, each struct
-- as it lies in memory with its copies.
use kidp.Prelude.{refl, String, Option, List}
use kidp.Api.Meta.{Int32, Int64}
use kidp.Api.Owner.{SecretReference}
use kidp.Api.Broker.{HealthCheckConfig}
use kidp.DeepCopy.{Ref, Alloc, pure, ◌>>=◌, copy_pointer, copy_each, as_object}
use kidp.DeepCopy.Sharing.{
  Kind, IsDeepCopy, flat, pointer, items, struct, ◌&◌, ◌both◌, flat-IsDeepCopy, pointer-IsDeepCopy,
  items-IsDeepCopy, struct-IsDeepCopy,
}
use kidp.DeepCopy.Machinery.{Machinery}

pub record HeapBrokerCapability : Type 0 where
  pub resource_type : String
  pub providers : Ref (List String)
  pub regions : Ref (List String)

pub record HeapBrokerAuthentication : Type 0 where
  pub kind : String
  pub secret_ref : Ref SecretReference

pub record HeapBrokerSpec : Type 0 where
  pub endpoint : String
  pub region : String
  pub cloud_provider : String
  pub capabilities : Ref (List HeapBrokerCapability)
  pub authentication : Ref HeapBrokerAuthentication
  pub health_check : Ref HealthCheckConfig
  pub priority : Int32
  pub max_concurrent_deployments : Int32

pub record HeapBrokerStatus (L : Machinery) : Type 0 where
  pub phase : String
  pub last_heartbeat : Ref L.Time
  pub active_deployments : Int32
  pub version : String
  pub conditions : Ref (List L.Condition)
  pub observed_generation : Int64
  pub message : String
  pub callback_public_key : String

pub record HeapBroker (L : Machinery) : Type 0 where
  pub type_meta : L.TypeMeta
  pub meta : L.ObjectMeta
  pub spec : HeapBrokerSpec
  pub status : HeapBrokerStatus L

pub record HeapBrokerList (L : Machinery) : Type 0 where
  pub type_meta : L.TypeMeta
  pub meta : L.ListMeta
  pub items : Ref (List (HeapBroker L))

abbrev pub kind_of_broker_capability : Kind HeapBrokerCapability
kind_of_broker_capability =
    struct (λ s. (s.resource_type, (s.providers, s.regions))) (flat & pointer flat & pointer flat)

abbrev pub copy_broker_capability_into : HeapBrokerCapability → Alloc HeapBrokerCapability
copy_broker_capability_into s = do
  providers ← copy_pointer pure s.providers
  regions ← copy_pointer pure s.regions
  pure (record s { providers = providers; regions = regions })

abbrev pub copy_broker_capability : Ref HeapBrokerCapability → Alloc (Ref HeapBrokerCapability)
copy_broker_capability = copy_pointer copy_broker_capability_into

pub copy_broker_capability_into-IsDeepCopy :
    IsDeepCopy kind_of_broker_capability copy_broker_capability_into
copy_broker_capability_into-IsDeepCopy =
    struct-IsDeepCopy
      (flat-IsDeepCopy
        both (pointer-IsDeepCopy flat-IsDeepCopy)
        both (pointer-IsDeepCopy flat-IsDeepCopy))
      (λ a n. refl)

abbrev pub kind_of_broker_authentication : Kind HeapBrokerAuthentication
kind_of_broker_authentication = struct (λ s. (s.kind, s.secret_ref)) (flat & pointer flat)

abbrev pub copy_broker_authentication_into :
    HeapBrokerAuthentication → Alloc HeapBrokerAuthentication
copy_broker_authentication_into s = do
  secret_ref ← copy_pointer pure s.secret_ref
  pure (record s { secret_ref = secret_ref })

abbrev pub copy_broker_authentication :
    Ref HeapBrokerAuthentication → Alloc (Ref HeapBrokerAuthentication)
copy_broker_authentication = copy_pointer copy_broker_authentication_into

pub copy_broker_authentication_into-IsDeepCopy :
    IsDeepCopy kind_of_broker_authentication copy_broker_authentication_into
copy_broker_authentication_into-IsDeepCopy =
    struct-IsDeepCopy (flat-IsDeepCopy both (pointer-IsDeepCopy flat-IsDeepCopy)) (λ a n. refl)

abbrev pub kind_of_broker_spec : Kind HeapBrokerSpec
kind_of_broker_spec =
    struct
      (λ s. (
        s.endpoint,
        (
          s.region,
          (
            s.cloud_provider,
            (
              s.capabilities,
              (s.authentication, (s.health_check, (s.priority, s.max_concurrent_deployments))),
            ),
          ),
        ),
      ))
      (flat
        & flat
        & flat
        & pointer (items kind_of_broker_capability)
        & pointer kind_of_broker_authentication
        & pointer flat
        & flat
        & flat)

abbrev pub copy_broker_spec_into : HeapBrokerSpec → Alloc HeapBrokerSpec
copy_broker_spec_into s = do
  capabilities ← copy_pointer (copy_each copy_broker_capability_into) s.capabilities
  authentication ← copy_pointer copy_broker_authentication_into s.authentication
  health_check ← copy_pointer pure s.health_check
  pure (record s {
    capabilities = capabilities;
    authentication = authentication;
    health_check = health_check;
  })

abbrev pub copy_broker_spec : Ref HeapBrokerSpec → Alloc (Ref HeapBrokerSpec)
copy_broker_spec = copy_pointer copy_broker_spec_into

pub copy_broker_spec_into-IsDeepCopy : IsDeepCopy kind_of_broker_spec copy_broker_spec_into
copy_broker_spec_into-IsDeepCopy =
    struct-IsDeepCopy
      (flat-IsDeepCopy
        both flat-IsDeepCopy
        both flat-IsDeepCopy
        both (pointer-IsDeepCopy (items-IsDeepCopy copy_broker_capability_into-IsDeepCopy))
        both (pointer-IsDeepCopy copy_broker_authentication_into-IsDeepCopy)
        both (pointer-IsDeepCopy flat-IsDeepCopy)
        both flat-IsDeepCopy
        both flat-IsDeepCopy)
      (λ a n. refl)

module _ (L : Machinery) where
  abbrev pub kind_of_broker_status : Kind (HeapBrokerStatus L)
  kind_of_broker_status =
      struct
        (λ s. (
          s.phase,
          (
            s.last_heartbeat,
            (
              s.active_deployments,
              (
                s.version,
                (s.conditions, (s.observed_generation, (s.message, s.callback_public_key))),
              ),
            ),
          ),
        ))
        (flat & pointer L.time & flat & flat & pointer (items L.condition) & flat & flat & flat)

  abbrev pub copy_broker_status_into : HeapBrokerStatus L → Alloc (HeapBrokerStatus L)
  copy_broker_status_into s = do
    last_heartbeat ← L.copy_time s.last_heartbeat
    conditions ← copy_pointer (copy_each L.copy_condition_into) s.conditions
    pure (record s { last_heartbeat = last_heartbeat; conditions = conditions })

  abbrev pub copy_broker_status : Ref (HeapBrokerStatus L) → Alloc (Ref (HeapBrokerStatus L))
  copy_broker_status = copy_pointer copy_broker_status_into

  pub copy_broker_status_into-IsDeepCopy : IsDeepCopy kind_of_broker_status copy_broker_status_into
  copy_broker_status_into-IsDeepCopy =
      struct-IsDeepCopy
        (flat-IsDeepCopy
          both L.copy_time-IsDeepCopy
          both flat-IsDeepCopy
          both flat-IsDeepCopy
          both (pointer-IsDeepCopy (items-IsDeepCopy L.copy_condition_into-IsDeepCopy))
          both flat-IsDeepCopy
          both flat-IsDeepCopy
          both flat-IsDeepCopy)
        (λ a n. refl)

  abbrev pub kind_of_broker : Kind (HeapBroker L)
  kind_of_broker =
      struct (λ s. (s.type_meta, (s.meta, (s.spec, s.status))))
        (flat & L.object_meta & kind_of_broker_spec & kind_of_broker_status)

  abbrev pub copy_broker_into : HeapBroker L → Alloc (HeapBroker L)
  copy_broker_into s = do
    meta ← L.copy_object_meta_into s.meta
    spec ← copy_broker_spec_into s.spec
    status ← copy_broker_status_into s.status
    pure (record s { meta = meta; spec = spec; status = status })

  abbrev pub copy_broker : Ref (HeapBroker L) → Alloc (Ref (HeapBroker L))
  copy_broker = copy_pointer copy_broker_into

  abbrev pub copy_broker_object : Ref (HeapBroker L) → Alloc (Option (Ref (HeapBroker L)))
  copy_broker_object r = do c ← copy_broker r; pure (as_object c)

  pub copy_broker_into-IsDeepCopy : IsDeepCopy kind_of_broker copy_broker_into
  copy_broker_into-IsDeepCopy =
      struct-IsDeepCopy
        (flat-IsDeepCopy both L.copy_object_meta_into-IsDeepCopy
          both copy_broker_spec_into-IsDeepCopy both copy_broker_status_into-IsDeepCopy)
        (λ a n. refl)

  abbrev pub kind_of_broker_list : Kind (HeapBrokerList L)
  kind_of_broker_list =
      struct (λ s. (s.type_meta, (s.meta, s.items)))
        (flat & L.list_meta & pointer (items kind_of_broker))

  abbrev pub copy_broker_list_into : HeapBrokerList L → Alloc (HeapBrokerList L)
  copy_broker_list_into s = do
    meta ← L.copy_list_meta_into s.meta
    items_copy ← copy_pointer (copy_each copy_broker_into) s.items
    pure (record s { meta = meta; items = items_copy })

  abbrev pub copy_broker_list : Ref (HeapBrokerList L) → Alloc (Ref (HeapBrokerList L))
  copy_broker_list = copy_pointer copy_broker_list_into

  abbrev pub copy_broker_list_object :
      Ref (HeapBrokerList L) → Alloc (Option (Ref (HeapBrokerList L)))
  copy_broker_list_object r = do c ← copy_broker_list r; pure (as_object c)

  pub copy_broker_list_into-IsDeepCopy : IsDeepCopy kind_of_broker_list copy_broker_list_into
  copy_broker_list_into-IsDeepCopy =
      struct-IsDeepCopy
        (flat-IsDeepCopy
          both L.copy_list_meta_into-IsDeepCopy
          both (pointer-IsDeepCopy (items-IsDeepCopy copy_broker_into-IsDeepCopy)))
        (λ a n. refl)
