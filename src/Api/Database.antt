-- ===== src/Api/Database.antt =====
-- api/v1/database_types.go
use kidp.Prelude.{String, Bool, Option, List, [], ◌∷◌, Dict}
use kidp.Api.Meta.{ObjectMeta, Condition, Int32, Int64, Float64, Time}
use kidp.Api.Owner.{OwnerReference, ObjectReference, SecretReference}

pub record BackupConfig : Type 0 where
  pub enabled : Bool
  pub retention : String
  pub schedule : String
  pub point_in_time_restore : Bool

pub record AtRestEncryption : Type 0 where
  pub enabled : Bool
  pub kms_key_id : String

pub record InTransitEncryption : Type 0 where
  pub enabled : Bool
  pub min_tls_version : String

pub record EncryptionConfig : Type 0 where
  pub at_rest : AtRestEncryption
  pub in_transit : InTransitEncryption

pub record DatabaseSpec : Type 0 where
  pub owner : OwnerReference
  pub engine : String
  pub version : String
  pub size : String
  pub target : String
  pub backup : Option BackupConfig
  pub encryption : Option EncryptionConfig
  pub high_availability : Bool
  pub parameters : Option (Dict String)

pub record CostInfo : Type 0 where
  pub estimated_monthly : Float64
  pub currency : String
  pub last_updated : Time

pub record DatabaseStatus : Type 0 where
  pub phase : String
  pub conditions : List Condition
  pub endpoint : String
  pub port : Int32
  pub connection_secret_ref : Option SecretReference
  pub cloud_resource_id : String
  pub deployment_id : String
  pub broker_ref : Option ObjectReference
  pub cost : Option CostInfo
  pub last_backup : Option Time
  pub observed_generation : Int64

pub record Database : Type 0 where
  pub meta : ObjectMeta
  pub spec : DatabaseSpec
  pub status : DatabaseStatus

-- The phases that the CRD admits (the enumeration above `Phase`).
abbrev pub allowed_phases : List String
allowed_phases = "Pending" ∷ "Provisioning" ∷ "Ready" ∷ "Failed" ∷ "Deleting" ∷ []
