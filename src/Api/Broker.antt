-- ===== src/Api/Broker.antt =====
-- api/v1/broker_types.go
use kidp.Prelude.{String, Option, List}
use kidp.Api.Meta.{ObjectMeta, Condition, Int32, Int64, Time}
use kidp.Api.Owner.{SecretReference}

pub record BrokerCapability : Type 0 where
  pub resource_type : String
  pub providers : List String
  pub regions : List String

pub record BrokerAuthentication : Type 0 where
  pub kind : String
  pub secret_ref : Option SecretReference

pub record HealthCheckConfig : Type 0 where
  pub endpoint : String
  pub interval_seconds : Int32
  pub timeout_seconds : Int32
  pub failure_threshold : Int32

pub record BrokerSpec : Type 0 where
  pub endpoint : String
  pub region : String
  pub cloud_provider : String
  pub capabilities : List BrokerCapability
  pub authentication : Option BrokerAuthentication
  pub health_check : Option HealthCheckConfig
  pub priority : Int32
  pub max_concurrent_deployments : Int32

pub record BrokerStatus : Type 0 where
  pub phase : String
  pub last_heartbeat : Option Time
  pub active_deployments : Int32
  pub version : String
  pub conditions : List Condition
  pub observed_generation : Int64
  pub message : String
  pub callback_public_key : String

pub record Broker : Type 0 where
  pub meta : ObjectMeta
  pub spec : BrokerSpec
  pub status : BrokerStatus
