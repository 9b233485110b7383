-- ===== src/BrokerModels.antt =====
-- What the broker answers with, and the query of its resources: pkg/broker/models.go beside the
-- requests, which its client shares.
use kidp.Prelude.{ℕ, String, Bool, Option, List, Dict}
use kidp.Json.{Fields}
use kidp.Api.Meta.{Int32, Float64, Time}

pub record StatusResponse : Type 0 where
  pub deployment_id : String
  pub phase : String
  pub message : String
  pub last_updated : Time

pub record ResourceStateRequest : Type 0 where
  pub resource_type : String
  pub resource_name : String
  pub namespace : String
  pub deployment_id : String

pub record ResourceUsage : Type 0 where
  pub cpu_usage : String
  pub memory_usage : String
  pub storage_usage : String
  pub replicas : Int32

pub record ResourceState : Type 0 where
  pub deployment_id : String
  pub resource_type : String
  pub resource_name : String
  pub namespace : String
  pub phase : String
  pub health_status : String
  pub message : String
  pub last_checked : Time
  pub endpoint : String
  pub port : Int32
  pub connection_secret : String
  pub metadata : Option (Dict String)
  pub actual_spec : Option Fields
  pub desired_spec : Option Fields
  pub drift_detected : Bool
  pub drift_details : List String
  pub resource_usage : Option ResourceUsage
  pub estimated_monthly_cost : Float64

pub record ResourceStateResponse : Type 0 where
  pub resources : List ResourceState
  pub total : ℕ
  pub namespace : String

pub record ErrorResponse : Type 0 where
  pub error : String
  pub message : String
  pub code : ℕ
