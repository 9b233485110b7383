-- ===== src/BrokerClient/Types.antt =====
-- The requests and responses of pkg/brokerclient/client.go.
use kidp.Prelude.{String, Option}
use kidp.Json.{Fields}

pub record ProvisionRequest : Type 0 where
  pub resource_type : String
  pub resource_name : String
  pub namespace : String
  pub team : String
  pub owner : String
  pub callback_url : String
  pub spec : Option Fields

pub record ProvisionResponse : Type 0 where
  pub status : String
  pub deployment_id : String
  pub message : String

pub record DeprovisionRequest : Type 0 where
  pub deployment_id : String
  pub resource_type : String
  pub resource_name : String
  pub namespace : String
  pub callback_url : String

pub record DeprovisionResponse : Type 0 where
  pub status : String
  pub message : String
