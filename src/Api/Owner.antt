-- ===== src/Api/Owner.antt =====
-- References and small structs that several resources of api/v1 share.
use kidp.Prelude.{String, List, Option}
use kidp.Api.Meta.{Float64, Int32}

pub record OwnerReference : Type 0 where
  pub kind : String
  pub name : String
  pub namespace : String

pub record ObjectReference : Type 0 where
  pub name : String
  pub namespace : String

pub record SecretReference : Type 0 where
  pub name : String
  pub namespace : String

pub record Contact : Type 0 where
  pub name : String
  pub email : String
  pub slack : String
  pub role : String

pub record Budget : Type 0 where
  pub monthly_limit : Float64
  pub alert_thresholds : List Float64

pub record TeamQuotas : Type 0 where
  pub max_applications : Option Int32
  pub max_databases : Option Int32
  pub max_services : Option Int32
  pub max_caches : Option Int32

pub record ResourceCount : Type 0 where
  pub applications : Int32
  pub databases : Int32
  pub services : Int32
  pub caches : Int32
  pub topics : Int32

pub record TenantQuotas : Type 0 where
  pub max_teams : Option Int32
  pub max_applications : Option Int32
  pub max_databases : Option Int32

pub record TenantResourceCount : Type 0 where
  pub teams : Int32
  pub applications : Int32
  pub databases : Int32
