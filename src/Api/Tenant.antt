-- ===== src/Api/Tenant.antt =====
-- api/v1/tenant_types.go
use kidp.Prelude.{String, Option, List}
use kidp.Api.Meta.{ObjectMeta, Condition, Float64, Time}
use kidp.Api.Owner.{Contact, TenantQuotas, TenantResourceCount}

pub record TenantSpec : Type 0 where
  pub display_name : String
  pub description : String
  pub domain : String
  pub contacts : List Contact
  pub billing_code : String
  pub quotas : Option TenantQuotas

pub record TenantStatus : Type 0 where
  pub phase : String
  pub conditions : List Condition
  pub resource_count : Option TenantResourceCount
  pub current_spend : Float64
  pub last_updated : Time

pub record Tenant : Type 0 where
  pub meta : ObjectMeta
  pub spec : TenantSpec
  pub status : TenantStatus
