-- ===== src/Api/Team.antt =====
-- api/v1/team_types.go
use kidp.Prelude.{String, Option, List, [], ◌∷◌}
use kidp.Api.Meta.{ObjectMeta, Condition, Float64, Time}
use kidp.Api.Owner.{ObjectReference, Contact, Budget, TeamQuotas, ResourceCount}

pub record TeamSpec : Type 0 where
  pub display_name : String
  pub description : String
  pub members : List Contact
  pub owners : List Contact
  pub tenant_ref : Option ObjectReference
  pub cost_center : String
  pub budget : Option Budget
  pub quotas : Option TeamQuotas

pub record TeamStatus : Type 0 where
  pub phase : String
  pub conditions : List Condition
  pub resource_count : Option ResourceCount
  pub current_spend : Float64
  pub last_updated : Time

pub record Team : Type 0 where
  pub meta : ObjectMeta
  pub spec : TeamSpec
  pub status : TeamStatus

-- The phases that the CRD admits (the enumeration above `Phase`).
abbrev pub team_phases : List String
team_phases = "Active" ∷ "Suspended" ∷ "Archived" ∷ []
