-- ===== src/Api/Application.antt =====
-- api/v1/application_types.go
use kidp.Prelude.{String, Option, List, [], ◌∷◌}
use kidp.Api.Meta.{ObjectMeta, Condition, Int64, Time}
use kidp.Api.Owner.{OwnerReference, Contact}

pub record ApplicationSpec : Type 0 where
  pub display_name : String
  pub description : String
  pub owner : OwnerReference
  pub repository : String
  pub contacts : List Contact

pub record ApplicationStatus : Type 0 where
  pub phase : String
  pub conditions : List Condition
  pub observed_generation : Int64
  pub last_deployed : Option Time

pub record Application : Type 0 where
  pub meta : ObjectMeta
  pub spec : ApplicationSpec
  pub status : ApplicationStatus

-- The phases that the CRD admits (the enumeration above `Phase`).
abbrev pub application_phases : List String
application_phases = "Draft" ∷ "Active" ∷ "Suspended" ∷ "Archived" ∷ []
