-- ===== src/Json.antt =====
-- The values that Go keeps in a `map[string]interface{}`.
use kidp.Prelude.{String, Bool, List, [], ◌∷◌}
use kidp.Api.Meta.{Float64}

mutual
  pub data Json : Type 0 where
    null : Json
    bool : Bool → Json
    number : Float64 → Json
    text : String → Json
    array : Items → Json
    object : Fields → Json

  pub data Items : Type 0 where
    nil : Items
    item : Json → Items → Items

  pub data Fields : Type 0 where
    end : Fields
    field : String → Json → Fields → Fields

abbrev pub fields : List (String × Json) → Fields
fields [] = end
fields ((name, value) ∷ rest) = field name value (fields rest)

abbrev items : List String → Items
items [] = nil
items (s ∷ ss) = item (text s) (items ss)

-- A `[]string` and a `map[string]interface{}`.
abbrev pub texts : List String → Json
texts ss = array (items ss)

abbrev pub map_of : List (String × Json) → Json
map_of entries = object (fields entries)
