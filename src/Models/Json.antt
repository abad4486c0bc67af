-- ===== src/Models/Json.antt =====
-- The values of the message payloads, which the store passes on and seldom looks into.
use imcodex.Prelude.{ℕ, String, ◌==◌, Bool, Option, none, some, if◌then◌else◌, string_eq}

mutual
  pub data Json : Type 0 where
    null : Json
    bool : Bool → Json
    num : ℕ → Json
    str : String → Json
    arr : Items → Json
    obj : Fields → Json

  pub data Items : Type 0 where
    nil : Items
    cons : Json → Items → Items

  pub data Fields : Type 0 where
    end : Fields
    field : String → Json → Fields → Fields

-- d.get(name)
unfoldable pub get_field : Fields → String → Option Json
get_field end k = none
get_field (field j v d) k = let rest = get_field d k in if j == k then some v else rest

-- `x if isinstance(x, dict) else {}`
unfoldable pub as_dict : Option Json → Fields
as_dict none = end
as_dict (some (obj d)) = d
as_dict (some _) = end
