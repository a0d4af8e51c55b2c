-- ===== src/Json.antt =====
-- JSON values, the type `unknown` of the program. Numbers are integers: `neg n` is -(n + 1).
pub mod Print
mod Tests
use mavio_mcp.Base.{
  ℕ, String, Bool, Option, none, some, [], ◌∷◌, str_eq, if◌then◌else◌, not, true, false, ◌==◌,
}
use mavio_mcp.Base.Map.{Map}

mutual
  pub data Json : Type 0 where
    null : Json
    bool : Bool → Json
    num : ℕ → Json
    neg : ℕ → Json
    str : String → Json
    arr : Items → Json
    obj : Fields → Json

  pub data Items : Type 0 where
    nil : Items
    cons : Json → Items → Items

  pub data Fields : Type 0 where
    end : Fields
    field : String → Json → Fields → Fields

-- `obj[key]`, `none` for undefined.
unfoldable pub lookup_field : String → Fields → Option Json
lookup_field k end = none
lookup_field k (field j v fs) = if str_eq j k then some v else lookup_field k fs

-- `v.key` for any value: undefined but for an object that has the field.
unfoldable pub prop : String → Json → Option Json
unfolding lookup_field
prop k (obj fs) = lookup_field k fs
prop k _ = none

unfoldable pub as_text : Json → Option String
as_text (str s) = some s
as_text _ = none

unfoldable pub to_fields : Map Json → Fields
to_fields [] = end
to_fields ((k, v) ∷ m) = field k v (to_fields m)

-- `Boolean(v)`.
unfoldable pub truthy : Json → Bool
truthy null = false
truthy (bool b) = b
truthy (num n) = not (n == 0)
truthy (neg n) = true
truthy (str s) = not (str_eq s "")
truthy (arr xs) = true
truthy (obj fs) = true
