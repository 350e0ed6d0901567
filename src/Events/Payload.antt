-- ===== src/Events/Payload.antt =====
-- `serde_json::Value`, and what the derived code of crates/rv2-events/src/lib.rs does with it: an
-- object's key is looked up, a text is wanted, and an absent key takes the field's default.
use rust_v.Prelude.{String, Bool, Option, none, some, if◌then◌else◌}
use rust_v.Prelude.Text.{str_eq}

-- A number is kept as its literal.
mutual
  pub data Json : Type 0 where
    null : Json
    bool : Bool → Json
    number : String → Json
    string : String → Json
    array : Items → Json
    object : Fields → Json

  pub data Items : Type 0 where
    nil : Items
    cons : Json → Items → Items

  pub data Fields : Type 0 where
    end : Fields
    field : String → Json → Fields → Fields

unfoldable pub get_key : String → Fields → Option Json
get_key k end = none
get_key k (field j v rest) = if str_eq j k then some v else get_key k rest

-- A value that must be a text.
unfoldable pub as_string : Json → Option String
as_string (string s) = some s
as_string _ = none
