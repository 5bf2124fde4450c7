-- ===== src/Json.antt =====
-- JSON values, as Python holds them: a dictionary is a list of entries with different keys.
use storage_service.Prelude.{ℕ, Bool, Option, none, some, if◌then◌else◌}
use storage_service.Text.{Text, text_eq}

mutual
  pub data Json : Type 0 where
    null : Json
    bool : Bool → Json
    number : ℕ → Json
    text : Text → Json
    array : Items → Json
    object : Fields → Json

  pub data Items : Type 0 where
    nil : Items
    cons : Json → Items → Items

  pub data Fields : Type 0 where
    end : Fields
    field : Text → Json → Fields → Fields

-- `fields.get(key)`.
abbrev pub get : Text → Fields → Option Json
get key end = none
get key (field k value rest) = if text_eq k key then some value else get key rest

-- `fields[key] = value`.
abbrev pub put : Text → Json → Fields → Fields
put key value end = field key value end
put key value (field k old rest) =
    let later = put key value rest in
    if text_eq k key then field k value rest else field k old later

-- `fields.pop(key, None)`.
abbrev pub pop : Text → Fields → Fields
pop key end = end
pop key (field k value rest) =
    let later = pop key rest in if text_eq k key then rest else field k value later
