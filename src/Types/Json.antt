-- ===== src/Types/Json.antt =====
-- `serde_json::Value`, the documented public enum. A number is the `u64` that `as_u64` reads, or
-- another number, of which the program only asks whether two are equal.
use rocq_mcp.Prelude.{ℕ, String, Bool, Option, none, some, List, [], ◌∷◌, str_eq, if◌then◌else◌}

mutual
  pub data Value : Type 0 where
    null : Value
    boolean : Bool → Value
    unsigned : ℕ → Value
    other_number : String → Value
    string : String → Value
    array : Values → Value
    object : Fields → Value

  pub data Values : Type 0 where
    nil : Values
    cons : Value → Values → Values

  pub data Fields : Type 0 where
    end : Fields
    field : String → Value → Fields → Fields

-- `Value::get` on an object; a later value of the same key is not seen.
abbrev pub get_field : String → Fields → Option Value
get_field key end = none
get_field key (field name value rest) =
    let later = get_field key rest in if str_eq name key then some value else later

abbrev pub get : String → Value → Option Value
get key (object fields) = get_field key fields
get key _ = none

abbrev pub as_str : Value → Option String
as_str (string s) = some s
as_str _ = none

abbrev pub as_u64 : Value → Option ℕ
as_u64 (unsigned n) = some n
as_u64 _ = none

abbrev pub elements : Values → List Value
elements nil = []
elements (cons v rest) = v ∷ elements rest

abbrev pub as_array : Value → Option (List Value)
as_array (array vs) = some (elements vs)
as_array _ = none

abbrev pub keys : Fields → List String
keys end = []
keys (field name value rest) = name ∷ keys rest

abbrev pub as_object : Value → Option (List String)
as_object (object fields) = some (keys fields)
as_object _ = none
