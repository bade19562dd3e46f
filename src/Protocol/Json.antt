-- ===== src/Protocol/Json.antt =====
-- `serde_json::Value` and the lookups that the agent makes in it. An object's keys are distinct, so the
-- first field with a key is the only one.
use ocserv_fleet_agent.Common.{
  ℕ, suc, Bool, Option, none, some, String, if◌then◌else◌, decided, text_discrete,
}

mutual
  -- An object's fields, in the order of the map.
  pub data Fields : Type 0 where
    end : Fields
    field : (key : String) (value : Value) (rest : Fields) → Fields

  pub data Elements : Type 0 where
    no_element : Elements
    element : (value : Value) (rest : Elements) → Elements

  pub data Value : Type 0 where
    null : Value
    bool : Bool → Value
    number : String → Value
    string : String → Value
    array : Elements → Value
    object : Fields → Value

unfoldable pub field_count : Fields → ℕ
field_count end = 0
field_count (field k v fs) = suc (field_count fs)

unfoldable pub get : String → Fields → Option Value
unfolding text_discrete
get k end = none
get k (field j v fs) = let rest = get k fs in if decided (text_discrete j k) then some v else rest

-- `Value::as_object` and `Value::as_str`
unfoldable pub as_object : Value → Option Fields
as_object (object fs) = some fs
as_object _ = none

unfoldable pub as_str : Value → Option String
as_str (string s) = some s
as_str _ = none
