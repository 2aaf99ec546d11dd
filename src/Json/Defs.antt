-- ===== src/Json/Defs.antt =====
-- JSON values as serde_json has them (`serde_json::Value`, `Number`, `Map`), and the visitor of
-- src/rpc/frame.rs that refuses repeated object fields. An object is the list of its fields in the
-- order of the text; the order in which serde_json's map keeps them is never observed.
use styrn.Common.{ℕ, Bool, true, false, Option, none, some, String, str_eq, if◌then◌else◌}

pub data Number : Type 0 where
  pos_int : ℕ → Number
  neg_int : ℕ → Number
  float : ℕ → Number

mutual
  pub data Value : Type 0 where
    null : Value
    bool : Bool → Value
    number : Number → Value
    text : String → Value
    array : Items → Value
    object : Fields → Value

  pub data Items : Type 0 where
    nil : Items
    cons : Value → Items → Items

  pub data Fields : Type 0 where
    end : Fields
    field : String → Value → Fields → Fields

-- `Map::get`.
unfoldable pub get : String → Fields → Option Value
get k end = none
get k (field j v fs) = if str_eq j k then some v else get k fs

-- `Map::contains_key`.
unfoldable pub contains_key : String → Fields → Bool
contains_key k end = false
contains_key k (field j v fs) = if str_eq j k then true else contains_key k fs

-- `Value::as_object`, `Value::as_str`, `Value::is_object`.
abbrev pub as_object : Value → Option Fields
as_object (object fs) = some fs
as_object _ = none

abbrev pub as_str : Value → Option String
as_str (text s) = some s
as_str _ = none

abbrev pub is_object : Value → Bool
is_object (object fs) = true
is_object _ = false

-- The fields of one object behind those of another.
abbrev pub append_fields : Fields → Fields → Fields
append_fields end gs = gs
append_fields (field k v fs) gs = field k v (append_fields fs gs)
