-- ===== src/Json/Value.antt =====
-- `json::Value` of include/branchscore/json.hpp, and the accessors of src/json.cpp.
-- An object is a `std::map`: a list of fields that `emplace` and `set` keep in the order of keys.
use branchscore.Base.{
  ℕ, suc, Bool, true, false, Option, none, some, Bytes, equal, less, if◌then◌else◌,
}
use branchscore.Double.{Double}
use branchscore.Result.{Result, ok, throw, runtime_error}

mutual
  pub data Value : Type 0 where
    null_value : Value
    boolean : Bool → Value
    number : Double → Value
    string : Bytes → Value
    array : Items → Value
    object : Fields → Value

  pub data Items : Type 0 where
    no_items : Items
    item : Value → Items → Items

  pub data Fields : Type 0 where
    no_fields : Fields
    field : Bytes → Value → Fields → Fields

pub data Kind : Type 0 where
  null_kind boolean_kind number_kind string_kind array_kind object_kind : Kind

unfoldable pub type : Value → Kind
type null_value = null_kind
type (boolean b) = boolean_kind
type (number d) = number_kind
type (string s) = string_kind
type (array xs) = array_kind
type (object fs) = object_kind

unfoldable pub as_boolean : Value → Result Bool
as_boolean (boolean b) = ok b
as_boolean _ = throw runtime_error

unfoldable pub as_number : Value → Result Double
as_number (number d) = ok d
as_number _ = throw runtime_error

unfoldable pub as_string : Value → Result Bytes
as_string (string s) = ok s
as_string _ = throw runtime_error

unfoldable pub as_array : Value → Result Items
as_array (array xs) = ok xs
as_array _ = throw runtime_error

unfoldable pub as_object : Value → Result Fields
as_object (object fs) = ok fs
as_object _ = throw runtime_error

-- `std::map::find`
unfoldable pub lookup : Bytes → Fields → Option Value
lookup k no_fields = none
lookup k (field j v fs) = if equal j k then some v else lookup k fs

-- `std::map::count`
unfoldable pub contains : Bytes → Fields → Bool
contains k no_fields = false
contains k (field j v fs) = if equal j k then true else contains k fs

-- `std::map::emplace`: a key that is there keeps its value.
unfoldable pub emplace : Bytes → Value → Fields → Fields
emplace k v no_fields = field k v no_fields
emplace k v (field j w fs) =
    if less k j
    then field k v (field j w fs)
    else if equal j k
    then field j w fs
    else field j w (emplace k v fs)

-- `object_[key] = value`
unfoldable pub assign : Bytes → Value → Fields → Fields
assign k v no_fields = field k v no_fields
assign k v (field j w fs) =
    if less k j
    then field k v (field j w fs)
    else if equal j k
    then field j v fs
    else field j w (assign k v fs)

-- `Value::find`
unfoldable pub find : Bytes → Value → Option Value
unfolding lookup
find k (object fs) = lookup k fs
find k _ = none

-- `Value::set`
unfoldable pub set : Bytes → Value → Value → Result Value
set k v (object fs) = ok (object (assign k v fs))
set k v _ = throw runtime_error

-- `std::map::size`
unfoldable pub size : Fields → ℕ
size no_fields = 0
size (field k v fs) = suc (size fs)
