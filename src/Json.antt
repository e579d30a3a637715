-- ===== src/Json.antt =====
-- Reading values of a JSON document: src/common/json_common.cpp. The parser is Boost.JSON; its values
-- are the six kinds that its documentation lists, a number being an int64 or of another kind. An
-- object has each key once. `as_object` and the like throw on a value of another kind, and `at` on a
-- missing key, all as `system_error`.
use cppbox.Prelude.{
  ℕ, suc, ◌-◌, ◌%◌, Bool, Option, none, some, List, [], ◌∷◌, codes, ltb, String, if◌then◌else◌,
  Result, ok, err, runtime_error, runtime_error_about, system_error, ◌>>=◌,
}
use cppbox.Prelude.Map.{Map, find, text_key}

-- `negative n` is the int64 -(n + 1).
mutual
  pub data Json : Type 0 where
    null : Json
    bool : Bool → Json
    int64 : ℕ → Json
    negative : ℕ → Json
    number : Json
    string : List ℕ → Json
    array : Items → Json
    object : Fields → Json

  pub data Items : Type 0 where
    no_items : Items
    item : Json → Items → Items

  pub data Fields : Type 0 where
    no_fields : Fields
    field : List ℕ → Json → Fields → Fields

-- `json::object`.
abbrev pub Object : Type 0
Object = Map (List ℕ) Json

abbrev pub items_of : Items → List Json
items_of no_items = []
items_of (item j rest) = j ∷ items_of rest

abbrev pub fields_of : Fields → Object
fields_of no_fields = []
fields_of (field key j rest) = (key, j) ∷ fields_of rest

abbrev pub as_object : Json → Result Object
as_object (object fields) = ok (fields_of fields)
as_object j = err system_error

abbrev pub as_array : Json → Result (List Json)
as_array (array items) = ok (items_of items)
as_array j = err system_error

abbrev pub as_string : Json → Result (List ℕ)
as_string (string s) = ok s
as_string j = err system_error

-- `it && it->is_object()`, with the object, and the same for arrays.
abbrev pub object_in : Option Json → Option Object
object_in (some (object fields)) = some (fields_of fields)
object_in j = none

abbrev pub array_in : Option Json → Option (List Json)
array_in (some (array items)) = some (items_of items)
array_in j = none

-- `o.if_contains(key)`.
abbrev pub if_contains : Object → String → Option Json
if_contains o key = find (codes key) o

abbrev pub at_key : Object → String → Result Json
at_key o key = elim (if_contains o key) [ none ↦ err system_error | some j ↦ ok j ]

-- The key stands in front of the message.
abbrev pub string_or_throw : String → Option Json → Result (List ℕ)
string_or_throw key (some (string s)) = ok s
string_or_throw key j = err (runtime_error_about " must be string" (codes key))

-- `get_string(o, key)`: every caller leaves `force` at its default, which is true.
unfoldable pub get_string : Object → String → Result (List ℕ)
get_string o key = string_or_throw key (if_contains o key)

abbrev pub bool_or_throw : String → Option Json → Result Bool
bool_or_throw key (some (bool b)) = ok b
bool_or_throw key j = err (runtime_error_about " must be bool" (codes key))

unfoldable pub get_bool : Object → String → Result Bool
get_bool o key = bool_or_throw key (if_contains o key)

-- The conversion of an int64 to uint16_t, behind the test `v > UINT16_MAX`.
abbrev pub u16_of : Json → Result ℕ
u16_of (int64 v) = if ltb 65535 v then err (runtime_error "need u16") else ok (v % 65536)
u16_of (negative n) = ok ((65536 - suc n % 65536) % 65536)
u16_of j = err system_error

unfoldable pub get_u16 : Object → String → Result ℕ
get_u16 o key = at_key o key >>= u16_of

unfoldable pub strings_of : List Json → Result (List (List ℕ))
strings_of [] = ok []
strings_of (j ∷ rest) = as_string j >>= λ s. strings_of rest >>= λ later. ok (s ∷ later)

abbrev pub string_array_of : Option Json → Result (List (List ℕ))
string_array_of (some (string s)) = ok (s ∷ [])
string_array_of (some (array items)) = strings_of (items_of items)
string_array_of j = ok []

-- `get_string_array(o, key)`: `force` is false.
unfoldable pub get_string_array : Object → String → Result (List (List ℕ))
get_string_array o key = string_array_of (if_contains o key)

-- `for (item : items) list.push_back(load(item));`
unfoldable pub each {ℓ} : {A : Type ℓ} → (Json → Result A) → List Json → Result (List A)
each load [] = ok []
each load (j ∷ rest) = load j >>= λ a. each load rest >>= λ later. ok (a ∷ later)

-- The loop over an array that may be missing; another kind of value counts as missing.
abbrev pub each_in {ℓ} : {A : Type ℓ} → (Json → Result A) → Option Json → Result (List A)
each_in load j = elim (array_in j) [ none ↦ ok [] | some items ↦ each load items ]

-- `root[key]` puts a null value in for a key that is missing.
abbrev pub or_null : Option Json → Json
or_null none = null
or_null (some j) = j
