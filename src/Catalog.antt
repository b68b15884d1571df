-- ===== src/Catalog.antt =====
-- The check of a tool's arguments against its schema, internal/catalog/validate.go.
pub mod Accepts
pub mod Tools
pub mod Known
use forgeiq.Prelude.{
  ◌>>=◌, ◌>>◌, map, guard, String, Bool, true, false, not, ◌&&◌, Option, none, some, List, [], ◌∷◌,
  Result, ok, err, ◌==◌, if◌then◌else◌,
}
use forgeiq.GoMap.{has_key, GoMap, get}
use forgeiq.Contracts.Values.{
  Any, null, bool, int, float, str, arr, obj, strings, elements, entries, string_or_empty,
}

pub data ArgsError : Type 0 where
  missing_required : String → ArgsError
  -- the argument, and the type that its property asks for
  expected : String → String → ArgsError

abbrev pub is_string : Any → Bool
is_string (str s) = true
is_string _ = false

abbrev pub is_number : Any → Bool
is_number (int n) = true
is_number (float f) = true
is_number _ = false

abbrev pub is_object : Any → Bool
is_object (obj fs) = true
is_object _ = false

abbrev pub is_array : Any → Bool
is_array (arr vs) = true
is_array _ = false

abbrev pub is_boolean : Any → Bool
is_boolean (bool b) = true
is_boolean _ = false

-- The error names the expected type.
unfoldable pub type_check : String → Any → Result String (Unit {0})
type_check pt v =
    if pt == "string"
    then guard (is_string v) "string"
    else if pt == "number"
    then guard (is_number v) "number"
    else if pt == "object"
    then guard (is_object v) "object"
    else if pt == "array"
    then guard (is_array v) "array"
    else if pt == "boolean"
    then guard (is_boolean v) "boolean"
    else ok tt

-- One required name; `args` is `none` where it is nil.
abbrev pub is_missing : Option (GoMap Any) → String → Bool
is_missing none k = true
is_missing (some m) k = not (has_key m k)

unfoldable pub check_required : Option (GoMap Any) → List String → Result ArgsError (Unit {0})
check_required args [] = ok tt
check_required args (k ∷ ks) =
    let rest = check_required args ks in
    if k == "" then rest else if is_missing args k then err (missing_required k) else rest

-- The names of `schema["required"]`; an element that is no text reads as "".
abbrev name_of : Any → String
name_of v = string_or_empty (some v)

abbrev pub required_names : Option Any → List String
required_names (some (arr vs)) = map name_of (elements vs)
required_names (some (strings ks)) = ks
required_names _ = []

abbrev pub wrap_type_error : String → Result String (Unit {0}) → Result ArgsError (Unit {0})
wrap_type_error k (ok u) = ok u
wrap_type_error k (err t) = err (expected k t)

-- The value of an argument that is to be checked: a missing or nil one is not.
abbrev unless_nil : Option Any → Option Any
unless_nil (some null) = none
unless_nil v = v

abbrev pub given : Option (GoMap Any) → String → Option Any
given none k = none
given (some m) k = unless_nil (get m k)

abbrev pub check_value : String → String → Option Any → Result ArgsError (Unit {0})
check_value k pt none = ok tt
check_value k pt (some v) = wrap_type_error k (type_check pt v)

-- The type that a property asks for; "" where it is no map or names none.
abbrev pub type_of : Any → String
type_of (obj fs) = string_or_empty (get (entries fs) "type")
type_of _ = ""

abbrev pub property_check : Option (GoMap Any) → String → Any → Result ArgsError (Unit {0})
property_check args k pv =
    if type_of pv == "" then ok tt else check_value k (type_of pv) (given args k)

-- The properties in the order of the visit.
unfoldable pub check_properties : Option (GoMap Any) → GoMap Any → Result ArgsError (Unit {0})
unfolding get
check_properties args [] = ok tt
check_properties args ((k, pv) ∷ rest) = do
  if type_of pv == "" then ok tt else check_value k (type_of pv) (given args k)
  check_properties args rest

abbrev pub properties_of : Option Any → GoMap Any
properties_of (some (obj fs)) = entries fs
properties_of _ = []

-- The schema of another type than "object" is not checked.
abbrev pub is_other_type : GoMap Any → Bool
is_other_type schema =
    let t = string_or_empty (get schema "type") in not (t == "") && not (t == "object")

abbrev pub check_args : GoMap Any → Option (GoMap Any) → Result ArgsError (Unit {0})
check_args schema args = do
  check_required args (required_names (get schema "required"))
  check_properties args (properties_of (get schema "properties"))

unfoldable pub validate_args : Option (GoMap Any) → Option (GoMap Any) → Result ArgsError (Unit {0})
unfolding get
validate_args none args = ok tt
validate_args (some schema) args = if is_other_type schema then ok tt else check_args schema args
