-- ===== src/Contracts/Values.antt =====
-- `any` as JSON and YAML decoders fill it, with the type assertions that the program makes on it.
use forgeiq.Prelude.{String, Bool, Option, none, some, List, [], ◌∷◌, ℤ}
use forgeiq.GoMap.{GoMap}
use forgeiq.Float64.{Float64}

mutual
  pub data Any : Type 0 where
    null : Any
    bool : Bool → Any
    int : ℤ → Any
    float : Float64 → Any
    str : String → Any
    arr : Items → Any
    obj : Fields → Any
    -- `[]string`, which Go code builds and no decoder fills in
    strings : List String → Any

  -- `[]any`
  pub data Items : Type 0 where
    nil : Items
    cons : Any → Items → Items

  -- `map[string]any`
  pub data Fields : Type 0 where
    end : Fields
    field : String → Any → Fields → Fields

abbrev pub elements : Items → List Any
elements nil = []
elements (cons v vs) = v ∷ elements vs

abbrev pub entries : Fields → GoMap Any
entries end = []
entries (field k v fs) = (k, v) ∷ entries fs

-- `v.(T)` on a value that may be missing: a missing key reads as the nil interface.
abbrev pub as_bool : Option Any → Option Bool
as_bool (some (bool b)) = some b
as_bool _ = none

abbrev pub as_string : Option Any → Option String
as_string (some (str s)) = some s
as_string _ = none

abbrev pub as_float : Option Any → Option Float64
as_float (some (float f)) = some f
as_float _ = none

abbrev pub as_array : Option Any → Option (List Any)
as_array (some (arr vs)) = some (elements vs)
as_array _ = none

abbrev pub as_object : Option Any → Option (GoMap Any)
as_object (some (obj fs)) = some (entries fs)
as_object _ = none

-- `s, _ := v.(string)`
abbrev pub string_or_empty : Option Any → String
string_or_empty (some (str s)) = s
string_or_empty _ = ""
