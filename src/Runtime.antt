-- ===== src/Runtime.antt =====
-- What the program takes of Go's library on values of unknown type: `fmt.Sprint` and
-- `strconv.ParseFloat`. How numbers and containers print, how texts parse as floats and how integers
-- convert to floats are parameters.
use forgeiq.Prelude.{String, true, false, Option, none, some, ℤ}
use forgeiq.GoMap.{GoMap, get}
use forgeiq.Text.{trim_space}
use forgeiq.Float64.{Float64}
use forgeiq.Contracts.Values.{Any, null, bool, str, int, float, arr, obj, strings}

pub record Runtime : Type 0 where
  -- `fmt.Sprint` of a number, an array or a map
  pub print : Any → String
  -- `strconv.ParseFloat(s, 64)`; `none` is an error
  pub parse_float : String → Option Float64
  -- `float64(n)`
  pub of_int : ℤ → Float64

module _ (rt : Runtime) where
  -- `fmt.Sprint(v)`
  abbrev pub sprint : Any → String
  sprint null = "<nil>"
  sprint (bool true) = "true"
  sprint (bool false) = "false"
  sprint (str s) = s
  sprint (int n) = rt.print (int n)
  sprint (float f) = rt.print (float f)
  sprint (arr vs) = rt.print (arr vs)
  sprint (obj fs) = rt.print (obj fs)
  sprint (strings ss) = rt.print (strings ss)

  -- `stringFromAny`: nil, and so a missing key, is "".
  abbrev pub string_from_any : Option Any → String
  string_from_any none = ""
  string_from_any (some null) = ""
  string_from_any (some v) = trim_space (sprint v)

  -- `mapString(m, key)`; the same steps read the gate fields of a step.
  unfoldable pub map_string : Option (GoMap Any) → String → String
  map_string none key = ""
  map_string (some m) key = string_from_any (get m key)

  -- `parseFloatAny`
  unfoldable pub parse_float_any : Any → Option Float64
  parse_float_any (float f) = some f
  parse_float_any (int n) = some (rt.of_int n)
  parse_float_any (str s) = rt.parse_float (trim_space s)
  parse_float_any v = rt.parse_float (trim_space (sprint v))

-- `m[key]`, of a map that may be nil.
abbrev pub lookup : Option (GoMap Any) → String → Option Any
lookup none key = none
lookup (some m) key = get m key
