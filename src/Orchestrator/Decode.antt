-- ===== src/Orchestrator/Decode.antt =====
-- `decodePolicy` and `decodePlan` of internal/controlplane/orchestrator/orchestrator.go: the lenient
-- decoding of the agents' payloads. A field that is missing or has another type keeps its default.
use forgeiq.Prelude.{String, true, false, Option, none, some, List, [], ◌∷◌, ℤ, pos}
use forgeiq.GoMap.{GoMap, get}
use forgeiq.Float64.{Float64, to_int}
use forgeiq.Contracts.{Budget, PolicyDecision, PlanStep, Plan}
use forgeiq.Contracts.Values.{Any, str, as_bool, as_float, as_array, as_object, string_or_empty}

-- The texts among the elements of an array, in their order.
abbrev pub strings_of : List Any → List String
strings_of [] = []
strings_of (str s ∷ vs) = s ∷ strings_of vs
strings_of (_ ∷ vs) = strings_of vs

abbrev pub strings_or_nil : Option (List Any) → List String
strings_or_nil none = []
strings_or_nil (some vs) = strings_of vs

abbrev string_entries : GoMap Any → GoMap String
string_entries [] = []
string_entries ((k, str s) ∷ m) = (k, s) ∷ string_entries m
string_entries ((k, _) ∷ m) = string_entries m

abbrev or_default {ℓ} : {A : Type ℓ} → A → Option A → A
or_default d none = d
or_default d (some a) = a

-- `int(v)` of a number that may be missing.
abbrev int_or_zero : Option Float64 → ℤ
int_or_zero none = pos 0
int_or_zero (some f) = to_int f

abbrev decode_budgets : Option (GoMap Any) → Budget
decode_budgets none = record { max_tool_calls = pos 0; max_seconds = pos 0 }
decode_budgets (some b) = record {
  max_tool_calls = int_or_zero (as_float (get b "max_tool_calls"));
  max_seconds = int_or_zero (as_float (get b "max_seconds"));
}

abbrev decode_reasons : Option (GoMap Any) → GoMap String
decode_reasons none = []
decode_reasons (some m) = string_entries m

unfoldable pub decode_policy : GoMap Any → PolicyDecision
unfolding get to_int
decode_policy m = record {
  allowed = or_default true (as_bool (get m "allowed"));
  allow_writes = or_default false (as_bool (get m "allow_writes"));
  tool_tag_allow = strings_or_nil (as_array (get m "tool_tag_allow"));
  scopes = strings_or_nil (as_array (get m "scopes"));
  budgets = decode_budgets (as_object (get m "budgets"));
  reasons = decode_reasons (as_object (get m "reasons"));
}

-- `sm, _ := s.(map[string]any)`: reading a nil map gives the zero values.
abbrev map_or_empty : Option (GoMap Any) → GoMap Any
map_or_empty none = []
map_or_empty (some m) = m

unfoldable pub decode_step : GoMap Any → PlanStep
unfolding get
decode_step sm = record {
  step_id = string_or_empty (get sm "step_id");
  goal = string_or_empty (get sm "goal");
  tool_name = string_or_empty (get sm "tool_name");
  tool_version = string_or_empty (get sm "tool_version");
  stop_on_err = or_default false (as_bool (get sm "stop_on_err"));
  tags = strings_or_nil (as_array (get sm "tags"));
  scopes = strings_or_nil (as_array (get sm "scopes"));
  args = as_object (get sm "args");
}

abbrev decode_steps : List Any → List PlanStep
decode_steps [] = []
decode_steps (s ∷ ss) = decode_step (map_or_empty (as_object (some s))) ∷ decode_steps ss

unfoldable pub decode_plan : GoMap Any → Plan
unfolding get decode_step
decode_plan m = record {
  steps = elim (as_array (get m "steps")) [ none ↦ [] | some ss ↦ decode_steps ss ];
  confidence = or_default (record { bits = 0 }) (as_float (get m "confidence"));
  fallbacks = [];
}
