-- ===== src/Validation.antt =====
-- `ValidateTask` and `ValidatePlanStep` of internal/validation/validator.go.
pub mod Accepted
use forgeiq.Prelude.{
  ◌>>=◌, ◌>>◌, String, Bool, true, false, not, Option, none, some, List, [], ◌∷◌, Result, ok, err,
  guard, contains, ◌==◌, if◌then◌else◌, is_some,
}
use forgeiq.GoMap.{GoMap, has_key}
use forgeiq.Contracts.{Task, PlanStep}
use forgeiq.Contracts.Values.{Any}

pub data ValidationError : Type 0 where
  task_id_required task_type_required task_input_required : ValidationError
  invalid_task_type : String → ValidationError
  input_field_required : String → ValidationError
  step_id_required tool_name_required tool_version_required : ValidationError
  tag_required scope_required : ValidationError
  invalid_tag : String → ValidationError

abbrev pub valid_types : List String
valid_types = "incident_triage" ∷ "remediation" ∷ "monitoring" ∷ []

abbrev pub has_input : Option (GoMap Any) → String → Bool
has_input none k = false
has_input (some m) k = has_key m k

abbrev pub check_triage_input : Option (GoMap Any) → Result ValidationError (Unit {0})
check_triage_input input = do
  guard (has_input input "service") (input_field_required "service")
  guard (has_input input "symptom") (input_field_required "symptom")

unfoldable pub validate_task : Task → Result ValidationError (Unit {0})
unfolding contains
validate_task t = do
  guard (not (t.id == "")) task_id_required
  guard (not (t.type == "")) task_type_required
  guard (is_some t.input) task_input_required
  guard (contains valid_types t.type) (invalid_task_type t.type)
  if t.type == "incident_triage" then check_triage_input t.input else ok tt

abbrev pub valid_tags : List String
valid_tags = "read" ∷ "write" ∷ "logs" ∷ "incidents" ∷ "remediation" ∷ []

unfoldable pub check_tags : List String → Result ValidationError (Unit {0})
unfolding contains
check_tags [] = ok tt
check_tags (tag ∷ tags) =
    let rest = check_tags tags in
    if not (contains valid_tags tag) then err (invalid_tag tag) else rest

abbrev pub is_empty {ℓ} : {A : Type ℓ} → List A → Bool
is_empty [] = true
is_empty (x ∷ xs) = false

unfoldable pub validate_plan_step : PlanStep → Result ValidationError (Unit {0})
validate_plan_step s = do
  guard (not (s.step_id == "")) step_id_required
  guard (not (s.tool_name == "")) tool_name_required
  guard (not (s.tool_version == "")) tool_version_required
  guard (not (is_empty s.tags)) tag_required
  guard (not (is_empty s.scopes)) scope_required
  check_tags s.tags
