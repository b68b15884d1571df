-- ===== src/Examples/Checks.antt =====
-- The checks of tool arguments, tasks and plan steps.
use forgeiq.Prelude.{false, ◌≡◌, ◌↔◌, ◌⊎◌, true, Option, none, some, [], ◌∷◌, ok}
use forgeiq.GoMap.{GoMap}
use forgeiq.Contracts.{Task, PlanStep}
use forgeiq.Contracts.Values.{Any, str, arr, obj, nil, cons, end, field}
use forgeiq.Catalog.{is_other_type, validate_args}
use forgeiq.Catalog.Accepts.{IsAccepted, validate_args_iff}
use forgeiq.Validation.{validate_task, validate_plan_step}
use forgeiq.Validation.Accepted.{
  IsValidTask, IsValidStep, validate_task_iff, validate_plan_step_iff,
}

abbrev schema : GoMap Any
schema =
    ("type", str "object")
    ∷ ("required", arr (cons (str "query") nil))
    ∷ ("properties", obj (field "query" (obj (field "type" (str "string") end)) end))
    ∷ []

abbrev args : Option (GoMap Any)
args = some (("query", str "error rate") ∷ [])

validate_args_iff_example :
    (validate_args none args ≡ ok tt)
    × ((validate_args (some schema) args ≡ ok tt)
        ↔ ((is_other_type schema ≡ true) ⊎ IsAccepted schema args))
validate_args_iff_example = validate_args_iff schema args

abbrev task : Task
task = record {
  id = "t1";
  tenant_id = "";
  type = "incident_triage";
  input = some (("service", str "api") ∷ ("symptom", str "slow") ∷ []);
  metadata = [];
  created_at = 0;
}

validate_task_iff_example : (validate_task task ≡ ok tt) ↔ IsValidTask task
validate_task_iff_example = validate_task_iff task

abbrev step : PlanStep
step = record {
  step_id = "s1";
  goal = "";
  tool_name = "logs.search";
  tool_version = "v1";
  tags = "read" ∷ [];
  scopes = "logs:read" ∷ [];
  args = none;
  stop_on_err = false;
}

validate_plan_step_iff_example : (validate_plan_step step ≡ ok tt) ↔ IsValidStep step
validate_plan_step_iff_example = validate_plan_step_iff step
