-- ===== src/Orchestrator/Examples.antt =====
-- Runs of the orchestrator on small inputs, and the theorems about it at such inputs.
use forgeiq.Prelude.{
  String, ◌≡◌, refl, false, ◌⊎◌, none, List, [], ◌∷◌, ok, pos, times_int64, contains,
}
use forgeiq.GoMap.{GoMap, get, put}
use forgeiq.Contracts.{Task}
use forgeiq.Float64.{ten}
use forgeiq.Contracts.Values.{Any, bool, str, float, arr, obj, nil, cons, end, field, Items, Fields}
use forgeiq.Orchestrator.{run, ended, denied}
use forgeiq.Orchestrator.Decode.{decode_policy, decode_plan}
use forgeiq.Orchestrator.Steps.{
  tags_allowed, find_missing_scope, World, needs_approval, check_step, record_result, run_steps,
}
use forgeiq.Orchestrator.Runs.{run_without_budgets, IsIdle, IsAuthorised, run-IsAuthorised}

abbrev texts : List String → Items
texts [] = nil
texts (s ∷ ss) = cons (str s) (texts ss)

abbrev read_logs : Any
read_logs = obj (
    field "step_id" (str "s1") (
      field "tool_name" (str "logs.search") (
        field "tags" (arr (texts ("read" ∷ "logs" ∷ [])))
          (field "scopes" (arr (texts ("logs:read" ∷ []))) end))))

abbrev restart : Any
restart = obj (
    field "step_id" (str "s2")
      (field "tool_name" (str "restart") (field "tags" (arr (texts ("write" ∷ []))) end)))

abbrev plan : GoMap Any
plan = ("plan", obj (field "steps" (arr (cons read_logs (cons restart nil))) end)) ∷ []

abbrev read_policy : Fields
read_policy = field "tool_tag_allow" (arr (texts ("read" ∷ []))) (
    field "scopes" (arr (texts ("logs:read" ∷ []))) (
      field "budgets"
        (obj (field "max_tool_calls" (float ten) (field "max_seconds" (float ten) end))) end))

abbrev world : Fields → World
world policy = record {
  rule_agent = λ t. ok (("policy", obj policy) ∷ []);
  decision_agent = λ t. ok plan;
  call_tool = λ made c. ok none;
  elapsed = λ made. pos 5;
}

abbrev task : Task
task = record {
  id = "t1";
  tenant_id = "";
  type = "incident_triage";
  input = none;
  metadata = [];
  created_at = 0;
}

-- The read step is called and the write step is held back for an approval.
blocked_write : run (world read_policy) task ≡ record {
  asked = "rule" ∷ "decision" ∷ [];
  calls = record { name = "logs.search"; version = ""; args = none } ∷ [];
  outcome = ended (needs_approval "s2" "restart");
}
unfolding run get put decode_policy decode_plan run_steps check_step record_result times_int64
    contains tags_allowed find_missing_scope
blocked_write = refl

abbrev no_policy : Fields
no_policy = field "allowed" (bool false) end

run-IsAuthorised_example :
    IsIdle (run (world read_policy) task)
    ⊎ IsAuthorised (world read_policy) task (run (world read_policy) task)
run-IsAuthorised_example = run-IsAuthorised (world read_policy) task

-- A denial stops the run before the decision agent is asked.
denied_early :
    run (world no_policy) task ≡ record { asked = "rule" ∷ []; calls = []; outcome = denied [] }
unfolding run get decode_policy
denied_early = refl

run_without_budgets_example : (run (world end) task).calls ≡ []
unfolding get
run_without_budgets_example =
    run_without_budgets (world end) task [] (("policy", obj end) ∷ [], refl, refl) refl
