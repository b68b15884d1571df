-- ===== src/Examples/Strategies.antt =====
-- Strategies with a model that asks for a tool each time, the activities and the tool catalog.
use forgeiq.Catalog.{missing_required, check_properties, check_required, validate_args}
use forgeiq.Temporal.Activities.Guards.{call_tool_iff, IsUsableIn, server_calls}
use forgeiq.Temporal.Activities.{bad_call, ActivityError, Services, Activities}
use forgeiq.Contracts.{PolicyDecision, PlanStep}
use forgeiq.Catalog.Tools.{
  bad_args, with_owner, validate_tool_call, upsert, described, get_tool, Tools, ToolDescriptor,
}
use forgeiq.Strategy.React.Overrun.{run_overruns, KeepsCalling}
use forgeiq.Strategy.FunctionCalling.Limits.{run-IsWithin}
use forgeiq.Prelude.{
  length, ◌⊎◌, ◌∷◌, ◌↔◌, false, err, times_int64, true, refl, pos, ok, [], ◌≡◌, some, none,
}
use forgeiq.Orchestrator.Steps.{check_step, call_of, ToolCall}
use forgeiq.Strategy.{Backend, Input, ModelDecision}
use forgeiq.Strategy.FunctionCalling
use forgeiq.Strategy.React
use forgeiq.Strategy.Calls.{IsWithin}
use forgeiq.Contracts.Values.{str, arr, cons, nil}
use forgeiq.Temporal.Activities.{call_tool}

abbrev search_call : ToolCall
search_call = record { name = "logs.search"; version = "1"; args = none }

abbrev insisting : ModelDecision
insisting = record { final_answer = ""; tool_call = some search_call; summary = "" }

abbrev backend : Backend
backend = record {
  decide = λ i s. (insisting, none);
  call_tool = λ i c. ok none;
  elapsed = λ i. pos 7;
  latency = λ i. pos 1;
  now = λ i. i;
}

-- Five iterations, and two tool calls.
abbrev input : Input
input = record {
  state = record { thread_id = ""; messages = [] };
  tools = [];
  budget = record { max_iterations = pos 5; max_tool_calls = pos 2; max_wall_time = pos 100 };
  has_tooler = true;
  has_modeler = true;
}

-- The function calling strategy stops at two calls, in the third iteration.
two_calls : (FunctionCalling.run backend input).made ≡ search_call ∷ search_call ∷ []
unfolding FunctionCalling.run
two_calls = refl

run-IsWithin_example : IsWithin 2 5 (FunctionCalling.run backend input)
run-IsWithin_example = run-IsWithin backend input

keeps : KeepsCalling backend (pos 100)
keeps = record { no_error = λ i s. refl; named = λ i s. refl; in_time = λ i. refl }

-- The react strategy makes five.
run_overruns_example : length (React.run (λ s. s) backend input).made ≡ 5
run_overruns_example = run_overruns (λ s. s) backend input refl refl keeps

abbrev search_tool : ToolDescriptor
search_tool = described (record {
  name = " logs.search";
  version = "1";
  tags = "read" ∷ [];
  scopes = "logs:read" ∷ [];
  schema = some (("required", arr (cons (str "query") nil)) ∷ []);
  meta = some (("owner", "sre") ∷ []);
})

abbrev catalog : Tools
catalog = upsert [] search_tool

-- The white space of the name does not matter, and the owner comes from the metadata.
found : get_tool catalog "logs.search" " 1 " ≡ some (with_owner search_tool)
unfolding get_tool upsert
found = refl

abbrev activities : Activities
activities = record { router = none; catalog = some catalog; has_eval = true }

abbrev services : Services
services = record {
  run_task = λ kind agent task. ok [];
  policy_of = λ v. err "";
  plan_of = λ v. err "";
  call_tool = λ c. ok none;
}

abbrev policy : PolicyDecision
policy = record {
  allowed = true;
  allow_writes = false;
  scopes = "logs:read" ∷ [];
  tool_tag_allow = "read" ∷ [];
  budgets = record { max_tool_calls = pos 3; max_seconds = pos 60 };
  reasons = [];
}

abbrev search_step : PlanStep
search_step = record {
  step_id = "s1";
  goal = "";
  tool_name = "logs.search";
  tool_version = "1";
  tags = "read" ∷ [];
  scopes = "logs:read" ∷ [];
  args = some (("query", str "oom") ∷ []);
  stop_on_err = true;
}

-- The query is required.
refused :
    call_tool activities services (record search_step { args = none }) policy
    ≡ ([], err (bad_call (bad_args (missing_required "query"))))
unfolding call_tool get_tool upsert validate_tool_call validate_args check_required
refused = refl

abbrev SearchMade : Type 0
SearchMade =
    server_calls (call_tool activities services search_step policy).0 ≡ call_of search_step ∷ []

call_tool_iff_example :
    (SearchMade
      ↔ (IsUsableIn (some catalog) search_step × (check_step policy 1 (pos 5) search_step ≡ none)))
    × (SearchMade
        ⊎ ((server_calls (call_tool activities services search_step policy).0 ≡ [])
            × (e : ActivityError) × ((call_tool activities services search_step policy).1 ≡ err e)))
unfolding times_int64
call_tool_iff_example = call_tool_iff activities services policy search_step 1 (pos 5) refl refl

search_called : SearchMade
unfolding call_tool get_tool upsert validate_tool_call validate_args server_calls check_required
    check_properties
search_called = refl
