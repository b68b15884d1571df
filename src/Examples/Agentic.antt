-- ===== src/Examples/Agentic.antt =====
-- The agentic loop with a tool that always fails.
use forgeiq.Prelude.{
  String, ◌≡◌, refl, true, false, none, List, [], ◌∷◌, Result, ok, err, pos, length, arith,
}
use forgeiq.Float64.{one}
use forgeiq.Contracts.{Task, PolicyDecision, Plan, PlanStep}
use forgeiq.Temporal.Agentic.{FeedbackEntry, LoopEvent, LoopState, LoopWorld, LoopPayload}
use forgeiq.Temporal.Agentic.Loop.{returned}
use forgeiq.Temporal.Agentic.Workflow.{agentic_loop, loop_config, incident_workflow_agentic}
use forgeiq.Temporal.Agentic.Ends.{
  agentic_loop_returns, IsMisreported, incident_workflow_agentic-IsMisreported,
}

abbrev failing_step : PlanStep
failing_step = record {
  step_id = "s1";
  goal = "";
  tool_name = "logs.search";
  tool_version = "1";
  tags = "read" ∷ [];
  scopes = [];
  args = none;
  stop_on_err = true;
}

abbrev failing_plan : Plan
failing_plan = record { steps = failing_step ∷ []; confidence = one; fallbacks = [] }

-- Later plans have no steps, so that none is adopted.
abbrev plan_for : List LoopEvent → Result String Plan
plan_for [] = ok failing_plan
plan_for (e ∷ rest) = ok (record failing_plan { steps = [] })

abbrev world : LoopWorld
world = record {
  get_plan = λ events evidence. plan_for events;
  call_tool = λ events s. err "down";
  stops = λ i. [];
  refines = λ i. [];
  clock = length;
  rfc3339 = λ n. "";
  decimal = λ n. "n";
}

abbrev go_on : FeedbackEntry
go_on = record { iteration = 1; step_id = ""; feedback = ""; action = "continue"; timestamp = 0 }

abbrev five_times : List FeedbackEntry
five_times = go_on ∷ go_on ∷ go_on ∷ go_on ∷ go_on ∷ []

abbrev open_policy : PolicyDecision
open_policy = record {
  allowed = true;
  allow_writes = false;
  scopes = [];
  tool_tag_allow = [];
  budgets = record { max_tool_calls = pos 0; max_seconds = pos 0 };
  reasons = [];
}

agentic_loop_returns_example :
    (st : LoopState) × (q : LoopPayload) × (agentic_loop world five_times loop_config open_policy
        none
      ≡ returned st q)
agentic_loop_returns_example =
    agentic_loop_returns world five_times loop_config open_policy none failing_plan refl
      (omega arith)

abbrev task : Task
task = record {
  id = "t1";
  tenant_id = "";
  type = "incident_triage";
  input = none;
  metadata = [];
  created_at = 0;
}

incident_workflow_agentic-IsMisreported_example :
    IsMisreported (incident_workflow_agentic world (λ n. "") task (ok open_policy) five_times)
incident_workflow_agentic-IsMisreported_example =
    incident_workflow_agentic-IsMisreported world (λ n. "") task (ok open_policy) five_times

-- The five iterations fail, and the workflow is "completed".
all_fail :
    (incident_workflow_agentic world (λ n. "") task (ok open_policy) five_times).0.state
    ≡ "completed"
unfolding incident_workflow_agentic
all_fail = refl
