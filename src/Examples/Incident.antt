-- ===== src/Examples/Incident.antt =====
-- Runs of the incident workflow.
use forgeiq.Prelude.{String, refl, true, false, none, [], ◌∷◌, ok, pos, All}
use forgeiq.Float64.{one}
use forgeiq.Contracts.{Task, PolicyDecision, Plan, PlanStep}
use forgeiq.Temporal.Incident.{Activities, incident_workflow}
use forgeiq.Temporal.Incident.Flows.{After, events_of}
use forgeiq.Temporal.Incident.Status.{Agrees, incident_workflow-Agrees}
use forgeiq.Temporal.Incident.Writes.{IsAllowed, incident_writes}
use forgeiq.Temporal.Iterative
use forgeiq.Temporal.Iterative.{iterative_workflow}
use forgeiq.Temporal.Iterative.Rounds
use forgeiq.Temporal.Iterative.Writes
use forgeiq.Temporal.Iterative.Writes.{MayWrite, iterative_writes}
use forgeiq.Temporal.Iterative.Rounds.{IsCounted, iterative_workflow-IsCounted}
use forgeiq.Temporal.Incident.Trace.{IsTraced, incident_workflow-IsTraced}

abbrev read_only : PolicyDecision
read_only = record {
  allowed = true;
  allow_writes = false;
  scopes = [];
  tool_tag_allow = "read" ∷ [];
  budgets = record { max_tool_calls = pos 2; max_seconds = pos 10 };
  reasons = [];
}

abbrev step : String → String → PlanStep
step id tag = record {
  step_id = id;
  goal = "";
  tool_name = "tool";
  tool_version = "v1";
  tags = tag ∷ [];
  scopes = [];
  args = none;
  stop_on_err = true;
}

abbrev read_then_write : Plan
read_then_write = record {
  steps = step "s1" "read" ∷ step "s2" "write" ∷ [];
  confidence = one;
  fallbacks = [];
}

abbrev world : Activities
world = record {
  eval_policy = λ t. ok read_only;
  get_plan = λ t d ev. ok read_then_write;
  call_tool = λ made s d. ok [];
  clock = λ made. 0;
  rfc3339 = λ t. "now";
}

abbrev task : Task
task = record {
  id = "t1";
  tenant_id = "";
  type = "incident_triage";
  input = none;
  metadata = [];
  created_at = 0;
}

incident_writes_example :
    All (IsAllowed read_only (true ∷ [])) (events_of (incident_workflow world task (true ∷ [])))
incident_writes_example = incident_writes world task read_only (true ∷ []) refl

incident_workflow-IsTraced_example :
    After
      (λ st. ⊥)
      (IsTraced read_only.budgets read_then_write.steps)
      (incident_workflow world task (true ∷ []))
incident_workflow-IsTraced_example =
    incident_workflow-IsTraced world task (true ∷ []) read_only read_then_write refl refl

incident_workflow-Agrees_example : After (λ st. ⊥) Agrees (incident_workflow world task [])
incident_workflow-Agrees_example = incident_workflow-Agrees world task []

abbrev rounds : Iterative.Activities
rounds = record {
  eval_policy = λ t. ok read_only;
  get_plan = λ made t d ev. ok read_then_write;
  call_tool = λ made s d. ok [];
  clock = λ made. 0;
  rfc3339 = λ t. "now";
  decimal = λ n. "n";
}

iterative_workflow-IsCounted_example :
    Rounds.After (λ st. ⊥) IsCounted (iterative_workflow rounds task (true ∷ []))
iterative_workflow-IsCounted_example = iterative_workflow-IsCounted rounds task (true ∷ [])

iterative_writes_example :
    All
      (MayWrite read_only (true ∷ []))
      (Writes.events_of (iterative_workflow rounds task (true ∷ [])))
iterative_writes_example = iterative_writes rounds task read_only (true ∷ []) refl
