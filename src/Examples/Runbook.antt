-- ===== src/Examples/Runbook.antt =====
-- A runbook with one gated diagnostic and two actions: its validation, its gate and its workflow.
use forgeiq.Prelude.{
  Ensures-ok, ◌≡◌, refl, ◌↔◌, ◌⊎◌, true, false, none, some, List, [], ◌∷◌, ok, All, contains,
}
use forgeiq.GoMap.{get, put}
use forgeiq.Text.{trim_space}
use forgeiq.Temporal.Runbook.Steps.{run_diagnostics, run_diagnostic}
use forgeiq.Temporal.Memory.Buckets.{
  IntentState, apply_plan, apply_progress, apply_evidence, apply_pointers, apply_policy,
}
use forgeiq.Float64.{lt, Float64, one, ten, nine_tenths}
use forgeiq.Contracts.{
  RuleAgentOutput, Task, RunbookStep, Runbook, observability_kind, exec_kind, ObservabilityOutput,
}
use forgeiq.Contracts.Values.{str, float, null}
use forgeiq.Runtime.{Runtime, map_string, parse_float_any}
use forgeiq.Runbooks.Gate.{eval_diagnostic_gate, gate_signal, gate_op, threshold, compare_float}
use forgeiq.Runbooks.Gates.{Satisfies, HasNoGate, eval_diagnostic_gate_iff}
use forgeiq.Runbooks.Validate.{validate_runbook, add_steps, add_step, check_agent, check_gate}
use forgeiq.Runbooks.Validate.Accepted.{IsValidRunbook, validate_runbook-IsValidRunbook}
use forgeiq.Temporal.Memory.{apply, check_delta, mutate, commit, new_runbook_memory}
use forgeiq.Temporal.Memory.Patches.{ApprovalSignal, same_bucket}
use forgeiq.Temporal.Runbook.Packets.{Event, RunbookPacket, Agents}
use forgeiq.Temporal.Runbook.{RunbookResult, run_workflow, intent_of}
use forgeiq.Temporal.Runbook.Approval.{IsAuthorised, run_workflow-IsAuthorised}
use forgeiq.Temporal.Runbook.Unattended.{NeedsNone, IsFinished, run_workflow-IsFinished}
use forgeiq.Temporal.Runbook.FailSafe.{IsReadOnly, run_workflow_failed}

abbrev runtime : Runtime
runtime = record { print = λ v. "<value>"; parse_float = λ s. some one; of_int = λ z. one }

abbrev latency : RunbookStep
latency = record {
  id = "d1";
  name = "latency";
  description = "";
  agent = observability_kind;
  task_type = "query";
  input = some (
      ("query_type", str "metric")
      ∷ ("query", str "p99")
      ∷ ("gate_signal", str "latency")
      ∷ ("gate_op", str "<")
      ∷ ("gate_threshold", float one)
      ∷ []);
  requires_approval = false;
}

abbrev restart : RunbookStep
restart = record {
  id = "a1";
  name = "restart";
  description = "";
  agent = exec_kind;
  task_type = "action";
  input = some (("action_type", str "restart") ∷ []);
  requires_approval = true;
}

abbrev runbook : Runbook
runbook = record {
  id = "rb";
  version = "v1";
  name = "latency";
  diagnostics = latency ∷ [];
  actions = restart ∷ [];
  default_owner = "";
}

abbrev observation : Float64 → ObservabilityOutput
observation v = record {
  summary = "";
  signals = some (("latency", v) ∷ []);
  engine = "";
  degraded = false;
  error = "";
  raw = null;
}

accepted : validate_runbook runtime runbook ≡ ok ("a1" ∷ "d1" ∷ [])
unfolding validate_runbook add_steps add_step check_agent check_gate map_string parse_float_any
    contains get trim_space
accepted = refl

validate_runbook-IsValidRunbook_example : IsValidRunbook runtime runbook
validate_runbook-IsValidRunbook_example =
    validate_runbook-IsValidRunbook runtime runbook ("a1" ∷ "d1" ∷ []) accepted

eval_diagnostic_gate_iff_example :
    (eval_diagnostic_gate runtime latency (observation nine_tenths) ≡ none) ↔ (
      HasNoGate runtime latency
      ⊎ Satisfies runtime
          (gate_signal runtime latency)
          (gate_op runtime latency)
          (threshold latency)
          (observation nine_tenths))
eval_diagnostic_gate_iff_example =
    eval_diagnostic_gate_iff runtime latency (observation nine_tenths)

abbrev agents : Float64 → Agents
agents v = record {
  workflow_id = "wf";
  now = λ log. 0;
  rule = λ made i.
      ok (record { runbook_id = "rb"; severity = "high"; requires_human_approval = false });
  runbook = λ made p. ok runbook;
  observe = λ made p. ok (observation v);
  exec = λ made p. ok (record { success = true; details = "" });
}

abbrev task : Task
task = record {
  id = "t1";
  tenant_id = "";
  type = "runbook";
  input = some (("incident_id", str "i1") ∷ []);
  metadata = [];
  created_at = 0;
}

abbrev signals : List ApprovalSignal
signals = record { step_id = "a1"; approved = true; approver = "ann"; comment = "" } ∷ []

run_workflow-IsAuthorised_example :
    All (IsAuthorised signals) (run_workflow runtime (agents nine_tenths) task signals).state.events
run_workflow-IsAuthorised_example =
    run_workflow-IsAuthorised runtime (agents nine_tenths) task signals

-- The gate of the diagnostic is not met.
abbrev failure : RunbookResult
failure = record {
  incident_id = "i1";
  service = "";
  symptom = "";
  rule_decision =
      some (record { runbook_id = "rb"; severity = "high"; requires_human_approval = false });
  runbook = runbook;
  diagnostics = [];
  actions = [];
  completed_at = some 0;
  failed = true;
  failure_reason = "diagnostic_gate_failed: latency < <value> (got=<value>)";
}

run_workflow_failed_example :
    All IsReadOnly (run_workflow runtime (agents ten) task signals).state.events
unfolding run_workflow intent_of get put trim_space new_runbook_memory apply check_delta mutate
    commit same_bucket run_diagnostics apply_plan run_diagnostic eval_diagnostic_gate map_string
    parse_float_any compare_float lt apply_progress apply_evidence apply_pointers apply_policy
run_workflow_failed_example =
    run_workflow_failed runtime (agents ten) task signals failure none refl refl

-- No step of this runbook requires an approval.
abbrev quiet_runbook : Runbook
quiet_runbook = record runbook { actions = record restart { requires_approval = false } ∷ [] }

abbrev quiet : Agents
quiet = record (agents nine_tenths) { runbook = λ made p. ok quiet_runbook }

calm_rules :
    (made : List Event) (i : IntentState) (out : RuleAgentOutput)
    → quiet.rule made i ≡ ok out
    → out.requires_human_approval ≡ false
calm_rules made i out =
    Ensures-ok (λ o. o.requires_human_approval ≡ false) (quiet.rule made i) out refl

calm_runbooks :
    (made : List Event) (p : RunbookPacket) (rb : Runbook)
    → quiet.runbook made p ≡ ok rb
    → All NeedsNone rb.actions
calm_runbooks made p rb =
    Ensures-ok (λ r. All NeedsNone r.actions) (quiet.runbook made p) rb (refl, tt)

run_workflow-IsFinished_example : IsFinished (run_workflow runtime quiet task []).outcome
run_workflow-IsFinished_example =
    run_workflow-IsFinished runtime quiet calm_rules calm_runbooks task
