-- ===== src/Temporal/Runbook/Deltas.antt =====
-- The deltas that the workflow applies to its memory. It drops the errors of `Apply`.
use forgeiq.Prelude.{ℕ, String, [], ◌∷◌, pos}
use forgeiq.GoMap.{GoMap}
use forgeiq.Contracts.{RuleAgentOutput, Runbook, RunbookStep, ObservabilityOutput, ExecOutput}
use forgeiq.Temporal.Memory.Patches.{
  MemoryBucket, plan, evidence, policy_risk, progress, pointers, PatchValue, bool, str, int,
  approval, runbook, observability, exec, ApprovalSignal, Delta,
}
use forgeiq.Temporal.Memory.{apply}
use forgeiq.Temporal.Runbook.Packets.{Agents, State}

-- `_ = mem.Apply(workflow.Now(ctx), d)`
abbrev pub note : Agents → Delta → State → State
note w d st = record st { mem = (apply (w.now st.mem.deltas) d st.mem).0 }

abbrev delta : MemoryBucket → String → GoMap PatchValue → String → String → GoMap String → Delta
delta b action patch actor rationale refs = record {
  bucket = b;
  action = action;
  patch = patch;
  actor = actor;
  rationale = rationale;
  refs = refs;
  expected_ver = 0;
}

abbrev pub failed_delta : String → String → GoMap String → Delta
failed_delta reason rationale refs =
    delta progress "mark_failed" (("reason", str reason) ∷ []) "workflow" rationale refs

abbrev pub requires_delta : RuleAgentOutput → Delta
requires_delta out =
    delta policy_risk "set_requires_human_approval"
      (("requires_human_approval", bool out.requires_human_approval)
        ∷ ("reason", str "rule_agent_requires_human_approval")
        ∷ [])
      "rule_agent" "Rule evaluation output" []

abbrev pub selected_delta : RuleAgentOutput → Delta
selected_delta out =
    delta pointers "set_selected_runbook_id" (("selected_runbook_id", str out.runbook_id) ∷ [])
      "rule_agent" "Select runbook id for subsequent steps" []

abbrev pub severity_delta : RuleAgentOutput → Delta
severity_delta out =
    delta evidence "set_fact" (("key", str "severity") ∷ ("value", str out.severity) ∷ [])
      "rule_agent" "Severity from rule agent" []

abbrev pub runbook_delta : Runbook → Delta
runbook_delta rb =
    delta plan "set_runbook" (("runbook", runbook rb) ∷ []) "runbook_agent"
      "Fetched selected runbook" []

abbrev pub cursor_delta : String → RunbookStep → ℕ → Delta
cursor_delta phase step idx =
    delta plan "set_cursor"
      (("phase", str phase) ∷ ("current_step", str step.id) ∷ ("current_index", int (pos idx)) ∷ [])
      "workflow" "Advance plan cursor" []

abbrev pub diagnostic_delta : RunbookStep → ObservabilityOutput → Delta
diagnostic_delta step out =
    delta evidence "record_diagnostic"
      (("step_id", str step.id) ∷ ("output", observability out) ∷ []) "observability_agent" ""
      (("step_id", step.id) ∷ [])

abbrev pub action_delta : RunbookStep → ExecOutput → Delta
action_delta step out =
    delta evidence "record_action" (("step_id", str step.id) ∷ ("output", exec out) ∷ [])
      "exec_agent" "" (("step_id", step.id) ∷ [])

abbrev pub completed_delta : RunbookStep → Delta
completed_delta step =
    delta progress "mark_step_completed" (("step_id", str step.id) ∷ []) "workflow" "" []

abbrev pub approval_delta : RunbookStep → ApprovalSignal → Delta
approval_delta step sig =
    delta policy_risk "append_approval"
      (("approval", approval sig) ∷ ("reason", str sig.comment) ∷ []) "human"
      "Approval signal received" (("step_id", step.id) ∷ ("approver", sig.approver) ∷ [])
