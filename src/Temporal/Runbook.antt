-- ===== src/Temporal/Runbook.antt =====
-- `RunbookAutomationWorkflow` of internal/controlplane/temporal/runbook_workflow.go: rule agent, runbook
-- agent, diagnostics with gates, and actions that wait for an approval where one is required.
pub mod Packets
pub mod Deltas
pub mod Steps
pub mod Approval
pub mod FailSafe
pub mod Unattended
use forgeiq.Prelude.{
  ℕ, String, concat, Bool, true, false, Option, none, some, List, [], Result, ok, err, ◌==◌,
  if◌then◌else◌,
}
use forgeiq.GoMap.{GoMap, get, put, get_str}
use forgeiq.Contracts.{Task, RuleAgentOutput, Runbook, ObservabilityOutput, ExecOutput}
use forgeiq.Runtime.{Runtime, lookup, string_from_any}
use forgeiq.Temporal.Memory.{new_runbook_memory}
use forgeiq.Temporal.Memory.Patches.{ApprovalSignal}
use forgeiq.Temporal.Memory.Buckets.{IntentState}
use Packets.{asked_rule, asked_runbook, Agents, State, build_runbook_packet, tell}
use Deltas.{note, failed_delta, requires_delta, selected_delta, severity_delta, runbook_delta}
use Steps.{Progress, go_on, stopped, waiting_for, run_diagnostics, run_actions, refusal_text}

pub record RunbookResult : Type 0 where
  pub incident_id : String
  pub service : String
  pub symptom : String
  pub rule_decision : Option RuleAgentOutput
  pub runbook : Runbook
  pub diagnostics : GoMap ObservabilityOutput
  pub actions : GoMap ExecOutput
  pub completed_at : Option ℕ
  pub failed : Bool
  pub failure_reason : String

-- The workflow returned a result, and an error if an agent failed, or it waits for the approval of
-- the step.
pub data Outcome : Type 0 where
  finished : RunbookResult → Option String → Outcome
  waiting : String → Outcome

pub record Run : Type 0 where
  pub state : State
  pub outcome : Outcome

-- `in.Metadata["workflow_id"]` is set to the workflow's own id unless the task gives one.
abbrev with_workflow_id : String → GoMap String → GoMap String
with_workflow_id id m = if get_str m "workflow_id" == "" then put m "workflow_id" id else m

module _ (rt : Runtime) (w : Agents) where
  unfoldable pub intent_of : Task → IntentState
  unfolding get put
  intent_of task = record {
    incident_id = string_from_any rt (lookup task.input "incident_id");
    service = string_from_any rt (lookup task.input "service");
    symptom = string_from_any rt (lookup task.input "symptom");
    goal = "resolve_incident";
    metadata = with_workflow_id w.workflow_id task.metadata;
  }

  -- The result as it stands before the last step of the workflow.
  abbrev pub partial_result : State → Option RuleAgentOutput → Bool → String → RunbookResult
  partial_result st rule failed reason = record {
    incident_id = st.mem.intent.incident_id;
    service = st.mem.intent.service;
    symptom = st.mem.intent.symptom;
    rule_decision = rule;
    runbook = st.mem.plan.runbook;
    diagnostics = [];
    actions = [];
    completed_at = none;
    failed = failed;
    failure_reason = reason;
  }

  -- An agent call failed: the memory is marked, and the workflow returns the error.
  abbrev agent_failed : State → Option RuleAgentOutput → String → String → Run
  agent_failed st rule reason e = record {
    state = note w (failed_delta reason e []) st;
    outcome = finished (partial_result st rule true reason) (some e);
  }

  -- 4. The actions, and the final outputs from the memory.
  abbrev pub after_actions : RuleAgentOutput → Progress → Run
  after_actions rule (go_on st) = record {
    state = st;
    outcome =
        finished
          (record (partial_result st (some rule) false "") {
            diagnostics = st.mem.evidence.diagnostics;
            actions = st.mem.evidence.actions;
            completed_at = some (w.now st.mem.deltas);
          })
          none;
  }
  after_actions rule (stopped st why) = record {
    state = st;
    outcome =
        finished
          (record (partial_result st (some rule) true
            (concat "diagnostic_gate_failed: " (refusal_text rt why))) {
              completed_at = some (w.now st.mem.deltas);
            })
          none;
  }
  after_actions rule (waiting_for st id) = record { state = st; outcome = waiting id }

  -- 3. The diagnostics, and the actions if no gate stopped them.
  abbrev pub after_diagnostics : Progress → Progress
  after_diagnostics (go_on st) = run_actions w 0 st.mem.plan.runbook.actions st
  after_diagnostics (stopped st why) = stopped st why
  after_diagnostics (waiting_for st id) = waiting_for st id

  abbrev pub run_steps : State → Progress
  run_steps st = after_diagnostics (run_diagnostics rt w 0 st.mem.plan.runbook.diagnostics st)

  abbrev pub after_runbook : RuleAgentOutput → State → Result String Runbook → Run
  after_runbook rule st (err e) = agent_failed st (some rule) "runbook_agent_error" e
  after_runbook rule st (ok rb) = after_actions rule (run_steps (note w (runbook_delta rb) st))

  -- 2. The memory after the rule agent's answer, and the runbook agent.
  abbrev pub after_rule : State → Result String RuleAgentOutput → Run
  after_rule st (err e) = agent_failed st none "rule_agent_error" e
  after_rule st (ok rule) =
      let told =
        note w (severity_delta rule)
          (note w (selected_delta rule) (note w (requires_delta rule) st)) in
      let packet = build_runbook_packet told.mem in
      after_runbook rule (tell (asked_runbook packet) told) (w.runbook told.events packet)

  -- The workflow on a task, with the approval signals that it will receive, in their order.
  unfoldable pub run_workflow : Task → List ApprovalSignal → Run
  run_workflow task signals =
      let intent = intent_of task in
      let st : State = record { mem = new_runbook_memory intent; events = []; signals = signals } in
      after_rule (tell (asked_rule intent) st) (w.rule [] intent)
