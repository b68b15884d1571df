-- ===== src/Temporal/Runbook/Packets.antt =====
-- The handoff packets of internal/controlplane/temporal/runbook_memory.go, what the workflow sends to
-- its agents, and the state of a run.
use forgeiq.Prelude.{ℕ, String, List, ◌∷◌, [], ◌++◌, ℤ, Result}
use forgeiq.GoMap.{GoMap}
use forgeiq.Contracts.{RuleAgentOutput, Runbook, RunbookStep, ObservabilityOutput, ExecOutput}
use forgeiq.Contracts.Values.{Any}
use forgeiq.Temporal.Memory.Patches.{ApprovalSignal}
use forgeiq.Temporal.Memory.Buckets.{IntentState, PolicyRiskState, PointersState}
use forgeiq.Temporal.Memory.{RunbookMemory, DeltaEntry}

pub record RunbookPacket : Type 0 where
  pub intent : IntentState
  pub pointers : PointersState
  pub policy : PolicyRiskState

pub record ObservabilityPacket : Type 0 where
  pub intent : IntentState
  pub policy : PolicyRiskState
  -- the plan cursor
  pub phase : String
  pub current_step : String
  pub current_index : ℤ
  pub step : RunbookStep
  pub constraints : GoMap Any

pub record ExecPacket : Type 0 where
  pub intent : IntentState
  pub policy : PolicyRiskState
  pub step : RunbookStep
  pub constraints : GoMap Any

abbrev pub build_runbook_packet : RunbookMemory → RunbookPacket
build_runbook_packet m = record { intent = m.intent; pointers = m.pointers; policy = m.policy_risk }

abbrev pub build_observability_packet : RunbookMemory → RunbookStep → ObservabilityPacket
build_observability_packet m step = record {
  intent = m.intent;
  policy = m.policy_risk;
  phase = m.plan.phase;
  current_step = m.plan.current_step;
  current_index = m.plan.current_index;
  step = step;
  constraints = m.plan.constraints;
}

abbrev pub build_exec_packet : RunbookMemory → RunbookStep → ExecPacket
build_exec_packet m step = record {
  intent = m.intent;
  policy = m.policy_risk;
  step = step;
  constraints = m.plan.constraints;
}

-- An activity that the workflow executed, with what it sent.
pub data Event : Type 0 where
  asked_rule : IntentState → Event
  asked_runbook : RunbookPacket → Event
  observed : ObservabilityPacket → Event
  executed : ExecPacket → Event

-- What the workflow talks to: each activity answers after its retries, and may depend on what was
-- executed before. `now` is the workflow's clock.
pub record Agents : Type 0 where
  pub workflow_id : String
  pub now : List DeltaEntry → ℕ
  pub rule : List Event → IntentState → Result String RuleAgentOutput
  pub runbook : List Event → RunbookPacket → Result String Runbook
  pub observe : List Event → ObservabilityPacket → Result String ObservabilityOutput
  pub exec : List Event → ExecPacket → Result String ExecOutput

-- The memory, the activities so far, and the approval signals that are still to be received.
pub record State : Type 0 where
  pub mem : RunbookMemory
  pub events : List Event
  pub signals : List ApprovalSignal

abbrev pub tell : Event → State → State
tell e st = record st { events = st.events ++ e ∷ [] }
