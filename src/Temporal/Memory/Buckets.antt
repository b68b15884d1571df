-- ===== src/Temporal/Memory/Buckets.antt =====
-- The buckets of the memory, and for each the switch of `Apply` over its actions.
use forgeiq.Prelude.{
  String, Bool, Option, none, some, List, [], ◌∷◌, ◌++◌, ℤ, pos, ◌==◌, if◌then◌else◌, true, not,
  ◌&&◌,
}
use forgeiq.GoMap.{GoMap, get, put}
use forgeiq.Contracts.{Runbook, ObservabilityOutput, ExecOutput}
use forgeiq.Contracts.Values.{Any}
use forgeiq.Temporal.Memory.Patches.{
  intent, plan, evidence, policy_risk, progress, pointers, ApprovalSignal, PatchValue, Delta,
  ApplyError, unsupported_action, wrong_patch, as_bool, as_string, as_int, as_approval, as_runbook,
  as_observability, as_exec, string_or_empty,
}

pub record IntentState : Type 0 where
  pub incident_id : String
  pub service : String
  pub symptom : String
  pub goal : String
  pub metadata : GoMap String

pub record PlanState : Type 0 where
  pub runbook : Runbook
  pub phase : String
  pub current_step : String
  pub current_index : ℤ
  pub branch : GoMap String
  pub constraints : GoMap Any

pub record EvidenceState : Type 0 where
  pub diagnostics : GoMap ObservabilityOutput
  pub actions : GoMap ExecOutput
  pub facts : GoMap (Option PatchValue)

-- `Apply` writes neither `Budgets` nor `ToolScopes`.
pub record PolicyRiskState : Type 0 where
  pub requires_human_approval : Bool
  pub approval_reasons : List String
  pub budgets : GoMap Any
  pub tool_scopes : List String
  pub approvals : List ApprovalSignal

-- `Apply` writes none of `Retries`, `Rollback` and `Notes`.
pub record ProgressState : Type 0 where
  pub completed_steps : List String
  pub retries : GoMap ℤ
  pub rollback : GoMap Any
  pub failed : Bool
  pub failure_reason : String
  pub notes : GoMap String

pub record PointersState : Type 0 where
  pub selected_runbook_id : String
  pub artifacts : GoMap String

-- The zero `PlanState`.
unfoldable pub empty_plan : PlanState
empty_plan = record {
  runbook = record {
    id = "";
    version = "";
    name = "";
    diagnostics = [];
    actions = [];
    default_owner = "";
  };
  phase = "";
  current_step = "";
  current_index = pos 0;
  branch = [];
  constraints = [];
}

abbrev get_or {ℓ} : {A : Type ℓ} → Option A → A → A
get_or none d = d
get_or (some a) d = a

-- The bucket after the switch, and the error that it returned. What was written before an error stays
-- written, since `Apply` writes in place.
abbrev pub Applied {ℓ} : Type ℓ → Type ℓ
Applied S = S × Option ApplyError

abbrev pub done {ℓ} : {S : Type ℓ} → S → Applied S
done s = (s, none)

abbrev pub refused {ℓ} : {S : Type ℓ} → S → ApplyError → Applied S
refused s e = (s, some e)

-- `if r, ok := d.Patch["reason"].(string); ok && r != ""`
abbrev pub add_reason : String → List String → List String
add_reason r rs = if r == "" then rs else rs ++ r ∷ []

abbrev set_requires : Delta → PolicyRiskState → PolicyRiskState
set_requires d s = record s {
  requires_human_approval =
      get_or (as_bool (get d.patch "requires_human_approval")) s.requires_human_approval;
  approval_reasons = add_reason (string_or_empty (get d.patch "reason")) s.approval_reasons;
}

abbrev pub append_approval :
    Delta → PolicyRiskState → Option ApprovalSignal → Applied PolicyRiskState
append_approval d s none = refused s (wrong_patch policy_risk "append_approval")
append_approval d s (some a) = done (record s {
  approvals = s.approvals ++ a ∷ [];
  approval_reasons = add_reason (string_or_empty (get d.patch "reason")) s.approval_reasons;
})

unfoldable pub apply_policy : Delta → PolicyRiskState → Applied PolicyRiskState
apply_policy d s =
    if d.action == "set_requires_human_approval"
    then done (set_requires d s)
    else if d.action == "append_approval"
    then append_approval d s (as_approval (get d.patch "approval"))
    else refused s (unsupported_action policy_risk d.action)

abbrev set_artifact : String → String → PointersState → PointersState
set_artifact k v s =
    if not (k == "") && not (v == "") then record s { artifacts = put s.artifacts k v } else s

unfoldable pub apply_pointers : Delta → PointersState → Applied PointersState
apply_pointers d s =
    if d.action == "set_selected_runbook_id"
    then done (record s {
      selected_runbook_id =
          get_or (as_string (get d.patch "selected_runbook_id")) s.selected_runbook_id;
    })
    else if d.action == "set_artifact_pointer"
    then done (
        set_artifact (string_or_empty (get d.patch "key")) (string_or_empty (get d.patch "value"))
          s)
    else refused s (unsupported_action pointers d.action)

abbrev set_runbook : PlanState → Option Runbook → Applied PlanState
set_runbook s none = refused s (wrong_patch plan "set_runbook")
set_runbook s (some rb) = done (record s { runbook = rb })

abbrev set_cursor : Delta → PlanState → PlanState
set_cursor d s =
    let phase = string_or_empty (get d.patch "phase") in
    record s {
      phase = if phase == "" then s.phase else phase;
      current_step = get_or (as_string (get d.patch "current_step")) s.current_step;
      current_index = get_or (as_int (get d.patch "current_index")) s.current_index;
    }

unfoldable pub apply_plan : Delta → PlanState → Applied PlanState
apply_plan d s =
    if d.action == "set_runbook"
    then set_runbook s (as_runbook (get d.patch "runbook"))
    else if d.action == "set_cursor"
    then done (set_cursor d s)
    else refused s (unsupported_action plan d.action)

abbrev record_diagnostic :
    String → Option ObservabilityOutput → EvidenceState → Applied EvidenceState
record_diagnostic id none s = refused s (wrong_patch evidence "record_diagnostic")
record_diagnostic id (some out) s =
    if id == ""
    then refused s (wrong_patch evidence "record_diagnostic")
    else done (record s { diagnostics = put s.diagnostics id out })

abbrev pub record_action : String → Option ExecOutput → EvidenceState → Applied EvidenceState
record_action id none s = refused s (wrong_patch evidence "record_action")
record_action id (some out) s =
    if id == ""
    then refused s (wrong_patch evidence "record_action")
    else done (record s { actions = put s.actions id out })

abbrev set_fact : String → Option PatchValue → EvidenceState → Applied EvidenceState
set_fact k v s =
    if k == ""
    then refused s (wrong_patch evidence "set_fact")
    else done (record s { facts = put s.facts k v })

unfoldable pub apply_evidence : Delta → EvidenceState → Applied EvidenceState
apply_evidence d s =
    if d.action == "record_diagnostic"
    then record_diagnostic (string_or_empty (get d.patch "step_id"))
        (as_observability (get d.patch "output")) s
    else if d.action == "record_action"
    then record_action (string_or_empty (get d.patch "step_id")) (as_exec (get d.patch "output")) s
    else if d.action == "set_fact"
    then set_fact (string_or_empty (get d.patch "key")) (get d.patch "value") s
    else refused s (unsupported_action evidence d.action)

abbrev pub mark_step_completed : String → ProgressState → Applied ProgressState
mark_step_completed id s =
    if id == ""
    then refused s (wrong_patch progress "mark_step_completed")
    else done (record s { completed_steps = s.completed_steps ++ id ∷ [] })

unfoldable pub apply_progress : Delta → ProgressState → Applied ProgressState
apply_progress d s =
    if d.action == "mark_step_completed"
    then mark_step_completed (string_or_empty (get d.patch "step_id")) s
    else if d.action == "mark_failed"
    then done (record s {
      failed = true;
      failure_reason = get_or (as_string (get d.patch "reason")) s.failure_reason;
    })
    else refused s (unsupported_action progress d.action)

unfoldable pub apply_intent : Delta → IntentState → Applied IntentState
apply_intent d s =
    if d.action == "set_goal"
    then done (record s { goal = get_or (as_string (get d.patch "goal")) s.goal })
    else refused s (unsupported_action intent d.action)
