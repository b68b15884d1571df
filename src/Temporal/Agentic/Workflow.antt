-- ===== src/Temporal/Agentic/Workflow.antt =====
-- `AgenticLoop` from its first plan, and `IncidentWorkflowWithAgenticLoop` of
-- internal/controlplane/temporal/workflow_agentic.go.
use forgeiq.Prelude.{
  ℕ, String, true, false, not, Option, none, some, List, [], ◌∷◌, Result, ok, err, pos, pos_part,
  if◌then◌else◌,
}
use forgeiq.GoMap.{GoMap, put}
use forgeiq.Contracts.{Task, PolicyDecision, Plan}
use forgeiq.Temporal.Incident.{WorkflowStatus, Evidence}
use forgeiq.Temporal.Agentic.{
  AgenticLoopConfig, plan_value, FeedbackEntry, plan_asked, LoopState, LoopWorld, LoopPayload,
}
use forgeiq.Temporal.Agentic.Loop.{LoopOutcome, returned, failed, waiting, loop}

abbrev put_status : LoopWorld → Plan → WorkflowStatus → WorkflowStatus
put_status w p s = record s {
  evidence = put s.evidence "initial_plan" (Evidence.plan p);
  updated_at_rfc = w.rfc3339 (w.clock (plan_asked ∷ []));
}

abbrev pub with_plan : LoopWorld → Plan → Option WorkflowStatus → Option WorkflowStatus
with_plan w p none = none
with_plan w p (some s) = some (put_status w p s)

abbrev pub initial : LoopWorld → List FeedbackEntry → Option WorkflowStatus → Plan → LoopState
initial w signals status p = record {
  iteration = 0;
  current_plan = p;
  evidence = put [] "initial_plan" (plan_value p);
  feedback = [];
  refinements = [];
  last_error = "";
  needs_approval = false;
  approval_reason = "";
  status = with_plan w p status;
  events = plan_asked ∷ [];
  signals = signals;
}

module _ (w : LoopWorld) (signals : List FeedbackEntry) where
  abbrev pub after_first_plan :
      AgenticLoopConfig → PolicyDecision → Option WorkflowStatus → Result String Plan → LoopOutcome
  after_first_plan config pd status (err e) = failed status e
  after_first_plan config pd status (ok p) =
      loop w config pd (pos_part config.max_iterations) (initial w signals status p)

  -- `AgenticLoop`, with the feedback signals that it will receive.
  unfoldable pub agentic_loop :
      AgenticLoopConfig → PolicyDecision → Option WorkflowStatus → LoopOutcome
  unfolding loop
  agentic_loop config pd status = after_first_plan config pd status (w.get_plan [] [])

-- The workflow's artifact, or its error.
pub data Answer : Type 0 where
  denied : GoMap String → Answer
  finished : LoopPayload → Answer
  errored : String → Answer
  -- it waits for feedback
  pending : Answer

abbrev pub loop_config : AgenticLoopConfig
loop_config = record { max_iterations = pos 5; enable_feedback = true; auto_refine = true }

module _ (w : LoopWorld) (time : ℕ → String) where
  -- `now()` at the end of the loop is a reading of its own.
  abbrev pub set_state : String → String → WorkflowStatus → WorkflowStatus
  set_state state now s = record s { state = state; updated_at_rfc = now }

  abbrev fail_status : String → WorkflowStatus → WorkflowStatus
  fail_status e s = record s { state = "failed"; last_error = e; updated_at_rfc = time 2 }

  abbrev pub at_status :
      (WorkflowStatus → WorkflowStatus) → WorkflowStatus → Option WorkflowStatus → WorkflowStatus
  at_status f s none = f s
  at_status f s (some s') = f s'

  -- What the workflow makes of the loop's result; `s` is the status from before.
  unfoldable pub close : WorkflowStatus → LoopOutcome → WorkflowStatus × Answer
  close s (failed status e) = (at_status (fail_status e) s status, errored e)
  close s (returned st payload) =
      (at_status (set_state "completed" (time 2)) s st.status, finished payload)
  close s (waiting st) = (at_status (λ s'. s') s st.status, pending)

  abbrev pub started : Task → WorkflowStatus
  started task = record {
    state = "running";
    task_id = task.id;
    blocked_step = "";
    blocked_tool = "";
    last_error = "";
    tool_calls = 0;
    updated_at_rfc = time 0;
    needs_human_input = false;
    waiting_on_signal = "";
    waiting_since_rfc = "";
    prompt = "";
    evidence = [];
  }

  abbrev pub noted : PolicyDecision → WorkflowStatus → WorkflowStatus
  noted pd s = record s {
    evidence = put s.evidence "policy" (Evidence.policy pd);
    updated_at_rfc = time 1;
  }

  abbrev after_policy :
      List FeedbackEntry → WorkflowStatus → Result String PolicyDecision → WorkflowStatus × Answer
  after_policy signals s (err e) = (fail_status e s, errored e)
  after_policy signals s (ok pd) =
      if not pd.allowed
      then (record (noted pd s) { state = "denied" }, denied pd.reasons)
      else close (noted pd s) (agentic_loop w signals loop_config pd (some (noted pd s)))

  -- `IncidentWorkflowWithAgenticLoop`: the answer of EvalPolicy and the signals are arguments.
  unfoldable pub incident_workflow_agentic :
      Task → Result String PolicyDecision → List FeedbackEntry → WorkflowStatus × Answer
  unfolding agentic_loop close put
  incident_workflow_agentic task policy signals = after_policy signals (started task) policy
