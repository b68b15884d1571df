-- ===== src/Temporal/Incident.antt =====
-- `IncidentWorkflow` of internal/controlplane/temporal/workflow.go: policy, plan, and the loop over
-- the plan's steps with its budget, its write gate and its tool calls.
pub mod Flows
pub mod Status
pub mod Writes
pub mod Trace
use forgeiq.Prelude.{
  ℕ, ◌+◌, String, concat, Bool, true, false, not, ◌&&◌, Option, none, some, List, [], ◌∷◌, ◌++◌,
  Result, ok, err, pos, ltb_ℤ, contains, if◌then◌else◌,
}
use forgeiq.GoMap.{GoMap, put}
use forgeiq.Contracts.{Task, PolicyDecision, Plan, PlanStep}
use forgeiq.Contracts.Values.{Any}

-- What a value of `status.Evidence` is.
pub data Evidence : Type 0 where
  policy : PolicyDecision → Evidence
  plan : Plan → Evidence
  approval : String → Evidence
  step_error : String → Evidence
  step_out : GoMap Any → Evidence

pub record WorkflowStatus : Type 0 where
  pub state : String
  pub task_id : String
  pub blocked_step : String
  pub blocked_tool : String
  pub last_error : String
  pub tool_calls : ℕ
  pub updated_at_rfc : String
  pub needs_human_input : Bool
  pub waiting_on_signal : String
  pub waiting_since_rfc : String
  pub prompt : String
  pub evidence : GoMap Evidence

-- The activities that the workflow has sent.
pub data Event : Type 0 where
  eval_policy get_plan record_approval : Event
  call_tool : PlanStep → PolicyDecision → Event
  complete_eval : String → String → Event

-- The payloads of the artifact "Result".
pub data Payload : Type 0 where
  denied : GoMap String → Payload
  rejected : Payload
  completed : GoMap Evidence → Payload

pub record Artifact : Type 0 where
  pub task_id : String
  pub type : String
  pub payload : Payload
  pub ts : ℕ

pub record State : Type 0 where
  pub status : WorkflowStatus
  pub pd : PolicyDecision
  pub events : List Event
  -- the approval signals still to be received
  pub signals : List Bool
  -- `none` is the zero artifact
  pub final_result : Option Artifact

-- The workflow returned an artifact or an error, starts again as a new run of the same task, or waits
-- for a signal.
pub data Outcome : Type 0 where
  returned : Artifact → Outcome
  failed : String → Outcome
  continued_as_new : Outcome
  waiting : Outcome

pub data Flow : Type 0 where
  go_on : State → Flow
  return : State → Outcome → Flow

abbrev pub and_then : Flow → (State → Flow) → Flow
and_then (go_on st) next = next st
and_then (return st o) next = return st o

-- The activities' answers and the workflow's clock, which may depend on what was sent before.
pub record Activities : Type 0 where
  pub eval_policy : Task → Result String PolicyDecision
  pub get_plan : Task → PolicyDecision → GoMap Evidence → Result String Plan
  pub call_tool : List Event → PlanStep → PolicyDecision → Result String (GoMap Any)
  pub clock : List Event → ℕ
  pub rfc3339 : ℕ → String

abbrev pub tell : Event → State → State
tell e st = record st { events = st.events ++ e ∷ [] }

module _ (w : Activities) (task : Task) where
  abbrev pub now : State → String
  now st = w.rfc3339 (w.clock st.events)

  -- `status.UpdatedAtRFC = now()`
  abbrev pub touch : State → State
  touch st = record st { status = record st.status { updated_at_rfc = now st } }

  abbrev pub set_evidence : String → Evidence → State → State
  set_evidence key v st =
      touch (record st { status = record st.status { evidence = put st.status.evidence key v } })

  -- `ExecuteActivity(ctx, "CompleteEval", ...)`, whose error is dropped
  abbrev pub report : State → State
  report st = tell (complete_eval st.status.state st.status.last_error) st

  abbrev pub fail : String → State → Flow
  fail e st =
      return
        (report
          (touch (record st { status = record st.status { state = "failed"; last_error = e } })))
        (failed e)

  abbrev pub finish : String → Payload → State → Flow
  finish state payload st =
      let st' = touch (record st { status = record st.status { state = state } }) in
      let result : Artifact = record {
        task_id = task.id;
        type = "Result";
        payload = payload;
        ts = w.clock st'.events;
      } in
      return (report (record st' { final_result = some result })) (returned result)

  abbrev pub count_call : State → State
  count_call st =
      touch (record st { status = record st.status { tool_calls = st.status.tool_calls + 1 } })

  abbrev pub over_budget : State → Bool
  over_budget st =
      ltb_ℤ (pos 0) st.pd.budgets.max_tool_calls
      && ltb_ℤ st.pd.budgets.max_tool_calls (pos st.status.tool_calls)

  abbrev pub exceed : State → Flow
  exceed st =
      return
        (touch (record st {
          status = record st.status {
            state = "failed";
            last_error = "budget exceeded: tool calls";
          };
        }))
        continued_as_new

  unfoldable pub check_budget : State → Flow
  check_budget st = if over_budget st then exceed st else go_on st

  abbrev pub block : PlanStep → State → State
  block step st = touch (record st {
    status = record st.status {
      state = "needs_approval";
      blocked_step = step.step_id;
      blocked_tool = step.tool_name;
      needs_human_input = true;
      waiting_on_signal = "approval";
      waiting_since_rfc = now st;
      prompt = "Waiting for approval to proceed with a write operation";
    };
  })

  -- After an approval, writes are allowed for the remainder.
  abbrev pub resume : State → State
  resume st =
      let told = tell record_approval (record st { pd = record st.pd { allow_writes = true } }) in
      touch (record told {
        status = record told.status {
          evidence = put told.status.evidence "approval" (approval (now told));
          state = "running";
          blocked_step = "";
          blocked_tool = "";
          needs_human_input = false;
          waiting_on_signal = "";
          waiting_since_rfc = "";
          prompt = "";
        };
      })

  -- `Receive(ctx, &approved)` and what follows it
  abbrev pub receive : State → List Bool → Flow
  receive st [] = return st waiting
  receive st (true ∷ rest) = go_on (resume (record st { signals = rest }))
  receive st (false ∷ rest) = finish "denied" rejected (record st { signals = rest })

  abbrev pub is_blocked : PlanStep → State → Bool
  is_blocked step st = contains step.tags "write" && not st.pd.allow_writes

  unfoldable pub write_gate : PlanStep → State → Flow
  write_gate step st = if is_blocked step st then receive (block step st) st.signals else go_on st

  abbrev pub note_error : PlanStep → String → State → Flow
  note_error step e st = go_on (set_evidence (concat "step_error_" step.step_id) (step_error e) st)

  unfoldable pub after_call : PlanStep → Result String (GoMap Any) → State → Flow
  after_call step (ok out) st =
      go_on (set_evidence (concat "step_out_" step.step_id) (step_out out) st)
  after_call step (err e) st = if step.stop_on_err then fail e st else note_error step e st

  unfoldable pub call_step : PlanStep → State → Flow
  call_step step st =
      after_call step (w.call_tool st.events step st.pd) (tell (call_tool step st.pd) st)

  unfoldable pub run_step : PlanStep → State → Flow
  run_step step st =
      and_then (check_budget (count_call st))
        λ counted. and_then (write_gate step counted) λ allowed. call_step step allowed

  unfoldable pub run_steps : List PlanStep → State → Flow
  run_steps [] st = go_on st
  run_steps (step ∷ rest) st = and_then (run_step step st) (λ st'. run_steps rest st')

  abbrev pub complete : State → Flow
  complete st = finish "completed" (completed st.status.evidence) st

  abbrev pub after_plan : State → Result String Plan → Flow
  after_plan st (err e) = fail e st
  after_plan st (ok p) =
      and_then (run_steps p.steps (set_evidence "plan" (plan p) st)) (λ st'. complete st')

  abbrev pub plan_and_run : State → Flow
  plan_and_run st = after_plan (tell get_plan st) (w.get_plan task st.pd st.status.evidence)

  abbrev pub deny : State → Flow
  deny st = finish "denied" (denied st.pd.reasons) st

  -- After the policy, which is also in the state.
  abbrev pub decide : State → Flow
  decide st = if st.pd.allowed then plan_and_run st else deny st

  abbrev pub after_policy : State → Result String PolicyDecision → Flow
  after_policy st (err e) = fail e st
  after_policy st (ok d) = decide (set_evidence "policy" (policy d) (record st { pd = d }))

  abbrev no_policy : PolicyDecision
  no_policy = record {
    allowed = false;
    allow_writes = false;
    scopes = [];
    tool_tag_allow = [];
    budgets = record { max_tool_calls = pos 0; max_seconds = pos 0 };
    reasons = [];
  }

  -- The state at the start, with the approval signals that the workflow will receive, in order.
  abbrev pub start : List Bool → State
  start signals = record {
    status = record {
      state = "running";
      task_id = task.id;
      blocked_step = "";
      blocked_tool = "";
      last_error = "";
      tool_calls = 0;
      updated_at_rfc = w.rfc3339 (w.clock []);
      needs_human_input = false;
      waiting_on_signal = "";
      waiting_since_rfc = "";
      prompt = "";
      evidence = [];
    };
    pd = no_policy;
    events = [];
    signals = signals;
    final_result = none;
  }

  unfoldable pub incident_workflow : List Bool → Flow
  incident_workflow signals = after_policy (tell eval_policy (start signals)) (w.eval_policy task)
