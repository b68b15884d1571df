-- ===== src/Temporal/Iterative.antt =====
-- `IncidentWorkflowIterative` of internal/controlplane/temporal/workflow_agentic.go: up to three rounds
-- of planning and execution, with the write gate in front of each step.
pub mod Rounds
pub mod Writes
use forgeiq.Prelude.{
  ℕ, zero, suc, ◌+◌, String, concat, Bool, true, false, not, ◌&&◌, Option, none, some, List, [],
  ◌∷◌, ◌++◌, Result, ok, err, contains, if◌then◌else◌,
}
use forgeiq.GoMap.{GoMap, put}
use forgeiq.Contracts.{Task, PolicyDecision, Plan, PlanStep}
use forgeiq.Contracts.Values.{Any}

-- What a value of the local `evidence` is.
pub data Evidence : Type 0 where
  policy : PolicyDecision → Evidence
  step_error : String → Evidence
  step_result : GoMap Any → Evidence

-- What a value of `status.Evidence` is.
pub data StatusEntry : Type 0 where
  iteration : ℕ → StatusEntry
  planned : Plan → StatusEntry

-- The fields of `WorkflowStatus` that this workflow writes.
pub record Status : Type 0 where
  pub state : String
  pub blocked_step : String
  pub blocked_tool : String
  pub last_error : String
  pub updated_at_rfc : String
  pub evidence : GoMap StatusEntry

pub data Event : Type 0 where
  eval_policy get_plan : Event
  call_tool : PlanStep → PolicyDecision → Event

pub data Payload : Type 0 where
  denied : GoMap String → Payload
  rejected : Payload
  completed completed_with_retries : ℕ → GoMap Evidence → Payload

-- The artifact "Result" of the task, with its time.
pub record Artifact : Type 0 where
  pub task_id : String
  pub payload : Payload
  pub ts : ℕ

pub record State : Type 0 where
  pub status : Status
  pub pd : PolicyDecision
  pub evidence : GoMap Evidence
  pub events : List Event
  -- the approval signals still to be received
  pub signals : List Bool
  -- what the query "result" answers with; `none` is the zero artifact
  pub final_result : Option Artifact

pub data Outcome : Type 0 where
  returned : Artifact → Outcome
  failed : String → Outcome
  waiting : Outcome

-- A part of the workflow: it goes on, with whether all steps succeeded so far, or it has returned.
pub data Flow : Type 0 where
  go_on : Bool → State → Flow
  return : State → Outcome → Flow

abbrev pub and_then : Flow → (Bool → State → Flow) → Flow
and_then (go_on b st) next = next b st
and_then (return st o) next = return st o

-- The activities, the clock, and `fmt.Sprintf("%d", n)`.
pub record Activities : Type 0 where
  pub eval_policy : Task → Result String PolicyDecision
  pub get_plan : List Event → Task → PolicyDecision → GoMap Evidence → Result String Plan
  pub call_tool : List Event → PlanStep → PolicyDecision → Result String (GoMap Any)
  pub clock : List Event → ℕ
  pub rfc3339 : ℕ → String
  pub decimal : ℕ → String

abbrev pub tell : Event → State → State
tell e st = record st { events = st.events ++ e ∷ [] }

module _ (w : Activities) (task : Task) where
  abbrev pub fail : String → State → Flow
  fail e st =
      return (record st { status = record st.status { state = "failed"; last_error = e } })
        (failed e)

  abbrev pub artifact : Payload → State → Artifact
  artifact p st = record { task_id = task.id; payload = p; ts = w.clock st.events }

  -- A denied or rejected result is returned without being kept for the query.
  abbrev pub refuse : Payload → State → Flow
  refuse p st =
      return (record st { status = record st.status { state = "denied" } })
        (returned (artifact p st))

  abbrev pub finish : Payload → State → Flow
  finish p st =
      return
        (record st {
          status = record st.status { state = "completed" };
          final_result = some (artifact p st);
        })
        (returned (artifact p st))

  abbrev pub block : PlanStep → State → State
  block step st = record st {
    status = record st.status {
      state = "needs_approval";
      blocked_step = step.step_id;
      blocked_tool = step.tool_name;
    };
  }

  -- The status stays as it was while the step was blocked.
  abbrev pub receive : Bool → State → List Bool → Flow
  receive succeeded st [] = return st waiting
  receive succeeded st (true ∷ rest) =
      go_on succeeded (record st { signals = rest; pd = record st.pd { allow_writes = true } })
  receive succeeded st (false ∷ rest) = refuse rejected (record st { signals = rest })

  abbrev pub is_blocked : PlanStep → State → Bool
  is_blocked step st = contains step.tags "write" && not st.pd.allow_writes

  unfoldable pub write_gate : PlanStep → Bool → State → Flow
  write_gate step succeeded st =
      if is_blocked step st
      then receive succeeded (block step st) st.signals
      else go_on succeeded st

  -- `step_error_<id>_iter_<n>` and `step_result_<id>_iter_<n>`
  abbrev pub step_key : String → PlanStep → ℕ → String
  step_key prefix step n = concat prefix (concat step.step_id (concat "_iter_" (w.decimal n)))

  abbrev pub note_error : PlanStep → ℕ → String → State → Flow
  note_error step n e st =
      go_on false
        (record st { evidence = put st.evidence (step_key "step_error_" step n) (step_error e) })

  unfoldable pub after_call : PlanStep → ℕ → Result String (GoMap Any) → Bool → State → Flow
  after_call step n (ok out) succeeded st =
      go_on succeeded (record st {
        evidence = put st.evidence (step_key "step_result_" step n) (step_result out);
      })
  after_call step n (err e) succeeded st =
      if step.stop_on_err then fail e st else note_error step n e st

  unfoldable pub call_step : PlanStep → ℕ → Bool → State → Flow
  call_step step n succeeded st =
      after_call step n (w.call_tool st.events step st.pd) succeeded
        (tell (call_tool step st.pd) st)

  -- The steps of the `n`th round.
  unfoldable pub run_steps : ℕ → List PlanStep → Bool → State → Flow
  run_steps n [] succeeded st = go_on succeeded st
  run_steps n (step ∷ rest) succeeded st =
      and_then (and_then (write_gate step succeeded st) (λ b st'. call_step step n b st'))
        (λ b st'. run_steps n rest b st')

  abbrev pub note_plan : ℕ → Plan → State → State
  note_plan n p st = record st {
    status = record st.status {
      evidence = put st.status.evidence (concat "plan_" (w.decimal n)) (planned p);
    };
  }

  abbrev pub after_plan : ℕ → Result String Plan → State → Flow
  after_plan n (err e) st = fail e st
  after_plan n (ok p) st = run_steps n p.steps true (note_plan n p st)

  abbrev pub begin_round : ℕ → State → State
  begin_round n st = record st {
    status = record st.status {
      evidence = put st.status.evidence (concat "iteration_" (w.decimal n)) (iteration n);
      updated_at_rfc = w.rfc3339 (w.clock st.events);
    };
  }

  unfoldable pub run_round : ℕ → State → Flow
  run_round n st =
      let begun = begin_round n st in
      after_plan n (w.get_plan begun.events task begun.pd begun.evidence) (tell get_plan begun)

  -- After a round: done if all steps succeeded, and otherwise the rounds that are left. The wait for a
  -- refinement signal between two rounds changes nothing.
  abbrev pub after_round : ℕ → (State → Flow) → Bool → State → Flow
  after_round n next true st = finish (completed n st.evidence) st
  after_round n next false st = next st

  -- `left` rounds, the next one being the `n`th.
  unfoldable pub run_rounds : ℕ → ℕ → State → Flow
  run_rounds zero n st = finish (completed_with_retries 3 st.evidence) st
  run_rounds (suc left) n st =
      and_then (run_round n st) (after_round n (λ st'. run_rounds left (n + 1) st'))

  -- The state after the policy `d`, whose local evidence it is.
  abbrev pub with_policy : PolicyDecision → State → State
  with_policy d st = record st { pd = d; evidence = ("policy", policy d) ∷ [] }

  abbrev pub decide : State → Flow
  decide st = if st.pd.allowed then run_rounds 3 1 st else refuse (denied st.pd.reasons) st

  abbrev pub after_policy : State → Result String PolicyDecision → Flow
  after_policy st (err e) = fail e st
  after_policy st (ok d) = decide (with_policy d st)

  abbrev no_policy : PolicyDecision
  no_policy = record {
    allowed = false;
    allow_writes = false;
    scopes = [];
    tool_tag_allow = [];
    budgets = record {
      max_tool_calls = forgeiq.Prelude.pos 0;
      max_seconds = forgeiq.Prelude.pos 0;
    };
    reasons = [];
  }

  abbrev pub start : List Bool → State
  start signals = record {
    status = record {
      state = "running";
      blocked_step = "";
      blocked_tool = "";
      last_error = "";
      updated_at_rfc = w.rfc3339 (w.clock []);
      evidence = [];
    };
    pd = no_policy;
    evidence = [];
    events = [];
    signals = signals;
    final_result = none;
  }

  unfoldable pub iterative_workflow : List Bool → Flow
  iterative_workflow signals = after_policy (tell eval_policy (start signals)) (w.eval_policy task)
