-- ===== src/Temporal/Agentic.antt =====
-- `AgenticLoop` of internal/controlplane/temporal/agentic_loop.go: execute a plan, refine it, ask for
-- feedback, and go on until the goal is met or the iterations are spent.
pub mod Loop
pub mod Workflow
pub mod Fits
pub mod Ends
use forgeiq.Prelude.{
  ℕ, String, concat, Bool, true, false, not, ◌&&◌, ◌||◌, Option, some, List, [], ◌∷◌, ◌++◌, Result,
  ok, err, ℤ, contains, if◌then◌else◌, ◌==◌,
}
use forgeiq.GoMap.{GoMap, get, put}
use forgeiq.Text.{contains_text}
use forgeiq.Contracts.{PolicyDecision, Plan, PlanStep}
use forgeiq.Contracts.Values.{Any}
use forgeiq.Temporal.Incident.{WorkflowStatus}

-- The settings that the loop reads; no code reads the timeout.
pub record AgenticLoopConfig : Type 0 where
  pub max_iterations : ℤ
  pub enable_feedback : Bool
  pub auto_refine : Bool

-- What a value of the evidence is.
pub data LoopValue : Type 0 where
  plan_value : Plan → LoopValue
  flag : Bool → LoopValue
  text : String → LoopValue
  -- the prompt and the time since
  waiting_for : String → String → LoopValue
  step_result : Option (GoMap Any) → LoopValue

abbrev pub LoopEvidence : Type 0
LoopEvidence = GoMap LoopValue

pub record FeedbackEntry : Type 0 where
  pub iteration : ℕ
  pub step_id : String
  pub feedback : String
  pub action : String
  pub timestamp : ℕ

pub record RefinementEntry : Type 0 where
  pub iteration : ℕ
  pub reason : String
  pub original_plan : Plan
  pub refined_plan : Plan
  pub timestamp : ℕ

-- The activities that the loop has sent.
pub data LoopEvent : Type 0 where
  plan_asked : LoopEvent
  tool_called : PlanStep → LoopEvent

-- `AgenticLoopState`, with the status behind the pointer, the activities sent and the feedback signals
-- still to be received.
pub record LoopState : Type 0 where
  pub iteration : ℕ
  pub current_plan : Plan
  pub evidence : LoopEvidence
  pub feedback : List FeedbackEntry
  pub refinements : List RefinementEntry
  pub last_error : String
  pub needs_approval : Bool
  pub approval_reason : String
  pub status : Option WorkflowStatus
  pub events : List LoopEvent
  pub signals : List FeedbackEntry

-- The activities' answers, the clock and the formats; `stops` and `refines` are the values of the stop
-- and refine signals that the short waits of an iteration receive.
pub record LoopWorld : Type 0 where
  pub get_plan : List LoopEvent → LoopEvidence → Result String Plan
  pub call_tool : List LoopEvent → PlanStep → Result String (Option (GoMap Any))
  pub stops : ℕ → List Bool
  pub refines : ℕ → List Bool
  pub clock : List LoopEvent → ℕ
  pub rfc3339 : ℕ → String
  -- "%d"
  pub decimal : ℕ → String

-- The payloads of the artifact.
pub data LoopPayload : Type 0 where
  loop_failed : ℕ → String → LoopEvidence → LoopPayload
  -- status, iterations, evidence, and the numbers of refinements and feedback entries
  loop_ended : String → ℕ → LoopEvidence → ℕ → ℕ → LoopPayload

-- How an iteration goes on: with the next one, out of the loop, or not at all.
pub data LoopFlow : Type 0 where
  next leave : LoopState → LoopFlow
  answer : LoopState → LoopPayload → LoopFlow
  await : LoopState → LoopFlow

abbrev pub set_evidence : String → LoopValue → LoopState → LoopState
set_evidence k v st = record st { evidence = put st.evidence k v }

-- `executePlanIteration`, with the events so far and the results so far.
module _ (w : LoopWorld) (pd : PolicyDecision) where
  abbrev tool_result :
      PlanStep
      → GoMap LoopValue
      → Result String (Option (GoMap Any))
      → Result String (GoMap LoopValue)
  tool_result s results (ok out) =
      ok (put results (concat "step_result_" s.step_id) (step_result out))
  tool_result s results (err e) =
      if s.stop_on_err then err e else ok (put results (concat "step_error_" s.step_id) (text e))

  abbrev pub after_tool :
      List LoopEvent
      → Result String (GoMap LoopValue)
      → (GoMap LoopValue → List LoopEvent × Result String (GoMap LoopValue))
      → List LoopEvent × Result String (GoMap LoopValue)
  after_tool events (err e) rest = (events, err e)
  after_tool events (ok results) rest = rest results

  unfoldable pub execute_steps :
      List LoopEvent
      → GoMap LoopValue
      → List PlanStep
      → List LoopEvent × Result String (GoMap LoopValue)
  unfolding contains put
  execute_steps events results [] = (events, ok results)
  execute_steps events results (s ∷ rest) =
      let events' = events ++ tool_called s ∷ [] in
      let later =
        after_tool events' (tool_result s results (w.call_tool events s))
          (λ results'. execute_steps events' results' rest) in
      if contains s.tags "write" && not pd.allow_writes
      then (events, err "write operation requires approval")
      else later

-- `shouldRefinePlan`
unfoldable pub should_refine : LoopEvidence → Bool
unfolding contains_text
should_refine [] = false
should_refine ((k, v) ∷ rest) =
    if contains_text k "error" || contains_text k "unexpected" then true else should_refine rest

abbrev pub says_completed : Option LoopValue → Bool
says_completed (some (text s)) = s == "completed"
says_completed _ = false

abbrev pub says_true : Option LoopValue → Bool
says_true (some (flag b)) = b
says_true _ = false

-- `isGoalAchieved`
unfoldable pub is_goal_achieved : LoopEvidence → Bool
unfolding get
is_goal_achieved ev = says_completed (get ev "status") || says_true (get ev "goal_achieved")
