-- ===== src/Orchestrator/Steps.antt =====
-- The step loop of `Orchestrator.Run`: budgets, the write gate, the tag and scope checks, the tool
-- call and the collection of evidence.
use forgeiq.Prelude.{
  ℕ, ◌+◌, String, concat, Bool, true, false, not, ◌&&◌, ◌||◌, Option, none, some, List, [], ◌∷◌,
  ◌++◌, Result, ok, err, ℤ, pos, ltb_ℤ, times_int64, ◌==◌, contains, if◌then◌else◌,
}
use forgeiq.GoMap.{GoMap, put}
use forgeiq.Contracts.{Task, PolicyDecision, PlanStep}
use forgeiq.Contracts.Values.{Any}

-- The arguments of `Tools.CallTool`.
pub record ToolCall : Type 0 where
  pub name : String
  pub version : String
  pub args : Option (GoMap Any)

abbrev pub call_of : PlanStep → ToolCall
call_of s = record { name = s.tool_name; version = s.tool_version; args = s.args }

-- What `Run` talks to. An answer of a tool and the time since the start (in nanoseconds, read before
-- a step) may depend on the calls that were made before. The agents answer with a payload.
pub record World : Type 0 where
  pub rule_agent : Task → Result String (GoMap Any)
  pub decision_agent : Task → Result String (GoMap Any)
  pub call_tool : List ToolCall → ToolCall → Result String (Option (GoMap Any))
  pub elapsed : List ToolCall → ℤ

pub data Evidence : Type 0 where
  policy_entry : PolicyDecision → Evidence
  step_error : String → Evidence
  step_out : Option (GoMap Any) → Evidence

-- How the loop ends.
pub data Stop : Type 0 where
  completed : GoMap Evidence → Stop
  needs_approval : String → String → Stop
  budget_tool_calls budget_time : Stop
  tags_blocked : String → Stop
  missing_scope : String → Stop
  tool_failed : String → Stop

-- Only the tags read and write are enforced.
unfoldable pub tags_allowed : List String → List String → Bool
unfolding contains
tags_allowed allow [] = true
tags_allowed allow (t ∷ ts) =
    if (t == "read" || t == "write") && not (contains allow t) then false else tags_allowed allow ts

-- The first required scope that the policy lacks.
unfoldable pub find_missing_scope : List String → List String → Option String
unfolding contains
find_missing_scope granted [] = none
find_missing_scope granted (rs ∷ rest) =
    if contains granted rs then find_missing_scope granted rest else some rs

abbrev pub or_missing_scope : Option String → Option Stop
or_missing_scope none = none
or_missing_scope (some rs) = some (missing_scope rs)

-- The checks before a step's call; `n` is the value of `toolCalls` after its increment.
unfoldable pub check_step : PolicyDecision → ℕ → ℤ → PlanStep → Option Stop
check_step pd n elapsed step =
    if ltb_ℤ pd.budgets.max_tool_calls (pos n)
    then some budget_tool_calls
    else if ltb_ℤ (times_int64 pd.budgets.max_seconds 1_000_000_000) elapsed
    then some budget_time
    else if contains step.tags "write" && not pd.allow_writes
    then some (needs_approval step.step_id step.tool_name)
    else if not (tags_allowed pd.tool_tag_allow step.tags)
    then some (tags_blocked step.tool_name)
    else or_missing_scope (find_missing_scope pd.scopes step.scopes)

-- After the call: the evidence to go on with, or the error that stops the run.
unfoldable pub record_result :
    PlanStep → Result String (Option (GoMap Any)) → GoMap Evidence → Result Stop (GoMap Evidence)
unfolding put
record_result step (ok out) ev = ok (put ev (concat "step_out_" step.step_id) (step_out out))
record_result step (err e) ev =
    if step.stop_on_err
    then err (tool_failed e)
    else ok (put ev (concat "step_error_" step.step_id) (step_error e))

-- `return` at a failed check, or go on with the call.
abbrev pub after_check : Option Stop → List ToolCall → List ToolCall × Stop → List ToolCall × Stop
after_check (some stop) made next = (made, stop)
after_check none made next = next

abbrev pub after_call :
    Result Stop (GoMap Evidence)
    → List ToolCall
    → (GoMap Evidence → List ToolCall × Stop)
    → List ToolCall × Stop
after_call (err stop) made next = (made, stop)
after_call (ok ev) made next = next ev

module _ (w : World) (pd : PolicyDecision) where
  -- `made` are the calls so far and `n` is `toolCalls`.
  unfoldable pub run_steps :
      List ToolCall → ℕ → GoMap Evidence → List PlanStep → List ToolCall × Stop
  run_steps made n ev [] = (made, completed ev)
  run_steps made n ev (step ∷ rest) =
      let made' = made ++ call_of step ∷ [] in
      after_check (check_step pd (n + 1) (w.elapsed made) step) made (
        after_call (record_result step (w.call_tool made (call_of step)) ev) made'
          (λ ev'. run_steps made' (n + 1) ev' rest))
