-- ===== src/Strategy/FunctionCalling.antt =====
-- `FunctionCallingStrategy.Run` of internal/agent/strategy/function_calling.go.
pub mod Limits
use forgeiq.Prelude.{
  ℕ, zero, suc, ◌+◌, String, not, ◌&&◌, Option, none, some, pos, pos_part, ltb_ℤ, is_some,
  if◌then◌else◌, ◌==◌,
}
use forgeiq.Orchestrator.Steps.{ToolCall}
use forgeiq.Strategy.{Budget, ModelDecision, Outcome, Backend, Input}
use forgeiq.Strategy.Progress.{
  invoke, no_result, Progress, effective, start, note, stopped, asked, result_of, trace_only,
  called,
}

abbrev neither : String
neither = "model returned neither final_answer nor tool_call"

abbrev name_of : String
name_of = "function_calling"

module _ (b : Backend) (budget : Budget) where
  -- `break`, and the end of the loop.
  abbrev pub finish : Progress → Outcome
  finish p = result_of name_of "" p

  -- An answer with no tool call, or one with no name.
  abbrev pub no_call : ℕ → Progress → ModelDecision → Outcome
  no_call i p dec =
      trace_only name_of
        (note p (record (asked b i dec) { stop_reason = "error"; error = neither })) neither

  -- `next` is the rest of the loop.
  unfoldable pub run_call :
      (Progress → Outcome) → ℕ → Progress → ModelDecision → Option ToolCall → Outcome
  unfolding called
  run_call next i p dec none = no_call i p dec
  run_call next i p dec (some c) =
      if c.name == ""
      then no_call i p dec
      else let (p', r) = invoke b i c p in next (called b i p' (asked b i dec) c r)

  unfoldable pub after_decision :
      (Progress → Outcome) → ℕ → Progress → ModelDecision × Option String → Outcome
  unfolding run_call
  after_decision next i p (dec, some e) =
      trace_only name_of (note p (record (asked b i dec) { stop_reason = "error"; error = e })) e
  after_decision next i p (dec, none) =
      if not (dec.final_answer == "") && not (is_some dec.tool_call)
      then result_of name_of dec.final_answer
          (note p (record (asked b i dec) { stop_reason = "final" }))
      else run_call next i p dec dec.tool_call

  -- The iteration `i`.
  unfoldable pub iterate : (Progress → Outcome) → ℕ → Progress → Outcome
  unfolding after_decision
  iterate next i p =
      if ltb_ℤ budget.max_wall_time (b.elapsed i)
      then finish (note p (stopped i "max_wall_time"))
      else if not (ltb_ℤ (pos p.tool_calls) budget.max_tool_calls)
      then finish (note p (stopped i "max_tool_calls"))
      else after_decision next i p (b.decide i p.state)

  -- With the number of the iterations that are left.
  unfoldable pub loop : ℕ → ℕ → Progress → Outcome
  unfolding iterate
  loop zero i p = finish p
  loop (suc n) i p = iterate (loop n (i + 1)) i p

unfoldable pub run : Backend → Input → Outcome
unfolding loop
run b in' =
    if not in'.has_tooler
    then no_result "tool client is required"
    else if not in'.has_modeler
    then no_result "model client is required"
    else let budget = effective 8 in'.budget in
      loop b budget (pos_part budget.max_iterations) 1 (start in'.state)
