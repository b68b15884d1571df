-- ===== src/Strategy/FunctionCalling/Limits.antt =====
-- The budgets of the function calling strategy.
use forgeiq.Prelude.{
  ℕ, zero, suc, ◌+◌, ◌≤◌, String, refl, not, ◌&&◌, Option, none, some, pos, pos_part, ltb_ℤ,
  is_some, if-holds, arith, ◌==◌,
}
use forgeiq.Orchestrator.Steps.{ToolCall}
use forgeiq.Strategy.{Budget, ModelDecision, Outcome, Backend, Input}
use forgeiq.Strategy.Progress.{or_default, Progress, asked, start, effective}
use forgeiq.Strategy.Calls.{
  start-IsCounted, no_result-IsWithin, IsWithin, IsCounted, note-IsWithin, called-IsCounted,
}
use forgeiq.Strategy.FunctionCalling.{run_call, after_decision, iterate, loop, run}

module _ (b : Backend) (budget : Budget) (rounds : ℕ) where
  abbrev calls : ℕ
  calls = pos_part budget.max_tool_calls

  module _ (n i : ℕ) (next : Progress → Outcome) (p : Progress)
      (h : IsCounted calls rounds (suc n) p)
      (rest : (q : Progress) → IsCounted calls rounds n q → IsWithin calls rounds (next q)) where
    run_call-IsWithin :
        (dec : ModelDecision) (c : Option ToolCall)
        → p.tool_calls + 1 ≤ calls
        → IsWithin calls rounds (run_call b budget next i p dec c)
    unfolding run_call
    run_call-IsWithin dec none k = note-IsWithin calls rounds n p h _ _ refl refl refl
    run_call-IsWithin dec (some c) k =
        if-holds (IsWithin calls rounds) (c.name == "") _ _
          (λ e. note-IsWithin calls rounds n p h _ _ refl refl refl)
          (λ e. rest _ (called-IsCounted calls rounds n p h b i (asked b i dec) c _ k))

    after_decision-IsWithin :
        (answer : ModelDecision × Option String)
        → p.tool_calls + 1 ≤ calls
        → IsWithin calls rounds (after_decision b budget next i p answer)
    unfolding after_decision
    after_decision-IsWithin (dec, some e) k = note-IsWithin calls rounds n p h _ _ refl refl refl
    after_decision-IsWithin (dec, none) k =
        if-holds (IsWithin calls rounds)
          (not (dec.final_answer == "") && not (is_some dec.tool_call)) _ _
          (λ e. note-IsWithin calls rounds n p h _ _ refl refl refl)
          (λ e. run_call-IsWithin dec dec.tool_call k)

    iterate-IsWithin : IsWithin calls rounds (iterate b budget next i p)
    unfolding iterate
    iterate-IsWithin =
        if-holds (IsWithin calls rounds) (ltb_ℤ budget.max_wall_time (b.elapsed i)) _ _
          (λ e. note-IsWithin calls rounds n p h _ _ refl refl refl)
          (λ e.
            if-holds (IsWithin calls rounds) (not (ltb_ℤ (pos p.tool_calls) budget.max_tool_calls))
              _ _ (λ f. note-IsWithin calls rounds n p h _ _ refl refl refl)
              (λ f. after_decision-IsWithin (b.decide i p.state) (ground arith)))

  loop-IsWithin :
      (n i : ℕ) (p : Progress)
      → IsCounted calls rounds n p
      → IsWithin calls rounds (loop b budget n i p)
  unfolding loop
  loop-IsWithin zero i p h = record {
    calls_bounded = omega (arith, h.counted, h.calls_left);
    rounds_bounded = omega (arith, h.rounds_left);
    recorded = h.recorded;
  }
  loop-IsWithin (suc n) i p h =
      iterate-IsWithin n i (loop b budget n (i + 1)) p h (loop-IsWithin n (i + 1))

-- Whatever the model and the tools answer, and whether the calls succeed or fail, a run calls the tool
-- client no more often than the budget allows, in no more iterations than it allows, and its trace
-- records exactly the calls that it made, in their order; a budget that is not positive counts as 8.
pub run-IsWithin :
    (b : Backend) (input : Input)
    → IsWithin
        (pos_part (or_default 8 input.budget.max_tool_calls))
        (pos_part (or_default 8 input.budget.max_iterations))
        (run b input)
unfolding run
run-IsWithin b input =
    let budget = effective 8 input.budget in
    let calls = pos_part budget.max_tool_calls in
    let rounds = pos_part budget.max_iterations in
    let none_made = λ (e : String). no_result-IsWithin calls rounds e in
    if-holds (IsWithin calls rounds) (not input.has_tooler) _ _
      (λ e. none_made "tool client is required")
      (λ e.
        if-holds (IsWithin calls rounds) (not input.has_modeler) _ _
          (λ f. none_made "model client is required")
          (λ f.
            loop-IsWithin b budget rounds rounds 1 (start input.state)
              (start-IsCounted calls rounds input.state)))
