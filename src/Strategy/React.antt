-- ===== src/Strategy/React.antt =====
-- `ReActStrategy.Run` of internal/agent/strategy/react.go. `lower` is `strings.ToLower`.
pub mod Overrun
use forgeiq.Prelude.{
  ℕ, zero, suc, ◌+◌, String, not, ◌&&◌, Option, none, some, List, [], ◌∷◌, pos, pos_part, ltb_ℤ,
  is_some, if◌then◌else◌, ◌==◌,
}
use forgeiq.GoMap.{GoMap}
use forgeiq.Text.{contains_text}
use forgeiq.Contracts.Values.{Any, str, int, arr, nil}
use forgeiq.Catalog.Tools.{ToolInfo}
use forgeiq.Orchestrator.Steps.{ToolCall}
use forgeiq.Strategy.{Message, ConversationState, Budget, ModelDecision, Outcome, Backend, Input}
use forgeiq.Strategy.Progress.{
  invoke, Progress, effective, start, note, stopped, asked, result_of, trace_only, called,
  no_result,
}

abbrev pub react : String
react = "react"

-- The content of the last message of the user, or else the given text.
unfoldable pub latest_from : String → List Message → String
latest_from last [] = last
latest_from last (m ∷ rest) = latest_from (if m.role == "user" then m.content else last) rest

-- `latestUserText`
abbrev pub latest_user_text : ConversationState → String
latest_user_text s = latest_from "" s.messages

abbrev logs_args : String → GoMap Any
logs_args msg = ("query", str msg) ∷ ("limit", int (pos 5)) ∷ []

abbrev rag_args : String → GoMap Any
rag_args msg =
    ("query", str msg)
    ∷ ("available_datasets", arr nil)
    ∷ ("router_mode", str "rule_based")
    ∷ ("top_k", int (pos 5))
    ∷ []

module _ (lower : String → String) where
  -- `pickToolHeuristic`: the first tool of the two that the message asks for.
  unfoldable pub pick_tool : String → List ToolInfo → Option ToolCall
  unfolding contains_text
  pick_tool msg [] = none
  pick_tool msg (t ∷ rest) =
      if contains_text (lower msg) "logs" && t.name == "logs.search"
      then some (record { name = t.name; version = t.version; args = some (logs_args msg) })
      else if contains_text (lower msg) "rag" && t.name == "rag.single_retrieve"
      then some (record { name = t.name; version = t.version; args = some (rag_args msg) })
      else pick_tool msg rest

  module _ (b : Backend) (tools : List ToolInfo) (budget : Budget) where
    abbrev pub finish : Progress → Outcome
    finish p = result_of react "" p

    -- No tool is needed: the answer is the message.
    abbrev pub no_tool : ℕ → Progress → ModelDecision → String → Outcome
    no_tool i p dec msg =
        result_of react msg
          (note p (record (asked b i dec) { stop_reason = "final"; summary = "no tool needed" }))

    -- `next` is the rest of the loop.
    abbrev pub run_call : (Progress → Outcome) → ℕ → Progress → ModelDecision → ToolCall → Outcome
    run_call next i p dec c =
        let (p', r) = invoke b i c p in next (called b i p' (asked b i dec) c r)

    abbrev pub run_picked :
        (Progress → Outcome) → ℕ → Progress → ModelDecision → String → Option ToolCall → Outcome
    run_picked next i p dec msg none = no_tool i p dec msg
    run_picked next i p dec msg (some c) = run_call next i p dec c

    -- The model chose no tool.
    unfoldable pub guess : (Progress → Outcome) → ℕ → Progress → ModelDecision → Outcome
    unfolding pick_tool latest_from called
    guess next i p dec =
        let msg = latest_user_text p.state in
        if not (ltb_ℤ (pos p.tool_calls) budget.max_tool_calls)
        then finish (note p (record (asked b i dec) { stop_reason = "max_tool_calls" }))
        else run_picked next i p dec msg (pick_tool msg tools)

    unfoldable pub run_chosen :
        (Progress → Outcome) → ℕ → Progress → ModelDecision → Option ToolCall → Outcome
    unfolding guess called
    run_chosen next i p dec none = guess next i p dec
    run_chosen next i p dec (some c) =
        if c.name == "" then guess next i p dec else run_call next i p dec c

    unfoldable pub after_decision :
        (Progress → Outcome) → ℕ → Progress → ModelDecision × Option String → Outcome
    unfolding run_chosen
    after_decision next i p (dec, some e) =
        trace_only react (note p (record (asked b i dec) { stop_reason = "error"; error = e })) e
    after_decision next i p (dec, none) =
        if not (dec.final_answer == "") && not (is_some dec.tool_call)
        then result_of react dec.final_answer
            (note p (record (asked b i dec) { stop_reason = "final" }))
        else run_chosen next i p dec dec.tool_call

    -- The iteration `i`. The tool call budget is not looked at here.
    unfoldable pub iterate : (Progress → Outcome) → ℕ → Progress → Outcome
    unfolding after_decision
    iterate next i p =
        if ltb_ℤ budget.max_wall_time (b.elapsed i)
        then finish (note p (stopped i "max_wall_time"))
        else after_decision next i p (b.decide i p.state)

    unfoldable pub loop : ℕ → ℕ → Progress → Outcome
    unfolding iterate
    loop zero i p = finish p
    loop (suc n) i p = iterate (loop n (i + 1)) i p

  unfoldable pub run : Backend → Input → Outcome
  unfolding loop
  run b input =
      if not input.has_tooler
      then no_result "tool client is required"
      else if not input.has_modeler
      then no_result "model client is required"
      else let budget = effective 6 input.budget in
        loop b input.tools budget (pos_part budget.max_iterations) 1 (start input.state)
