-- ===== src/Strategy/Progress.antt =====
-- What both strategies share: the budgets with their defaults, and the record of an iteration.
use forgeiq.Prelude.{
  ℕ, ◌+◌, String, Option, none, some, List, [], ◌∷◌, ◌++◌, Result, ok, err, ℤ, pos, ltb_ℤ,
  if◌then◌else◌,
}
use forgeiq.GoMap.{GoMap}
use forgeiq.Contracts.Values.{Any, str}
use forgeiq.Orchestrator.Steps.{ToolCall}
use forgeiq.Strategy.{
  Outcome, Message, ConversationState, Budget, ModelDecision, IterationTrace, ToolCallOut, Trace,
  Backend,
}

-- `if x <= 0 { x = default }`
abbrev pub or_default : ℕ → ℤ → ℤ
or_default default x = if ltb_ℤ (pos 0) x then x else pos default

-- Twenty seconds.
abbrev pub wall_time : ℕ
wall_time = 20_000_000_000

-- The budget that a run goes by, with 8 iterations as the default; the other default differs.
abbrev pub effective : ℕ → Budget → Budget
effective calls b = record {
  max_iterations = or_default 8 b.max_iterations;
  max_tool_calls = or_default calls b.max_tool_calls;
  max_wall_time = or_default wall_time b.max_wall_time;
}

-- The local variables of `Run`, and the calls that it has made of the tool client.
pub record Progress : Type 0 where
  pub state : ConversationState
  pub tool_calls : ℕ
  pub tool_outputs : List ToolCallOut
  pub iterations : List IterationTrace
  pub made : List ToolCall

abbrev pub start : ConversationState → Progress
start s = record { state = s; tool_calls = 0; tool_outputs = []; iterations = []; made = [] }

-- `Tooler.CallTool`
abbrev pub invoke :
    Backend → ℕ → ToolCall → Progress → Progress × Result String (Option (GoMap Any))
invoke b i c p = (record p { made = p.made ++ c ∷ [] }, b.call_tool i c)

abbrev pub note : Progress → IterationTrace → Progress
note p step = record p { iterations = p.iterations ++ step ∷ [] }

-- The trace of an iteration that is stopped before the model is asked.
abbrev pub stopped : ℕ → String → IterationTrace
stopped i reason = record {
  iteration = i;
  stop_reason = reason;
  summary = "";
  tool_call = none;
  tool_result = none;
  error = "";
  latency_ms = pos 0;
}

abbrev pub asked : Backend → ℕ → ModelDecision → IterationTrace
asked b i dec = record (stopped i "") { summary = dec.summary; latency_ms = b.latency i }

abbrev pub trace_of : String → Progress → Trace
trace_of name p = record { strategy = name; iterations = p.iterations }

-- `Result{FinalAnswer: answer, ToolOutputs: toolOutputs, Trace: trace}` and no error.
abbrev pub result_of : String → String → Progress → Outcome
result_of name answer p = record {
  result = record { final_answer = answer; tool_outputs = p.tool_outputs; trace = trace_of name p };
  error = none;
  made = p.made;
}

-- `Result{Trace: trace}` and an error.
abbrev pub trace_only : String → Progress → String → Outcome
trace_only name p e = record {
  result = record { final_answer = ""; tool_outputs = []; trace = trace_of name p };
  error = some e;
  made = p.made;
}

-- The message that tells the model of a tool's answer.
abbrev tool_message : ToolCall → String → Option (GoMap Any) → ℕ → Message
tool_message c content values now = record {
  role = "tool";
  content = content;
  name = c.name;
  values = values;
  ts = now;
}

abbrev say : ConversationState → Message → ConversationState
say s m = record s { messages = s.messages ++ m ∷ [] }

-- After a tool call: `toolCalls`, the outputs, the conversation and the trace.
unfoldable pub called :
    Backend
    → ℕ
    → Progress
    → IterationTrace
    → ToolCall
    → Result String (Option (GoMap Any))
    → Progress
called b i p step c (err e) = record p {
  state = say p.state (tool_message c "tool_error" (some (("error", str e) ∷ [])) (b.now i));
  tool_calls = p.tool_calls + 1;
  tool_outputs = p.tool_outputs ++ record { tool = c; out = none; error = e } ∷ [];
  iterations = p.iterations ++ record step { tool_call = some c; error = e } ∷ [];
}
called b i p step c (ok out) = record p {
  state = say p.state (tool_message c "tool_result" out (b.now i));
  tool_calls = p.tool_calls + 1;
  tool_outputs = p.tool_outputs ++ record { tool = c; out = out; error = "" } ∷ [];
  iterations = p.iterations ++ record step { tool_call = some c; tool_result = out } ∷ [];
}

-- `Run` with a missing client: no result, and an error.
abbrev pub no_result : String → Outcome
no_result e = record {
  result = record {
    final_answer = "";
    tool_outputs = [];
    trace = record { strategy = ""; iterations = [] };
  };
  error = some e;
  made = [];
}
