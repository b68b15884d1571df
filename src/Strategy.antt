-- ===== src/Strategy.antt =====
-- The agent strategies of internal/agent/strategy: loops that ask a language model for an answer or for
-- a tool call, and feed the tool's result back to it. The types are those of types.go and
-- interfaces.go.
pub mod Progress
pub mod Calls
pub mod FunctionCalling
pub mod React
use forgeiq.Prelude.{Bool, ℕ, String, Option, List, ℤ, Result}
use forgeiq.GoMap.{GoMap}
use forgeiq.Contracts.Values.{Any}
use forgeiq.Catalog.Tools.{ToolInfo}
use forgeiq.Orchestrator.Steps.{ToolCall}

-- `Role` is a string type.
pub record Message : Type 0 where
  pub role : String
  pub content : String
  pub name : String
  pub values : Option (GoMap Any)
  pub ts : ℕ

pub record ConversationState : Type 0 where
  pub thread_id : String
  pub messages : List Message

-- `MaxWallTime` in nanoseconds.
pub record Budget : Type 0 where
  pub max_iterations : ℤ
  pub max_tool_calls : ℤ
  pub max_wall_time : ℤ

pub record ModelDecision : Type 0 where
  pub final_answer : String
  pub tool_call : Option ToolCall
  pub summary : String

-- The model output of an iteration is its summary; the metadata is never set.
pub record IterationTrace : Type 0 where
  pub iteration : ℕ
  pub stop_reason : String
  pub summary : String
  pub tool_call : Option ToolCall
  pub tool_result : Option (GoMap Any)
  pub error : String
  pub latency_ms : ℤ

pub record ToolCallOut : Type 0 where
  pub tool : ToolCall
  pub out : Option (GoMap Any)
  pub error : String

-- Without the times of its start and its end.
pub record Trace : Type 0 where
  pub strategy : String
  pub iterations : List IterationTrace

pub record StrategyResult : Type 0 where
  pub final_answer : String
  pub tool_outputs : List ToolCallOut
  pub trace : Trace

-- The result and the error, of which Go returns both, and the calls that the run made of the tool
-- client, in their order.
pub record Outcome : Type 0 where
  pub result : StrategyResult
  pub error : Option String
  pub made : List ToolCall

-- What a strategy talks to. An answer may depend on the iteration and on the conversation so far; the
-- model's decision comes with an error if there is one.
pub record Backend : Type 0 where
  pub decide : ℕ → ConversationState → ModelDecision × Option String
  pub call_tool : ℕ → ToolCall → Result String (Option (GoMap Any))
  -- the time since the start, and the latency of the model, of an iteration
  pub elapsed : ℕ → ℤ
  pub latency : ℕ → ℤ
  pub now : ℕ → ℕ

-- `Input`, with nil clients as missing ones; the model's configuration and the tools' schemas only
-- reach the model.
pub record Input : Type 0 where
  pub state : ConversationState
  pub tools : List ToolInfo
  pub budget : Budget
  pub has_tooler : Bool
  pub has_modeler : Bool
