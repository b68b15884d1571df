-- ===== src/Contracts.antt =====
-- The data that the control plane passes around: internal/controlplane/contracts/types.go and
-- internal/controlplane/contracts/run-book-a2a.go.
pub mod Values
use forgeiq.Prelude.{ℕ, String, Bool, Option, List, ℤ}
use forgeiq.GoMap.{GoMap}
use forgeiq.Float64.{Float64}
use forgeiq.Contracts.Values.{Any}

pub record Task : Type 0 where
  pub id : String
  pub tenant_id : String
  pub type : String
  -- `none` is the nil map
  pub input : Option (GoMap Any)
  pub metadata : GoMap String
  pub created_at : ℕ

pub record Budget : Type 0 where
  pub max_tool_calls : ℤ
  pub max_seconds : ℤ

pub record PolicyDecision : Type 0 where
  pub allowed : Bool
  pub allow_writes : Bool
  pub scopes : List String
  pub tool_tag_allow : List String
  pub budgets : Budget
  pub reasons : GoMap String

pub record PlanStep : Type 0 where
  pub step_id : String
  pub goal : String
  pub tool_name : String
  pub tool_version : String
  pub tags : List String
  pub scopes : List String
  pub args : Option (GoMap Any)
  pub stop_on_err : Bool

pub record Plan : Type 0 where
  pub steps : List PlanStep
  pub confidence : Float64
  pub fallbacks : List PlanStep

-- `AgentKind` is a string type: a value is one of the four constants or any other text.
pub data AgentKind : Type 0 where
  rule_kind runbook_kind observability_kind exec_kind : AgentKind
  other_kind : String → AgentKind

pub record RuleAgentOutput : Type 0 where
  pub runbook_id : String
  pub severity : String
  pub requires_human_approval : Bool

pub record RunbookStep : Type 0 where
  pub id : String
  pub name : String
  pub description : String
  pub agent : AgentKind
  pub task_type : String
  pub input : Option (GoMap Any)
  pub requires_approval : Bool

pub record Runbook : Type 0 where
  pub id : String
  pub version : String
  pub name : String
  pub diagnostics : List RunbookStep
  pub actions : List RunbookStep
  pub default_owner : String

pub record ObservabilityOutput : Type 0 where
  pub summary : String
  -- `none` is the nil map
  pub signals : Option (GoMap Float64)
  pub engine : String
  pub degraded : Bool
  pub error : String
  pub raw : Any

pub record ExecOutput : Type 0 where
  pub success : Bool
  pub details : String
