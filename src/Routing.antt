-- ===== src/Routing.antt =====
-- The choice of an A2A agent for a request: internal/transport/a2a/router.go and hybrid_router.go.
pub mod Score
pub mod Router
pub mod Hybrid
pub mod Setup
pub mod Built
pub mod Order
pub mod Choice
pub mod Best
pub mod Validated
pub mod Answered
pub mod Weights
use forgeiq.Prelude.{ℕ, String, Bool, Option, List, ℤ, Result}
use forgeiq.GoMap.{GoMap}
use forgeiq.Float64.{Float64}

pub record Agent : Type 0 where
  pub id : String
  pub type : String
  pub base_url : String
  pub vendor : String
  pub endpoints : GoMap String
  pub name : String
  pub description : String
  pub task_types : List String
  pub tags : List String
  pub version : String
  pub weight : Float64
  pub api_key : String
  pub token : String
  pub headers : GoMap String

pub record RouteRequest : Type 0 where
  pub agent_type : String
  pub task_type : String
  pub tags : List String
  pub goal : String
  pub seed : String

-- An agent with its score and the reasons for it.
pub record ScoredAgent : Type 0 where
  pub agent : Agent
  pub score : Float64
  pub reasons : List String

-- What the routers write into the debug map.
pub data DebugValue : Type 0 where
  count : ℕ → DebugValue
  text : String → DebugValue
  number : Float64 → DebugValue
  texts : List String → DebugValue
  -- the candidates in their order: an entry's rank is its position, from 1
  ranking : List ScoredAgent → DebugValue

pub record RouteResult : Type 0 where
  pub agent : Agent
  pub capability_id : String
  pub reason : String
  -- `none` is the nil map
  pub debug : Option (GoMap DebugValue)

-- `Router`
abbrev pub Route : Type 0
Route = RouteRequest → Result String RouteResult

pub record RouterOptions : Type 0 where
  -- any text but "softmax" selects the first candidate
  pub selection : String
  pub tie_break_random : Bool
  pub tie_epsilon : Float64
  pub softmax_top_n : ℤ
  pub softmax_temperature : Float64
  pub runtime_weights_enabled : Bool
  pub runtime_weights_max : Float64
  -- by agent type, task type and agent id; `none` is a nil map
  pub runtime_weights : Option (GoMap (Option (GoMap (Option (GoMap Float64)))))

-- What the routers take of Go's library: the FNV hash of a text as a seed, the numbers that a source
-- with a seed draws first, and the exponential.
pub record Chance : Type 0 where
  pub hash_sum : String → ℕ
  -- `rng.Intn(n)`
  pub intn : ℕ → ℕ → ℕ
  -- `rng.Float64()`
  pub float64 : ℕ → Float64
  pub exp : Float64 → Float64
