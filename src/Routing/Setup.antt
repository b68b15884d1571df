-- ===== src/Routing/Setup.antt =====
-- How routers are built: the rest of internal/transport/a2a/router.go, `NewRouterFromConfig` of
-- hybrid_router.go and internal/transport/a2a/runtime_weights.go. `lower` is `strings.ToLower`.
use forgeiq.Prelude.{
  String, concat, Bool, true, false, not, ◌&&◌, ◌||◌, Option, none, some, List, [], ◌∷◌, Result, ok,
  err, ℤ, pos, ltb_ℤ, if◌then◌else◌, ◌==◌,
}
use forgeiq.GoMap.{GoMap}
use forgeiq.Text.{trim_space, trim_right_char}
use forgeiq.Float64.{Float64, one, lt}
use forgeiq.Float64.Arithmetic.{zero_float, five}
use forgeiq.Routing.{Agent, RouterOptions, Route, Chance}
use forgeiq.Routing.Router.{AgentRouter, route}
use forgeiq.Routing.Hybrid.{HybridRouter, LlmClient, Library, hybrid_route}

-- `LLMRouterConfig`, as far as the routers read it.
pub record LlmRouterConfig : Type 0 where
  pub enabled : Bool
  pub url : String
  pub max_candidates : ℤ

-- `AgentRouterConfig`, without the settings that only the commands read.
pub record AgentRouterConfig : Type 0 where
  pub enabled : Bool
  pub mode : String
  pub selection : String
  pub tie_break_random : Bool
  pub tie_epsilon : Float64
  pub softmax_top_n : ℤ
  pub softmax_temperature : Float64
  pub runtime_weights_enabled : Bool
  pub runtime_weights_max : Float64
  pub agents_json : String
  pub discovery_enabled : Bool
  pub discovery_path : String
  pub llm : LlmRouterConfig

-- 0.000001
abbrev pub millionth : Float64
millionth = record { bits = 0x3EB0C6F7A0B5ED8D }

abbrev pub default_options : RouterOptions
default_options = record {
  selection = "deterministic";
  tie_break_random = false;
  tie_epsilon = millionth;
  softmax_top_n = pos 5;
  softmax_temperature = one;
  runtime_weights_enabled = false;
  runtime_weights_max = five;
  runtime_weights = none;
}

-- `if x > 0 { o.f = x }`
abbrev pub if_positive : Float64 → Float64 → Float64
if_positive x default = if lt zero_float x then x else default

module _ (lower : String → String) where
  abbrev pub selection_of : String → String
  selection_of text =
      let s = lower (trim_space text) in
      let chosen = if not (s == "") then s else "deterministic" in
      if not (chosen == "deterministic") && not (chosen == "softmax")
      then "deterministic"
      else chosen

  -- `optionsFromConfig`
  unfoldable pub options_from_config : Option AgentRouterConfig → RouterOptions
  unfolding trim_space lt
  options_from_config none = default_options
  options_from_config (some c) = record {
    selection = selection_of c.selection;
    tie_break_random = c.tie_break_random;
    tie_epsilon = if_positive c.tie_epsilon millionth;
    softmax_top_n = if ltb_ℤ (pos 0) c.softmax_top_n then c.softmax_top_n else pos 5;
    softmax_temperature = if_positive c.softmax_temperature one;
    runtime_weights_enabled = c.runtime_weights_enabled;
    runtime_weights_max = if_positive c.runtime_weights_max five;
    runtime_weights = none;
  }

-- `strings.TrimRight(strings.TrimSpace(s), "/")`
abbrev pub trim_url : String → String
trim_url s = trim_right_char b'/' (trim_space s)

abbrev pub normal_agent : Agent → Agent
normal_agent a = record a {
  id = trim_space a.id;
  type = trim_space a.type;
  base_url = trim_url a.base_url;
}

abbrev pub lacks_field : Agent → Bool
lacks_field a = a.id == "" || (a.type == "" || a.base_url == "")

abbrev pub prepend : Agent → Result String (List Agent) → Result String (List Agent)
prepend a (ok out) = ok (a ∷ out)
prepend a (err e) = err e

-- The loop under "Normalize".
unfoldable pub normalize_agents : List Agent → Result String (List Agent)
unfolding trim_space trim_right_char
normalize_agents [] = ok []
normalize_agents (a ∷ rest) =
    let later = prepend (normal_agent a) (normalize_agents rest) in
    if lacks_field (normal_agent a) then err "agent requires id,type,base_url" else later

abbrev normalized : Result String (List Agent) → Result String (List Agent)
unfolding normalize_agents
normalized (err e) = err (concat "invalid AGENT_ROUTER_AGENTS_JSON: " e)
normalized (ok agents) = normalize_agents agents

-- The agents of the configuration; `unmarshal` is the JSON decoder.
unfoldable pub agents_from_config :
    (String → Result String (List Agent)) → AgentRouterConfig → Result String (List Agent)
unfolding trim_space normalize_agents
agents_from_config unmarshal c =
    if trim_space c.agents_json == ""
    then ok []
    else normalized (unmarshal (trim_space c.agents_json))

abbrev router_of : RouterOptions → Result String (List Agent) → Result String AgentRouter
router_of o (err e) = err e
router_of o (ok agents) = ok (record { agents = agents; options = o })

-- `NewAgentRouterFromConfig`
unfoldable pub new_agent_router_from_config :
    (String → String)
    → (String → Result String (List Agent))
    → Option AgentRouterConfig
    → Result String AgentRouter
unfolding options_from_config agents_from_config
new_agent_router_from_config lower unmarshal none = err "config is nil"
new_agent_router_from_config lower unmarshal (some c) =
    router_of (options_from_config lower (some c)) (agents_from_config unmarshal c)

-- `AgentCard`, and `Discover` with what each base URL answers.
pub record AgentCard : Type 0 where
  pub name : String
  pub description : String
  pub task_types : List String
  pub endpoint : String
  pub version : String

abbrev or_old : String → String → String
or_old new old = if not (new == "") then new else old

abbrev or_old_list : List String → List String → List String
or_old_list [] old = old
or_old_list (x ∷ xs) old = x ∷ xs

abbrev pub with_card : Agent → Result String AgentCard → Agent
with_card a (err e) = a
with_card a (ok card) = record a {
  name = or_old card.name a.name;
  description = or_old card.description a.description;
  task_types = or_old_list card.task_types a.task_types;
  version = or_old card.version a.version;
}

unfoldable pub discover :
    (String → String → Result String AgentCard) → String → List Agent → List Agent
discover fetch path [] = []
discover fetch path (a ∷ rest) =
    with_card a (fetch a.base_url (if path == "" then "/.well-known/agent.json" else path))
    ∷ discover fetch path rest

-- The two kinds of router.
pub data AnyRouter : Type 0 where
  simple : AgentRouter → AnyRouter
  hybrid : HybridRouter → AnyRouter

abbrev pub route_with : Chance → Library → AnyRouter → Route
route_with ch lib (simple r) = route ch (some r)
route_with ch lib (hybrid r) = hybrid_route lib (some r)

abbrev or_default : ℤ → ℤ
or_default n = if ltb_ℤ (pos 0) n then n else pos 20

abbrev pub base_router : (String → String) → Option AgentRouterConfig → List Agent → AgentRouter
base_router lower c agents = record { agents = agents; options = options_from_config lower c }

abbrev pub hybrid_router :
    Chance
    → (String → String)
    → (String → LlmClient)
    → AgentRouterConfig
    → List Agent
    → HybridRouter
hybrid_router ch lower connect c agents = record {
  agents = agents;
  llm = some (connect (trim_space c.llm.url));
  fallback = route ch (some (base_router lower (some c) agents));
  max_candidates = or_default c.llm.max_candidates;
  options = options_from_config lower (some c);
}

abbrev pub is_simple : (String → String) → AgentRouterConfig → Bool
is_simple lower c =
    not c.enabled
    || (not (lower (trim_space c.mode) == "hybrid")
        || (not c.llm.enabled || trim_space c.llm.url == ""))

-- `NewRouterFromConfig`; `connect` makes the client of the language model at a URL.
unfoldable pub new_router_from_config :
    Chance
    → (String → String)
    → (String → LlmClient)
    → Option AgentRouterConfig
    → List Agent
    → AnyRouter
new_router_from_config ch lower connect none agents = simple (base_router lower none agents)
new_router_from_config ch lower connect (some c) agents =
    if is_simple lower c
    then simple (base_router lower (some c) agents)
    else hybrid (hybrid_router ch lower connect c agents)

abbrev pub Weights : Type 0
Weights = Option (GoMap (Option (GoMap (Option (GoMap Float64)))))

abbrev weighted : RouterOptions → Weights → Float64 → RouterOptions
weighted o weights max = record o {
  runtime_weights_enabled = true;
  runtime_weights_max = max;
  runtime_weights = weights;
}

-- A nil map becomes an empty one.
abbrev never_nil : Weights → Weights
never_nil none = some []
never_nil (some w) = some w

-- `ApplyRuntimeWeights`: only the options of the router itself change, not those of a fallback.
unfoldable pub apply_runtime_weights : AnyRouter → Weights → Float64 → AnyRouter
apply_runtime_weights (simple r) weights max =
    simple (record r { options = weighted r.options (never_nil weights) max })
apply_runtime_weights (hybrid r) weights max =
    hybrid (record r { options = weighted r.options weights max })
