-- ===== src/Examples/Routing.antt =====
-- Routers over three agents.
use forgeiq.Routing.Built.{route_with-IsRouter}
use forgeiq.Routing.Weights.{sampled_index-lt}
use forgeiq.Routing.Validated.{hybrid_route-From, shortlist, Rearranges, From}
use forgeiq.Routing.Score.{clamp_weight}
use forgeiq.Routing.Hybrid.{hybrid_route, LlmClient, Library, HybridRouter}
use forgeiq.Routing.Best.{route-IsRouter, route_outcome, route-IsBest, IsBest}
use forgeiq.Text.{trim_space}
use forgeiq.Routing.Choice.{IsRouter}
use forgeiq.Routing.Answered.{hybrid_route-IsRouter}
use forgeiq.Prelude.{
  concat, ◌≤◌, length, ltb_ℤ, ◌<◌, err, String, ◌≡◌, refl, Bool, true, false, Option, none, some,
  List, [], ◌∷◌, ok, pos, Ensures, sort_stable, sort_stable-All,
}
use forgeiq.Float64.{is_nan, Float64, one, ten, lt}
use forgeiq.Float64.Arithmetic.{zero_float, five, fifty}
use forgeiq.Routing.{ScoredAgent, Agent, RouteRequest, Chance, RouteResult}
use forgeiq.Routing.Router.{
  sample_size, sampled_index, trimmed, scored, candidates, AgentRouter, route,
}
use forgeiq.Routing.Setup.{
  options_from_config, base_router, new_router_from_config, hybrid_router, route_with,
  normalize_agents, AgentRouterConfig, default_options,
}

abbrev agent : String → String → Float64 → Agent
agent id type weight = record {
  id = id;
  type = type;
  base_url = "http://agent";
  vendor = "";
  endpoints = [];
  name = id;
  description = "";
  task_types = "triage" ∷ [];
  tags = "sre" ∷ [];
  version = "1";
  weight = weight;
  api_key = "";
  token = "";
  headers = [];
}

abbrev agents : List Agent
agents = agent "b" "rule" five ∷ agent "a" "rule" five ∷ agent "c" "decision" ten ∷ []

abbrev request : RouteRequest
request = record {
  agent_type = " rule ";
  task_type = "triage";
  tags = "sre" ∷ "eu" ∷ [];
  goal = "";
  seed = "task-1";
}

abbrev chance : Chance
chance = record { hash_sum = λ s. 7; intn = λ seed n. 1; float64 = λ seed. one; exp = λ x. one }

abbrev router : AgentRouter
router = record { agents = agents; options = default_options }

abbrev picked : RouteRequest → Option String
unfolding route
picked req = elim (route chance (some router) req) [ ok res ↦ some res.agent.id | _ ↦ none ]

-- Both rule agents score 65.1; the one with the smaller id is taken.
smaller_id : picked request ≡ some "a"
unfolding route
smaller_id = refl

-- The same request to a router that samples: the last index of the sample.
sampled :
    (elim (route chance
      (some (record router { options = record default_options { selection = "softmax" } }))
      request) [ ok res ↦ some res.agent.id | _ ↦ none ])
    ≡ some "b"
unfolding route
sampled = refl

highest_score : picked (record request { agent_type = "decision" }) ≡ some "c"
unfolding route
highest_score = refl

route-IsRouter_example : IsRouter agents (route chance (some router))
route-IsRouter_example = route-IsRouter chance router

route-IsBest_example :
    Ensures (IsBest default_options (trimmed request) agents) (route chance (some router) request)
unfolding candidates trim_space is_nan scored
route-IsBest_example = route-IsBest chance router request (λ e. cc) refl (refl, (refl, tt))

route_outcome_example : (res : RouteResult) × (route chance (some router) request ≡ ok res)
unfolding trim_space
route_outcome_example = (route_outcome chance router request).2 (λ e. cc) (λ h. absurd (h.0 refl))

abbrev first : ScoredAgent
first = scored default_options request (agent "a" "rule" five)

abbrev second : ScoredAgent
second = scored default_options request (agent "b" "rule" five)

sampled_index-lt_example :
    (sampled_index chance default_options request first (first ∷ second ∷ [])
      < sample_size chance default_options request 2)
    × (sample_size chance default_options request 2 ≤ 2)
    × (ltb_ℤ (pos 0) (pos 5) ≡ true → sample_size chance default_options request 2 ≤ 5)
sampled_index-lt_example = sampled_index-lt chance default_options request first (second ∷ [])

-- A weight of 50 is brought down to the bound 5.
clamped : clamp_weight five fifty ≡ five
unfolding clamp_weight
clamped = refl

-- One agent without an id refuses all.
one_refused :
    normalize_agents (agent " " "rule" five ∷ agents) ≡ err "agent requires id,type,base_url"
unfolding normalize_agents
one_refused = refl

-- Go's unstable sort, by a stable one.
abbrev by_score : ScoredAgent → ScoredAgent → Bool
by_score c d = lt d.score c.score

abbrev library : Library
library = record { sort_slice = sort_stable by_score; marshal = λ cands. ok "[]" }

sorting : Rearranges library.sort_slice
sorting = record { keeps = λ P xs. let both = sort_stable-All by_score P xs in (both.1, both.0) }

-- A model that answers with an agent of another type, and then with a candidate.
abbrev model : LlmClient
model prompt = (
  record {
    agent_id = "";
    capability_id = "";
    confidence = zero_float;
    reason = "";
    raw = "";
    ranked =
        record { agent_id = "c"; capability_id = "x"; score = one }
        ∷ record { agent_id = " b"; capability_id = "y"; score = one }
        ∷ [];
  },
  none,
)

abbrev config : AgentRouterConfig
config = record {
  enabled = true;
  mode = "hybrid";
  selection = "";
  tie_break_random = false;
  tie_epsilon = zero_float;
  softmax_top_n = pos 0;
  softmax_temperature = zero_float;
  runtime_weights_enabled = false;
  runtime_weights_max = zero_float;
  agents_json = "";
  discovery_enabled = false;
  discovery_path = "";
  llm = record { enabled = true; url = "http://llm"; max_candidates = pos 2 };
}

abbrev both : HybridRouter
both = hybrid_router chance (λ s. s) (λ url. model) config agents

-- The ranked entry that is no candidate is skipped.
second_entry :
    (elim (hybrid_route library (some both) request) [
      | ok res ↦ some (concat res.agent.id res.capability_id)
      | _ ↦ none
    ])
    ≡ some "by"
unfolding hybrid_route sort_stable options_from_config
second_entry = refl

hybrid_route-From_example :
    Ensures
      (From both request (shortlist library both request))
      (hybrid_route library (some both) request)
    × (ltb_ℤ (pos 0) (pos 2) ≡ true → length (shortlist library both request) ≤ 2)
hybrid_route-From_example = hybrid_route-From library both request

hybrid_route-IsRouter_example : IsRouter agents (hybrid_route library (some both))
hybrid_route-IsRouter_example =
    hybrid_route-IsRouter library both sorting
      (route-IsRouter chance (base_router (λ s. s) (some config) agents))

route_with-IsRouter_example : IsRouter agents (
    route_with chance library
      (new_router_from_config chance (λ s. s) (λ url. model) (some config) agents))
route_with-IsRouter_example =
    route_with-IsRouter chance library (λ s. s) (λ url. model) (some config) agents sorting
