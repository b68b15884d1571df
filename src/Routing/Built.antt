-- ===== src/Routing/Built.antt =====
-- What the configuration makes of the routers.
use forgeiq.Text.Trim.{trim_right_char_idem, trim_space_idem}
use forgeiq.Prelude.{
  inr, inl, Bool-cases, refl, none, [], ◌↔◌, if-holds, err, ◌∷◌, map, All, ok, false, Ensures, ◌≡◌,
  some,
}
use forgeiq.Routing.Hybrid.{LlmClient, Library}
use forgeiq.Text.{trim_right_char, trim_space}
use forgeiq.Routing.Setup.{
  hybrid, simple, is_simple, hybrid_router, base_router, prepend, route_with, AgentRouterConfig,
  normal_agent, lacks_field, normalize_agents, new_router_from_config,
}
use forgeiq.Routing.{Result, Option, String, List, Chance, Agent}
use forgeiq.Routing.Choice.{IsRouter}
use forgeiq.Routing.Best.{route-IsRouter}
use forgeiq.Routing.Validated.{Rearranges}
use forgeiq.Routing.Answered.{hybrid_route-IsRouter}

-- An agent as the configuration leaves it: an id and a type with no white space around them, a URL
-- with no slash at its end, and none of them empty.
pub record IsNormal (a : Agent) : Type 0 where
  pub id_trimmed : trim_space a.id ≡ a.id
  pub type_trimmed : trim_space a.type ≡ a.type
  pub url_trimmed : trim_right_char b'/' a.base_url ≡ a.base_url
  pub complete : lacks_field a ≡ false

normal_agent-IsNormal :
    (a : Agent) → lacks_field (normal_agent a) ≡ false → IsNormal (normal_agent a)
normal_agent-IsNormal a h = record {
  id_trimmed = trim_space_idem a.id;
  type_trimmed = trim_space_idem a.type;
  url_trimmed = trim_right_char_idem b'/' (trim_space a.base_url);
  complete = h;
}

prepend_iff :
    (a : Agent) (out : List Agent) (r : Result String (List Agent))
    → (prepend a r ≡ ok (a ∷ out)) ↔ (r ≡ ok out)
prepend_iff a out (ok xs) = (λ h. cc, λ h. cc)
prepend_iff a out (err e) = (λ h. absurd (cc), λ h. absurd (cc))

prepend-Ensures :
    (P : Agent → Type 0) (a : Agent) (r : Result String (List Agent))
    → P a
    → Ensures (All P) r
    → Ensures (All P) (prepend a r)
prepend-Ensures P a (ok xs) p h = (p, h)
prepend-Ensures P a (err e) p h = tt

-- Agents are accepted all together or not at all: the result holds each of them in its order, trimmed,
-- and every one of them is then normal; where one lacks its id, type or URL, all are refused.
pub normalize_agents_iff :
    (agents : List Agent)
    → ((normalize_agents agents ≡ ok (map normal_agent agents))
        ↔ All (λ a. lacks_field (normal_agent a) ≡ false) agents)
      × Ensures (All IsNormal) (normalize_agents agents)
unfolding normalize_agents
normalize_agents_iff [] = ((λ h. tt, λ h. refl), tt)
normalize_agents_iff (a ∷ rest) =
    let ih = normalize_agents_iff rest in
    let (strip, join) =
      prepend_iff (normal_agent a) (map normal_agent rest) (normalize_agents rest) in
    elim (Bool-cases (lacks_field (normal_agent a))) [
      | inl e ↦ rw e ((λ h. absurd (cc), λ h. absurd (cc (h.0))), tt)
      | inr e ↦ rw e (
        (λ h. (refl, ih.0.0 (strip h)), λ h. join (ih.0.1 h.1)),
        prepend-Ensures IsNormal (normal_agent a) (normalize_agents rest)
            (normal_agent-IsNormal a e) ih.1,
      )
    ]

-- A router that the configuration describes keeps the promise of a router on the agents that it is
-- given, in the simple mode and in the hybrid mode, provided that sorting only changes the order: an
-- agent that it answers with is one of those agents and has the type asked for, and it answers
-- whenever the request names a type, other than white space, that one of them has.
pub route_with-IsRouter :
    (ch : Chance) (lib : Library) (lower : String → String) (connect : String → LlmClient)
    (c : Option AgentRouterConfig) (agents : List Agent)
    → Rearranges lib.sort_slice
    → IsRouter agents (route_with ch lib (new_router_from_config ch lower connect c agents))
unfolding new_router_from_config
route_with-IsRouter ch lib lower connect none agents sorts =
    route-IsRouter ch (base_router lower none agents)
route_with-IsRouter ch lib lower connect (some c) agents sorts =
    let base = base_router lower (some c) agents in
    let both = hybrid_router ch lower connect c agents in
    if-holds (λ r. IsRouter agents (route_with ch lib r)) (is_simple lower c) (simple base)
      (hybrid both) (λ e. route-IsRouter ch base)
      (λ e. hybrid_route-IsRouter lib both sorts (route-IsRouter ch base))
