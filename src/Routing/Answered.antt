-- ===== src/Routing/Answered.antt =====
-- `HybridRouter.Route` answers where its fallback does, and so keeps the promise of a router.
use forgeiq.Routing.Validated.{
  Rearranges, shortlist, shortlist-IsRouted, From-IsRouted, hybrid_route-From,
}
use forgeiq.Text.Trim.{trim_space_idem}
use forgeiq.GoMap.{put}
use forgeiq.Text.{trim_space}
use forgeiq.Routing.Router.{Debug, trimmed, scored}
use forgeiq.Prelude.{
  List, ne_of_==_false, ◌≢◌, ◌<◌, ℕ, String, arith, length, Ensures-map, ℤ, refl, none,
  Option-cases, Result, Option, ok, zero, [], inr, inl, eq_iff, ◌==◌, Bool-cases, All-map, ◌∷◌, suc,
  some, ◌≡◌, take, map, All,
}
use forgeiq.Routing.Hybrid.{
  build_prompt, kept, hybrid_route, answered, ranked_debug, confirm, answer_from, LlmClient,
  selection, LlmChoice, fall_back_without_llm, fall_back, ask, after_choice, top_candidates,
  HybridRouter, collect_typed, Library,
}
use forgeiq.Routing.{text, RouteResult, RouterOptions, RouteRequest, ScoredAgent, Agent}
use forgeiq.Routing.Choice.{IsRouter}

-- The router answers where its fallback does and there is a candidate.
module _ (r : HybridRouter) (req : RouteRequest) (cands : List Agent) (given : RouteResult)
    (stands_by : r.fallback req ≡ ok given) where
  abbrev Answers : Result String RouteResult → Type 0
  Answers out = (res : RouteResult) × (out ≡ ok res)

  fall_back-Answers : (d : Debug) → Answers (fall_back d (r.fallback req))
  unfolding fall_back
  fall_back-Answers d = rw stands_by (_, refl)

  fall_back_without_llm-Answers : (d : Debug) → Answers (fall_back_without_llm d (r.fallback req))
  unfolding fall_back_without_llm
  fall_back_without_llm-Answers d = elim (Option-cases given.debug) [
    | inl e ↦ rw (stands_by, e) (_, refl)
    | inr (d', e) ↦ rw (stands_by, e) (_, refl)
  ]

  confirm-Answers :
      (sel : String × String) (d : Debug) (found : Option Agent)
      → Answers (confirm r req cands sel d found)
  unfolding confirm
  confirm-Answers sel d none = fall_back-Answers (put d "llm_invalid_agent" (text sel.0))
  confirm-Answers sel d (some a) = (_, refl)

  after_choice-Answers :
      (d : Debug) (answer : LlmChoice × Option String) → Answers (after_choice r req cands d answer)
  unfolding after_choice
  after_choice-Answers d (c, none) =
      confirm-Answers (selection cands c) (ranked_debug c (answered c d)) _
  after_choice-Answers d (c, some e) = fall_back-Answers (put (answered c d) "llm_err" (text e))

  ask-Answers :
      (lib : Library) (d : Debug) (llm : Option LlmClient) → Answers (ask r req cands lib d llm)
  unfolding ask
  ask-Answers lib d none = fall_back_without_llm-Answers d
  ask-Answers lib d (some llm) = after_choice-Answers d (llm (build_prompt lib req cands))

answer_from-Answers :
    (lib : Library) (r : HybridRouter) (req : RouteRequest) (top : List Agent × List ScoredAgent)
    (given : RouteResult)
    → r.fallback req ≡ ok given
    → top.0 ≢ []
    → (res : RouteResult) × (answer_from lib r req top ≡ ok res)
unfolding answer_from
answer_from-Answers lib r req ([], all) given e n = absurd (n refl)
answer_from-Answers lib r req (a ∷ rest, all) given e n =
    ask-Answers r req (a ∷ rest) given e lib _ r.llm

collect_typed-none :
    (opt : RouterOptions) (req : RouteRequest) (agents : List Agent)
    → All (λ c. ⊥) (collect_typed opt req agents)
    → All (λ a. trim_space a.type ≢ req.agent_type) agents
unfolding collect_typed
collect_typed-none opt req [] h = tt
collect_typed-none opt req (a ∷ rest) h = elim (Bool-cases (trim_space a.type == req.agent_type)) [
  | inl e ↦
      let k : All (λ c. ⊥) (scored opt req a ∷ collect_typed opt req rest) = rw e at h in absurd k.0
  | inr e ↦ (
    ne_of_==_false (trim_space a.type) req.agent_type e,
    collect_typed-none opt req rest (rw e at h),
  )
]

kept_positive : (max : ℤ) (n : ℕ) → 0 < n → 0 < kept max n
kept_positive max n h = ground arith

take_nil : (k : ℕ) (cs : List ScoredAgent) → 0 < k → take k (map (λ c. c.agent) cs) ≡ [] → cs ≡ []
take_nil k [] h e = refl
take_nil zero (c ∷ cs) h e = absurd (omega (arith, h))
take_nil (suc k) (c ∷ cs) h e = absurd (cc)

kept_nil :
    (max : ℤ) (cs : List ScoredAgent)
    → take (kept max (length cs)) (map (λ c. c.agent) cs) ≡ []
    → cs ≡ []
kept_nil max [] e = refl
kept_nil max (c ∷ cs) e = take_nil _ (c ∷ cs) (kept_positive max (length (c ∷ cs)) (omega arith)) e

shortlist_some :
    (lib : Library) (r : HybridRouter) (req : RouteRequest)
    → Rearranges lib.sort_slice
    → trim_space req.agent_type ≢ ""
    → ¬ All (λ a. a.type ≢ trim_space req.agent_type) r.agents
    → shortlist lib r req ≢ []
unfolding top_candidates
shortlist_some lib r req sorts n some_typed gone =
    elim (Bool-cases (trim_space req.agent_type == "")) [
      | inl e ↦ n ((eq_iff (trim_space req.agent_type) "").0 e)
      | inr e ↦
          let found = collect_typed r.options (trimmed req) r.agents in
          let empty : lib.sort_slice found ≡ [] =
            kept_nil r.max_candidates _ (rw (shortlist, e) at gone) in
          let no_one =
            collect_typed-none r.options (trimmed req) r.agents
              ((sorts.keeps (λ c. ⊥) found).1 (rw empty tt)) in
          some_typed (
            All-map _ (λ a. a.type ≢ trim_space req.agent_type) r.agents
              (λ a k t. k (rw t (trim_space_idem req.agent_type))) no_one)
    ]

-- The hybrid router keeps the promise of a router on its agents, provided that its fallback does and
-- that sorting only changes the order.
pub hybrid_route-IsRouter :
    (lib : Library) (r : HybridRouter)
    → Rearranges lib.sort_slice
    → IsRouter r.agents r.fallback
    → IsRouter r.agents (hybrid_route lib (some r))
unfolding hybrid_route
hybrid_route-IsRouter lib r sorts f = record {
  routed = λ req.
      Ensures-map _ _ (hybrid_route lib (some r) req)
        (λ res.
          From-IsRouted r req (shortlist lib r req) res (shortlist-IsRouted lib sorts r req)
            (f.routed req))
        (hybrid_route-From lib r req).0;
  answers = λ req n h.
      let (res, e) = f.answers req n h in
      answer_from-Answers lib r req (top_candidates lib r req) res e
        (shortlist_some lib r req sorts n h);
}
