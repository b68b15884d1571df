-- ===== src/Routing/Validated.antt =====
-- Whatever the language model answers, `HybridRouter.Route` stays within its candidates or takes its
-- fallback's agent.
use forgeiq.GoMap.{put}
use forgeiq.Text.{trim_space}
use forgeiq.Routing.Router.{Debug, trimmed, scored}
use forgeiq.Prelude.{
  Ensures-ok, ℕ, String, length-take-le, arith, pos_part, true, ◌≤◌, pos, ltb_ℤ, length, ℤ, refl,
  none, err, Option-cases, Result, Option, Ensures, ok, zero, [], inr, subst, inl, eq_iff, ◌==◌,
  if-holds, Bool-cases, All-map, ◌∷◌, suc, some, ◌≡◌, ◌↔◌, take, map, All,
}
use forgeiq.Routing.Hybrid.{
  build_prompt, kept, hybrid_route, answered, ranked_debug, confirm, answer_from, LlmClient,
  selection, LlmChoice, find_agent_by_id, fall_back_without_llm, fall_back, ask, after_choice,
  top_candidates, HybridRouter, find_agent, collect_typed, Library,
}
use forgeiq.Routing.{text, RouteResult, RouterOptions, RouteRequest, ScoredAgent, Agent}
use mathlib.Core.Logic.Or
use mathlib.Core.Bool.{Bool-set}
use mathlib.Core.List.{mem-cons}
use mathlib.Core.Option.{some-injective}
use mathlib.Core.List.{not-mem-nil, Mem-prop, List, Mem, mem-cons_self, mem-cons_of_mem}
use forgeiq.Routing.Choice.{IsRouted}

-- `sort.Slice` only changes the order of the elements.
pub record Rearranges {ℓ} {A : Type ℓ} (f : List A → List A) : Type (ℓ + 1) where
  pub keeps : (P : A → Type ℓ) (xs : List A) → All P xs ↔ All P (f xs)

-- The candidates that the model may choose among.
abbrev pub shortlist : Library → HybridRouter → RouteRequest → List Agent
shortlist lib r req = (top_candidates lib r req).0

find_agent-All :
    (P : Agent → Type 0) (xs : List Agent) (id : String) (a : Agent)
    → All P xs
    → find_agent xs id ≡ some a
    → P a
unfolding find_agent
find_agent-All P [] id a h e = absurd (cc)
find_agent-All P (x ∷ xs) id a h e = elim (Bool-cases (x.id == id)) [
  | inl t ↦ let p : some x ≡ some a = rw t at e in subst P (some-injective x a p) h.0
  | inr t ↦ find_agent-All P xs id a h.1 (rw t at e)
]

take-All : (P : Agent → Type 0) (n : ℕ) (xs : List Agent) → All P xs → All P (take n xs)
take-All P zero xs h = tt
take-All P (suc n) [] h = tt
take-All P (suc n) (x ∷ xs) h = (h.0, take-All P n xs h.1)

agents-All :
    (P : Agent → Type 0) (cs : List ScoredAgent)
    → All (λ c. P c.agent) cs
    → All P (map (λ c. c.agent) cs)
agents-All P [] h = tt
agents-All P (c ∷ cs) h = (h.0, agents-All P cs h.1)

collect_typed-All :
    (opt : RouterOptions) (req : RouteRequest) (agents : List Agent)
    → All
        (λ c. Mem c.agent agents × (trim_space c.agent.type ≡ req.agent_type))
        (collect_typed opt req agents)
unfolding collect_typed scored
collect_typed-All opt req [] = tt
collect_typed-All opt req (a ∷ rest) =
    let P = λ (as' : List Agent) (c : ScoredAgent).
      Mem c.agent as' × (trim_space c.agent.type ≡ req.agent_type) in
    let later =
      All-map (P rest) (P (a ∷ rest)) (collect_typed opt req rest)
        (λ c p. (mem-cons_of_mem a p.0, p.1)) (collect_typed-All opt req rest) in
    if-holds (All (P (a ∷ rest))) (trim_space a.type == req.agent_type) _ _
      (λ e. ((mem-cons_self, (eq_iff (trim_space a.type) req.agent_type).0 e), later)) (λ e. later)

module _ (lib : Library) (sorts : Rearranges lib.sort_slice) (r : HybridRouter)
    (req : RouteRequest) where
  pub shortlist-IsRouted : All (IsRouted r.agents req) (shortlist lib r req)
  unfolding top_candidates
  shortlist-IsRouted =
      let all = collect_typed-All r.options (trimmed req) r.agents in
      let Q = λ (c : ScoredAgent). IsRouted r.agents req c.agent in
      let routed =
        All-map _ Q (collect_typed r.options (trimmed req) r.agents)
          (λ c p. record { registered = p.0; typed = p.1 }) all in
      if-holds (λ (p : List Agent × List ScoredAgent). All (IsRouted r.agents req) p.0)
        (trim_space req.agent_type == "") _ _ (λ e. tt)
        (λ e. take-All _ _ _ (agents-All (IsRouted r.agents req) _ ((sorts.keeps Q _).0 routed)))

-- Where the answer comes from: the model chose a candidate, or the fallback answered.
pub data From (r : HybridRouter) (req : RouteRequest) (cands : List Agent) (res : RouteResult)
    : Type 0 where
  from_llm : res.reason ≡ "llm" → Mem res.agent cands → From r req cands res
  from_fallback :
      (res' : RouteResult)
      → r.fallback req ≡ ok res'
      → res.agent ≡ res'.agent
      → From r req cands res

members : (xs : List Agent) → All (λ a. Mem a xs) xs
members [] = tt
members (x ∷ xs) =
    (mem-cons_self, All-map _ (λ a. Mem a (x ∷ xs)) xs (λ a m. mem-cons_of_mem x m) (members xs))

find_agent_by_id-mem :
    (xs : List Agent) (id : String) (a : Agent) → find_agent_by_id xs id ≡ some a → Mem a xs
unfolding find_agent_by_id
find_agent_by_id-mem xs id a e = find_agent-All (λ b. Mem b xs) xs (trim_space id) a (members xs) e

module _ (r : HybridRouter) (req : RouteRequest) (cands : List Agent) where
  fall_back-From :
      (d : Debug) (out : Result String RouteResult)
      → r.fallback req ≡ out
      → Ensures (From r req cands) (fall_back d out)
  unfolding fall_back
  fall_back-From d (err e) h = tt
  fall_back-From d (ok res) h = from_fallback res h refl

  fall_back_without_llm-From :
      (d : Debug) (out : Result String RouteResult)
      → r.fallback req ≡ out
      → Ensures (From r req cands) (fall_back_without_llm d out)
  unfolding fall_back_without_llm
  fall_back_without_llm-From d (err e) h = tt
  fall_back_without_llm-From d (ok res) h = elim (Option-cases res.debug) [
    | inl e ↦ rw e (from_fallback res h refl)
    | inr (d', e) ↦ rw e (from_fallback res h refl)
  ]

  confirm-From :
      (sel : String × String) (d : Debug) (found : Option Agent)
      → ((a : Agent) → found ≡ some a → Mem a cands)
      → Ensures (From r req cands) (confirm r req cands sel d found)
  unfolding confirm
  confirm-From sel d none h =
      fall_back-From (put d "llm_invalid_agent" (text sel.0)) (r.fallback req) refl
  confirm-From sel d (some a) h = from_llm refl (h a refl)

  after_choice-From :
      (d : Debug) (answer : LlmChoice × Option String)
      → Ensures (From r req cands) (after_choice r req cands d answer)
  unfolding after_choice
  after_choice-From d (c, none) =
      confirm-From (selection cands c) (ranked_debug c (answered c d)) _
        (find_agent_by_id-mem cands (selection cands c).0)
  after_choice-From d (c, some e) =
      fall_back-From (put (answered c d) "llm_err" (text e)) (r.fallback req) refl

  ask-From :
      (lib : Library) (d : Debug) (llm : Option LlmClient)
      → Ensures (From r req cands) (ask r req cands lib d llm)
  unfolding ask
  ask-From lib d none = fall_back_without_llm-From d (r.fallback req) refl
  ask-From lib d (some llm) = after_choice-From d (llm (build_prompt lib req cands))

answer_from-From :
    (lib : Library) (r : HybridRouter) (req : RouteRequest) (top : List Agent × List ScoredAgent)
    → Ensures (From r req top.0) (answer_from lib r req top)
unfolding answer_from
answer_from-From lib r req ([], all) = tt
answer_from-From lib r req (a ∷ rest, all) = ask-From r req (a ∷ rest) lib _ r.llm

kept-le-max : (max : ℤ) (n : ℕ) → ltb_ℤ (pos 0) max ≡ true → kept max n ≤ pos_part max
kept-le-max max n h = ground arith

length-shortlist :
    (lib : Library) (r : HybridRouter) (req : RouteRequest)
    → ltb_ℤ (pos 0) r.max_candidates ≡ true
    → length (shortlist lib r req) ≤ pos_part r.max_candidates
unfolding top_candidates
length-shortlist lib r req h =
    let all = lib.sort_slice (collect_typed r.options (trimmed req) r.agents) in
    if-holds (λ (p : List Agent × List ScoredAgent). length p.0 ≤ pos_part r.max_candidates)
      (trim_space req.agent_type == "") _ _ (λ e. omega arith)
      (λ e. omega (
        arith,
        length-take-le (kept r.max_candidates (length all)) (map (λ c. c.agent) all),
        kept-le-max r.max_candidates (length all) h,
      ))

-- Whatever the language model answers, and also where it fails or is missing, the agent of the hybrid
-- router's answer is a candidate on the shortlist, or the one that the fallback router answered with
-- for the request. The shortlist is no longer than a positive maximum.
pub hybrid_route-From :
    (lib : Library) (r : HybridRouter) (req : RouteRequest)
    → Ensures (From r req (shortlist lib r req)) (hybrid_route lib (some r) req)
      × (ltb_ℤ (pos 0) r.max_candidates ≡ true
          → length (shortlist lib r req) ≤ pos_part r.max_candidates)
unfolding hybrid_route
hybrid_route-From lib r req =
    (answer_from-From lib r req (top_candidates lib r req), λ h. length-shortlist lib r req h)

-- What holds of all elements holds of each.
All-mem :
    {A : Type 0} (P : A → Type 0) (prop : (a : A) → IsProp (P a)) (xs : List A) {a : A}
    → All P xs
    → Mem a xs
    → P a
All-mem P prop [] h m = absurd (not-mem-nil m)
All-mem P prop (x ∷ xs) {a} h m =
    Or.elim (prop a) (mem-cons.0 m) (λ e. rw e h.0) (All-mem P prop xs h.1)

pub From-IsRouted :
    (r : HybridRouter) (req : RouteRequest) (cands : List Agent) (res : RouteResult)
    → All (IsRouted r.agents req) cands
    → Ensures (λ res'. IsRouted r.agents req res'.agent) (r.fallback req)
    → From r req cands res
    → IsRouted r.agents req res.agent
From-IsRouted r req cands res h k (from_llm _ m) = record {
  registered =
      All-mem (λ a. Mem a r.agents) (λ a. Mem-prop) cands
        (All-map _ (λ a. Mem a r.agents) cands (λ a p. p.registered) h) m;
  typed =
      let t = λ (a : Agent). trim_space a.type == trim_space req.agent_type in
      (eq_iff (trim_space res.agent.type) (trim_space req.agent_type)).0 (
        All-mem (λ a. t a ≡ true) (λ a. Bool-set _ _) cands
          (All-map _ (λ a. t a ≡ true) cands
            (λ a p. (eq_iff (trim_space a.type) (trim_space req.agent_type)).1 p.typed) h)
          m);
}
From-IsRouted r req cands res h k (from_fallback res' e a) =
    rw a (Ensures-ok (λ o. IsRouted r.agents req o.agent) (r.fallback req) res' k e)
