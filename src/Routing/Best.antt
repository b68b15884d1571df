-- ===== src/Routing/Best.antt =====
-- When `AgentRouter.Route` answers, and which agent the deterministic selection takes.
use forgeiq.Text.Trim.{trim_space_idem}
use forgeiq.Routing.Order.{goes_before-IsWeakOrder, IsNumber}
use forgeiq.Text.{str_lt, trim_space}
use forgeiq.Float64.{lt, eq}
use forgeiq.Prelude.{
  String, Result, sort_stable-HasLeast, sym, if-holds, All-map, subst, Ensures, arith, true,
  HasLeast, false, inr, refl, eq_iff, inl, ◌==◌, sort_stable-All, ok, concat, Bool-cases, ◌∷◌, err,
  some, [], All, ◌≢◌, ◌≡◌, sort_stable,
}
use forgeiq.Routing.Router.{
  pick_tied, pick_top, scored, trimmed, goes_before, AgentRouter, route, choose, candidates,
}
use forgeiq.Routing.{RouteResult, Agent, RouteRequest, RouterOptions, Chance, ScoredAgent}
use mathlib.Core.List.{List, Mem}
use forgeiq.Routing.Choice.{
  IsRouted, Chooses, route-Chooses, IsRouter, IsCandidate, candidates-IsCandidate, candidates-All,
}

-- No candidate is as good as that, or all are gone.
sort_stable-nil : (xs : List ScoredAgent) → sort_stable goes_before xs ≡ [] → xs ≡ []
sort_stable-nil [] h = refl
sort_stable-nil (x ∷ xs) h = absurd ((sort_stable-All goes_before (λ c. ⊥) (x ∷ xs)).0 (rw h tt)).0

candidates-nil :
    (opt : RouterOptions) (req : RouteRequest) (agents : List Agent)
    → All (λ a. a.type ≢ req.agent_type) agents
    → candidates opt req agents ≡ []
unfolding candidates
candidates-nil opt req [] h = refl
candidates-nil opt req (a ∷ rest) h = elim (Bool-cases (a.type == req.agent_type)) [
  | inl e ↦ absurd (h.0 ((eq_iff a.type req.agent_type).0 e))
  | inr e ↦ rw e (candidates-nil opt req rest h.1)
]

choose-some :
    (ch : Chance) (opt : RouterOptions) (req : RouteRequest) (cs : List ScoredAgent)
    → cs ≢ []
    → (res : RouteResult) × (choose ch opt req cs ≡ ok res)
unfolding choose
choose-some ch opt req [] h = absurd (h refl)
choose-some ch opt req (c ∷ cs) h = (_, refl)

-- The router answers exactly when the request names a type, other than white space, and an agent has
-- that type; the two errors say which of these fails.
pub route_outcome :
    (ch : Chance) (r : AgentRouter) (req : RouteRequest)
    → let t = trim_space req.agent_type in
      (t ≡ "" → route ch (some r) req ≡ err "agent_type is required")
      × (t ≢ ""
          → All (λ a. a.type ≢ t) r.agents
          → route ch (some r) req ≡ err (concat "no agent found for type=" t))
      × (t ≢ ""
          → ¬ All (λ a. a.type ≢ t) r.agents
          → (res : RouteResult) × (route ch (some r) req ≡ ok res))
unfolding route sort_stable choose
route_outcome ch r req = (
  λ e. rw e refl,
  λ n h. elim (Bool-cases (trim_space req.agent_type == "")) [
    | inl e ↦ absurd (n ((eq_iff (trim_space req.agent_type) "").0 e))
    | inr e ↦ rw (e, candidates-nil r.options (trimmed req) r.agents h) refl
  ],
  λ n h. elim (Bool-cases (trim_space req.agent_type == "")) [
    | inl e ↦ absurd (n ((eq_iff (trim_space req.agent_type) "").0 e))
    | inr e ↦ rw e (
        choose-some ch r.options (trimmed req) _ (λ gone. h (
          candidates-All r.options (trimmed req) (λ c. ⊥) r.agents
            (rw (sort_stable-nil (candidates r.options (trimmed req) r.agents) gone) tt))))
  ],
)

-- The score of `b` for the request, and that it does not come before that of `a`: it is not higher,
-- and where it is equal, the id is not smaller.
abbrev pub NotBefore : RouterOptions → RouteRequest → Agent → Agent → Type 0
NotBefore opt req b a =
    let x = (scored opt req b).score in
    let y = (scored opt req a).score in
    (lt y x ≡ false) × (eq x y ≡ true → str_lt b.id a.id ≡ false)

scored-agent : (opt : RouterOptions) (req : RouteRequest) (a : Agent) → (scored opt req a).agent ≡ a
unfolding scored
scored-agent opt req a = refl

goes_before-false :
    (c d : ScoredAgent)
    → IsNumber c
    → IsNumber d
    → goes_before c d ≡ false
    → (lt d.score c.score ≡ false)
      × (eq c.score d.score ≡ true → str_lt c.agent.id d.agent.id ≡ false)
unfolding goes_before lt eq
goes_before-false c d p q h = ground arith

before_self : (c : ScoredAgent) → IsNumber c → goes_before c c ≡ false
before_self c p = elim (Bool-cases (goes_before c c)) [
  | inl e ↦ goes_before-IsWeakOrder.asym c c p p e
  | inr e ↦ e
]

-- A least element comes before no other, and none comes before it.
HasLeast-All :
    (c : ScoredAgent) (cs : List ScoredAgent)
    → HasLeast goes_before IsNumber (c ∷ cs)
    → All (λ d. IsNumber d × (goes_before d c ≡ false)) (c ∷ cs)
HasLeast-All c cs (p, h) = ((p, before_self c p), h)

choose_first :
    (ch : Chance) (opt : RouterOptions) (req : RouteRequest) (c : ScoredAgent)
    (cs : List ScoredAgent)
    → opt.selection ≢ "softmax"
    → opt.tie_break_random ≡ false
    → (res : RouteResult) × (choose ch opt req (c ∷ cs) ≡ ok res) × (res.agent ≡ c.agent)
unfolding choose pick_top pick_tied
choose_first ch opt req c cs h k = elim (Bool-cases (opt.selection == "softmax")) [
  | inl e ↦ absurd (h ((eq_iff opt.selection "softmax").0 e))
  | inr e ↦ rw (e, k) (_, refl, refl)
]

-- The answer `res` to the request, where the agents are `agents`.
pub record IsBest (opt : RouterOptions) (req : RouteRequest) (agents : List Agent)
    (res : RouteResult) : Type 0 where
  pub candidate : Mem res.agent agents × (res.agent.type ≡ req.agent_type)
  pub best : All (λ b. b.type ≡ req.agent_type → NotBefore opt req b res.agent) agents

scored-NotBefore :
    (opt : RouterOptions) (req : RouteRequest) (c : ScoredAgent) (b : Agent)
    → c ≡ scored opt req c.agent
    → IsNumber c
    → IsNumber (scored opt req b)
    → goes_before (scored opt req b) c ≡ false
    → NotBefore opt req b c.agent
scored-NotBefore opt req c b e p q h =
    let (low, tie) = goes_before-false (scored opt req b) c q p h in
    let tie' =
      λ (t : eq (scored opt req b).score c.score ≡ true). rw (scored-agent opt req b) at (tie t) in
    subst
      (λ x.
        (lt x.score (scored opt req b).score ≡ false)
        × (eq (scored opt req b).score x.score ≡ true → str_lt b.id c.agent.id ≡ false))
      e (low, tie')

module _ (ch : Chance) (r : AgentRouter) (req : RouteRequest) (h : r.options.selection ≢ "softmax")
    (k : r.options.tie_break_random ≡ false) where
  -- `cs` is the sorted list.
  choose-IsBest :
      (cs : List ScoredAgent)
      → All (IsCandidate r.options req r.agents) cs
      → HasLeast goes_before IsNumber cs
      → ((P : ScoredAgent → Type 0) → All P cs → All P (candidates r.options req r.agents))
      → Ensures (IsBest r.options req r.agents) (choose ch r.options req cs)
  unfolding choose
  choose-IsBest [] p l back = tt
  choose-IsBest (c ∷ cs) p l back =
      let (res, e, a) = choose_first ch r.options req c cs h k in
      let others = candidates-All r.options req _ r.agents (back _ (HasLeast-All c cs l)) in
      let (m, t, s) = p.0 in
      subst (Ensures (IsBest r.options req r.agents)) (sym e) (record {
        candidate = rw a (m, t);
        best = rw a (
            All-map _ _ r.agents
              (λ b f t'. scored-NotBefore r.options req c b s l.0 (f t').0 (f t').1) others);
      })

-- The deterministic selection, where ties are not broken at random and no score is NaN, answers with
-- an agent of the type asked for that no other agent of that type comes before: none has a higher
-- score, and none with an equal score has a smaller id.
pub route-IsBest :
    (ch : Chance) (r : AgentRouter) (req : RouteRequest)
    → r.options.selection ≢ "softmax"
    → r.options.tie_break_random ≡ false
    → All IsNumber (candidates r.options (trimmed req) r.agents)
    → Ensures (IsBest r.options (trimmed req) r.agents) (route ch (some r) req)
unfolding route
route-IsBest ch r req h k n =
    let cands = candidates r.options (trimmed req) r.agents in
    if-holds (Ensures (IsBest r.options (trimmed req) r.agents)) (trim_space req.agent_type == "") _
      _ (λ e. tt)
      (λ e.
        choose-IsBest ch r (trimmed req) h k (sort_stable goes_before cands)
          ((sort_stable-All goes_before _ cands).1
            (candidates-IsCandidate r.options (trimmed req) r.agents))
          (sort_stable-HasLeast goes_before goes_before-IsWeakOrder cands n)
          (λ P. (sort_stable-All goes_before P cands).0))

Chooses-IsRouted :
    (ch : Chance) (r : AgentRouter) (req : RouteRequest) (out : Result String RouteResult)
    → Ensures (Chooses (IsCandidate r.options (trimmed req) r.agents)) out
    → Ensures (λ res. IsRouted r.agents req res.agent) out
Chooses-IsRouted ch r req (err e) h = tt
Chooses-IsRouted ch r req (ok res) (c, (m, t, _), e) =
    rw e (record { registered = m; typed = rw t (trim_space_idem req.agent_type) })

-- The heuristic router keeps the promise of a router: an agent that it answers with is one of its
-- agents and has the type that is asked for, whatever the scores and the random numbers are; and it
-- answers where there is such an agent.
pub route-IsRouter : (ch : Chance) (r : AgentRouter) → IsRouter r.agents (route ch (some r))
route-IsRouter ch r = record {
  routed = λ req.
      Chooses-IsRouted ch r req (route ch (some r) req)
        (route-Chooses ch r req _ (candidates-IsCandidate r.options (trimmed req) r.agents));
  answers = λ req. (route_outcome ch r req).2;
}
