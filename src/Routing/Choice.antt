-- ===== src/Routing/Choice.antt =====
-- What `AgentRouter.Route` answers.
use mathlib.Core.List.{Mem, mem-cons_self, mem-cons_of_mem}
use forgeiq.Prelude.{
  ◌≢◌, ℕ, zero, suc, String, ◌≡◌, refl, inl, inr, some, List, [], ◌∷◌, Result, ok, length, All,
  All-map, Ensures, sort_stable-All, eq_iff, Bool-cases, ne_of_==_false, if-holds, ◌==◌,
}
use forgeiq.Text.{trim_space}
use forgeiq.Float64.{Float64, le}
use forgeiq.Float64.Arithmetic.{abs, sub}
use forgeiq.Routing.{Agent, RouteRequest, RouterOptions, ScoredAgent, RouteResult, Chance}
use forgeiq.Routing.Router.{
  AgentRouter, trimmed, scored, candidates, goes_before, tied_with, at_or, pick_tied, pick_top,
  is_random, sample, choose, route, start_debug,
}

-- An agent of the list, with the type that the request asks for.
pub record IsRouted (agents : List Agent) (req : RouteRequest) (a : Agent) : Type 0 where
  pub registered : Mem a agents
  pub typed : trim_space a.type ≡ trim_space req.agent_type

-- What a router promises: whatever it answers is an agent of the list, with the type asked for, and
-- it answers where the request names
-- a type that an agent of the list has.
pub record IsRouter (agents : List Agent) (r : RouteRequest → Result String RouteResult)
    : Type 0 where
  pub routed : (req : RouteRequest) → Ensures (λ res. IsRouted agents req res.agent) (r req)
  pub answers :
      (req : RouteRequest)
      → trim_space req.agent_type ≢ ""
      → ¬ All (λ a. a.type ≢ trim_space req.agent_type) agents
      → (res : RouteResult) × (r req ≡ ok res)

-- A candidate is an agent with the trimmed type, with its score.
abbrev pub IsCandidate : RouterOptions → RouteRequest → List Agent → ScoredAgent → Type 0
IsCandidate opt req agents c =
    Mem c.agent agents × (c.agent.type ≡ req.agent_type) × (c ≡ scored opt req c.agent)

module _ (opt : RouterOptions) (req : RouteRequest) where
  pub candidates-IsCandidate :
      (agents : List Agent) → All (IsCandidate opt req agents) (candidates opt req agents)
  unfolding candidates
  candidates-IsCandidate [] = tt
  candidates-IsCandidate (a ∷ rest) =
      let later =
        All-map (IsCandidate opt req rest) (IsCandidate opt req (a ∷ rest))
          (candidates opt req rest) (λ c p. (mem-cons_of_mem a p.0, p.1, p.2))
          (candidates-IsCandidate rest) in
      if-holds (All (IsCandidate opt req (a ∷ rest))) (a.type == req.agent_type) _ _
        (λ e. ((mem-cons_self, (eq_iff a.type req.agent_type).0 e, refl), later)) (λ e. later)

  -- What holds of all candidates holds of every agent with the type.
  pub candidates-All :
      (P : ScoredAgent → Type 0) (agents : List Agent)
      → All P (candidates opt req agents)
      → All (λ a. a.type ≡ req.agent_type → P (scored opt req a)) agents
  unfolding candidates
  candidates-All P [] h = tt
  candidates-All P (a ∷ rest) h = elim (Bool-cases (a.type == req.agent_type)) [
    | inl e ↦
        let k : All P (scored opt req a ∷ candidates opt req rest) = rw e at h in
        (λ t. k.0, candidates-All P rest k.1)
    | inr e ↦
        let k : All P (candidates opt req rest) = rw e at h in
        (λ t. absurd (ne_of_==_false a.type req.agent_type e t), candidates-All P rest k)
  ]

at_or-All :
    (P : ScoredAgent → Type 0) (d : ScoredAgent) (xs : List ScoredAgent) (i : ℕ)
    → P d
    → All P xs
    → P (at_or d xs i)
at_or-All P d [] i p h = p
at_or-All P d (x ∷ xs) zero p h = h.0
at_or-All P d (x ∷ xs) (suc i) p h = at_or-All P d xs i p h.1

tied_with-All :
    (P : ScoredAgent → Type 0) (best eps : Float64) (xs : List ScoredAgent)
    → All P xs
    → All P (tied_with best eps xs)
unfolding tied_with
tied_with-All P best eps [] h = tt
tied_with-All P best eps (x ∷ xs) h =
    if-holds (All P) (le (abs (sub x.score best)) eps) _ _
      (λ e. (h.0, tied_with-All P best eps xs h.1)) (λ e. tt)

-- The result is that of a candidate with `P`.
abbrev pub Chooses : (ScoredAgent → Type 0) → RouteResult → Type 0
Chooses P res = (c : ScoredAgent) × P c × (res.agent ≡ c.agent)

module _ (ch : Chance) (opt : RouterOptions) (req : RouteRequest) (P : ScoredAgent → Type 0)
    (best : ScoredAgent) (rest : List ScoredAgent) (p : P best) (h : All P rest) where
  pick_top-Chooses : (d : _) → Chooses P (pick_top ch opt req best rest d)
  unfolding pick_top pick_tied
  pick_top-Chooses d =
      let tied = best ∷ tied_with best.score opt.tie_epsilon rest in
      let all : All P tied = (p, tied_with-All P best.score opt.tie_epsilon rest h) in
      (
        _,
        if-holds P (is_random ch opt req tied) _ _ (λ e. at_or-All P best tied _ p all) (λ e. p),
        refl,
      )

  sample-Chooses : (d : _) → Chooses P (sample ch opt req best (best ∷ rest) d)
  unfolding sample
  sample-Chooses d = (_, at_or-All P best (best ∷ rest) _ p (p, h), refl)

  choose-Chooses : Ensures (Chooses P) (choose ch opt req (best ∷ rest))
  unfolding choose
  choose-Chooses =
      let d = start_debug ch opt req (length (best ∷ rest)) in
      if-holds (Chooses P) (opt.selection == "softmax") _ _ (λ e. sample-Chooses d)
        (λ e. pick_top-Chooses d)

choose-Ensures :
    (ch : Chance) (opt : RouterOptions) (req : RouteRequest) (P : ScoredAgent → Type 0)
    (cs : List ScoredAgent)
    → All P cs
    → Ensures (Chooses P) (choose ch opt req cs)
unfolding choose
choose-Ensures ch opt req P [] h = tt
choose-Ensures ch opt req P (c ∷ cs) h = choose-Chooses ch opt req P c cs h.0 h.1

-- What every candidate has, the chosen one has.
pub route-Chooses :
    (ch : Chance) (r : AgentRouter) (req : RouteRequest) (P : ScoredAgent → Type 0)
    → All P (candidates r.options (trimmed req) r.agents)
    → Ensures (Chooses P) (route ch (some r) req)
unfolding route
route-Chooses ch r req P h =
    if-holds (Ensures (Chooses P)) (trim_space req.agent_type == "") _ _ (λ e. tt)
      (λ e. choose-Ensures ch r.options (trimmed req) P _ ((sort_stable-All goes_before P _).1 h))
