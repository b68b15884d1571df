-- ===== src/Routing/Router.antt =====
-- `AgentRouter.Route` of internal/transport/a2a/router.go. The router and the request are those at the
-- time of the call; the source of random numbers is that of `Chance`.
use forgeiq.Prelude.{
  ℕ, zero, suc, ◌+◌, String, concat, Bool, ◌&&◌, Option, none, some, List, [], ◌∷◌, Result, ok, err,
  pos, pos_part, ltb, ltb_ℤ, length, take, sort_stable, if◌then◌else◌, ◌==◌,
}
use forgeiq.GoMap.{GoMap, put}
use forgeiq.Text.{trim_space, str_lt}
use forgeiq.Float64.{Float64, one, lt, eq, le}
use forgeiq.Float64.Arithmetic.{add, sub, mul, div, abs, zero_float}
use forgeiq.Routing.{
  Agent, RouteRequest, RouterOptions, ScoredAgent, DebugValue, count, text, number, texts,
  RouteResult, Chance,
}
use forgeiq.Routing.Score.{score_agent_with_options, hash_seed}

pub record AgentRouter : Type 0 where
  pub agents : List Agent
  pub options : RouterOptions

-- `req.AgentType = strings.TrimSpace(req.AgentType)`
abbrev pub trimmed : RouteRequest → RouteRequest
trimmed req = record req { agent_type = trim_space req.agent_type }

unfoldable pub scored : RouterOptions → RouteRequest → Agent → ScoredAgent
unfolding score_agent_with_options
scored opt req a =
    let (score, reasons) = score_agent_with_options a req opt in
    record { agent = a; score = score; reasons = reasons }

-- The loop that collects `cands`.
unfoldable pub candidates : RouterOptions → RouteRequest → List Agent → List ScoredAgent
unfolding scored
candidates opt req [] = []
candidates opt req (a ∷ rest) =
    if a.type == req.agent_type
    then scored opt req a ∷ candidates opt req rest
    else candidates opt req rest

-- By score, the highest first, then by id.
unfoldable pub goes_before : ScoredAgent → ScoredAgent → Bool
unfolding eq lt str_lt
goes_before c d = if eq c.score d.score then str_lt c.agent.id d.agent.id else lt d.score c.score

-- The loop that collects the candidates after the first that are tied with it.
unfoldable pub tied_with : Float64 → Float64 → List ScoredAgent → List ScoredAgent
unfolding le abs sub
tied_with best eps [] = []
tied_with best eps (c ∷ rest) =
    if le (abs (sub c.score best)) eps then c ∷ tied_with best eps rest else []

-- `xs[i]`; an index out of range would panic, and is not met here: see the properties.
abbrev pub at_or {ℓ} : {A : Type ℓ} → A → List A → ℕ → A
at_or d [] i = d
at_or d (x ∷ xs) zero = x
at_or d (x ∷ xs) (suc i) = at_or d xs i

abbrev pub Debug : Type 0
Debug = GoMap DebugValue

abbrev chosen_debug : ScoredAgent → Debug → Debug
unfolding put
chosen_debug c debug =
    put (put debug "selected_score" (number c.score)) "selected_reasons" (texts c.reasons)

abbrev pub simple_result : ScoredAgent → Debug → RouteResult
simple_result c debug = record {
  agent = c.agent;
  capability_id = "";
  reason = "simple";
  debug = some debug;
}

module _ (ch : Chance) (opt : RouterOptions) (req : RouteRequest) where
  abbrev pub is_random : List ScoredAgent → Bool
  is_random tied = opt.tie_break_random && ltb 1 (length tied)

  -- `tied` holds `best`, the first candidate.
  unfoldable pub pick_tied : ScoredAgent → List ScoredAgent → ScoredAgent
  unfolding hash_seed
  pick_tied best tied =
      if is_random tied then at_or best tied (ch.intn (hash_seed ch req) (length tied)) else best

  unfoldable pub pick_top : ScoredAgent → List ScoredAgent → Debug → RouteResult
  unfolding tied_with pick_tied put
  pick_top best rest debug =
      let tied = best ∷ tied_with best.score opt.tie_epsilon rest in
      let chosen = pick_tied best tied in
      let d = put (put debug "top_score" (number best.score)) "tied" (count (length tied)) in
      let mode = if is_random tied then "random" else "deterministic" in
      simple_result chosen (chosen_debug chosen (put d "tiebreak" (text mode)))

  -- `topN`
  abbrev pub sample_size : ℕ → ℕ
  sample_size n =
      let wanted = if ltb_ℤ (pos 0) opt.softmax_top_n then pos_part opt.softmax_top_n else 5 in
      if ltb n wanted then n else wanted

  abbrev pub temperature : Float64
  temperature = if le opt.softmax_temperature zero_float then one else opt.softmax_temperature

  unfoldable pub softmax_weights : Float64 → List ScoredAgent → List Float64
  unfolding sub div
  softmax_weights max_score [] = []
  softmax_weights max_score (c ∷ rest) =
      ch.exp (div (sub c.score max_score) temperature) ∷ softmax_weights max_score rest

  unfoldable pub sum_from : Float64 → List Float64 → Float64
  unfolding add
  sum_from sum [] = sum
  sum_from sum (w ∷ ws) = sum_from (add sum w) ws

  -- The index of the first weight at which the sum reaches `x`; 0 where none does.
  unfoldable pub pick_index : Float64 → Float64 → ℕ → List Float64 → ℕ
  unfolding add le
  pick_index x acc i [] = 0
  pick_index x acc i (w ∷ ws) =
      let rest = pick_index x (add acc w) (i + 1) ws in if le x (add acc w) then i else rest

  unfoldable pub sampled_index : ScoredAgent → List ScoredAgent → ℕ
  unfolding softmax_weights sum_from pick_index mul hash_seed
  sampled_index best cands =
      let weights = softmax_weights best.score (take (sample_size (length cands)) cands) in
      let x = mul (ch.float64 (hash_seed ch req)) (sum_from zero_float weights) in
      pick_index x zero_float 0 weights

  unfoldable pub sample : ScoredAgent → List ScoredAgent → Debug → RouteResult
  unfolding sampled_index put
  sample best cands debug =
      let index = sampled_index best cands in
      let chosen = at_or best cands index in
      let d = put debug "softmax_top_n" (count (sample_size (length cands))) in
      let d' = put d "softmax_temperature" (number temperature) in
      simple_result chosen (put (chosen_debug chosen d') "softmax_pick_index" (count index))

  abbrev pub start_debug : ℕ → Debug
  unfolding put
  start_debug n =
      put (put (put [] "candidates" (count n)) "selection_mode" (text opt.selection)) "seed"
        (text req.seed)

  -- The sorted candidates.
  unfoldable pub choose : List ScoredAgent → Result String RouteResult
  unfolding pick_top sample put
  choose [] = err (concat "no agent found for type=" req.agent_type)
  choose (best ∷ rest) =
      let debug = start_debug (length (best ∷ rest)) in
      ok (
        if opt.selection == "softmax"
        then sample best (best ∷ rest) debug
        else pick_top best rest debug)

-- `none` is a nil router.
unfoldable pub route : Chance → Option AgentRouter → RouteRequest → Result String RouteResult
unfolding trim_space candidates goes_before choose sort_stable
route ch none req = err "agent router is nil"
route ch (some r) req =
    if trim_space req.agent_type == ""
    then err "agent_type is required"
    else choose ch r.options (trimmed req)
        (sort_stable goes_before (candidates r.options (trimmed req) r.agents))
