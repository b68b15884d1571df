-- ===== src/Routing/Score.antt =====
-- The score of an agent for a request: `scoreAgent`, `scoreAgentWithOptions` and `hashSeed` of
-- internal/transport/a2a/router.go.
use forgeiq.Prelude.{
  ℕ, String, concat, not, ◌&&◌, ◌||◌, Option, none, some, List, [], ◌∷◌, ◌++◌, contains,
  if◌then◌else◌, ◌==◌,
}
use forgeiq.GoMap.{GoMap, get}
use forgeiq.Text.{trim_space}
use forgeiq.Float64.{Float64, ten, lt, eq, le}
use forgeiq.Float64.Arithmetic.{add, neg, zero_float, one_tenth, five, fifty}
use forgeiq.Routing.{Agent, RouteRequest, RouterOptions, Chance}

-- `strings.Join(xs, sep)`
unfoldable pub join : String → List String → String
join sep [] = ""
join sep (x ∷ []) = x
join sep (x ∷ y ∷ ys) = concat x (concat sep (join sep (y ∷ ys)))

-- The score so far and the reasons so far.
abbrev pub Scoring : Type 0
Scoring = Float64 × List String

unfoldable pub add_score : Float64 → String → Scoring → Scoring
unfolding add
add_score x reason (score, reasons) = (add score x, reasons ++ reason ∷ [])

-- The loop over the requested tags.
unfoldable pub score_tags : Agent → List String → Scoring → Scoring
unfolding contains add_score
score_tags a [] s = s
score_tags a (t ∷ ts) s =
    score_tags a ts (if contains a.tags t then add_score ten (concat "tag:" t) s else s)

unfoldable pub score_task_type : Agent → RouteRequest → Scoring → Scoring
unfolding contains add_score
score_task_type a req s =
    if not (req.task_type == "") && contains a.task_types req.task_type
    then add_score fifty "task_type_match" s
    else s

unfoldable pub score_weight : Agent → Scoring → Scoring
unfolding eq add_score
score_weight a s = if not (eq a.weight zero_float) then add_score a.weight "weight" s else s

unfoldable pub score_name : Agent → Scoring → Scoring
unfolding add
score_name a (score, reasons) =
    if not (a.name == "") then (add score one_tenth, reasons) else (score, reasons)

unfoldable pub score_agent : Agent → RouteRequest → Scoring
unfolding score_tags score_task_type score_weight score_name
score_agent a req =
    score_name a (score_weight a (score_tags a req.tags (score_task_type a req (zero_float, []))))

-- `m[k]` where the map, or its entry, may be nil.
abbrev pub inner {ℓ} : {V : Type ℓ} → Option (GoMap (Option V)) → String → Option V
inner none k = none
inner (some m) k = elim (get m k) [ none ↦ none | some v ↦ v ]

-- A missing weight reads as 0.
abbrev weight_in : Option (GoMap Float64) → String → Float64
weight_in none k = zero_float
weight_in (some m) k = elim (get m k) [ none ↦ zero_float | some w ↦ w ]

abbrev pub runtime_weight : RouterOptions → RouteRequest → Agent → Float64
runtime_weight opt req a =
    weight_in
      (inner (inner opt.runtime_weights (trim_space req.agent_type)) (trim_space req.task_type))
      a.id

abbrev pub max_abs : RouterOptions → Float64
max_abs opt = if le opt.runtime_weights_max zero_float then five else opt.runtime_weights_max

abbrev clamp_below : Float64 → Float64 → Float64
clamp_below m w = if lt w (neg m) then neg m else w

-- The two tests one after the other.
unfoldable pub clamp_weight : Float64 → Float64 → Float64
unfolding lt neg
clamp_weight m w = clamp_below m (if lt m w then m else w)

unfoldable pub score_agent_with_options : Agent → RouteRequest → RouterOptions → Scoring
unfolding score_agent clamp_weight add_score le eq get trim_space
score_agent_with_options a req opt =
    let w = runtime_weight opt req a in
    if not opt.runtime_weights_enabled || (trim_space req.task_type == "" || eq w zero_float)
    then score_agent a req
    else add_score (clamp_weight (max_abs opt) w) "runtime_weight" (score_agent a req)

-- The text that is hashed.
abbrev seed_text : RouteRequest → String
seed_text req = concat req.agent_type (
    concat "|"
      (concat req.task_type (concat "|" (concat (join "," req.tags) (concat "|" req.goal)))))

unfoldable pub hash_seed : Chance → RouteRequest → ℕ
unfolding join trim_space
hash_seed c req =
    c.hash_sum (if trim_space req.seed == "" then seed_text req else trim_space req.seed)
