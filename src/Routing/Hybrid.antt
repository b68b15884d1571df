-- ===== src/Routing/Hybrid.antt =====
-- `HybridRouter.Route` of internal/transport/a2a/hybrid_router.go: a language model chooses among the
-- candidates, its answer is checked, and another router stands by.
use forgeiq.Prelude.{
  ℕ, String, concat, ◌&&◌, Option, none, some, List, [], ◌∷◌, map, Result, ok, err, ℤ, pos,
  pos_part, ltb_ℤ, length, take, if◌then◌else◌, ◌==◌,
}
use forgeiq.GoMap.{put}
use forgeiq.Text.{trim_space}
use forgeiq.Float64.{Float64}
use forgeiq.Routing.{
  Agent, RouteRequest, RouterOptions, ScoredAgent, count, text, ranking, RouteResult, Route,
}
use forgeiq.Routing.Router.{scored, Debug, trimmed}

-- `LLMRankedChoice` and `LLMChoice` of internal/transport/a2a/llm_client.go
pub record LlmRankedChoice : Type 0 where
  pub agent_id : String
  pub capability_id : String
  pub score : Float64

pub record LlmChoice : Type 0 where
  pub agent_id : String
  pub capability_id : String
  pub confidence : Float64
  pub reason : String
  pub raw : String
  pub ranked : List LlmRankedChoice

-- `LLMClient.Choose`: the choice, and the error if there is one.
abbrev pub LlmClient : Type 0
LlmClient = String → LlmChoice × Option String

pub record HybridRouter : Type 0 where
  pub agents : List Agent
  pub llm : Option LlmClient
  pub fallback : Route
  pub max_candidates : ℤ
  pub options : RouterOptions

-- A candidate as the prompt shows it.
pub record PromptCandidate : Type 0 where
  pub agent_id : String
  pub name : String
  pub task_types : List String
  pub tags : List String
  pub description : String
  pub vendor : String

abbrev prompt_candidate : Agent → PromptCandidate
prompt_candidate a = record {
  agent_id = a.id;
  name = a.name;
  task_types = a.task_types;
  tags = a.tags;
  description = a.description;
  vendor = a.vendor;
}

-- What the router takes of Go's library: `sort.Slice` with the highest score first, which leaves the
-- order of equal scores open, and `json.Marshal` of the candidates.
pub record Library : Type 0 where
  pub sort_slice : List ScoredAgent → List ScoredAgent
  pub marshal : List PromptCandidate → Result String String

-- The agents whose trimmed type is the one asked for.
unfoldable pub collect_typed : RouterOptions → RouteRequest → List Agent → List ScoredAgent
unfolding trim_space scored
collect_typed opt req [] = []
collect_typed opt req (a ∷ rest) =
    if trim_space a.type == req.agent_type
    then scored opt req a ∷ collect_typed opt req rest
    else collect_typed opt req rest

abbrev pub kept : ℤ → ℕ → ℕ
kept max n = if ltb_ℤ (pos 0) max && ltb_ℤ max (pos n) then pos_part max else n

-- `topCandidates`: the agents that are kept, and all that are ranked.
unfoldable pub top_candidates :
    Library → HybridRouter → RouteRequest → List Agent × List ScoredAgent
unfolding trim_space collect_typed
top_candidates lib r req =
    let all = lib.sort_slice (collect_typed r.options (trimmed req) r.agents) in
    if trim_space req.agent_type == ""
    then ([], [])
    else (take (kept r.max_candidates (length all)) (map (λ c. c.agent) all), all)

unfoldable pub find_agent : List Agent → String → Option Agent
find_agent [] id = none
find_agent (a ∷ rest) id = if a.id == id then some a else find_agent rest id

-- `findAgentByID`
unfoldable pub find_agent_by_id : List Agent → String → Option Agent
unfolding find_agent trim_space
find_agent_by_id xs id = find_agent xs (trim_space id)

-- The ranked answer: the first entry that is a candidate, or two empty texts.
unfoldable pub first_valid : List Agent → List LlmRankedChoice → String × String
unfolding find_agent_by_id
first_valid cands [] = ("", "")
first_valid cands (rc ∷ rest) =
    let next = first_valid cands rest in
    if rc.agent_id == "" then next else elim (find_agent_by_id cands rc.agent_id) [
      | none ↦ next
      | some a ↦ (rc.agent_id, rc.capability_id)
    ]

-- The ids of the agent and of the capability.
unfoldable pub selection : List Agent → LlmChoice → String × String
unfolding first_valid
selection cands choice = elim choice.ranked [
  | [] ↦ (choice.agent_id, choice.capability_id)
  | rc ∷ rest ↦ first_valid cands (rc ∷ rest)
]

-- `for k, v := range from { into[k] = v }`, and the same with a prefix.
unfoldable pub merge : Debug → Debug → Debug
unfolding put
merge [] into = into
merge ((k, v) ∷ from) into = merge from (put into k v)

unfoldable pub merge_prefixed : Debug → Debug → Debug
unfolding put
merge_prefixed [] into = into
merge_prefixed ((k, v) ∷ from) into = merge_prefixed from (put into (concat "fallback_" k) v)

abbrev or_empty : Option Debug → Debug
or_empty none = []
or_empty (some d) = d

-- The answer of the fallback where there is no model.
unfoldable pub fall_back_without_llm : Debug → Result String RouteResult → Result String RouteResult
unfolding merge_prefixed
fall_back_without_llm debug (err e) = err e
fall_back_without_llm debug (ok res) = elim res.debug [
  | none ↦ ok res
  | some d ↦ ok (record res { debug = some (merge_prefixed d debug); reason = "fallback" })
]

-- The answer of the fallback where the model failed or chose no candidate.
unfoldable pub fall_back : Debug → Result String RouteResult → Result String RouteResult
unfolding merge
fall_back debug (err e) = err e
fall_back debug (ok res) =
    ok (record res { debug = some (merge debug (or_empty res.debug)); reason = "fallback" })

abbrev write_ids : List Agent → String
write_ids [] = ""
write_ids (a ∷ []) = concat "{\"agent_id\":\"" (concat a.id "\"}")
write_ids (a ∷ b ∷ rest) =
    concat "{\"agent_id\":\"" (concat a.id (concat "\"}," (write_ids (b ∷ rest))))

abbrev candidates_json : List Agent → Result String String → String
candidates_json cands (ok json) = json
candidates_json cands (err e) = concat "[" (concat (write_ids cands) "]")

abbrev goal_of : RouteRequest → String
goal_of req = if trim_space req.goal == "" then trim_space req.task_type else trim_space req.goal

unfoldable pub build_prompt : Library → RouteRequest → List Agent → String
unfolding trim_space
build_prompt lib req cands =
    concat "You are an agent router.\nYou must choose the best agent from the candidates below.\n" (
      concat "Rules:\n1. Only choose an agent_id that exists in the candidates list.\n" (
        concat "2. If no agent is appropriate, return {\"agent_id\":\"\",\"capability_id\":\"\"}.\n"
          (concat "3. Respond ONLY as raw JSON. No extra text, no markdown.\n" (
            concat
              "4. Prefer returning a ranked shortlist when possible.\n\nValid response shapes:\n"
              (concat "{\"agent_id\":\"...\",\"capability_id\":\"...\"}\n" (
                concat
                  "{\"ranked\":[{\"agent_id\":\"...\",\"capability_id\":\"...\",\"score\":0.82},"
                  (concat "{\"agent_id\":\"...\",\"capability_id\":\"...\",\"score\":0.61}]}\n\n" (
                    concat "Task / goal:\n" (
                      concat (goal_of req) (
                        concat "\n\nCandidates (JSON array):\n" (
                          concat (candidates_json cands (lib.marshal (map prompt_candidate cands)))
                            (concat "\n\nReturn JSON only.\n"
                              "{\"agent_id\":\"jira-change-ticket-agent\",\"capability_id\":\"\"}\n"))))))))))))

abbrev pub ranked_debug : LlmChoice → Debug → Debug
unfolding put
ranked_debug choice debug = elim choice.ranked [
  | [] ↦ debug
  | rc ∷ rest ↦ put debug "llm_ranked_count" (count (length (rc ∷ rest)))
]

-- `debug` once the model has answered.
abbrev pub answered : LlmChoice → Debug → Debug
unfolding put
answered choice debug = put (put debug "llm_raw" (text choice.raw)) "llm_err" (text "")

module _ (r : HybridRouter) (req : RouteRequest) (cands : List Agent) where
  -- The candidate with the selected id, if there is one.
  unfoldable pub confirm : String × String → Debug → Option Agent → Result String RouteResult
  unfolding fall_back put
  confirm (id, capability) debug none =
      fall_back (put debug "llm_invalid_agent" (text id)) (r.fallback req)
  confirm (id, capability) debug (some a) =
      ok (record { agent = a; capability_id = capability; reason = "llm"; debug = some debug })

  unfoldable pub after_choice : Debug → LlmChoice × Option String → Result String RouteResult
  unfolding confirm selection find_agent_by_id fall_back put
  after_choice debug (choice, some e) =
      fall_back (put (answered choice debug) "llm_err" (text e)) (r.fallback req)
  after_choice debug (choice, none) =
      confirm (selection cands choice) (ranked_debug choice (answered choice debug))
        (find_agent_by_id cands (selection cands choice).0)

  unfoldable pub ask : Library → Debug → Option LlmClient → Result String RouteResult
  unfolding after_choice fall_back_without_llm build_prompt
  ask lib debug none = fall_back_without_llm debug (r.fallback req)
  ask lib debug (some llm) = after_choice debug (llm (build_prompt lib req cands))

abbrev pub hybrid_debug : List Agent → List ScoredAgent → Debug
unfolding put
hybrid_debug cands all =
    put (put (put [] "mode" (text "hybrid")) "candidates" (count (length cands))) "candidates_all"
      (ranking all)

-- What `topCandidates` gave.
unfoldable pub answer_from :
    Library
    → HybridRouter
    → RouteRequest
    → List Agent × List ScoredAgent
    → Result String RouteResult
unfolding ask trim_space put
answer_from lib r req ([], all) =
    err (concat "no agent found for type=" (trim_space req.agent_type))
answer_from lib r req (a ∷ rest, all) = ask r req (a ∷ rest) lib (hybrid_debug (a ∷ rest) all) r.llm

-- `none` is a nil router.
unfoldable pub hybrid_route :
    Library → Option HybridRouter → RouteRequest → Result String RouteResult
unfolding top_candidates answer_from
hybrid_route lib none req = err "hybrid router is nil"
hybrid_route lib (some r) req = answer_from lib r req (top_candidates lib r req)
