-- ===== src/Temporal/Activities.antt =====
-- The activities of the incident workflows: internal/controlplane/temporal/activies.go. An activity
-- returns what it did outside and its result.
pub mod Tags
pub mod Guards
use forgeiq.Prelude.{
  ◌>>◌, ℕ, String, Bool, true, false, not, ◌&&◌, ◌||◌, Option, none, some, List, [], ◌∷◌, ◌++◌,
  Result, ok, err, length, contains, if◌then◌else◌, ◌==◌,
}
use forgeiq.GoMap.{GoMap, get}
use forgeiq.Float64.{Float64}
use forgeiq.Contracts.{Task, PolicyDecision, PlanStep, Plan}
use forgeiq.Contracts.Values.{Any}
use forgeiq.Catalog.Tools.{Tools, ToolError, validate_tool_call, validate_plan}
use forgeiq.Orchestrator.Steps.{ToolCall, call_of, find_missing_scope}
use forgeiq.Routing.{Agent, RouteRequest, RouteResult, Route}
use forgeiq.Temporal.Activities.Tags.{request_for}

-- What the activities tell the evaluation store, and the calls of agents and of the MCP server.
pub data Effect : Type 0 where
  eval_start : String → Effect
  -- task, kind of agent, the agent's id and version
  eval_agent : String → String → String → String → Effect
  -- task, number of steps, confidence, whether the catalog validated it
  eval_plan : String → ℕ → Float64 → Bool → Effect
  eval_tool_call : Effect
  eval_approval : String → Effect
  eval_complete : String → String → String → Effect
  run_agent : String → Task → Effect
  call_server : ToolCall → Effect

-- `Activities`: the router of the agents, if routing is enabled, the catalog and whether there is an
-- evaluation store. A router that is built from the configuration may fail to be built.
pub record Activities : Type 0 where
  pub router : Option (Result String Route)
  pub catalog : Option Tools
  pub has_eval : Bool

-- The agents' answers, by kind and by the agent that was routed to, the JSON decoders and the MCP
-- server.
pub record Services : Type 0 where
  pub run_task : String → Option Agent → Task → Result String (GoMap Any)
  pub policy_of : Any → Result String PolicyDecision
  pub plan_of : Any → Result String Plan
  pub call_tool : ToolCall → Result String (Option (GoMap Any))

pub data ActivityError : Type 0 where
  failed : String → ActivityError
  no_agent : String → ActivityError
  agent_failed : String → String → ActivityError
  missing_payload : String → ActivityError
  bad_plan : String → ToolError → ActivityError
  bad_call : ToolError → ActivityError
  write_blocked : ActivityError
  tag_blocked : String → ActivityError
  missing_scope : String → ActivityError
  tool_failed : String → ActivityError

abbrev pub Outcome {ℓ} : Type ℓ → Type ℓ
Outcome A = List Effect × Result ActivityError A

abbrev pub or_bad_plan : Plan → Result (String × ToolError) (Unit {0}) → Result ActivityError Plan
or_bad_plan plan (ok u) = ok plan
or_bad_plan plan (err (step, e)) = err (bad_plan step e)

abbrev pub or_bad_call : Result ToolError (Unit {0}) → Result ActivityError (Unit {0})
or_bad_call (ok u) = ok tt
or_bad_call (err e) = err (bad_call e)

-- The effects come before those of the rest.
abbrev pub after {ℓ} : {A : Type ℓ} → List Effect → Outcome A → Outcome A
after effects (more, r) = (effects ++ more, r)

module _ (a : Activities) where
  abbrev pub if_eval : Effect → List Effect
  if_eval e = if a.has_eval then e ∷ [] else []

  -- `evalAgent`: nothing is recorded where no agent was routed to.
  abbrev pub note_agent : String → String → Option Agent → List Effect
  note_agent task kind none = []
  note_agent task kind (some agent) = if_eval (eval_agent task kind agent.id agent.version)

  abbrev routed : Result String RouteResult → Result ActivityError (Option Agent)
  routed (err e) = err (failed e)
  routed (ok res) = ok (some res.agent)

  abbrev ask_router : RouteRequest → Result String Route → Result ActivityError (Option Agent)
  ask_router req (err e) = err (failed e)
  ask_router req (ok route) = routed (route req)

  abbrev configured : String → Result ActivityError (Option Agent)
  configured kind = if kind == "rule" || kind == "decision" then ok none else err (no_agent kind)

  abbrev pick_from :
      String → Task → Option (Result String Route) → Result ActivityError (Option Agent)
  pick_from kind task none = configured kind
  pick_from kind task (some router) = ask_router (request_for kind task) router

  -- `pickA2AClient`; no agent is the client at the configured URL.
  unfoldable pub pick_client : String → Task → Result ActivityError (Option Agent)
  unfolding request_for
  pick_client kind task = pick_from kind task a.router

  -- `contracts.Task{ID: task.ID, Type: task.Type}`
  abbrev pub bare : Task → Task
  bare task = record {
    id = task.id;
    tenant_id = "";
    type = task.type;
    input = none;
    metadata = [];
    created_at = 0;
  }

  module _ (w : Services) where
    abbrev lift {ℓ} : {A : Type ℓ} → Result String A → Result ActivityError A
    lift (ok x) = ok x
    lift (err e) = err (failed e)

    abbrev decoded {ℓ} :
        {A : Type ℓ} → String → (Any → Result String A) → Option Any → Result ActivityError A
    decoded name decode none = err (missing_payload name)
    decoded name decode (some v) = lift (decode v)

    abbrev payload {ℓ} :
        {A : Type ℓ}
        → String
        → String
        → (Any → Result String A)
        → Result String (GoMap Any)
        → Result ActivityError A
    payload kind name decode (err e) = err (agent_failed kind e)
    payload kind name decode (ok m) = decoded name decode (get m name)

    abbrev run_picked {ℓ} :
        {A : Type ℓ}
        → String
        → String
        → (Any → Result String A)
        → Task
        → Result ActivityError (Option Agent)
        → Outcome A
    run_picked kind name decode task (err e) = ([], err e)
    run_picked kind name decode task (ok agent) = (
      note_agent task.id kind agent ++ run_agent kind task ∷ [],
      payload kind name decode (w.run_task kind agent task),
    )

    -- The call of an agent for the value at `name` of its payload.
    unfoldable pub ask_agent {ℓ} :
        {A : Type ℓ} → String → String → (Any → Result String A) → Task → Outcome A
    unfolding pick_client get
    ask_agent kind name decode task =
        run_picked kind name decode task (pick_client kind (bare task))

    -- `EvalPolicy`
    unfoldable pub eval_policy : Task → Outcome PolicyDecision
    unfolding ask_agent
    eval_policy task =
        after (if_eval (eval_start task.id)) (ask_agent "rule" "policy" w.policy_of task)

    abbrev pub catalog_check : Option Tools → Plan → Result ActivityError Plan
    catalog_check none plan = ok plan
    catalog_check (some c) plan = or_bad_plan plan (validate_plan c plan)

    abbrev pub has_catalog : Option Tools → Bool
    has_catalog none = false
    has_catalog (some c) = true

    abbrev pub note_plan : Task → List Effect → Result ActivityError Plan → Outcome Plan
    note_plan task effects (err e) = (effects, err e)
    note_plan task effects (ok plan) = (
      effects
          ++ if_eval
              (eval_plan task.id (length plan.steps) plan.confidence (has_catalog a.catalog)),
      ok plan,
    )

    abbrev pub check_plan : Task → Outcome Plan → Outcome Plan
    check_plan task (effects, err e) = (effects, err e)
    check_plan task (effects, ok plan) = note_plan task effects (catalog_check a.catalog plan)

    -- `GetPlan`
    unfoldable pub get_plan : Task → Outcome Plan
    unfolding ask_agent
    get_plan task = check_plan task (ask_agent "decision" "plan" w.plan_of task)

    abbrev pub call_catalog : Option Tools → PlanStep → Result ActivityError (Unit {0})
    call_catalog none s = ok tt
    call_catalog (some c) s = or_bad_call (validate_tool_call c s.tool_name s.tool_version s.args)

    abbrev pub check_write : PolicyDecision → PlanStep → Result ActivityError (Unit {0})
    check_write pd s =
        if contains s.tags "write" && not pd.allow_writes then err write_blocked else ok tt

    unfoldable pub check_tags : List String → List String → Result ActivityError (Unit {0})
    unfolding contains
    check_tags allow [] = ok tt
    check_tags allow (t ∷ ts) =
        if (t == "read" || t == "write") && not (contains allow t)
        then err (tag_blocked t)
        else check_tags allow ts

    abbrev pub check_scopes : Option String → Result ActivityError (Unit {0})
    check_scopes none = ok tt
    check_scopes (some scope) = err (missing_scope scope)

    abbrev pub check_call : PolicyDecision → PlanStep → Result ActivityError (Unit {0})
    check_call pd s = do
      call_catalog a.catalog s
      check_write pd s
      check_tags pd.tool_tag_allow s.tags
      check_scopes (find_missing_scope pd.scopes s.scopes)

    abbrev pub tool_result :
        Result String (Option (GoMap Any)) → Result ActivityError (Option (GoMap Any))
    tool_result (ok out) = ok out
    tool_result (err e) = err (tool_failed e)

    abbrev pub after_checks :
        PlanStep → Result ActivityError (Unit {0}) → Outcome (Option (GoMap Any))
    after_checks s (err e) = ([], err e)
    after_checks s (ok u) = (
      if_eval eval_tool_call ++ call_server (call_of s) ∷ [],
      tool_result (w.call_tool (call_of s)),
    )

    -- `CallTool`
    unfoldable pub call_tool : PlanStep → PolicyDecision → Outcome (Option (GoMap Any))
    unfolding check_tags find_missing_scope contains
    call_tool s pd = after_checks s (check_call pd s)

  -- `RecordApproval` and `CompleteEval`
  abbrev pub record_approval : String → List Effect
  record_approval task = if_eval (eval_approval task)

  abbrev pub complete_eval : String → String → String → List Effect
  complete_eval task status last_error = if_eval (eval_complete task status last_error)
