-- ===== src/Orchestrator.antt =====
-- `Orchestrator.Run` of internal/controlplane/orchestrator/orchestrator.go: ask for a policy, ask for
-- a plan, and run the plan's steps under the policy.
pub mod Decode
pub mod Steps
pub mod Safety
pub mod Reasons
pub mod Runs
mod Examples
use forgeiq.Prelude.{true, false, Bool, Option, String, none, some, List, [], ◌∷◌, Result, ok, err}
use forgeiq.GoMap.{GoMap, get}
use forgeiq.Contracts.{Task, PolicyDecision, Plan}
use forgeiq.Contracts.Values.{Any, as_object}
use Decode.{decode_policy, decode_plan}
use Steps.{World, ToolCall, policy_entry, Stop, run_steps}

-- What a call of `Run` ends in. `panicked` is the unchecked type assertion on the plan.
pub data Outcome : Type 0 where
  denied : GoMap String → Outcome
  invalid_policy : Outcome
  agent_error : String → Outcome
  panicked : Outcome
  ended : Stop → Outcome

-- The agents that were asked, the tool calls that were made, in their order, and the end.
pub record Run : Type 0 where
  pub asked : List String
  pub calls : List ToolCall
  pub outcome : Outcome

abbrev no_calls : List String → Outcome → Run
no_calls agents o = record { asked = agents; calls = []; outcome = o }

module _ (w : World) where
  -- Step 3 of `Run`.
  abbrev execute : PolicyDecision → Plan → Run
  execute pd plan =
      let (made, stop) = run_steps w pd [] 0 (("policy", policy_entry pd) ∷ []) plan.steps in
      record { asked = "rule" ∷ "decision" ∷ []; calls = made; outcome = ended stop }

  -- The assertion on `planArt.Payload["plan"]` is unchecked.
  abbrev with_plan : PolicyDecision → Option (GoMap Any) → Run
  with_plan pd none = no_calls ("rule" ∷ "decision" ∷ []) panicked
  with_plan pd (some m) = execute pd (decode_plan m)

  abbrev with_plan_artifact : PolicyDecision → Result String (GoMap Any) → Run
  with_plan_artifact pd (err e) = no_calls ("rule" ∷ "decision" ∷ []) (agent_error e)
  with_plan_artifact pd (ok payload) = with_plan pd (as_object (get payload "plan"))

  abbrev with_decision : Task → PolicyDecision → Bool → Run
  with_decision task pd true = with_plan_artifact pd (w.decision_agent task)
  with_decision task pd false = no_calls ("rule" ∷ []) (denied pd.reasons)

  abbrev with_policy : Task → Option (GoMap Any) → Run
  with_policy task none = no_calls ("rule" ∷ []) invalid_policy
  with_policy task (some m) = with_decision task (decode_policy m) (decode_policy m).allowed

  abbrev with_policy_artifact : Task → Result String (GoMap Any) → Run
  with_policy_artifact task (err e) = no_calls ("rule" ∷ []) (agent_error e)
  with_policy_artifact task (ok payload) = with_policy task (as_object (get payload "policy"))

  unfoldable pub run : Task → Run
  run task = with_policy_artifact task (w.rule_agent task)
