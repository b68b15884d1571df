-- ===== src/Orchestrator/Runs.antt =====
-- Whole runs of `Orchestrator.Run`: every call is authorised by the policy that the rule agent gave,
-- and every run that reaches the step loop ends for a stated reason.
use forgeiq.Prelude.{
  ◌≤◌, ◌<◌, ℕ, zero, suc, ◌+◌, String, ◌≡◌, ◌≢◌, refl, Bool, true, false, ◌⊎◌, inl, inr, Option,
  none, some, [], Result, ok, err, length, arith, pos_part,
}
use forgeiq.GoMap.{GoMap, get}
use forgeiq.Contracts.{Task}
use forgeiq.Contracts.Values.{Any, as_object}
use forgeiq.Orchestrator.{
  ended, Run, run, with_plan, with_plan_artifact, with_decision, with_policy, with_policy_artifact,
}
use forgeiq.Orchestrator.Decode.{decode_policy, decode_plan}
use forgeiq.Orchestrator.Steps.{World, Stop}
use forgeiq.Orchestrator.Safety.{IsPlanPrefix, run_steps-IsPlanPrefix}
use forgeiq.Orchestrator.Reasons.{Ends, run_steps-Ends}

-- The agent's payload has an object under `key`, namely `m`.
abbrev pub Answers : Result String (GoMap Any) → String → GoMap Any → Type 0
Answers r key m = (payload : GoMap Any) × (r ≡ ok payload) × (as_object (get payload key) ≡ some m)

-- The run followed a policy and a plan that the agents gave: the policy allows the task, the calls are
-- those of a prefix of the plan's steps, and the end has its reason.
pub record IsAuthorised (w : World) (task : Task) (r : Run) : Type 0 where
  pub policy : GoMap Any
  pub plan : GoMap Any
  pub policy_given : Answers (w.rule_agent task) "policy" policy
  pub plan_given : Answers (w.decision_agent task) "plan" plan
  pub allowed : (decode_policy policy).allowed ≡ true
  pub followed : IsPlanPrefix w (decode_policy policy) (decode_plan plan).steps 0 [] r.calls
  pub stop : Stop
  pub ending : r.outcome ≡ ended stop
  pub reason :
      Ends w
        (decode_policy policy)
        (length (decode_plan plan).steps)
        (decode_plan plan).steps
        []
        (r.calls, stop)

-- The run never reached the step loop.
abbrev pub IsIdle : Run → Type 0
IsIdle r = (r.calls ≡ []) × ((stop : Stop) → r.outcome ≢ ended stop)

module _ (w : World) (task : Task) where
  module _ (policy : GoMap Any) (given : Answers (w.rule_agent task) "policy" policy)
      (allowed : (decode_policy policy).allowed ≡ true) where
    with_plan-cases :
        (payload : GoMap Any)
        → w.decision_agent task ≡ ok payload
        → (o : Option (GoMap Any)) → as_object (get payload "plan") ≡ o
        → IsIdle (with_plan w (decode_policy policy) o)
          ⊎ IsAuthorised w task (with_plan w (decode_policy policy) o)
    with_plan-cases payload e none h = inl (refl, λ stop p. cc)
    with_plan-cases payload e (some m) h = inr (record {
      policy = policy;
      plan = m;
      policy_given = given;
      plan_given = (payload, e, h);
      allowed = allowed;
      followed = run_steps-IsPlanPrefix w (decode_policy policy) [] 0 _ (decode_plan m).steps;
      stop = _;
      ending = refl;
      reason = run_steps-Ends w (decode_policy policy) _ [] 0 _ (decode_plan m).steps (omega arith);
    })

    with_plan_artifact-cases :
        (r : Result String (GoMap Any))
        → w.decision_agent task ≡ r
        → IsIdle (with_plan_artifact w (decode_policy policy) r)
          ⊎ IsAuthorised w task (with_plan_artifact w (decode_policy policy) r)
    with_plan_artifact-cases (err e) h = inl (refl, λ stop p. cc)
    with_plan_artifact-cases (ok payload) h = with_plan-cases payload h _ refl

  with_decision-cases :
      (policy : GoMap Any)
      → Answers (w.rule_agent task) "policy" policy
      → (b : Bool) → (decode_policy policy).allowed ≡ b
      → IsIdle (with_decision w task (decode_policy policy) b)
        ⊎ IsAuthorised w task (with_decision w task (decode_policy policy) b)
  with_decision-cases policy given true h = with_plan_artifact-cases policy given h _ refl
  with_decision-cases policy given false h = inl (refl, λ stop p. cc)

  with_policy-cases :
      (payload : GoMap Any)
      → w.rule_agent task ≡ ok payload
      → (o : Option (GoMap Any)) → as_object (get payload "policy") ≡ o
      → IsIdle (with_policy w task o) ⊎ IsAuthorised w task (with_policy w task o)
  with_policy-cases payload e none h = inl (refl, λ stop p. cc)
  with_policy-cases payload e (some m) h = with_decision-cases m (payload, e, h) _ refl

  with_policy_artifact-cases :
      (r : Result String (GoMap Any))
      → w.rule_agent task ≡ r
      → IsIdle (with_policy_artifact w task r) ⊎ IsAuthorised w task (with_policy_artifact w task r)
  with_policy_artifact-cases (err e) h = inl (refl, λ stop p. cc)
  with_policy_artifact-cases (ok payload) h = with_policy-cases payload h _ refl

  -- A run either makes no call and never enters the step loop, or it is authorised: the rule agent
  -- gave a policy that allows the task, the decision agent gave a plan, the calls are those of the
  -- plan's first steps, in order, each permitted by the policy and made within its budgets of calls and
  -- of time. The run has completed with every step called, or it has stopped at a step of the plan for
  -- a stated reason: the step is a write that the policy does not allow, has a tag or a scope that the
  -- policy does not grant, or its own call failed and it stops on errors; or the plan has more steps
  -- than the budget has calls, or the time was over after the calls made.
  pub run-IsAuthorised : IsIdle (run w task) ⊎ IsAuthorised w task (run w task)
  unfolding run
  run-IsAuthorised = with_policy_artifact-cases _ refl

no_room : (k : ℕ) → (0 < k → 0 + k ≤ 0) → k ≡ 0
no_room zero h = refl
no_room (suc k) h = absurd (omega (arith, h (omega arith)))

-- A policy without a "budgets" object has the budget 0: no tool is ever called under it, whatever the
-- plan is.
pub run_without_budgets :
    (w : World) (task : Task) (policy : GoMap Any)
    → Answers (w.rule_agent task) "policy" policy
    → as_object (get policy "budgets") ≡ none
    → (run w task).calls ≡ []
run_without_budgets w task policy given b = elim (run-IsAuthorised w task) [
  | inl idle ↦ idle.0
  | inr a ↦
      let same : a.policy ≡ policy = cc (given.1, given.2, a.policy_given.1, a.policy_given.2) in
      let zero_budget : pos_part (decode_policy a.policy).budgets.max_tool_calls ≡ 0 =
        unfold decode_policy in rw (same, b) refl in
      let idle : a.followed.k ≡ 0 = no_room a.followed.k (rw zero_budget at a.followed.in_budget) in
      rw (a.followed.made, idle) refl
]
