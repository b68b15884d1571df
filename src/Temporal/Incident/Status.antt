-- ===== src/Temporal/Incident/Status.antt =====
-- The status that the query "status" answers with agrees with what the workflow does.
use forgeiq.Prelude.{
  String, ◌≡◌, refl, Bool, true, false, some, List, [], ◌∷◌, ◌++◌, Result, ok, err,
}
use forgeiq.GoMap.{GoMap}
use forgeiq.Contracts.{Task, PolicyDecision, Plan, PlanStep}
use forgeiq.Contracts.Values.{Any}
use forgeiq.Temporal.Incident.{
  get_plan, policy, plan, exceed, deny, set_evidence, plan_and_run, over_budget, note_error,
  is_blocked, eval_policy, WorkflowStatus, Event, complete_eval, Payload, denied, rejected,
  completed, State, Outcome, returned, failed, continued_as_new, waiting, Flow, go_on, Activities,
  count_call, check_budget, block, receive, write_gate, after_call, call_step, run_step, run_steps,
  after_plan, decide, after_policy, incident_workflow, tell, start, fail,
}
use forgeiq.Temporal.Incident.Flows.{After, After-if, and_then-After}

abbrev pub IsRunning : State → Type 0
IsRunning st = (st.status.state ≡ "running") × (st.status.needs_human_input ≡ false)

-- What the status says of an artifact that is returned.
abbrev pub Shows : WorkflowStatus → Payload → Type 0
Shows s (denied reasons) = s.state ≡ "denied"
Shows s rejected = (s.state ≡ "denied") × (s.needs_human_input ≡ true)
Shows s (completed ev) = (s.state ≡ "completed") × (s.needs_human_input ≡ false) × (ev ≡ s.evidence)

-- The evaluation was told of the status as the last thing.
abbrev pub IsReported : State → Type 0
IsReported st =
    (before : List Event) × (st.events
      ≡ before ++ complete_eval st.status.state st.status.last_error ∷ [])

abbrev pub Agrees : State → Outcome → Type 0
Agrees st (returned a) = (st.final_result ≡ some a) × Shows st.status a.payload × IsReported st
Agrees st (failed e) = (st.status.state ≡ "failed") × (st.status.last_error ≡ e) × IsReported st
Agrees st continued_as_new =
    (st.status.state ≡ "failed") × (st.status.last_error ≡ "budget exceeded: tool calls")
Agrees st waiting =
    (st.status.state ≡ "needs_approval")
    × (st.status.needs_human_input ≡ true)
    × (st.status.waiting_on_signal ≡ "approval")
    × (st.signals ≡ [])

module _ (w : Activities) (task : Task) where
  abbrev Holds : Flow → Type 0
  Holds f = After IsRunning Agrees f

  check_budget-Holds : (st : State) → IsRunning st → Holds (check_budget w task st)
  unfolding check_budget
  check_budget-Holds st h =
      After-if IsRunning Agrees (over_budget w task st) (exceed w task st) (go_on st)
        (λ b. (refl, refl)) (λ b. h)

  receive-Holds :
      (step : PlanStep) (st : State) (signals : List Bool)
      → st.signals ≡ signals
      → Holds (receive w task (block w task step st) signals)
  receive-Holds step st [] e = (refl, refl, refl, e)
  receive-Holds step st (true ∷ rest) e = (refl, refl)
  receive-Holds step st (false ∷ rest) e = (refl, (refl, refl), (st.events, refl))

  write_gate-Holds :
      (step : PlanStep) (st : State) → IsRunning st → Holds (write_gate w task step st)
  unfolding write_gate
  write_gate-Holds step st h =
      After-if IsRunning Agrees (is_blocked w task step st)
        (receive w task (block w task step st) st.signals) (go_on st)
        (λ b. receive-Holds step st st.signals refl) (λ b. h)

  fail-Holds : (e : String) (st : State) → Holds (fail w task e st)
  fail-Holds e st = (refl, refl, (st.events, refl))

  after_call-Holds :
      (step : PlanStep) (r : Result String (GoMap Any)) (st : State)
      → IsRunning st
      → Holds (after_call w task step r st)
  unfolding after_call
  after_call-Holds step (ok out) st h = h
  after_call-Holds step (err e) st h =
      After-if IsRunning Agrees step.stop_on_err (fail w task e st) (note_error w task step e st)
        (λ b. fail-Holds e st) (λ b. h)

  run_step-Holds : (step : PlanStep) (st : State) → IsRunning st → Holds (run_step w task step st)
  unfolding run_step call_step
  run_step-Holds step st h =
      and_then-After IsRunning IsRunning Agrees (check_budget w task (count_call w task st)) _
        (check_budget-Holds (count_call w task st) h)
        λ counted c.
          and_then-After IsRunning IsRunning Agrees (write_gate w task step counted) _
            (write_gate-Holds step counted c) λ allowed a. after_call-Holds step _ _ a

  run_steps-Holds :
      (steps : List PlanStep) (st : State) → IsRunning st → Holds (run_steps w task steps st)
  unfolding run_steps
  run_steps-Holds [] st h = h
  run_steps-Holds (step ∷ rest) st h =
      and_then-After IsRunning IsRunning Agrees (run_step w task step st) _
        (run_step-Holds step st h) (λ st'. run_steps-Holds rest st')

  -- What a whole run returns; it never ends by going on.
  abbrev Ends : Flow → Type 0
  Ends f = After (λ st. ⊥) Agrees f

  after_plan-Ends :
      (st : State) (r : Result String Plan) → IsRunning st → Ends (after_plan w task st r)
  after_plan-Ends st (err e) h = fail-Holds e st
  after_plan-Ends st (ok p) h =
      and_then-After IsRunning (λ st'. ⊥) Agrees _ _
        (run_steps-Holds p.steps (set_evidence w task "plan" (plan p) st) h)
        (λ st' k. (refl, (refl, k.1, refl), (st'.events, refl)))

  decide-Ends : (st : State) → IsRunning st → Ends (decide w task st)
  decide-Ends st h =
      After-if (λ st'. ⊥) Agrees st.pd.allowed (plan_and_run w task st) (deny w task st)
        (λ b. after_plan-Ends (tell get_plan st) (w.get_plan task st.pd st.status.evidence) h)
        (λ b. (refl, refl, (st.events, refl)))

  after_policy-Ends :
      (st : State) (r : Result String PolicyDecision)
      → IsRunning st
      → Ends (after_policy w task st r)
  after_policy-Ends st (err e) h = fail-Holds e st
  after_policy-Ends st (ok d) h =
      decide-Ends (set_evidence w task "policy" (policy d) (record st { pd = d })) h

  -- Whatever the activities answer and whatever signals come, the workflow ends in one of its
  -- outcomes, and its status agrees with it. A returned artifact is also the result that the query
  -- answers with, and the status and the evaluation's last report show the same state: "completed"
  -- with the collected evidence and no human input needed, or "denied", where after a rejected write
  -- the status still says that human input is needed. An error is the status's last error; a spent
  -- budget shows as failed; and a workflow that waits has received all signals and says that it needs
  -- an approval.
  pub incident_workflow-Agrees :
      (signals : List Bool) → After (λ st. ⊥) Agrees (incident_workflow w task signals)
  unfolding incident_workflow
  incident_workflow-Agrees signals =
      after_policy-Ends (tell eval_policy (start w task signals)) (w.eval_policy task) (refl, refl)
