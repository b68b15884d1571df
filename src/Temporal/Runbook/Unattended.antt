-- ===== src/Temporal/Runbook/Unattended.antt =====
-- A runbook workflow that needs no approval never waits for one.
use forgeiq.Prelude.{
  ℕ, ◌+◌, String, ◌≡◌, ◌≢◌, refl, inl, inr, false, Option, none, some, List, [], ◌∷◌, Result, ok,
  err, All, arith, Bool-cases,
}
use forgeiq.GoMap.{get}
use forgeiq.Contracts.{Task, RunbookStep, Runbook, RuleAgentOutput, ObservabilityOutput, ExecOutput}
use forgeiq.Runtime.{Runtime}
use forgeiq.Runbooks.Gate.{Refusal, eval_diagnostic_gate}
use forgeiq.Temporal.Memory.{apply, check_delta, mutate, commit, new_runbook_memory}
use forgeiq.Temporal.Memory.Patches.{Delta, same_bucket, policy_risk, plan}
use forgeiq.Temporal.Memory.Buckets.{apply_plan, apply_policy, empty_plan}
use forgeiq.Temporal.Memory.Frame.{apply-AgreesOffBucket}
use forgeiq.Temporal.Runbook.Packets.{
  asked_rule, asked_runbook, Agents, State, tell, build_runbook_packet,
}
use forgeiq.Temporal.Runbook.Deltas.{
  note, cursor_delta, requires_delta, selected_delta, severity_delta, runbook_delta,
  diagnostic_delta, completed_delta, action_delta,
}
use forgeiq.Temporal.Runbook.Steps.{
  Progress, go_on, stopped, waiting_for, and_then, exec_step, after_exec, needs_approval,
  run_action, run_actions, run_diagnostic, run_diagnostics, after_observation, after_gate,
}
use forgeiq.Temporal.Runbook.{
  Outcome, finished, waiting, run_workflow, intent_of, after_rule, after_runbook, after_diagnostics,
  after_actions,
}

abbrev pub NeedsNone : RunbookStep → Type 0
NeedsNone step = step.requires_approval ≡ false

-- No approval is needed, by the policy or by an action of the plan.
abbrev IsCalm : State → Type 0
IsCalm st =
    (st.mem.policy_risk.requires_human_approval ≡ false) × All NeedsNone st.mem.plan.runbook.actions

-- It does not wait.
abbrev Proceeds : Progress → Type 0
Proceeds (go_on st) = IsCalm st
Proceeds (stopped st why) = Unit
Proceeds (waiting_for st id) = ⊥

and_then-Proceeds :
    (p : Progress) (next : State → Progress)
    → Proceeds p
    → ((st : State) → IsCalm st → Proceeds (next st))
    → Proceeds (and_then p next)
and_then-Proceeds (go_on st) next h k = k st h
and_then-Proceeds (stopped st why) next h k = tt
and_then-Proceeds (waiting_for st id) next h k = h

module _ (w : Agents) where
  -- A delta to another bucket needs no approval either.
  other-IsCalm :
      (d : Delta) (st : State)
      → d.bucket ≢ policy_risk
      → d.bucket ≢ plan
      → IsCalm st
      → IsCalm (note w d st)
  other-IsCalm d st n m h =
      let a = apply-AgreesOffBucket (w.now st.mem.deltas) d st.mem in
      rw (a.policy_risk n, a.plan m) h

  diagnostics_cursor-IsCalm :
      (step : RunbookStep) (idx : ℕ) (st : State)
      → IsCalm st
      → IsCalm (note w (cursor_delta "diagnostics" step idx) st)
  unfolding apply check_delta mutate commit apply_plan same_bucket get
  diagnostics_cursor-IsCalm step idx st h = h

  actions_cursor-IsCalm :
      (step : RunbookStep) (idx : ℕ) (st : State)
      → IsCalm st
      → IsCalm (note w (cursor_delta "actions" step idx) st)
  unfolding apply check_delta mutate commit apply_plan same_bucket get
  actions_cursor-IsCalm step idx st h = h

  runbook-IsCalm :
      (rb : Runbook) (st : State)
      → IsCalm st
      → All NeedsNone rb.actions
      → IsCalm (note w (runbook_delta rb) st)
  unfolding apply check_delta mutate commit apply_plan same_bucket get
  runbook-IsCalm rb st h k = (h.0, k)

  requires-IsCalm :
      (rule : RuleAgentOutput) (st : State)
      → All NeedsNone st.mem.plan.runbook.actions
      → rule.requires_human_approval ≡ false
      → IsCalm (note w (requires_delta rule) st)
  unfolding apply check_delta mutate commit apply_policy same_bucket get
  requires-IsCalm rule st h k = (k, h)

  after_exec-IsCalm :
      (step : RunbookStep) (st : State) (r : Result String ExecOutput)
      → IsCalm st
      → IsCalm (after_exec w step st r)
  after_exec-IsCalm step st (ok out) h =
      other-IsCalm (completed_delta step) (note w (action_delta step out) st) (λ e. cc) (λ e. cc)
        (other-IsCalm (action_delta step out) st (λ e. cc) (λ e. cc) h)
  after_exec-IsCalm step st (err e) h =
      other-IsCalm (action_delta step (record { success = false; details = e })) st (λ e. cc)
        (λ e. cc) h

  exec_step-IsCalm : (step : RunbookStep) (st : State) → IsCalm st → IsCalm (exec_step w step st)
  unfolding exec_step
  exec_step-IsCalm step st h = after_exec-IsCalm step _ _ h

  run_action-Proceeds :
      (idx : ℕ) (step : RunbookStep) (st : State)
      → NeedsNone step
      → IsCalm st
      → Proceeds (run_action w idx step st)
  unfolding run_action
  run_action-Proceeds idx step st n h =
      let st' = note w (cursor_delta "actions" step idx) st in
      let c = actions_cursor-IsCalm step idx st h in
      elim (Bool-cases (needs_approval w step st')) [
        | inl e ↦ absurd (ground (arith, c.0))
        | inr e ↦ rw e (exec_step-IsCalm step st' c)
      ]

  run_actions-Proceeds :
      (idx : ℕ) (steps : List RunbookStep) (st : State)
      → All NeedsNone steps
      → IsCalm st
      → Proceeds (run_actions w idx steps st)
  unfolding run_actions
  run_actions-Proceeds idx [] st n h = h
  run_actions-Proceeds idx (step ∷ rest) st n h =
      and_then-Proceeds (run_action w idx step st) _ (run_action-Proceeds idx step st n.0 h)
        (λ st'. run_actions-Proceeds (idx + 1) rest st' n.1)

abbrev pub IsFinished : Outcome → Type 0
IsFinished (finished res e) = Unit
IsFinished (waiting id) = ⊥

module _ (rt : Runtime) (w : Agents) where
  after_gate-Proceeds :
      (step : RunbookStep) (st : State) (r : Option Refusal)
      → IsCalm st
      → Proceeds (after_gate rt w step st r)
  after_gate-Proceeds step st none h = h
  after_gate-Proceeds step st (some why) h = tt

  after_observation-Proceeds :
      (step : RunbookStep) (st : State) (r : Result String ObservabilityOutput)
      → IsCalm st
      → Proceeds (after_observation rt w step st r)
  after_observation-Proceeds step st (err e) h = h
  after_observation-Proceeds step st (ok out) h =
      after_gate-Proceeds step _ (eval_diagnostic_gate rt step out) (
        other-IsCalm w (completed_delta step) (note w (diagnostic_delta step out) st) (λ e. cc)
          (λ e. cc) (other-IsCalm w (diagnostic_delta step out) st (λ e. cc) (λ e. cc) h))

  run_diagnostics-Proceeds :
      (idx : ℕ) (steps : List RunbookStep) (st : State)
      → IsCalm st
      → Proceeds (run_diagnostics rt w idx steps st)
  unfolding run_diagnostics run_diagnostic
  run_diagnostics-Proceeds idx [] st h = h
  run_diagnostics-Proceeds idx (step ∷ rest) st h =
      and_then-Proceeds (run_diagnostic rt w idx step st) _
        (after_observation-Proceeds step _ _ (diagnostics_cursor-IsCalm w step idx st h))
        (λ st'. run_diagnostics-Proceeds (idx + 1) rest st')

  after_diagnostics-Proceeds : (p : Progress) → Proceeds p → Proceeds (after_diagnostics rt w p)
  after_diagnostics-Proceeds (go_on st) h =
      run_actions-Proceeds w 0 st.mem.plan.runbook.actions st h.1 h
  after_diagnostics-Proceeds (stopped st why) h = tt
  after_diagnostics-Proceeds (waiting_for st id) h = h

  after_actions-IsFinished :
      (rule : RuleAgentOutput) (p : Progress)
      → Proceeds p
      → IsFinished (after_actions rt w rule p).outcome
  after_actions-IsFinished rule (go_on st) h = tt
  after_actions-IsFinished rule (stopped st why) h = tt
  after_actions-IsFinished rule (waiting_for st id) h = h

  after_runbook-IsFinished :
      (rule : RuleAgentOutput) (st : State) (r : Result String Runbook)
      → IsCalm st
      → ((rb : Runbook) → r ≡ ok rb → All NeedsNone rb.actions)
      → IsFinished (after_runbook rt w rule st r).outcome
  after_runbook-IsFinished rule st (err e) h k = tt
  after_runbook-IsFinished rule st (ok rb) h k = after_actions-IsFinished rule _ (
      after_diagnostics-Proceeds _ (
        run_diagnostics-Proceeds 0 _ (note w (runbook_delta rb) st)
          (runbook-IsCalm w rb st h (k rb refl))))

  module _
      (calm_rules : (made : _) (i : _) (out : RuleAgentOutput)
        → w.rule made i ≡ ok out
        → out.requires_human_approval ≡ false)
      (calm_runbooks : (made : _) (p : _) (rb : Runbook)
        → w.runbook made p ≡ ok rb
        → All NeedsNone rb.actions) where
    after_rule-IsFinished :
        (st : State) (r : Result String RuleAgentOutput)
        → All NeedsNone st.mem.plan.runbook.actions
        → ((out : RuleAgentOutput) → r ≡ ok out → out.requires_human_approval ≡ false)
        → IsFinished (after_rule rt w st r).outcome
    after_rule-IsFinished st (err e) h k = tt
    after_rule-IsFinished st (ok rule) h k =
        let first = note w (requires_delta rule) st in
        let second = note w (selected_delta rule) first in
        let told = note w (severity_delta rule) second in
        let packet = build_runbook_packet told.mem in
        after_runbook-IsFinished rule (tell (asked_runbook packet) told)
          (w.runbook told.events packet)
          (other-IsCalm w (severity_delta rule) second (λ e. cc) (λ e. cc)
            (other-IsCalm w (selected_delta rule) first (λ e. cc) (λ e. cc)
              (requires-IsCalm w rule st h (k rule refl))))
          (calm_runbooks told.events packet)

    -- If no answer of the rule agent requires an approval and no action of a runbook that the runbook
    -- agent answers with does, then the workflow returns a result without any signal: it does not wait.
    pub run_workflow-IsFinished : (task : Task) → IsFinished (run_workflow rt w task []).outcome
    unfolding run_workflow new_runbook_memory empty_plan
    run_workflow-IsFinished task =
        let intent = intent_of rt w task in
        let st : State = record { mem = new_runbook_memory intent; events = []; signals = [] } in
        after_rule-IsFinished (tell (asked_rule intent) st) (w.rule [] intent) tt
          (calm_rules [] intent)
