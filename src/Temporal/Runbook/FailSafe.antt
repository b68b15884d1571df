-- ===== src/Temporal/Runbook/FailSafe.antt =====
-- A workflow that reports a failure has executed nothing: agent errors and diagnostic gates come
-- before the first action.

use forgeiq.Prelude.{
  ℕ, ◌+◌, String, ◌≡◌, subst, true, Option, none, some, List, [], ◌∷◌, Result, ok, err, All,
  All-append, Bool-cases, inl, inr,
}
use forgeiq.Contracts.{Task, RunbookStep, Runbook, RuleAgentOutput, ObservabilityOutput}
use forgeiq.Runtime.{Runtime}
use forgeiq.Runbooks.Gate.{Refusal, eval_diagnostic_gate}
use forgeiq.Temporal.Memory.{new_runbook_memory}
use forgeiq.Temporal.Memory.Patches.{ApprovalSignal}
use forgeiq.Temporal.Runbook.Packets.{Event, asked_rule, executed, Agents, State, tell}
use forgeiq.Temporal.Runbook.Deltas.{note, cursor_delta}
use forgeiq.Temporal.Runbook.Steps.{
  Progress, go_on, stopped, waiting_for, and_then, Wait, approved, rejected, unheard, after_wait,
  wait_approval, needs_approval, run_action, run_actions, run_diagnostic, run_diagnostics,
  after_observation, after_gate,
}
use forgeiq.Temporal.Runbook.{
  RunbookResult, Outcome, finished, waiting, run_workflow, intent_of, after_rule, after_runbook,
  after_diagnostics, after_actions,
}
use forgeiq.Temporal.Runbook.Approval.{Always, and_then-Always}

abbrev pub IsReadOnly : Event → Type 0
IsReadOnly (executed p) = ⊥
IsReadOnly _ = Unit

abbrev NothingDone : State → Type 0
NothingDone st = All IsReadOnly st.events

-- No gate has stopped it.
abbrev IsOpen : Progress → Type 0
IsOpen (stopped st why) = ⊥
IsOpen _ = Unit

-- If a gate has stopped it, nothing was executed.
abbrev StopsClean : Progress → Type 0
StopsClean (stopped st why) = NothingDone st
StopsClean _ = Unit

IsOpen-StopsClean : (p : Progress) → IsOpen p → StopsClean p
IsOpen-StopsClean (go_on st) h = tt
IsOpen-StopsClean (stopped st why) h = absurd h
IsOpen-StopsClean (waiting_for st id) h = tt

and_then-IsOpen :
    (p : Progress) (next : State → Progress)
    → IsOpen p
    → ((st : State) → IsOpen (next st))
    → IsOpen (and_then p next)
and_then-IsOpen (go_on st) next h k = k st
and_then-IsOpen (stopped st why) next h k = h
and_then-IsOpen (waiting_for st id) next h k = tt

module _ (w : Agents) where
  after_wait-IsOpen : (step : RunbookStep) (r : Wait) → IsOpen (after_wait w step r)
  after_wait-IsOpen step (approved st) = tt
  after_wait-IsOpen step (rejected st) = tt
  after_wait-IsOpen step (unheard st) = tt

  run_action-IsOpen :
      (idx : ℕ) (step : RunbookStep) (st : State) → IsOpen (run_action w idx step st)
  unfolding run_action
  run_action-IsOpen idx step st =
      let st' = note w (cursor_delta "actions" step idx) st in
      elim (Bool-cases (needs_approval w step st')) [
        | inl e ↦ rw e (after_wait-IsOpen step (wait_approval w step st' st'.signals))
        | inr e ↦ rw e tt
      ]

  run_actions-IsOpen :
      (idx : ℕ) (steps : List RunbookStep) (st : State) → IsOpen (run_actions w idx steps st)
  unfolding run_actions
  run_actions-IsOpen idx [] st = tt
  run_actions-IsOpen idx (step ∷ rest) st =
      and_then-IsOpen (run_action w idx step st) _ (run_action-IsOpen idx step st)
        (λ st'. run_actions-IsOpen (idx + 1) rest st')

module _ (rt : Runtime) (w : Agents) where
  after_gate-NothingDone :
      (step : RunbookStep) (st : State) (r : Option Refusal)
      → NothingDone st
      → Always NothingDone (after_gate rt w step st r)
  after_gate-NothingDone step st none h = h
  after_gate-NothingDone step st (some why) h = h

  after_observation-NothingDone :
      (step : RunbookStep) (st : State) (r : Result String ObservabilityOutput)
      → NothingDone st
      → Always NothingDone (after_observation rt w step st r)
  after_observation-NothingDone step st (err e) h = h
  after_observation-NothingDone step st (ok out) h =
      after_gate-NothingDone step _ (eval_diagnostic_gate rt step out) h

  run_diagnostics-NothingDone :
      (idx : ℕ) (steps : List RunbookStep) (st : State)
      → NothingDone st
      → Always NothingDone (run_diagnostics rt w idx steps st)
  unfolding run_diagnostics run_diagnostic
  run_diagnostics-NothingDone idx [] st h = h
  run_diagnostics-NothingDone idx (step ∷ rest) st h =
      and_then-Always NothingDone (run_diagnostic rt w idx step st) _
        (after_observation-NothingDone step _ _ (All-append IsReadOnly st.events _ h (tt, tt)))
        (λ st'. run_diagnostics-NothingDone (idx + 1) rest st')

  after_diagnostics-StopsClean :
      (p : Progress) → Always NothingDone p → StopsClean (after_diagnostics rt w p)
  after_diagnostics-StopsClean (go_on st) h =
      let p = run_actions w 0 st.mem.plan.runbook.actions st in
      IsOpen-StopsClean p (run_actions-IsOpen w 0 st.mem.plan.runbook.actions st)
  after_diagnostics-StopsClean (stopped st why) h = h
  after_diagnostics-StopsClean (waiting_for st id) h = tt

  -- A result that reports a failure comes with no executed action.
  abbrev FailsClean : Outcome → List Event → Type 0
  FailsClean (finished res e) events = res.failed ≡ true → All IsReadOnly events
  FailsClean (waiting id) events = Unit

  after_actions-FailsClean :
      (rule : RuleAgentOutput) (p : Progress)
      → StopsClean p
      → FailsClean (after_actions rt w rule p).outcome (after_actions rt w rule p).state.events
  after_actions-FailsClean rule (go_on st) h = λ f. cc
  after_actions-FailsClean rule (stopped st why) h = λ f. h
  after_actions-FailsClean rule (waiting_for st id) h = tt

  after_runbook-FailsClean :
      (rule : RuleAgentOutput) (st : State) (r : Result String Runbook)
      → NothingDone st
      → FailsClean
          (after_runbook rt w rule st r).outcome
          (after_runbook rt w rule st r).state.events
  after_runbook-FailsClean rule st (err e) h = λ f. h
  after_runbook-FailsClean rule st (ok rb) h =
      after_actions-FailsClean rule _
        (after_diagnostics-StopsClean _ (run_diagnostics-NothingDone 0 _ _ h))

  after_rule-FailsClean :
      (st : State) (r : Result String RuleAgentOutput)
      → NothingDone st
      → FailsClean (after_rule rt w st r).outcome (after_rule rt w st r).state.events
  after_rule-FailsClean st (err e) h = λ f. h
  after_rule-FailsClean st (ok rule) h =
      after_runbook-FailsClean rule _ _ (All-append IsReadOnly st.events _ h (tt, tt))

  -- If the workflow returns a result that is marked failed (an agent call failed or a diagnostic gate
  -- was not met), then it has sent no action to the exec agent.
  pub run_workflow_failed :
      (task : Task) (signals : List ApprovalSignal) (res : RunbookResult) (e : Option String)
      → (run_workflow rt w task signals).outcome ≡ finished res e
      → res.failed ≡ true
      → All IsReadOnly (run_workflow rt w task signals).state.events
  unfolding run_workflow
  run_workflow_failed task signals res e o f =
      let intent = intent_of rt w task in
      let st : State = record { mem = new_runbook_memory intent; events = []; signals = signals } in
      (subst (λ out. FailsClean out (run_workflow rt w task signals).state.events) o
          (after_rule-FailsClean (tell (asked_rule intent) st) (w.rule [] intent) (tt, tt)))
        f
