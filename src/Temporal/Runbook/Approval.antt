-- ===== src/Temporal/Runbook/Approval.antt =====
-- Every action that the workflow executes is approved where an approval is required.
use mathlib.Core.List.{Mem, mem-append_right, mem-cons_self, mem-cons_of_mem}
use forgeiq.Prelude.{
  ℕ, ◌+◌, String, ◌≡◌, refl, Bool, true, false, ◌⊎◌, inl, inr, Option, none, some, List, [], ◌∷◌,
  Result, ok, err, ◌==◌, if◌then◌else◌, eq_iff, arith, All, All-append, Bool-cases,
}
use forgeiq.GoMap.{get}
use forgeiq.Contracts.{Task, RunbookStep, Runbook, RuleAgentOutput, ObservabilityOutput, ExecOutput}
use forgeiq.Runtime.{Runtime}
use forgeiq.Runbooks.Gate.{Refusal, eval_diagnostic_gate}
use forgeiq.Temporal.Memory.Patches.{ApprovalSignal, same_bucket}
use forgeiq.Temporal.Memory.Buckets.{apply_policy}
use forgeiq.Temporal.Memory.{apply, check_delta, mutate, commit, new_runbook_memory}
use forgeiq.Temporal.Runbook.Packets.{
  Event, asked_rule, executed, Agents, State, tell, build_exec_packet,
}
use forgeiq.Temporal.Runbook.Deltas.{note, approval_delta, cursor_delta}
use forgeiq.Temporal.Runbook.Steps.{
  Progress, go_on, stopped, waiting_for, and_then, Wait, approved, rejected, unheard, decided,
  wait_approval, exec_step, after_exec, after_wait, needs_approval, run_action, run_actions,
  run_diagnostic, run_diagnostics, after_observation, after_gate,
}
use forgeiq.Temporal.Runbook.{
  run_workflow, intent_of, after_rule, after_runbook, after_diagnostics, after_actions,
}

-- `P` of the state, whatever the progress.
abbrev pub Always : (State → Type 0) → Progress → Type 0
Always P (go_on st) = P st
Always P (stopped st why) = P st
Always P (waiting_for st id) = P st

pub and_then-Always :
    (P : State → Type 0) (p : Progress) (next : State → Progress)
    → Always P p
    → ((st : State) → P st → Always P (next st))
    → Always P (and_then p next)
and_then-Always P (go_on st) next h k = k st h
and_then-Always P (stopped st why) next h k = h
and_then-Always P (waiting_for st id) next h k = h

module _ (given : List ApprovalSignal) where
  -- One of the approvals is for the step with the id, approves it and is a signal that was given.
  abbrev pub HasApproval : List ApprovalSignal → String → Type 0
  HasApproval approvals id =
      (a : ApprovalSignal) × Mem a approvals × Mem a given × (a.step_id ≡ id) × (a.approved ≡ true)

  -- An executed action whose step requires an approval, or whose policy requires one of every action,
  -- was sent with an approval of its step.
  abbrev pub IsAuthorised : Event → Type 0
  IsAuthorised (executed p) =
      (p.step.requires_approval ≡ true) ⊎ (p.policy.requires_human_approval ≡ true)
      → HasApproval p.policy.approvals p.step.id
  IsAuthorised _ = Unit

  -- The signals that are left to receive were given.
  abbrev IsHeard : List ApprovalSignal → Type 0
  IsHeard signals = (x : ApprovalSignal) → Mem x signals → Mem x given

  abbrev IsSafe : State → Type 0
  IsSafe st = All IsAuthorised st.events × IsHeard st.signals

  tell-IsSafe : (e : Event) (st : State) → IsSafe st → IsAuthorised e → IsSafe (tell e st)
  tell-IsSafe e st h a = (All-append IsAuthorised st.events _ h.0 (a, tt), h.1)

  module _ (w : Agents) (step : RunbookStep) where
    noted-HasApproval :
        (st : State) (sig : ApprovalSignal)
        → Mem sig given
        → sig.step_id ≡ step.id
        → sig.approved ≡ true
        → HasApproval (note w (approval_delta step sig) st).mem.policy_risk.approvals step.id
    unfolding apply check_delta mutate commit apply_policy same_bucket get
    noted-HasApproval st sig m e a =
        (sig, mem-append_right st.mem.policy_risk.approvals mem-cons_self, m, e, a)

    -- What the wait for an approval leaves: the same events, signals that were given, and the approval
    -- where it was given.
    abbrev Waited : State → Wait → Type 0
    Waited st (approved st') =
        (st'.events ≡ st.events)
        × IsHeard st'.signals
        × HasApproval st'.mem.policy_risk.approvals step.id
    Waited st (rejected st') = (st'.events ≡ st.events) × IsHeard st'.signals
    Waited st (unheard st') = (st'.events ≡ st.events) × IsHeard st'.signals

    chosen-Waited :
        (st st' : State) (b : Bool)
        → st'.events ≡ st.events
        → IsHeard st'.signals
        → (b ≡ true → HasApproval st'.mem.policy_risk.approvals step.id)
        → Waited st (if b then approved st' else rejected st')
    chosen-Waited st st' true e k h = (e, k, h refl)
    chosen-Waited st st' false e k h = (e, k)

    decided-Waited :
        (st : State) (sig : ApprovalSignal) (rest : List ApprovalSignal)
        → IsHeard (sig ∷ rest)
        → sig.step_id ≡ step.id
        → Waited st (decided w step (record st { signals = rest }) sig)
    decided-Waited st sig rest k e =
        let st' : State = record st { signals = rest } in
        chosen-Waited st (note w (approval_delta step sig) st') sig.approved refl
          (λ x m. k x (mem-cons_of_mem sig m)) (noted-HasApproval st' sig (k sig mem-cons_self) e)

    wait_approval-Waited :
        (st : State) (signals : List ApprovalSignal)
        → IsHeard signals
        → Waited st (wait_approval w step st signals)
    unfolding wait_approval
    wait_approval-Waited st [] k = (refl, k)
    wait_approval-Waited st (sig ∷ rest) k = elim (Bool-cases (sig.step_id == step.id)) [
      | inl e ↦ rw e (decided-Waited st sig rest k ((eq_iff sig.step_id step.id).0 e))
      | inr e ↦ rw e (wait_approval-Waited st rest (λ x m. k x (mem-cons_of_mem sig m)))
    ]

    after_exec-IsSafe :
        (st : State) (r : Result String ExecOutput) → IsSafe st → IsSafe (after_exec w step st r)
    after_exec-IsSafe st (ok out) h = h
    after_exec-IsSafe st (err e) h = h

    exec_step-IsSafe :
        (st : State)
        → IsSafe st
        → IsAuthorised (executed (build_exec_packet st.mem step))
        → IsSafe (exec_step w step st)
    unfolding exec_step
    exec_step-IsSafe st h a = after_exec-IsSafe _ _ (tell-IsSafe _ st h a)

    after_wait-IsSafe :
        (st : State) (r : Wait) → IsSafe st → Waited st r → Always IsSafe (after_wait w step r)
    after_wait-IsSafe st (approved st') h (e, k, a) =
        exec_step-IsSafe st' (rw e h.0, k) (λ needed. a)
    after_wait-IsSafe st (rejected st') h (e, k) = (rw e h.0, k)
    after_wait-IsSafe st (unheard st') h (e, k) = (rw e h.0, k)

    run_action-IsSafe :
        (idx : ℕ) (st : State) → IsSafe st → Always IsSafe (run_action w idx step st)
    unfolding run_action
    run_action-IsSafe idx st h =
        let st' = note w (cursor_delta "actions" step idx) st in
        elim (Bool-cases (needs_approval w step st')) [
          | inl e ↦ rw e (
              after_wait-IsSafe st' (wait_approval w step st' st'.signals) h
                (wait_approval-Waited st' st'.signals h.1))
          | inr e ↦ rw e (exec_step-IsSafe st' h (λ needed. absurd (ground arith)))
        ]

  run_actions-IsSafe :
      (w : Agents) (idx : ℕ) (steps : List RunbookStep) (st : State)
      → IsSafe st
      → Always IsSafe (run_actions w idx steps st)
  unfolding run_actions
  run_actions-IsSafe w idx [] st h = h
  run_actions-IsSafe w idx (step ∷ rest) st h =
      and_then-Always IsSafe (run_action w idx step st) _ (run_action-IsSafe w step idx st h)
        (λ st'. run_actions-IsSafe w (idx + 1) rest st')

  module _ (rt : Runtime) (w : Agents) where
    after_gate-IsSafe :
        (step : RunbookStep) (st : State) (r : Option Refusal)
        → IsSafe st
        → Always IsSafe (after_gate rt w step st r)
    after_gate-IsSafe step st none h = h
    after_gate-IsSafe step st (some why) h = h

    after_observation-IsSafe :
        (step : RunbookStep) (st : State) (r : Result String ObservabilityOutput)
        → IsSafe st
        → Always IsSafe (after_observation rt w step st r)
    after_observation-IsSafe step st (err e) h = h
    after_observation-IsSafe step st (ok out) h =
        after_gate-IsSafe step _ (eval_diagnostic_gate rt step out) h

    run_diagnostics-IsSafe :
        (idx : ℕ) (steps : List RunbookStep) (st : State)
        → IsSafe st
        → Always IsSafe (run_diagnostics rt w idx steps st)
    unfolding run_diagnostics run_diagnostic
    run_diagnostics-IsSafe idx [] st h = h
    run_diagnostics-IsSafe idx (step ∷ rest) st h =
        and_then-Always IsSafe (run_diagnostic rt w idx step st) _
          (after_observation-IsSafe step _ _ (tell-IsSafe _ st h tt))
          (λ st'. run_diagnostics-IsSafe (idx + 1) rest st')

    after_diagnostics-IsSafe :
        (p : Progress) → Always IsSafe p → Always IsSafe (after_diagnostics rt w p)
    after_diagnostics-IsSafe (go_on st) h = run_actions-IsSafe w 0 st.mem.plan.runbook.actions st h
    after_diagnostics-IsSafe (stopped st why) h = h
    after_diagnostics-IsSafe (waiting_for st id) h = h

    after_actions-IsSafe :
        (rule : RuleAgentOutput) (p : Progress)
        → Always IsSafe p
        → IsSafe (after_actions rt w rule p).state
    after_actions-IsSafe rule (go_on st) h = h
    after_actions-IsSafe rule (stopped st why) h = h
    after_actions-IsSafe rule (waiting_for st id) h = h

    after_runbook-IsSafe :
        (rule : RuleAgentOutput) (st : State) (r : Result String Runbook)
        → IsSafe st
        → IsSafe (after_runbook rt w rule st r).state
    after_runbook-IsSafe rule st (err e) h = h
    after_runbook-IsSafe rule st (ok rb) h =
        after_actions-IsSafe rule _ (after_diagnostics-IsSafe _ (run_diagnostics-IsSafe 0 _ _ h))

    after_rule-IsSafe :
        (st : State) (r : Result String RuleAgentOutput)
        → IsSafe st
        → IsSafe (after_rule rt w st r).state
    after_rule-IsSafe st (err e) h = h
    after_rule-IsSafe st (ok rule) h = after_runbook-IsSafe rule _ _ (tell-IsSafe _ st h tt)

module _ (rt : Runtime) (w : Agents) where
  -- Whatever the agents answer and the signals say, every action that the workflow has sent to the
  -- exec agent, and whose step requires an approval or whose packet's policy requires one, was sent
  -- with an approval of that very step in its packet, and that approval is one of the signals given
  -- to the workflow, and approves.
  pub run_workflow-IsAuthorised :
      (task : Task) (signals : List ApprovalSignal)
      → All (IsAuthorised signals) (run_workflow rt w task signals).state.events
  unfolding run_workflow
  run_workflow-IsAuthorised task signals =
      let intent = intent_of rt w task in
      let st : State = record { mem = new_runbook_memory intent; events = []; signals = signals } in
      (after_rule-IsSafe signals rt w (tell (asked_rule intent) st) (w.rule [] intent)
        ((tt, tt), λ x m. m)).0
