-- ===== src/Temporal/Runbook/Steps.antt =====
-- The two loops of the workflow: diagnostics with their gates, and actions with their approvals.
use forgeiq.Prelude.{
  ℕ, ◌+◌, String, concat, Bool, false, ◌||◌, Option, none, some, List, [], ◌∷◌, Result, ok, err,
  ◌==◌, if◌then◌else◌,
}
use forgeiq.Contracts.{RunbookStep, ObservabilityOutput, ExecOutput}
use forgeiq.Contracts.Values.{float}
use forgeiq.Runtime.{Runtime}
use forgeiq.Runbooks.Gate.{
  Refusal, threshold_missing, threshold_invalid, degraded, signals_missing, signal_not_found,
  not_met, eval_diagnostic_gate,
}
use forgeiq.Temporal.Memory.Patches.{ApprovalSignal}
use forgeiq.Temporal.Runbook.Packets.{
  observed, executed, Agents, State, build_observability_packet, build_exec_packet, tell,
}
use forgeiq.Temporal.Runbook.Deltas.{
  note, failed_delta, cursor_delta, diagnostic_delta, action_delta, completed_delta, approval_delta,
}

-- After a loop, or a part of one: it goes on, a gate has stopped it, or it waits for an approval of
-- the step with the id.
pub data Progress : Type 0 where
  go_on : State → Progress
  stopped : State → Refusal → Progress
  waiting_for : State → String → Progress

abbrev pub and_then : Progress → (State → Progress) → Progress
and_then (go_on st) next = next st
and_then (stopped st why) next = stopped st why
and_then (waiting_for st id) next = waiting_for st id

-- The reasons that `evalDiagnosticGate` returns.
abbrev pub refusal_text : Runtime → Refusal → String
refusal_text rt threshold_missing = "gate_threshold_missing"
refusal_text rt threshold_invalid = "gate_threshold_invalid"
refusal_text rt degraded = "observability_degraded"
refusal_text rt signals_missing = "signals_missing"
refusal_text rt (signal_not_found s) = concat "signal_not_found:" s
refusal_text rt (not_met s op thr v) = concat s (
    concat " " (
      concat op (
        concat " "
          (concat (rt.print (float thr)) (concat " (got=" (concat (rt.print (float v)) ")"))))))

module _ (rt : Runtime) (w : Agents) where
  abbrev pub after_gate : RunbookStep → State → Option Refusal → Progress
  after_gate step st none = go_on st
  after_gate step st (some why) =
      stopped
        (note w
          (failed_delta (concat "diagnostic_gate_failed: " (refusal_text rt why))
            "Fail-safe diagnostic gate" (("step_id", step.id) ∷ []))
          st)
        why

  -- A diagnostic that fails is passed over.
  abbrev pub after_observation : RunbookStep → State → Result String ObservabilityOutput → Progress
  after_observation step st (err e) = go_on st
  after_observation step st (ok out) =
      after_gate step (note w (completed_delta step) (note w (diagnostic_delta step out) st))
        (eval_diagnostic_gate rt step out)

  unfoldable pub run_diagnostic : ℕ → RunbookStep → State → Progress
  run_diagnostic idx step st =
      let st' = note w (cursor_delta "diagnostics" step idx) st in
      let packet = build_observability_packet st'.mem step in
      after_observation step (tell (observed packet) st') (w.observe st'.events packet)

  unfoldable pub run_diagnostics : ℕ → List RunbookStep → State → Progress
  run_diagnostics idx [] st = go_on st
  run_diagnostics idx (step ∷ rest) st =
      and_then (run_diagnostic idx step st) (λ st'. run_diagnostics (idx + 1) rest st')

-- What `for !approved` ends in: an approval, a rejection, or no signal left to receive.
pub data Wait : Type 0 where
  approved rejected unheard : State → Wait

module _ (w : Agents) where
  abbrev pub decided : RunbookStep → State → ApprovalSignal → Wait
  decided step st sig =
      let st' = note w (approval_delta step sig) st in
      if sig.approved then approved st' else rejected st'

  -- A signal for another step is received and ignored.
  unfoldable pub wait_approval : RunbookStep → State → List ApprovalSignal → Wait
  wait_approval step st [] = unheard (record st { signals = [] })
  wait_approval step st (sig ∷ rest) =
      let later = wait_approval step st rest in
      if sig.step_id == step.id then decided step (record st { signals = rest }) sig else later

  -- A failed call is recorded as an unsuccessful output, and the step is not marked completed.
  abbrev pub after_exec : RunbookStep → State → Result String ExecOutput → State
  after_exec step st (err e) =
      note w (action_delta step (record { success = false; details = e })) st
  after_exec step st (ok out) = note w (completed_delta step) (note w (action_delta step out) st)

  unfoldable pub exec_step : RunbookStep → State → State
  exec_step step st =
      let packet = build_exec_packet st.mem step in
      after_exec step (tell (executed packet) st) (w.exec st.events packet)

  abbrev pub after_wait : RunbookStep → Wait → Progress
  after_wait step (approved st) = go_on (exec_step step st)
  after_wait step (rejected st) = go_on st
  after_wait step (unheard st) = waiting_for st step.id

  abbrev pub needs_approval : RunbookStep → State → Bool
  needs_approval step st = step.requires_approval || st.mem.policy_risk.requires_human_approval

  unfoldable pub run_action : ℕ → RunbookStep → State → Progress
  run_action idx step st =
      let st' = note w (cursor_delta "actions" step idx) st in
      if needs_approval step st'
      then after_wait step (wait_approval step st' st'.signals)
      else go_on (exec_step step st')

  unfoldable pub run_actions : ℕ → List RunbookStep → State → Progress
  run_actions idx [] st = go_on st
  run_actions idx (step ∷ rest) st =
      and_then (run_action idx step st) (λ st'. run_actions (idx + 1) rest st')
