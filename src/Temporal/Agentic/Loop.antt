-- ===== src/Temporal/Agentic/Loop.antt =====
-- The iterations of `AgenticLoop`, and `IncidentWorkflowWithAgenticLoop` of
-- internal/controlplane/temporal/workflow_agentic.go around it.
use forgeiq.Prelude.{
  ℕ, zero, suc, ◌+◌, String, concat, Bool, true, false, ◌&&◌, ◌||◌, Option, none, some, List, [],
  ◌∷◌, ◌++◌, Result, ok, err, pos, ltb_ℤ, length, if◌then◌else◌, ◌==◌,
}
use forgeiq.GoMap.{GoMap}
use forgeiq.Contracts.{PolicyDecision, Plan}
use forgeiq.Temporal.Incident.{WorkflowStatus}
use forgeiq.Temporal.Agentic.{
  AgenticLoopConfig, LoopValue, flag, text, waiting_for, FeedbackEntry, LoopEvent, plan_asked,
  LoopState, LoopWorld, LoopPayload, loop_failed, loop_ended, LoopFlow, next, leave, answer, await,
  set_evidence, execute_steps, should_refine, is_goal_achieved,
}

-- The loop returned, failed at its first plan, or waits for feedback.
pub data LoopOutcome : Type 0 where
  returned : LoopState → LoopPayload → LoopOutcome
  failed : Option WorkflowStatus → String → LoopOutcome
  waiting : LoopState → LoopOutcome

module _ (w : LoopWorld) (config : AgenticLoopConfig) (pd : PolicyDecision) where
  abbrev now : LoopState → String
  now st = w.rfc3339 (w.clock st.events)

  abbrev map_status :
      (WorkflowStatus → WorkflowStatus) → Option WorkflowStatus → Option WorkflowStatus
  map_status f none = none
  map_status f (some s) = some (f s)

  abbrev on_status : (WorkflowStatus → WorkflowStatus) → LoopState → LoopState
  on_status f st = record st { status = map_status f st.status }

  -- The stop signals only leave a mark in the evidence.
  unfoldable pub mark_stops : List Bool → LoopState → LoopState
  mark_stops [] st = st
  mark_stops (stop ∷ rest) st =
      mark_stops rest (if stop then set_evidence "stopped_by_user" (flag true) st else st)

  abbrev pub has_steps : Plan → Bool
  has_steps p = elim p.steps [ [] ↦ false | s ∷ rest ↦ true ]

  abbrev pub adopt : String → Plan → LoopState → LoopState
  adopt reason plan st = record st {
    current_plan = plan;
    refinements =
        st.refinements
        ++ record {
          iteration = st.iteration;
          reason = reason;
          original_plan = st.current_plan;
          refined_plan = plan;
          timestamp = w.clock st.events;
        }
          ∷ [];
  }

  abbrev pub asked : LoopState → LoopState
  asked st = record st { events = st.events ++ plan_asked ∷ [] }

  -- `refinePlan`, and what is done with its plan: whether the plan was adopted, and the new state.
  abbrev pub adopt_if : (Plan → Bool) → String → LoopState → Result String Plan → Bool × LoopState
  adopt_if usable reason st (err e) = (false, st)
  adopt_if usable reason st (ok plan) =
      if usable plan then (true, adopt reason plan st) else (false, st)

  abbrev pub refine : (Plan → Bool) → String → LoopState → Bool × LoopState
  refine usable reason st = adopt_if usable reason (asked st) (w.get_plan st.events st.evidence)

  abbrev pub has_next : LoopState → Bool
  has_next st = ltb_ℤ (pos st.iteration) config.max_iterations

  -- The values of the refine signals, one after the other.
  unfoldable pub refine_on_request : List Bool → LoopState → LoopState
  refine_on_request [] st = st
  refine_on_request (r ∷ rest) st =
      refine_on_request rest
        (if r then (refine (λ p. true) "User requested refinement" st).1 else st)

  unfoldable pub refine_on_evidence : LoopState → LoopState
  unfolding should_refine
  refine_on_evidence st =
      if config.auto_refine && (has_next st && should_refine st.evidence)
      then (refine has_steps "Auto-refinement based on evidence" st).1
      else st

  abbrev ended : String → LoopState → LoopPayload
  ended status st =
      loop_ended status st.iteration st.evidence (length st.refinements) (length st.feedback)

  unfoldable pub merge_results : GoMap LoopValue → LoopState → LoopState
  merge_results [] st = st
  merge_results ((k, v) ∷ rest) st =
      merge_results rest
        (set_evidence (concat "iteration_" (concat (w.decimal st.iteration) (concat "_" k))) v st)

  -- From "Merge iteration results into evidence" to the end of the iteration.
  unfoldable pub conclude : GoMap LoopValue → LoopState → LoopFlow
  unfolding merge_results is_goal_achieved refine_on_request refine_on_evidence
  conclude results st =
      let merged = merge_results results st in
      if is_goal_achieved merged.evidence
      then answer merged (ended "completed" merged)
      else next (refine_on_evidence (refine_on_request (w.refines merged.iteration) merged))

  -- No recovery: the iteration without results, or the failure of the last one.
  unfoldable pub give_up : String → LoopState → LoopFlow
  unfolding conclude
  give_up e st =
      if has_next st then conclude [] st else answer st (loop_failed st.iteration e st.evidence)

  abbrev ask_status : String → String → WorkflowStatus → WorkflowStatus
  ask_status now reason s = record s {
    state = "waiting_for_feedback";
    needs_human_input = true;
    waiting_on_signal = "feedback";
    waiting_since_rfc = now;
    prompt = reason;
    updated_at_rfc = now;
  }

  abbrev run_status : String → WorkflowStatus → WorkflowStatus
  run_status now s = record s {
    state = "running";
    needs_human_input = false;
    waiting_on_signal = "";
    waiting_since_rfc = "";
    prompt = "";
    updated_at_rfc = now;
  }

  -- The state that waits for feedback on the error.
  abbrev pub ask_feedback : String → LoopState → LoopState
  ask_feedback e st =
      let reason = concat "Iteration failed: " e in
      let asking = record st { needs_approval = true; approval_reason = reason } in
      set_evidence "waiting" (waiting_for reason (now st))
        (on_status (ask_status (now st) reason) asking)

  abbrev pub got_feedback : FeedbackEntry → List FeedbackEntry → LoopState → LoopState
  got_feedback f rest st =
      on_status (run_status (now st))
        (record st { feedback = st.feedback ++ f ∷ []; signals = rest })

  unfoldable pub receive_feedback : String → LoopState → List FeedbackEntry → LoopFlow
  unfolding give_up
  receive_feedback e st [] = await st
  receive_feedback e st (f ∷ rest) =
      let st' = got_feedback f rest st in
      if f.action == "stop"
      then leave st'
      else if f.action == "continue" || f.action == "modify"
      then next st'
      else give_up e st'

  unfoldable pub after_refinement : String → Bool × LoopState → LoopFlow
  unfolding receive_feedback give_up
  after_refinement e (true, st) = next st
  after_refinement e (false, st) =
      if config.enable_feedback
      then receive_feedback e (ask_feedback e st) st.signals
      else give_up e st

  unfoldable pub recover : String → LoopState → LoopFlow
  unfolding after_refinement
  recover e st = after_refinement e (
      if config.auto_refine && has_next st
      then refine has_steps (concat "Error recovery: " e) st
      else (false, st))

  unfoldable pub after_plan :
      LoopState → List LoopEvent × Result String (GoMap LoopValue) → LoopFlow
  unfolding conclude recover
  after_plan st (events, ok results) = conclude results (record st { events = events })
  after_plan st (events, err e) =
      recover e
        (set_evidence "iteration_error" (text e) (record st { events = events; last_error = e }))

  unfoldable pub iterate : LoopState → LoopFlow
  unfolding mark_stops after_plan execute_steps
  iterate st =
      let begun = record st { iteration = st.iteration + 1 } in
      let marked = mark_stops (w.stops begun.iteration) begun in
      after_plan marked (execute_steps w pd marked.events [] marked.current_plan.steps)

  abbrev pub spent : LoopState → LoopOutcome
  spent st = returned st (ended "max_iterations_reached" st)

  abbrev pub and_then : LoopFlow → (LoopState → LoopOutcome) → LoopOutcome
  and_then (next st) rest = rest st
  and_then (leave st) rest = spent st
  and_then (answer st payload) rest = returned st payload
  and_then (await st) rest = waiting st

  -- With the number of the iterations that are left.
  unfoldable pub loop : ℕ → LoopState → LoopOutcome
  unfolding iterate
  loop zero st = spent st
  loop (suc n) st = and_then (iterate st) (loop n)
