-- ===== src/Temporal/Agentic/Ends.antt =====
-- How the agentic loop ends.
use forgeiq.Prelude.{
  ◌∙◌, ap, ◌||◌, ℕ, zero, suc, ◌+◌, ◌≤◌, String, concat, ◌≡◌, refl, Bool, true, false, not, ◌&&◌,
  Option, none, some, List, [], ◌∷◌, Result, ok, err, pos_part, length, if-holds, Bool-cases, inl,
  inr, arith, ◌==◌,
}
use forgeiq.GoMap.{GoMap, get, put}
use forgeiq.Contracts.{Task, PolicyDecision, Plan}
use forgeiq.Temporal.Incident.{WorkflowStatus}
use forgeiq.Temporal.Agentic.{
  AgenticLoopConfig, LoopValue, text, LoopEvidence, FeedbackEntry, LoopEvent, LoopState, LoopWorld,
  LoopPayload, LoopFlow, next, leave, answer, await, set_evidence, is_goal_achieved, execute_steps,
}
use forgeiq.Temporal.Agentic.Loop.{
  and_then, LoopOutcome, returned, failed, waiting, mark_stops, has_next, has_steps, merge_results,
  conclude, give_up, ask_feedback, receive_feedback, got_feedback, after_refinement, recover,
  after_plan, iterate, loop,
}
use forgeiq.Temporal.Agentic.Workflow.{
  started, noted, set_state, loop_config, incident_workflow_agentic, at_status, finished,
  after_first_plan, close, Answer, initial, agentic_loop,
}
use forgeiq.Temporal.Agentic.Fits.{
  NoGoal, IsIncomplete, Fits, put-NoGoal, set_evidence-Fits, mark_stops-Fits, refine-Fits,
  refine_on_request-Fits, refine_on_evidence-Fits, merge_results-Fits,
}

abbrev Good : Bool → ℕ → LoopFlow → Type 0
Good waits n (next st) = Fits waits n st
Good waits n (leave st) = Unit
Good waits n (answer st p) = IsIncomplete p
Good waits n (await st) = waits ≡ true

module _ (w : LoopWorld) (config : AgenticLoopConfig) (pd : PolicyDecision) (waits : Bool) where
  weaken : (n : ℕ) (st : LoopState) → Fits waits (suc n) st → Fits waits n st
  weaken n st f = record { enough = λ e. omega (arith, f.enough e); no_goal = f.no_goal }

  not_achieved : (ev : LoopEvidence) → NoGoal ev → is_goal_achieved ev ≡ false
  unfolding is_goal_achieved
  not_achieved ev (a, b) = rw (a, b) refl

  conclude-Good :
      (n : ℕ) (results : GoMap LoopValue) (st : LoopState)
      → Fits waits n st
      → Good waits n (conclude w config pd results st)
  unfolding conclude
  conclude-Good n results st f =
      let m = merge_results w config pd results st in
      let fm = merge_results-Fits w config pd waits n results st f in
      if-holds (Good waits n) (is_goal_achieved m.evidence) _ _
        (λ e. absurd (cc (e, not_achieved m.evidence fm.no_goal)))
        (λ e.
          refine_on_evidence-Fits w config pd waits n _
            (refine_on_request-Fits w config pd waits n (w.refines m.iteration) m fm))

  give_up-Good :
      (n : ℕ) (e : String) (st : LoopState)
      → Fits waits n st
      → Good waits n (give_up w config pd e st)
  unfolding give_up
  give_up-Good n e st f =
      if-holds (Good waits n) (has_next w config pd st) _ _ (λ h. conclude-Good n [] st f) (λ h. tt)

  receive_feedback-Good :
      (n : ℕ) (e : String) (st : LoopState) (signals : List FeedbackEntry)
      → NoGoal st.evidence
      → (waits ≡ false → suc n ≤ length signals)
      → Good waits n (receive_feedback w config pd e st signals)
  unfolding receive_feedback
  receive_feedback-Good n e st [] g h = elim (Bool-cases waits) [
    | inl t ↦ t
    | inr t ↦ absurd (omega (arith, h t))
  ]
  receive_feedback-Good n e st (s ∷ rest) g h =
      let st' = got_feedback w config pd s rest st in
      let f : Fits waits n st' = record { enough = λ t. omega (arith, h t); no_goal = g } in
      if-holds (Good waits n) (s.action == "stop") _ _ (λ t. tt)
        (λ t.
          if-holds (Good waits n) (s.action == "continue" || s.action == "modify") _ _ (λ u. f)
            (λ u. give_up-Good n e st' f))

  after_refinement-Good :
      (n : ℕ) (e : String) (r : Bool × LoopState)
      → Fits waits (suc n) r.1
      → Good waits n (after_refinement w config pd e r)
  unfolding after_refinement
  after_refinement-Good n e (true, st) f = weaken n st f
  after_refinement-Good n e (false, st) f =
      let asking = ask_feedback w config pd e st in
      let g = put-NoGoal st.evidence "waiting" _ (refl, refl) f.no_goal in
      if-holds (Good waits n) config.enable_feedback _ _
        (λ t. receive_feedback-Good n e asking st.signals g f.enough)
        (λ t. give_up-Good n e st (weaken n st f))

  recover-Good :
      (n : ℕ) (e : String) (st : LoopState)
      → Fits waits (suc n) st
      → Good waits n (recover w config pd e st)
  unfolding recover
  recover-Good n e st f = after_refinement-Good n e _ (
      if-holds (λ (p : Bool × LoopState). Fits waits (suc n) p.1)
        (config.auto_refine && has_next w config pd st) _ _
        (λ t.
          refine-Fits w config pd waits (suc n) (has_steps w config pd)
            (concat "Error recovery: " e) st f)
        (λ t. f))

  after_plan-Good :
      (n : ℕ) (st : LoopState) (r : List LoopEvent × Result String (GoMap LoopValue))
      → Fits waits (suc n) st
      → Good waits n (after_plan w config pd st r)
  unfolding after_plan
  after_plan-Good n st (events, ok results) f =
      conclude-Good n results (record st { events = events })
        (record { enough = λ t. omega (arith, f.enough t); no_goal = f.no_goal })
  after_plan-Good n st (events, err e) f =
      let failing = record st { events = events; last_error = e } in
      recover-Good n e (set_evidence "iteration_error" (text e) failing) (
        set_evidence-Fits w config pd waits (suc n) "iteration_error" (text e) failing (refl, refl)
          (record { enough = f.enough; no_goal = f.no_goal }))

  iterate-Good :
      (n : ℕ) (st : LoopState) → Fits waits (suc n) st → Good waits n (iterate w config pd st)
  unfolding iterate
  iterate-Good n st f =
      let begun = record st { iteration = st.iteration + 1 } in
      let marked = mark_stops w config pd (w.stops (st.iteration + 1)) begun in
      after_plan-Good n marked (execute_steps w pd marked.events [] marked.current_plan.steps) (
        mark_stops-Fits w config pd waits (suc n) (w.stops (st.iteration + 1)) begun
          (record { enough = f.enough; no_goal = f.no_goal }))

-- The loop returned, and the status of its payload is not "completed"; or it waits, where that is
-- allowed.
abbrev Ends : Bool → LoopOutcome → Type 0
Ends waits (returned st p) = IsIncomplete p
Ends waits (failed s e) = ⊥
Ends waits (waiting st) = waits ≡ true

module _ (w : LoopWorld) (config : AgenticLoopConfig) (pd : PolicyDecision) (waits : Bool) where
  and_then-Ends :
      (n : ℕ) (flow : LoopFlow) (rest : LoopState → LoopOutcome)
      → ((st : LoopState) → Fits waits n st → Ends waits (rest st))
      → Good waits n flow
      → Ends waits (and_then w config pd flow rest)
  and_then-Ends n (next st) rest h g = h st g
  and_then-Ends n (leave st) rest h g = λ e. cc
  and_then-Ends n (answer st p) rest h g = g
  and_then-Ends n (await st) rest h g = g

  loop-Ends : (n : ℕ) (st : LoopState) → Fits waits n st → Ends waits (loop w config pd n st)
  unfolding loop
  loop-Ends zero st f = λ e. cc
  loop-Ends (suc n) st f =
      and_then-Ends n (iterate w config pd st) (loop w config pd n) (loop-Ends n)
        (iterate-Good w config pd waits n st f)

initial-Fits :
    (waits : Bool) (n : ℕ) (w : LoopWorld) (signals : List FeedbackEntry)
    (status : Option WorkflowStatus) (p : Plan)
    → (waits ≡ false → n ≤ length signals)
    → Fits waits n (initial w signals status p)
unfolding get put
initial-Fits waits n w signals status p h = record { enough = h; no_goal = (refl, refl) }

Ends-returned :
    (o : LoopOutcome)
    → Ends false o
    → (st : LoopState) × (p : LoopPayload) × (o ≡ returned st p) × IsIncomplete p
Ends-returned (returned st p) h = (st, p, refl, h)
Ends-returned (failed s e) h = absurd h
Ends-returned (waiting st) h = absurd (cc)

-- Where the first plan is given, and there is a feedback signal for each iteration that the
-- configuration allows, the loop does not wait forever: it returns an artifact, whatever the tools, the
-- later plans and the feedback are.
pub agentic_loop_returns :
    (w : LoopWorld) (signals : List FeedbackEntry) (config : AgenticLoopConfig)
    (pd : PolicyDecision) (status : Option WorkflowStatus) (p : Plan)
    → w.get_plan [] [] ≡ ok p
    → pos_part config.max_iterations ≤ length signals
    → (st : LoopState) × (q : LoopPayload) × (agentic_loop w signals config pd status
        ≡ returned st q)
unfolding agentic_loop
agentic_loop_returns w signals config pd status p e h =
    let n = pos_part config.max_iterations in
    let (st, q, r, _) = Ends-returned (loop w config pd n (initial w signals status p)) (
      loop-Ends w config pd false n (initial w signals status p)
        (initial-Fits false n w signals status p (λ t. h))) in
    (st, q, ap (after_first_plan w signals config pd status) e ∙ r)

-- A finished workflow, and what its status and its payload say.
abbrev pub IsMisreported : WorkflowStatus × Answer → Type 0
IsMisreported (s, finished p) = (s.state ≡ "completed") × IsIncomplete p
IsMisreported (s, _) = Unit

at_status-completed :
    (w : LoopWorld) (time : ℕ → String) (now : String) (s : WorkflowStatus)
    (o : Option WorkflowStatus)
    → (at_status w time (set_state w time "completed" now) s o).state ≡ "completed"
at_status-completed w time now s none = refl
at_status-completed w time now s (some s') = refl

close-IsMisreported :
    (w : LoopWorld) (time : ℕ → String) (s : WorkflowStatus) (o : LoopOutcome)
    → Ends true o
    → IsMisreported (close w time s o)
unfolding close
close-IsMisreported w time s (returned st p) h =
    (at_status-completed w time (time 2) s st.status, h)
close-IsMisreported w time s (failed s' e) h = tt
close-IsMisreported w time s (waiting st) h = tt

close-after_first_plan :
    (w : LoopWorld) (time : ℕ → String) (signals : List FeedbackEntry) (pd : PolicyDecision)
    (s : WorkflowStatus) (r : Result String Plan)
    → IsMisreported (close w time s (after_first_plan w signals loop_config pd (some s) r))
unfolding close
close-after_first_plan w time signals pd s (err e) = tt
close-after_first_plan w time signals pd s (ok p) =
    close-IsMisreported w time s (loop w loop_config pd 5 (initial w signals (some s) p)) (
      loop-Ends w loop_config pd true 5 (initial w signals (some s) p)
        (initial-Fits true 5 w signals (some s) p (λ t. absurd (cc))))

-- The agentic workflow never reports a completed goal in its artifact: the status in the payload of a
-- result of the loop is not "completed", while the workflow's own status then is, also where the loop
-- failed or its iterations were spent.
pub incident_workflow_agentic-IsMisreported :
    (w : LoopWorld) (time : ℕ → String) (task : Task) (policy : Result String PolicyDecision)
    (signals : List FeedbackEntry)
    → IsMisreported (incident_workflow_agentic w time task policy signals)
unfolding incident_workflow_agentic agentic_loop
incident_workflow_agentic-IsMisreported w time task (err e) signals = tt
incident_workflow_agentic-IsMisreported w time task (ok pd) signals =
    if-holds IsMisreported (not pd.allowed) _ _ (λ e. tt)
      (λ e.
        close-after_first_plan w time signals pd (noted w time pd (started w time task))
          (w.get_plan [] []))
