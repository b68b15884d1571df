-- ===== src/Temporal/Incident/Trace.antt =====
-- The tool calls of a run: a prefix of the plan, in its order, within the budget.
use mathlib.Core.List.{append_assoc, append-nil}
use forgeiq.Prelude.{
  negsuc, subst, ltb_ℤ, ℕ, ◌+◌, ◌≤◌, ◌<◌, String, ◌≡◌, refl, sym, ◌∙◌, ap, Bool, true, false, ◌&&◌,
  ltb_ℤ, subst, List, [], ◌∷◌, ◌++◌, Result, ok, err, ℤ, pos, pos_part, length, length-append,
  arith,
}
use forgeiq.GoMap.{GoMap, put}
use forgeiq.Contracts.{Task, PolicyDecision, Plan, PlanStep, Budget}
use forgeiq.Contracts.Values.{Any}
use forgeiq.Temporal.Incident.{
  Event, complete_eval, record_approval, call_tool, eval_policy, get_plan, State, Payload,
  completed, Outcome, returned, go_on, Activities, count_call, check_budget, over_budget, exceed,
  block, receive, is_blocked, write_gate, after_call, note_error, fail, call_step, run_step,
  run_steps, after_plan, plan_and_run, deny, complete, incident_workflow, tell, start, policy, plan,
  set_evidence,
}
use forgeiq.Temporal.Incident.Flows.{After, After-if, and_then-After}

-- The steps that were called.
abbrev pub calls : List Event → List PlanStep
calls [] = []
calls (call_tool s p ∷ es) = s ∷ calls es
calls (e ∷ es) = calls es

calls-append : (es fs : List Event) → calls (es ++ fs) ≡ calls es ++ calls fs
calls-append [] fs = refl
calls-append (eval_policy ∷ es) fs = calls-append es fs
calls-append (get_plan ∷ es) fs = calls-append es fs
calls-append (record_approval ∷ es) fs = calls-append es fs
calls-append (call_tool s p ∷ es) fs = ap (λ x. s ∷ x) (calls-append es fs)
calls-append (complete_eval s e ∷ es) fs = calls-append es fs

-- An event that is no call.
calls-other : (es : List Event) (e : Event) → calls (e ∷ []) ≡ [] → calls (es ++ e ∷ []) ≡ calls es
calls-other es e h = calls-append es (e ∷ []) ∙ ap (λ x. calls es ++ x) h ∙ append-nil (calls es)

-- A budget of zero or less is no bound.
abbrev pub InBudget : Budget → ℕ → Type 0
InBudget b n = 0 < pos_part b.max_tool_calls → n ≤ pos_part b.max_tool_calls

-- The calls are the first steps of the plan, in its order, and within the budget.
abbrev pub IsPart : Budget → List PlanStep → List Event → Type 0
IsPart b steps es =
    ((rest : List PlanStep) × (calls es ++ rest ≡ steps)) × InBudget b (length (calls es))

-- A completed run has called every step.
abbrev IsFull : List PlanStep → Payload → List Event → Type 0
IsFull steps (completed ev) es = calls es ≡ steps
IsFull steps _ es = Unit

abbrev pub IsTraced : Budget → List PlanStep → State → Outcome → Type 0
IsTraced b steps st (returned a) = IsPart b steps st.events × IsFull steps a.payload st.events
IsTraced b steps st _ = IsPart b steps st.events

within :
    (m : ℤ) (n : ℕ) → (ltb_ℤ (pos 0) m && ltb_ℤ m (pos n)) ≡ false → 0 < pos_part m → n ≤ pos_part m
within (pos k) n h = ground arith
within (negsuc k) n h = ground arith

module _ (w : Activities) (task : Task) (b : Budget) (all : List PlanStep) where
  abbrev Q : State → Outcome → Type 0
  Q = IsTraced b all

  -- `extra` is 1 once the coming call is counted.
  abbrev IsAt : List PlanStep → ℕ → State → Type 0
  IsAt done extra st =
      (calls st.events ≡ done)
      × (st.status.tool_calls ≡ length done + extra)
      × (st.pd.budgets ≡ b)
      × InBudget b (length done)

  abbrev IsClear : List PlanStep → State → Type 0
  IsClear done st = IsAt done 1 st × InBudget b (length done + 1)

  part :
      (done rest : List PlanStep) (es : List Event)
      → calls es ≡ done
      → done ++ rest ≡ all
      → InBudget b (length done)
      → IsPart b all es
  part done rest es c e h = ((rest, rw c e), rw c h)

  reported :
      (done rest : List PlanStep) (es : List Event) (s e : String)
      → calls es ≡ done
      → done ++ rest ≡ all
      → InBudget b (length done)
      → IsPart b all (es ++ complete_eval s e ∷ [])
  reported done rest es s e c split h =
      part done rest (es ++ complete_eval s e ∷ []) (calls-other es (complete_eval s e) refl ∙ c)
        split h

  module _ (done rest : List PlanStep) (split : done ++ rest ≡ all) where
    check_budget-IsClear :
        (st : State) → IsAt done 1 st → After (IsClear done) Q (check_budget w task st)
    unfolding check_budget
    check_budget-IsClear st h =
        After-if (IsClear done) Q (over_budget w task st) (exceed w task st) (go_on st)
          (λ t. part done rest st.events h.0 split h.3)
          (λ t. (h, within b.max_tool_calls (length done + 1) (rw (h.1, h.2) at t)))

    receive-IsClear :
        (step : PlanStep) (st : State) (signals : List Bool)
        → IsClear done st
        → After (IsClear done) Q (receive w task (block w task step st) signals)
    receive-IsClear step st [] h = part done rest st.events h.0.0 split h.0.3
    receive-IsClear step st (true ∷ more) h =
        ((calls-other st.events record_approval refl ∙ h.0.0, h.0.1, h.0.2, h.0.3), h.1)
    receive-IsClear step st (false ∷ more) h =
        (reported done rest st.events "denied" st.status.last_error h.0.0 split h.0.3, tt)

    write_gate-IsClear :
        (step : PlanStep) (st : State)
        → IsClear done st
        → After (IsClear done) Q (write_gate w task step st)
    unfolding write_gate
    write_gate-IsClear step st h =
        After-if (IsClear done) Q (is_blocked w task step st)
          (receive w task (block w task step st) st.signals) (go_on st)
          (λ t. receive-IsClear step st st.signals h) (λ t. h)

    after_call-IsAt :
        (step : PlanStep) (r : Result String (GoMap Any)) (st : State)
        → IsAt done 0 st
        → After (IsAt done 0) Q (after_call w task step r st)
    unfolding after_call
    after_call-IsAt step (ok out) st h = h
    after_call-IsAt step (err e) st h =
        After-if (IsAt done 0) Q step.stop_on_err (fail w task e st) (note_error w task step e st)
          (λ t. reported done rest st.events "failed" e h.0 split h.3) (λ t. h)

  advance :
      (done : List PlanStep) (step : PlanStep) (st : State) (p : PolicyDecision)
      → IsClear done st
      → IsAt (done ++ step ∷ []) 0 (tell (call_tool step p) st)
  advance done step st p h =
      let n = length-append done (step ∷ []) in
      (
        calls-append st.events (call_tool step p ∷ []) ∙ ap (λ x. x ++ step ∷ []) h.0.0,
        omega (arith, n, h.0.1),
        h.0.2,
        λ z. omega (arith, n, h.1 z),
      )

  run_step-IsAt :
      (done : List PlanStep) (step : PlanStep) (rest : List PlanStep) (st : State)
      → done ++ step ∷ rest ≡ all
      → IsAt done 0 st
      → After (IsAt (done ++ step ∷ []) 0) Q (run_step w task step st)
  unfolding run_step call_step
  run_step-IsAt done step rest st split h =
      let counted = count_call w task st in
      and_then-After (IsClear done) (IsAt (done ++ step ∷ []) 0) Q (check_budget w task counted) _
        (check_budget-IsClear done (step ∷ rest) split counted (h.0, omega (arith, h.1), h.2, h.3))
        λ st' c.
          and_then-After (IsClear done) (IsAt (done ++ step ∷ []) 0) Q (write_gate w task step st')
            _ (write_gate-IsClear done (step ∷ rest) split step st' c)
            λ st'' a.
              after_call-IsAt (done ++ step ∷ []) rest (append_assoc done (step ∷ []) rest ∙ split)
                step (w.call_tool st''.events step st''.pd) (tell (call_tool step st''.pd) st'')
                (advance done step st'' st''.pd a)

  run_steps-IsAt :
      (done rest : List PlanStep) (st : State)
      → done ++ rest ≡ all
      → IsAt done 0 st
      → After (IsAt all 0) Q (run_steps w task rest st)
  unfolding run_steps
  run_steps-IsAt done [] st split h =
      let e = sym (append-nil done) ∙ split in subst (λ x. IsAt x 0 st) e h
  run_steps-IsAt done (step ∷ rest) st split h =
      and_then-After (IsAt (done ++ step ∷ []) 0) (IsAt all 0) Q (run_step w task step st) _
        (run_step-IsAt done step rest st split h)
        λ st' k.
          run_steps-IsAt (done ++ step ∷ []) rest st' (append_assoc done (step ∷ []) rest ∙ split) k

  complete-Q : (st : State) → IsAt all 0 st → After (λ x. ⊥) Q (complete w task st)
  complete-Q st h =
      let last = complete_eval "completed" st.status.last_error in
      (
        reported all [] st.events "completed" st.status.last_error h.0 (append-nil all) h.3,
        calls-other st.events last refl ∙ h.0,
      )

  planned-Q :
      (st : State)
      → IsAt [] 0 st
      → (p : Plan) → p.steps ≡ all
      → After (λ x. ⊥) Q (after_plan w task st (ok p))
  planned-Q st h p e =
      and_then-After (IsAt all 0) (λ x. ⊥) Q _ _
        (run_steps-IsAt [] p.steps (set_evidence w task "plan" (plan p) st) e h) complete-Q

module _ (w : Activities) (task : Task) (signals : List Bool) (d : PolicyDecision) (p : Plan) where
  -- Where the policy is `d` and the plan `p`: the workflow has returned or is waiting for an approval
  -- signal that it is not given. In either case the steps that it has called are the first ones of the
  -- plan, in its order and each once, and they are no more than the tool call budget if that is
  -- positive; if the result is "completed", they are all of them.
  pub incident_workflow-IsTraced :
      w.eval_policy task ≡ ok d
      → w.get_plan task d (("policy", policy d) ∷ []) ≡ ok p
      → After (λ st. ⊥) (IsTraced d.budgets p.steps) (incident_workflow w task signals)
  unfolding incident_workflow put
  incident_workflow-IsTraced e f =
      let st = tell eval_policy (start w task signals) in
      let st' = set_evidence w task "policy" (policy d) (record st { pd = d }) in
      rw e (
        After-if (λ x. ⊥) (IsTraced d.budgets p.steps) d.allowed (plan_and_run w task st')
          (deny w task st')
          (λ t. rw f (
            planned-Q w task d.budgets p.steps (tell get_plan st')
              (refl, refl, refl, λ z. omega arith) p refl))
          (λ t. (((p.steps, refl), λ z. omega arith), tt)))
