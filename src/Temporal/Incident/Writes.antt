-- ===== src/Temporal/Incident/Writes.antt =====
-- The write gate: what a call of a write step takes.
use mathlib.Core.List.{Mem}
use forgeiq.Prelude.{
  String, ◌≡◌, refl, Bool, true, false, ◌||◌, ◌⊎◌, inl, inr, List, [], ◌∷◌, Result, ok, err, All,
  All-append, contains, mem→contains, arith,
}
use forgeiq.GoMap.{GoMap}
use forgeiq.Contracts.{Task, PolicyDecision, Plan, PlanStep}
use forgeiq.Contracts.Values.{Any}
use forgeiq.Temporal.Incident.{
  Event, call_tool, eval_policy, get_plan, State, Flow, go_on, Activities, count_call, check_budget,
  over_budget, exceed, block, receive, is_blocked, write_gate, after_call, note_error, fail,
  call_step, run_step, run_steps, after_plan, decide, plan_and_run, deny, incident_workflow, tell,
  start, policy, plan, set_evidence,
}
use forgeiq.Temporal.Incident.Flows.{
  After, Always, After-if, and_then-After, events_of, Always-events,
}

-- The first approval signal approves.
abbrev pub first_approves : List Bool → Bool
first_approves [] = false
first_approves (b ∷ rest) = b

-- A call of a step tagged "write" is made with writes allowed: by the policy `d`, or by the first
-- approval signal.
abbrev pub IsAllowed : PolicyDecision → List Bool → Event → Type 0
IsAllowed d signals (call_tool s p) =
    Mem "write" s.tags
    → (p.allow_writes ≡ true) × ((d.allow_writes || first_approves signals) ≡ true)
IsAllowed d signals _ = Unit

module _ (w : Activities) (task : Task) (d : PolicyDecision) (signals : List Bool) where
  abbrev AllAllowed : State → Type 0
  AllAllowed st = All (IsAllowed d signals) st.events

  -- Either no signal has been received and writes are as in `d`, or the first one approved.
  abbrev IsGated : State → Type 0
  IsGated st =
      AllAllowed st
      × (((st.signals ≡ signals) × (st.pd.allow_writes ≡ d.allow_writes))
          ⊎ ((first_approves signals ≡ true) × (st.pd.allow_writes ≡ true)))

  -- ... and a write step is allowed.
  abbrev IsReady : PlanStep → State → Type 0
  IsReady step st = IsGated st × (contains step.tags "write" ≡ true → st.pd.allow_writes ≡ true)

  abbrev Holds : Flow → Type 0
  Holds f = After IsGated (λ st o. AllAllowed st) f

  tell-AllAllowed :
      (e : Event) (st : State) → AllAllowed st → IsAllowed d signals e → AllAllowed (tell e st)
  tell-AllAllowed e st h a = All-append (IsAllowed d signals) st.events (e ∷ []) h (a, tt)

  fail-Holds : (e : String) (st : State) → AllAllowed st → Holds (fail w task e st)
  fail-Holds e st h = All-append (IsAllowed d signals) st.events _ h (tt, tt)

  check_budget-Holds : (st : State) → IsGated st → Holds (check_budget w task st)
  unfolding check_budget
  check_budget-Holds st h =
      After-if IsGated (λ st' o. AllAllowed st') (over_budget w task st) (exceed w task st)
        (go_on st) (λ b. h.0) (λ b. h)

  receive-IsReady :
      (step : PlanStep) (st : State) (left : List Bool)
      → AllAllowed st
      → left ≡ signals
      → After (IsReady step) (λ st' o. AllAllowed st') (receive w task (block w task step st) left)
  receive-IsReady step st [] h e = h
  receive-IsReady step st (true ∷ rest) h e = (
    (All-append (IsAllowed d signals) st.events _ h (tt, tt), inr (rw⁻¹ e refl, refl)),
    λ _. refl,
  )
  receive-IsReady step st (false ∷ rest) h e =
      All-append (IsAllowed d signals) st.events _ h (tt, tt)

  blocked_unread :
      (step : PlanStep) (st : State)
      → IsGated st
      → is_blocked w task step st ≡ true
      → st.signals ≡ signals
  blocked_unread step st (h, inl k) b = k.0
  blocked_unread step st (h, inr k) b = absurd (ground (arith, k.1))

  write_gate-IsReady :
      (step : PlanStep) (st : State)
      → IsGated st
      → After (IsReady step) (λ st' o. AllAllowed st') (write_gate w task step st)
  unfolding write_gate
  write_gate-IsReady step st h =
      After-if (IsReady step) (λ st' o. AllAllowed st') (is_blocked w task step st)
        (receive w task (block w task step st) st.signals) (go_on st)
        (λ b. receive-IsReady step st st.signals h.0 (blocked_unread step st h b))
        (λ b. (h, λ m. ground arith))

  after_call-Holds :
      (step : PlanStep) (r : Result String (GoMap Any)) (st : State)
      → IsGated st
      → Holds (after_call w task step r st)
  unfolding after_call
  after_call-Holds step (ok out) st h = h
  after_call-Holds step (err e) st h =
      After-if IsGated (λ st' o. AllAllowed st') step.stop_on_err (fail w task e st)
        (note_error w task step e st) (λ b. fail-Holds e st h.0) (λ b. h)

  allowed_by :
      (st : State)
      → IsGated st
      → st.pd.allow_writes ≡ true
      → (d.allow_writes || first_approves signals) ≡ true
  allowed_by st (h, inl k) a = ground (arith, k.1)
  allowed_by st (h, inr k) a = ground (arith, k.0)

  call_step-Holds :
      (step : PlanStep) (st : State) → IsReady step st → Holds (call_step w task step st)
  unfolding call_step
  call_step-Holds step st (h, k) =
      after_call-Holds step (w.call_tool st.events step st.pd) (tell (call_tool step st.pd) st) (
        tell-AllAllowed (call_tool step st.pd) st h.0
            (λ m. let a = k (mem→contains step.tags "write" m) in (a, allowed_by st h a)),
        h.1,
      )

  run_step-Holds : (step : PlanStep) (st : State) → IsGated st → Holds (run_step w task step st)
  unfolding run_step
  run_step-Holds step st h =
      and_then-After IsGated IsGated (λ st' o. AllAllowed st')
        (check_budget w task (count_call w task st)) _ (check_budget-Holds (count_call w task st) h)
        λ counted c.
          and_then-After (IsReady step) IsGated (λ st' o. AllAllowed st')
            (write_gate w task step counted) _ (write_gate-IsReady step counted c)
            (call_step-Holds step)

  run_steps-Holds :
      (steps : List PlanStep) (st : State) → IsGated st → Holds (run_steps w task steps st)
  unfolding run_steps
  run_steps-Holds [] st h = h
  run_steps-Holds (step ∷ rest) st h =
      and_then-After IsGated IsGated (λ st' o. AllAllowed st') (run_step w task step st) _
        (run_step-Holds step st h) (λ st'. run_steps-Holds rest st')

  after_plan-AllAllowed :
      (st : State) (r : Result String Plan)
      → IsGated st
      → Always AllAllowed (after_plan w task st r)
  after_plan-AllAllowed st (err e) h = fail-Holds e st h.0
  after_plan-AllAllowed st (ok p) h =
      and_then-After IsGated AllAllowed (λ st' o. AllAllowed st') _ _
        (run_steps-Holds p.steps (set_evidence w task "plan" (plan p) st) h)
        (λ st' k. tell-AllAllowed _ st' k.0 tt)

  decide-AllAllowed : (st : State) → IsGated st → Always AllAllowed (decide w task st)
  decide-AllAllowed st h =
      After-if AllAllowed (λ st' o. AllAllowed st') st.pd.allowed (plan_and_run w task st)
        (deny w task st)
        (λ b.
          after_plan-AllAllowed (tell get_plan st) (w.get_plan task st.pd st.status.evidence)
            (tell-AllAllowed get_plan st h.0 tt, h.1))
        (λ b. All-append (IsAllowed d signals) st.events _ h.0 (tt, tt))

  -- Where the policy is `d`: every call of a step that is tagged "write" is made with a policy that
  -- allows writes, and then `d` allowed them or the first approval signal approved.
  pub incident_writes :
      w.eval_policy task ≡ ok d
      → All (IsAllowed d signals) (events_of (incident_workflow w task signals))
  unfolding incident_workflow
  incident_writes e =
      let st = tell eval_policy (start w task signals) in
      rw e (
        Always-events (All (IsAllowed d signals))
          (decide w task (set_evidence w task "policy" (policy d) (record st { pd = d })))
          (decide-AllAllowed (set_evidence w task "policy" (policy d) (record st { pd = d }))
            ((tt, tt), inl (refl, refl))))
