-- ===== src/Temporal/Iterative/Writes.antt =====
-- The write gate of the iterative workflow.
use mathlib.Core.List.{Mem}
use forgeiq.Prelude.{
  ℕ, zero, suc, ◌+◌, String, ◌≡◌, refl, Bool, true, false, ◌||◌, ◌⊎◌, inl, inr, List, [], ◌∷◌,
  Result, ok, err, All, All-append, contains, mem→contains, arith, if-holds,
}
use forgeiq.GoMap.{GoMap}
use forgeiq.Contracts.{Task, PolicyDecision, Plan, PlanStep}
use forgeiq.Contracts.Values.{Any}
use forgeiq.Temporal.Iterative.{
  Activities, State, Event, Outcome, Flow, go_on, return, and_then, denied, eval_policy, get_plan,
  call_tool, tell, fail, refuse, block, receive, is_blocked, write_gate, note_error, after_call,
  call_step, run_steps, note_plan, after_plan, begin_round, run_round, after_round, run_rounds,
  with_policy, decide, start, iterative_workflow,
}
use forgeiq.Temporal.Incident.Writes.{first_approves}
use forgeiq.Temporal.Iterative.Rounds.{After, and_then-After}

-- A call of a step tagged "write" is made with writes allowed: by the policy `d`, or by the first
-- approval signal.
abbrev pub MayWrite : PolicyDecision → List Bool → Event → Type 0
MayWrite d signals (call_tool s p) =
    Mem "write" s.tags
    → (p.allow_writes ≡ true) × ((d.allow_writes || first_approves signals) ≡ true)
MayWrite d signals _ = Unit

abbrev pub events_of : Flow → List Event
events_of (go_on b st) = st.events
events_of (return st o) = st.events

module _ (w : Activities) (task : Task) (d : PolicyDecision) (signals : List Bool) where
  abbrev Allowed : State → Type 0
  Allowed st = All (MayWrite d signals) st.events

  abbrev AllowedEnd : State → Outcome → Type 0
  AllowedEnd st o = Allowed st

  -- Either no signal has been received and writes are as in `d`, or the first one approved.
  abbrev IsGated : State → Type 0
  IsGated st =
      Allowed st
      × (((st.signals ≡ signals) × (st.pd.allow_writes ≡ d.allow_writes))
          ⊎ ((first_approves signals ≡ true) × (st.pd.allow_writes ≡ true)))

  -- ... and a write step is allowed.
  abbrev IsReady : PlanStep → State → Type 0
  IsReady step st = IsGated st × (contains step.tags "write" ≡ true → st.pd.allow_writes ≡ true)

  abbrev Holds : Flow → Type 0
  Holds f = After IsGated AllowedEnd f

  receive-IsReady :
      (b : Bool) (step : PlanStep) (st : State) (left : List Bool)
      → Allowed st
      → left ≡ signals
      → After (IsReady step) AllowedEnd (receive w task b (block w task step st) left)
  receive-IsReady b step st [] h e = h
  receive-IsReady b step st (true ∷ rest) h e = ((h, inr (rw⁻¹ e refl, refl)), λ m. refl)
  receive-IsReady b step st (false ∷ rest) h e = h

  blocked_unread :
      (step : PlanStep) (st : State)
      → IsGated st
      → is_blocked w task step st ≡ true
      → st.signals ≡ signals
  blocked_unread step st (h, inl k) b = k.0
  blocked_unread step st (h, inr k) b = absurd (ground (arith, k.1))

  write_gate-IsReady :
      (step : PlanStep) (b : Bool) (st : State)
      → IsGated st
      → After (IsReady step) AllowedEnd (write_gate w task step b st)
  unfolding write_gate
  write_gate-IsReady step b st h =
      if-holds (After (IsReady step) AllowedEnd) (is_blocked w task step st)
        (receive w task b (block w task step st) st.signals) (go_on b st)
        (λ t. receive-IsReady b step st st.signals h.0 (blocked_unread step st h t))
        (λ t. (h, λ m. ground arith))

  after_call-Holds :
      (step : PlanStep) (n : ℕ) (r : Result String (GoMap Any)) (b : Bool) (st : State)
      → IsGated st
      → Holds (after_call w task step n r b st)
  unfolding after_call
  after_call-Holds step n (ok out) b st h = h
  after_call-Holds step n (err e) b st h =
      if-holds (After IsGated AllowedEnd) step.stop_on_err (fail w task e st)
        (note_error w task step n e st) (λ t. h.0) (λ t. h)

  allowed_by :
      (st : State)
      → IsGated st
      → st.pd.allow_writes ≡ true
      → (d.allow_writes || first_approves signals) ≡ true
  allowed_by st (h, inl k) a = ground (arith, k.1)
  allowed_by st (h, inr k) a = ground (arith, k.0)

  call_step-Holds :
      (step : PlanStep) (n : ℕ) (b : Bool) (st : State)
      → IsReady step st
      → Holds (call_step w task step n b st)
  unfolding call_step
  call_step-Holds step n b st (h, k) =
      after_call-Holds step n (w.call_tool st.events step st.pd) b (tell (call_tool step st.pd) st)
        (
          All-append (MayWrite d signals) st.events (call_tool step st.pd ∷ []) h.0
              (λ m. let a = k (mem→contains step.tags "write" m) in (a, allowed_by st h a), tt),
          h.1,
        )

  run_steps-Holds :
      (n : ℕ) (steps : List PlanStep) (b : Bool) (st : State)
      → IsGated st
      → Holds (run_steps w task n steps b st)
  unfolding run_steps
  run_steps-Holds n [] b st h = h
  run_steps-Holds n (step ∷ rest) b st h =
      and_then-After IsGated IsGated AllowedEnd (and_then (write_gate w task step b st) _) _
        (and_then-After (IsReady step) IsGated AllowedEnd (write_gate w task step b st)
          (λ b' st'. call_step w task step n b' st') (write_gate-IsReady step b st h)
          (call_step-Holds step n))
        (λ b' st'. run_steps-Holds n rest b' st')

  after_plan-Holds :
      (n : ℕ) (r : Result String Plan) (st : State) → IsGated st → Holds (after_plan w task n r st)
  after_plan-Holds n (err e) st h = h.0
  after_plan-Holds n (ok p) st h = run_steps-Holds n p.steps true (note_plan w task n p st) h

  run_round-Holds : (n : ℕ) (st : State) → IsGated st → Holds (run_round w task n st)
  unfolding run_round
  run_round-Holds n st h =
      let begun = begin_round w task n st in
      after_plan-Holds n (w.get_plan begun.events task begun.pd begun.evidence)
        (tell get_plan begun)
        (All-append (MayWrite d signals) st.events (get_plan ∷ []) h.0 (tt, tt), h.1)

  after_round-Holds :
      (n : ℕ) (next : State → Flow) (b : Bool) (st : State)
      → IsGated st
      → ((st' : State) → IsGated st' → Holds (next st'))
      → Holds (after_round w task n next b st)
  after_round-Holds n next true st h k = h.0
  after_round-Holds n next false st h k = k st h

  run_rounds-Holds : (left n : ℕ) (st : State) → IsGated st → Holds (run_rounds w task left n st)
  unfolding run_rounds
  run_rounds-Holds zero n st h = h.0
  run_rounds-Holds (suc left) n st h =
      and_then-After IsGated IsGated AllowedEnd (run_round w task n st) _ (run_round-Holds n st h)
        (λ b st' k.
          after_round-Holds n (λ st''. run_rounds w task left (n + 1) st'') b st' k
            (λ st''. run_rounds-Holds left (n + 1) st''))

  decide-Holds : (st : State) → IsGated st → Holds (decide w task st)
  decide-Holds st h =
      if-holds (After IsGated AllowedEnd) st.pd.allowed (run_rounds w task 3 1 st)
        (refuse w task (denied st.pd.reasons) st) (λ t. run_rounds-Holds 3 1 st h) (λ t. h.0)

  Holds-events : (f : Flow) → Holds f → All (MayWrite d signals) (events_of f)
  Holds-events (go_on b st) h = h.0
  Holds-events (return st o) h = h

  -- Where the policy is `d`: in every round, every call of a step that is tagged "write" is made with
  -- a policy that allows writes, and then `d` allowed them or the first approval signal approved.
  pub iterative_writes :
      w.eval_policy task ≡ ok d
      → All (MayWrite d signals) (events_of (iterative_workflow w task signals))
  unfolding iterative_workflow
  iterative_writes e =
      let st = with_policy w task d (tell eval_policy (start w task signals)) in
      rw e (Holds-events (decide w task st) (decide-Holds st ((tt, tt), inl (refl, refl))))
