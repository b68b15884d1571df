-- ===== src/Temporal/Iterative/Rounds.antt =====
-- The rounds of the iterative workflow: how many there are, and what the result says of them.
use forgeiq.Prelude.{
  ℕ, zero, suc, ◌+◌, ◌≤◌, String, ◌≡◌, refl, Bool, true, false, some, List, [], ◌∷◌, ◌++◌, Result,
  ok, err, arith, if-holds,
}
use forgeiq.GoMap.{GoMap}
use forgeiq.Contracts.{Task, PolicyDecision, Plan, PlanStep}
use forgeiq.Contracts.Values.{Any}
use forgeiq.Temporal.Iterative.{
  Activities, State, Event, Outcome, Flow, go_on, return, and_then, Payload, denied, rejected,
  completed, completed_with_retries, Artifact, returned, failed, waiting, eval_policy, get_plan,
  call_tool, tell, fail, refuse, block, receive, is_blocked, write_gate, note_error, after_call,
  call_step, run_steps, note_plan, after_plan, begin_round, run_round, after_round, run_rounds,
  with_policy, decide, after_policy, start, iterative_workflow,
}

-- `P` of the state it goes on with, `Q` of the state and the outcome it returns.
abbrev pub After : (State → Type 0) → (State → Outcome → Type 0) → Flow → Type 0
After P Q (go_on b st) = P st
After P Q (return st o) = Q st o

pub and_then-After :
    (P R : State → Type 0) (Q : State → Outcome → Type 0) (f : Flow) (next : Bool → State → Flow)
    → After P Q f
    → ((b : Bool) (st : State) → P st → After R Q (next b st))
    → After R Q (and_then f next)
and_then-After P R Q (go_on b st) next h k = k b st h
and_then-After P R Q (return st o) next h k = h

-- How many plans were asked for.
abbrev pub plans : List Event → ℕ
plans [] = 0
plans (get_plan ∷ es) = suc (plans es)
plans (e ∷ es) = plans es

plans-append : (es fs : List Event) → plans (es ++ fs) ≡ plans es + plans fs
plans-append [] fs = omega arith
plans-append (eval_policy ∷ es) fs = plans-append es fs
plans-append (get_plan ∷ es) fs = omega (arith, plans-append es fs)
plans-append (call_tool s p ∷ es) fs = plans-append es fs

-- What a result says of the run.
abbrev pub Tells : State → Artifact → Payload → Type 0
Tells st a (denied reasons) = plans st.events ≡ 0
Tells st a rejected = plans st.events ≤ 3
Tells st a (completed n ev) =
    (plans st.events ≡ n) × (n ≤ 3) × (ev ≡ st.evidence) × (st.final_result ≡ some a)
Tells st a (completed_with_retries n ev) =
    (plans st.events ≡ 3) × (n ≡ 3) × (ev ≡ st.evidence) × (st.final_result ≡ some a)

abbrev pub IsCounted : State → Outcome → Type 0
IsCounted st (returned a) = Tells st a a.payload
IsCounted st (failed e) =
    (plans st.events ≤ 3) × (st.status.state ≡ "failed") × (st.status.last_error ≡ e)
IsCounted st waiting =
    (plans st.events ≤ 3) × (st.status.state ≡ "needs_approval") × (st.signals ≡ [])

abbrev IsAt : ℕ → State → Type 0
IsAt n st = plans st.events ≡ n

module _ (w : Activities) (task : Task) (n : ℕ) (bound : n ≤ 3) where
  receive-IsAt :
      (b : Bool) (step : PlanStep) (st : State) (signals : List Bool)
      → IsAt n st
      → st.signals ≡ signals
      → After (IsAt n) IsCounted (receive w task b (block w task step st) signals)
  receive-IsAt b step st [] h e = (omega (arith, h), refl, e)
  receive-IsAt b step st (true ∷ rest) h e = h
  receive-IsAt b step st (false ∷ rest) h e = omega (arith, h)

  write_gate-IsAt :
      (step : PlanStep) (b : Bool) (st : State)
      → IsAt n st
      → After (IsAt n) IsCounted (write_gate w task step b st)
  unfolding write_gate
  write_gate-IsAt step b st h =
      if-holds (After (IsAt n) IsCounted) (is_blocked w task step st)
        (receive w task b (block w task step st) st.signals) (go_on b st)
        (λ t. receive-IsAt b step st st.signals h refl) (λ t. h)

  after_call-IsAt :
      (step : PlanStep) (r : Result String (GoMap Any)) (b : Bool) (st : State)
      → IsAt n st
      → After (IsAt n) IsCounted (after_call w task step n r b st)
  unfolding after_call
  after_call-IsAt step (ok out) b st h = h
  after_call-IsAt step (err e) b st h =
      if-holds (After (IsAt n) IsCounted) step.stop_on_err (fail w task e st)
        (note_error w task step n e st) (λ t. (omega (arith, h), refl, refl)) (λ t. h)

  call_step-IsAt :
      (step : PlanStep) (b : Bool) (st : State)
      → IsAt n st
      → After (IsAt n) IsCounted (call_step w task step n b st)
  unfolding call_step
  call_step-IsAt step b st h =
      after_call-IsAt step (w.call_tool st.events step st.pd) b (tell (call_tool step st.pd) st)
        (omega (arith, h, plans-append st.events (call_tool step st.pd ∷ [])))

  run_steps-IsAt :
      (steps : List PlanStep) (b : Bool) (st : State)
      → IsAt n st
      → After (IsAt n) IsCounted (run_steps w task n steps b st)
  unfolding run_steps
  run_steps-IsAt [] b st h = h
  run_steps-IsAt (step ∷ rest) b st h =
      and_then-After (IsAt n) (IsAt n) IsCounted (and_then (write_gate w task step b st) _) _
        (and_then-After (IsAt n) (IsAt n) IsCounted (write_gate w task step b st)
          (λ b' st'. call_step w task step n b' st') (write_gate-IsAt step b st h)
          (call_step-IsAt step))
        (λ b' st'. run_steps-IsAt rest b' st')

  after_plan-IsAt :
      (r : Result String Plan) (st : State)
      → IsAt n st
      → After (IsAt n) IsCounted (after_plan w task n r st)
  after_plan-IsAt (err e) st h = (omega (arith, h), refl, refl)
  after_plan-IsAt (ok p) st h = run_steps-IsAt p.steps true (note_plan w task n p st) h

module _ (w : Activities) (task : Task) where
  run_round-IsAt :
      (n : ℕ) (st : State)
      → n + 1 ≤ 3
      → IsAt n st
      → After (IsAt (n + 1)) IsCounted (run_round w task (n + 1) st)
  unfolding run_round
  run_round-IsAt n st l h =
      let begun = begin_round w task (n + 1) st in
      after_plan-IsAt w task (n + 1) l (w.get_plan begun.events task begun.pd begun.evidence)
        (tell get_plan begun) (omega (arith, h, plans-append st.events (get_plan ∷ [])))

  -- What a whole run returns; it never ends by going on.
  abbrev pub Ends : Flow → Type 0
  Ends f = After (λ st. ⊥) IsCounted f

  after_round-Ends :
      (n : ℕ) (next : State → Flow) (b : Bool) (st : State)
      → n + 1 ≤ 3
      → IsAt (n + 1) st
      → ((st' : State) → IsAt (n + 1) st' → Ends (next st'))
      → Ends (after_round w task (n + 1) next b st)
  after_round-Ends n next true st l h k = (h, l, refl, refl)
  after_round-Ends n next false st l h k = k st h

  run_rounds-Ends :
      (left n : ℕ) (st : State)
      → left + n ≡ 3
      → IsAt n st
      → Ends (run_rounds w task left (n + 1) st)
  unfolding run_rounds
  run_rounds-Ends zero n st e h = (omega (arith, e, h), refl, refl, refl)
  run_rounds-Ends (suc left) n st e h =
      and_then-After (IsAt (n + 1)) (λ st'. ⊥) IsCounted (run_round w task (n + 1) st) _
        (run_round-IsAt n st (omega (arith, e)) h)
        (λ b st' k.
          after_round-Ends n (λ st''. run_rounds w task left (n + 1 + 1) st'') b st'
            (omega (arith, e)) k
            (λ st'' k'. run_rounds-Ends left (n + 1) st'' (omega (arith, e)) k'))

  decide-Ends : (st : State) → IsAt 0 st → Ends (decide w task st)
  decide-Ends st h =
      if-holds (After (λ st'. ⊥) IsCounted) st.pd.allowed (run_rounds w task 3 1 st)
        (refuse w task (denied st.pd.reasons) st) (λ t. run_rounds-Ends 3 0 st refl h) (λ t. h)

  after_policy-Ends :
      (st : State) (r : Result String PolicyDecision) → IsAt 0 st → Ends (after_policy w task st r)
  after_policy-Ends st (err e) h = (omega (arith, h), refl, refl)
  after_policy-Ends st (ok d) h = decide-Ends (with_policy w task d st) h

  -- Whatever the activities answer and whatever signals come, the workflow ends after at most three
  -- plans. A completed result says how many plans were asked for, and carries the evidence collected;
  -- one that is completed with retries comes after exactly three; both are kept for the query. A denied
  -- result comes before any plan. A failure shows in the status with its error, and a workflow that
  -- waits has received all signals and shows that it needs an approval.
  pub iterative_workflow-IsCounted :
      (signals : List Bool) → After (λ st. ⊥) IsCounted (iterative_workflow w task signals)
  unfolding iterative_workflow
  iterative_workflow-IsCounted signals =
      after_policy-Ends (tell eval_policy (start w task signals)) (w.eval_policy task) refl
