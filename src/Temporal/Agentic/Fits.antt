-- ===== src/Temporal/Agentic/Fits.antt =====
-- What each step of an iteration of the agentic loop leaves as it is: no key by which the goal is told
-- comes into the evidence, and no feedback signal is taken.
use forgeiq.Text.Prefix.{concat-ne}
use forgeiq.Prelude.{
  ℕ, ◌≤◌, String, concat, ◌≡◌, ◌≢◌, refl, Bool, true, false, ◌&&◌, none, List, [], ◌∷◌, Result, ok,
  err, length, if-holds, ◌==◌,
}
use forgeiq.GoMap.{GoMap, get, put, get-put}
use forgeiq.Contracts.{PolicyDecision, Plan}
use forgeiq.Temporal.Agentic.{
  AgenticLoopConfig, LoopValue, flag, LoopEvidence, LoopState, LoopWorld, LoopPayload, loop_failed,
  loop_ended, set_evidence, should_refine,
}
use forgeiq.Temporal.Agentic.Loop.{
  mark_stops, adopt_if, refine, asked, has_next, has_steps, refine_on_request, refine_on_evidence,
  merge_results,
}

-- The evidence has neither of the keys by which the goal is told.
abbrev pub NoGoal : LoopEvidence → Type 0
NoGoal ev = (get ev "status" ≡ none) × (get ev "goal_achieved" ≡ none)

abbrev pub IsOtherKey : String → Type 0
IsOtherKey k = ((k == "status") ≡ false) × ((k == "goal_achieved") ≡ false)

pub put-NoGoal :
    (ev : LoopEvidence) (k : String) (v : LoopValue)
    → IsOtherKey k
    → NoGoal ev
    → NoGoal (put ev k v)
put-NoGoal ev k v (a, b) (h, i) =
    (rw (get-put ev k "status" v, a) h, rw (get-put ev k "goal_achieved" v, b) i)

iteration_key : (r : String) → IsOtherKey (concat "iteration_" r)
iteration_key r =
    (concat-ne "iteration_" r "status" refl, concat-ne "iteration_" r "goal_achieved" refl)

-- Unless waiting is allowed, there is a signal for each of `n` iterations.
pub record Fits (waits : Bool) (n : ℕ) (st : LoopState) : Type 0 where
  pub enough : waits ≡ false → n ≤ length st.signals
  pub no_goal : NoGoal st.evidence

-- The status of the payload is not "completed".
abbrev pub IsIncomplete : LoopPayload → Type 0
IsIncomplete (loop_failed i e ev) = Unit
IsIncomplete (loop_ended s i ev r f) = s ≢ "completed"

module _ (w : LoopWorld) (config : AgenticLoopConfig) (pd : PolicyDecision) (waits : Bool) where
  pub set_evidence-Fits :
      (n : ℕ) (k : String) (v : LoopValue) (st : LoopState)
      → IsOtherKey k
      → Fits waits n st
      → Fits waits n (set_evidence k v st)
  set_evidence-Fits n k v st o f = record {
    enough = f.enough;
    no_goal = put-NoGoal st.evidence k v o f.no_goal;
  }

  pub mark_stops-Fits :
      (n : ℕ) (stops : List Bool) (st : LoopState)
      → Fits waits n st
      → Fits waits n (mark_stops w config pd stops st)
  unfolding mark_stops
  mark_stops-Fits n [] st f = f
  mark_stops-Fits n (stop ∷ rest) st f = mark_stops-Fits n rest _ (
      if-holds (Fits waits n) stop _ _
        (λ e. set_evidence-Fits n "stopped_by_user" (flag true) st (refl, refl) f) (λ e. f))

  pub adopt_if-Fits :
      (n : ℕ) (usable : Plan → Bool) (reason : String) (st : LoopState) (r : Result String Plan)
      → Fits waits n st
      → Fits waits n (adopt_if w config pd usable reason (asked w config pd st) r).1
  adopt_if-Fits n usable reason st (err e) f = record { enough = f.enough; no_goal = f.no_goal }
  adopt_if-Fits n usable reason st (ok plan) f =
      if-holds (λ (p : Bool × LoopState). Fits waits n p.1) (usable plan) _ _
        (λ e. record { enough = f.enough; no_goal = f.no_goal })
        (λ e. record { enough = f.enough; no_goal = f.no_goal })

  pub refine-Fits :
      (n : ℕ) (usable : Plan → Bool) (reason : String) (st : LoopState)
      → Fits waits n st
      → Fits waits n (refine w config pd usable reason st).1
  refine-Fits n usable reason st f =
      adopt_if-Fits n usable reason st (w.get_plan st.events st.evidence) f

  pub refine_on_request-Fits :
      (n : ℕ) (rs : List Bool) (st : LoopState)
      → Fits waits n st
      → Fits waits n (refine_on_request w config pd rs st)
  unfolding refine_on_request
  refine_on_request-Fits n [] st f = f
  refine_on_request-Fits n (r ∷ rest) st f = refine_on_request-Fits n rest _ (
      if-holds (Fits waits n) r _ _
        (λ e. refine-Fits n (λ p. true) "User requested refinement" st f) (λ e. f))

  pub refine_on_evidence-Fits :
      (n : ℕ) (st : LoopState) → Fits waits n st → Fits waits n (refine_on_evidence w config pd st)
  unfolding refine_on_evidence
  refine_on_evidence-Fits n st f =
      if-holds (Fits waits n)
        (config.auto_refine && (has_next w config pd st && should_refine st.evidence)) _ _
        (λ e. refine-Fits n (has_steps w config pd) "Auto-refinement based on evidence" st f)
        (λ e. f)

  pub merge_results-Fits :
      (n : ℕ) (results : GoMap LoopValue) (st : LoopState)
      → Fits waits n st
      → Fits waits n (merge_results w config pd results st)
  unfolding merge_results
  merge_results-Fits n [] st f = f
  merge_results-Fits n ((k, v) ∷ rest) st f =
      merge_results-Fits n rest _ (set_evidence-Fits n _ v st (iteration_key _) f)
