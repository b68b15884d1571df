-- ===== src/Strategy/Calls.antt =====
-- The calls of the tool client that a strategy makes, against its counter and its trace.
use forgeiq.Strategy.Progress.{start, no_result, called, invoke, Progress}
use forgeiq.Strategy.{ConversationState, Backend, Outcome, IterationTrace}
use forgeiq.GoMap.{GoMap}
use forgeiq.Contracts.Values.{Any}
use forgeiq.Orchestrator.Steps.{ToolCall}
use forgeiq.Prelude.{
  sym, refl, err, ok, Option, String, Result, length-append, arith, [], ◌+◌, none, some, length,
  ◌≤◌, ◌≡◌, suc, ◌∷◌, ◌++◌, ℕ, List, append_assoc, append-nil,
}

abbrev call_in : Option ToolCall → List ToolCall
call_in none = []
call_in (some c) = c ∷ []

-- The tool calls that a trace records.
unfoldable pub calls_of : List IterationTrace → List ToolCall
calls_of [] = []
calls_of (step ∷ rest) = call_in step.tool_call ++ calls_of rest

calls_of-append : (xs ys : List IterationTrace) → calls_of (xs ++ ys) ≡ calls_of xs ++ calls_of ys
unfolding calls_of
calls_of-append [] ys = refl
calls_of-append (x ∷ xs) ys =
    rw (calls_of-append xs ys)
      (sym (append_assoc (call_in x.tool_call) (calls_of xs) (calls_of ys)))

-- The run made at most `calls` calls of the tool client, in at most `rounds` iterations, and its trace
-- records exactly the calls that it made.
pub record IsWithin (calls rounds : ℕ) (o : Outcome) : Type 0 where
  pub calls_bounded : length o.made ≤ calls
  pub rounds_bounded : length o.result.trace.iterations ≤ rounds
  pub recorded : calls_of o.result.trace.iterations ≡ o.made

-- The counter, the trace and the calls made agree, and `n` more iterations fit.
pub record IsCounted (calls rounds n : ℕ) (p : Progress) : Type 0 where
  pub counted : length p.made ≡ p.tool_calls
  pub recorded : calls_of p.iterations ≡ p.made
  pub calls_left : p.tool_calls ≤ calls
  pub rounds_left : length p.iterations + n ≤ rounds

module _ (calls rounds n : ℕ) (p : Progress) (h : IsCounted calls rounds (suc n) p) where
  -- One more iteration, without a call.
  pub note-IsWithin :
      (step : IterationTrace) (o : Outcome)
      → step.tool_call ≡ none
      → o.result.trace.iterations ≡ p.iterations ++ step ∷ []
      → o.made ≡ p.made
      → IsWithin calls rounds o
  unfolding calls_of
  note-IsWithin step o c e m = record {
    calls_bounded = rw m (omega (arith, h.counted, h.calls_left));
    rounds_bounded = rw (e, length-append p.iterations (step ∷ [])) (omega (arith, h.rounds_left));
    recorded =
        rw (e, m, calls_of-append p.iterations (step ∷ []), c, append-nil (calls_of p.iterations))
          h.recorded;
  }

  recorded_call :
      (step : IterationTrace) (c : ToolCall)
      → step.tool_call ≡ some c
      → calls_of (p.iterations ++ step ∷ []) ≡ p.made ++ c ∷ []
  unfolding calls_of
  recorded_call step c e = rw (calls_of-append p.iterations (step ∷ []), e, h.recorded) refl

  -- One more iteration, with a call.
  pub called-IsCounted :
      (b : Backend) (i : ℕ) (step : IterationTrace) (c : ToolCall)
      (r : Result String (Option (GoMap Any)))
      → p.tool_calls + 1 ≤ calls
      → IsCounted calls rounds n (called b i (invoke b i c p).0 step c r)
  unfolding called
  called-IsCounted b i step c (ok out) k = record {
    counted = rw (length-append p.made (c ∷ [])) (omega (arith, h.counted));
    recorded = recorded_call _ c refl;
    calls_left = k;
    rounds_left = rw (length-append p.iterations _) (omega (arith, h.rounds_left));
  }
  called-IsCounted b i step c (err e) k = record {
    counted = rw (length-append p.made (c ∷ [])) (omega (arith, h.counted));
    recorded = recorded_call _ c refl;
    calls_left = k;
    rounds_left = rw (length-append p.iterations _) (omega (arith, h.rounds_left));
  }

pub start-IsCounted :
    (calls rounds : ℕ) (s : ConversationState) → IsCounted calls rounds rounds (start s)
unfolding calls_of
start-IsCounted calls rounds s = record {
  counted = refl;
  recorded = refl;
  calls_left = omega arith;
  rounds_left = omega arith;
}

pub no_result-IsWithin : (calls rounds : ℕ) (e : String) → IsWithin calls rounds (no_result e)
unfolding calls_of
no_result-IsWithin calls rounds e = record {
  calls_bounded = omega arith;
  rounds_bounded = omega arith;
  recorded = refl;
}
