-- ===== src/Strategy/React/Overrun.antt =====
-- The tool calls of the react strategy are not bounded by the tool call budget.
use forgeiq.Prelude.{
  [], ◌∷◌, length-append, length, if◌then◌else◌, ap, inr, inl, ℕ, zero, suc, ◌+◌, String, ◌≡◌, refl,
  ◌∙◌, Bool, true, false, not, ◌&&◌, Option, none, some, List, ok, err, ℤ, pos_part, ltb_ℤ, is_some,
  Bool-cases, arith, ◌==◌,
}
use forgeiq.Orchestrator.Steps.{ToolCall}
use forgeiq.Catalog.Tools.{ToolInfo}
use forgeiq.Strategy.{Budget, ModelDecision, IterationTrace, Outcome, Backend, Input}
use forgeiq.Strategy.Progress.{
  invoke, wall_time, Progress, asked, called, effective, or_default, start,
}
use forgeiq.Strategy.React.{run_chosen, after_decision, iterate, loop, run, run_call}

-- A call of a tool that has a name.
abbrev pub is_named : Option ToolCall → Bool
is_named none = false
is_named (some c) = not (c.name == "")

-- The model chooses a tool without an error each time, and the wall time is never over.
pub record KeepsCalling (b : Backend) (wall : ℤ) : Type 0 where
  pub no_error : (i : ℕ) (s : _) → (b.decide i s).1 ≡ none
  pub named : (i : ℕ) (s : _) → is_named (b.decide i s).0.tool_call ≡ true
  pub in_time : (i : ℕ) → ltb_ℤ wall (b.elapsed i) ≡ false

if-of-false : (t : Bool) (x y : Outcome) → t ≡ false → (if t then x else y) ≡ y
if-of-false t x y h = rw h refl

no_final : (t : Bool) (o : Option ToolCall) → is_some o ≡ true → (t && not (is_some o)) ≡ false
no_final t none h = cc
no_final true (some c) h = refl
no_final false (some c) h = refl

module _ (lower : String → String) (b : Backend) (tools : List ToolInfo) (budget : Budget) where
  run_chosen-named :
      (next : Progress → Outcome) (i : ℕ) (p : Progress) (dec : ModelDecision) (o : Option ToolCall)
      → is_named o ≡ true
      → (c : ToolCall) × (run_chosen lower b tools budget next i p dec o
          ≡ run_call lower b tools budget next i p dec c)
  unfolding run_chosen
  run_chosen-named next i p dec none h = cc
  run_chosen-named next i p dec (some c) h = elim (Bool-cases (c.name == "")) [
    | inl e ↦ absurd (cc (rw e at h))
    | inr e ↦ (c, rw e refl)
  ]

  is_some-of-is_named : (o : Option ToolCall) → is_named o ≡ true → is_some o ≡ true
  is_some-of-is_named none h = cc
  is_some-of-is_named (some c) h = refl

  after_decision-named :
      (next : Progress → Outcome) (i : ℕ) (p : Progress) (answer : ModelDecision × Option String)
      → answer.1 ≡ none
      → is_named answer.0.tool_call ≡ true
      → (c : ToolCall) × (after_decision lower b tools budget next i p answer
          ≡ run_call lower b tools budget next i p answer.0 c)
  unfolding after_decision
  after_decision-named next i p (dec, some e) h k = cc
  after_decision-named next i p (dec, none) h k =
      let (c, e) = run_chosen-named next i p dec dec.tool_call k in
      let answers = not (dec.final_answer == "") in
      (
        c,
        if-of-false (answers && not (is_some dec.tool_call)) _ _
              (no_final answers dec.tool_call (is_some-of-is_named dec.tool_call k))
            ∙ e,
      )

  made-called :
      (i : ℕ) (p : Progress) (step : IterationTrace) (c : ToolCall) (r : _)
      → (called b i p step c r).made ≡ p.made
  unfolding called
  made-called i p step c (ok out) = refl
  made-called i p step c (err e) = refl

  iterate-named :
      KeepsCalling b budget.max_wall_time
      → (next : Progress → Outcome) (i : ℕ) (p : Progress)
      → (c : ToolCall) × (iterate lower b tools budget next i p
          ≡ run_call lower b tools budget next i p (b.decide i p.state).0 c)
  unfolding iterate
  iterate-named k next i p =
      let (c, e) =
        after_decision-named next i p (b.decide i p.state) (k.no_error i p.state)
          (k.named i p.state) in
      (c, if-of-false (ltb_ℤ budget.max_wall_time (b.elapsed i)) _ _ (k.in_time i) ∙ e)

  length-made :
      KeepsCalling b budget.max_wall_time
      → (n i : ℕ) (p : Progress) → length (loop lower b tools budget n i p).made ≡ length p.made + n
  unfolding loop
  length-made k zero i p = omega arith
  length-made k (suc n) i p =
      let (c, e) = iterate-named k (loop lower b tools budget n (i + 1)) i p in
      let step = asked b i (b.decide i p.state).0 in
      let (p', r) = invoke b i c p in
      let q = called b i p' step c r in
      let one_more : length q.made ≡ length p.made + 1 =
        rw (made-called i p' step c r, length-append p.made (c ∷ [])) refl in
      ap (λ o. length o.made) e ∙ omega (arith, length-made k n (i + 1) q, one_more)

-- Where the model chooses a named tool each time, and the wall time does not run out, a run of the react
-- strategy calls the tool client once in each of its iterations, whether the calls succeed or fail and
-- however small its tool call budget is.
pub run_overruns :
    (lower : String → String) (b : Backend) (input : Input)
    → input.has_tooler ≡ true
    → input.has_modeler ≡ true
    → KeepsCalling b (or_default wall_time input.budget.max_wall_time)
    → length (run lower b input).made ≡ pos_part (or_default 8 input.budget.max_iterations)
unfolding run
run_overruns lower b input h k keeps =
    let budget = effective 6 input.budget in
    let n = pos_part budget.max_iterations in
    let e : run lower b input ≡ loop lower b input.tools budget n 1 (start input.state) =
      if-of-false (not input.has_tooler) _ _ (ap not h)
      ∙ if-of-false (not input.has_modeler) _ _ (ap not k) in
    let all = length-made lower b input.tools budget keeps n 1 (start input.state) in
    let counted : length (loop lower b input.tools budget n 1 (start input.state)).made ≡ n =
      omega (arith, all) in
    ap (λ o. length o.made) e ∙ counted
