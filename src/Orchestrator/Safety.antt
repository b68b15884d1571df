-- ===== src/Orchestrator/Safety.antt =====
-- What the policy guarantees of the tool calls that `Orchestrator.Run` makes.
use mathlib.Core.Logic.Or
use mathlib.Core.List.{Mem, Mem-prop, mem-cons, not-mem-nil, mem-cast}
use forgeiq.Prelude.{
  subst, times_int64, ltb_ℤ, false, Bool, ℕ, zero, suc, ◌+◌, ◌≤◌, ◌<◌, String, ◌≡◌, refl, sym, ◌∙◌,
  true, ◌⊎◌, inl, inr, Option, none, some, List, [], ◌∷◌, ◌++◌, map, append_assoc, append-nil,
  Result, ok, err, pos_part, All, take, arith, eq_iff, contains, Bool-cases, ◌==◌, contains→mem,
  mem→contains,
}
use forgeiq.GoMap.{GoMap}
use forgeiq.Contracts.{PolicyDecision, PlanStep}
use forgeiq.Orchestrator.Steps.{
  World, ToolCall, call_of, Evidence, Stop, tags_allowed, find_missing_scope, after_check,
  after_call, check_step, run_steps,
}

-- What the policy asks of a step, stated by membership: a step tagged "write" needs a policy that
-- allows writes, its read and write tags are on the allow list, and its scopes are granted.
pub record IsPermitted (pd : PolicyDecision) (s : PlanStep) : Type 0 where
  pub writes : Mem "write" s.tags → pd.allow_writes ≡ true
  pub read_tag : Mem "read" s.tags → Mem "read" pd.tool_tag_allow
  pub write_tag : Mem "write" s.tags → Mem "write" pd.tool_tag_allow
  pub scopes : (x : String) → Mem x s.scopes → Mem x pd.scopes

tags_allowed-contains :
    (allow tags : List String) (t : String)
    → ((t == "read") ≡ true) ⊎ ((t == "write") ≡ true)
    → tags_allowed allow tags ≡ true
    → contains tags t ≡ true
    → contains allow t ≡ true
unfolding tags_allowed contains
tags_allowed-contains allow [] t k h m = cc
tags_allowed-contains allow (x ∷ xs) t k h m =
    ground
      (arith, eq_iff x t, eq_iff t "read", eq_iff t "write", tags_allowed-contains allow xs t k)

find_missing_scope-mem :
    (granted needed : List String)
    → find_missing_scope granted needed ≡ none
    → (x : String) → Mem x needed
    → Mem x granted
unfolding find_missing_scope
find_missing_scope-mem granted [] h x m = absurd (not-mem-nil m)
find_missing_scope-mem granted (y ∷ ys) h x m = elim (Bool-cases (contains granted y)) [
  | inl e ↦
      Or.elim Mem-prop (mem-cons.0 m) (λ p. mem-cast p (contains→mem granted y e))
        (find_missing_scope-mem granted ys (rw e at h) x)
  | inr e ↦ cc (rw e at h)
]

-- What the test at a step gives, in the terms of its parts.
check_step-none :
    (pd : PolicyDecision) (n : ℕ) (elapsed : _) (s : PlanStep)
    → check_step pd n elapsed s ≡ none
    → (n ≤ pos_part pd.budgets.max_tool_calls)
      × (ltb_ℤ (times_int64 pd.budgets.max_seconds 1_000_000_000) elapsed ≡ false)
      × (contains s.tags "write" ≡ true → pd.allow_writes ≡ true)
      × (tags_allowed pd.tool_tag_allow s.tags ≡ true)
      × (find_missing_scope pd.scopes s.scopes ≡ none)
unfolding check_step
check_step-none pd n elapsed s h = ground arith

check_step-IsPermitted :
    (pd : PolicyDecision) (n : ℕ) (elapsed : _) (s : PlanStep)
    → check_step pd n elapsed s ≡ none
    → IsPermitted pd s
check_step-IsPermitted pd n elapsed s h =
    let f = check_step-none pd n elapsed s h in
    record {
      writes = λ m. f.2 (mem→contains s.tags "write" m);
      read_tag = λ m. contains→mem pd.tool_tag_allow "read" (
          tags_allowed-contains pd.tool_tag_allow s.tags "read" (inl refl) f.3
            (mem→contains s.tags "read" m));
      write_tag = λ m. contains→mem pd.tool_tag_allow "write" (
          tags_allowed-contains pd.tool_tag_allow s.tags "write" (inr refl) f.3
            (mem→contains s.tags "write" m));
      scopes = find_missing_scope-mem pd.scopes s.scopes f.4;
    }

-- Whether the time is over after the calls `made`.
abbrev pub is_over : World → PolicyDecision → List ToolCall → Bool
is_over w pd made = ltb_ℤ (times_int64 pd.budgets.max_seconds 1_000_000_000) (w.elapsed made)

-- The calls are those of the plan's first `k` steps, which are permitted and within the budget of calls,
-- and the time was not over at any of them.
pub record IsPlanPrefix (w : World) (pd : PolicyDecision) (steps : List PlanStep) (n : ℕ)
    (before after : List ToolCall) : Type 0 where
  pub k : ℕ
  pub made : after ≡ before ++ map call_of (take k steps)
  pub permitted : All (IsPermitted pd) (take k steps)
  pub in_budget : 0 < k → n + k ≤ pos_part pd.budgets.max_tool_calls
  pub in_time : (j : ℕ) → j < k → is_over w pd (before ++ map call_of (take j steps)) ≡ false

one_more : (k n m : ℕ) → n + 1 ≤ m → (0 < k → n + 1 + k ≤ m) → n + suc k ≤ m
one_more zero n m b h = omega arith
one_more (suc k) n m b h = omega (arith, h (omega arith))

module _ (w : World) (pd : PolicyDecision) (steps : List PlanStep) (n : ℕ)
    (made : List ToolCall) where
  stay : IsPlanPrefix w pd steps n made made
  stay = record {
    k = 0;
    made = sym (append-nil made);
    permitted = tt;
    in_budget = λ p. absurd (omega arith);
    in_time = λ j p. absurd (omega arith);
  }

  advance_in_time :
      (s : PlanStep)
      → is_over w pd made ≡ false
      → (k : ℕ)
      → ((j : ℕ)
          → j < k
          → is_over w pd ((made ++ call_of s ∷ []) ++ map call_of (take j steps)) ≡ false)
      → (j : ℕ) → j < suc k
      → is_over w pd (made ++ map call_of (take j (s ∷ steps))) ≡ false
  advance_in_time s t k h zero p = subst (λ m. is_over w pd m ≡ false) (sym (append-nil made)) t
  advance_in_time s t k h (suc i) p =
      subst (λ m. is_over w pd m ≡ false)
        (append_assoc made (call_of s ∷ []) (map call_of (take i steps))) (h i (omega arith))

  advance :
      (s : PlanStep) (after : List ToolCall)
      → IsPermitted pd s
      → n + 1 ≤ pos_part pd.budgets.max_tool_calls
      → is_over w pd made ≡ false
      → IsPlanPrefix w pd steps (n + 1) (made ++ call_of s ∷ []) after
      → IsPlanPrefix w pd (s ∷ steps) n made after
  advance s after p b t r = record {
    k = suc r.k;
    made = r.made ∙ append_assoc made (call_of s ∷ []) (map call_of (take r.k steps));
    permitted = (p, r.permitted);
    in_budget = λ _. one_more r.k n (pos_part pd.budgets.max_tool_calls) b r.in_budget;
    in_time = advance_in_time s t r.k r.in_time;
  }

module _ (w : World) (pd : PolicyDecision) (steps : List PlanStep) (n : ℕ)
    (made : List ToolCall) where
  after_check-IsPlanPrefix :
      (c : Option Stop) (r : List ToolCall × Stop)
      → (c ≡ none → IsPlanPrefix w pd steps n made r.0)
      → IsPlanPrefix w pd steps n made (after_check c made r).0
  after_check-IsPlanPrefix (some stop) r h = stay w pd steps n made
  after_check-IsPlanPrefix none r h = h refl

  after_call-IsPlanPrefix :
      (c : Result Stop (GoMap Evidence)) (next : GoMap Evidence → List ToolCall × Stop)
      → ((ev : GoMap Evidence) → IsPlanPrefix w pd steps n made (next ev).0)
      → IsPlanPrefix w pd steps n made (after_call c made next).0
  after_call-IsPlanPrefix (err stop) next h = stay w pd steps n made
  after_call-IsPlanPrefix (ok ev) next h = h ev

module _ (w : World) (pd : PolicyDecision) where
  pub run_steps-IsPlanPrefix :
      (made : List ToolCall) (n : ℕ) (ev : GoMap Evidence) (steps : List PlanStep)
      → IsPlanPrefix w pd steps n made (run_steps w pd made n ev steps).0
  unfolding run_steps
  run_steps-IsPlanPrefix made n ev [] = stay w pd [] n made
  run_steps-IsPlanPrefix made n ev (s ∷ ss) =
      let made' = made ++ call_of s ∷ [] in
      after_check-IsPlanPrefix w pd (s ∷ ss) n made _ _ λ passed.
        advance w pd ss n made s _ (check_step-IsPermitted pd (n + 1) (w.elapsed made) s passed)
          (check_step-none pd (n + 1) (w.elapsed made) s passed).0
          (check_step-none pd (n + 1) (w.elapsed made) s passed).1
          (after_call-IsPlanPrefix w pd ss (n + 1) made' _ _
            λ ev'. run_steps-IsPlanPrefix made' (n + 1) ev' ss)
