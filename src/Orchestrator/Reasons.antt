-- ===== src/Orchestrator/Reasons.antt =====
-- Why the step loop of `Orchestrator.Run` stops: each way to stop names a step of the plan and the
-- fact about it that the policy objects to; a run that completes has called every step.
use mathlib.Core.List.{Mem, mem-cons_self, mem-cons_of_mem, mem-cast}
use forgeiq.Prelude.{
  times_int64, subst, ℕ, ◌+◌, ◌≤◌, ◌<◌, String, ◌≡◌, refl, sym, ◌∙◌, true, false, ◌⊎◌, inl, inr,
  Option, none, some, List, [], ◌∷◌, ◌++◌, map, append_assoc, append-nil, Result, ok, err, pos_part,
  length, arith, eq_iff, contains, Bool-cases, ◌==◌, contains→mem, mem→contains, not, ℤ, pos,
  negsuc, ltb_ℤ, ◌&&◌, ◌||◌,
}
use forgeiq.GoMap.{GoMap}
use forgeiq.Contracts.{PolicyDecision, PlanStep}
use forgeiq.Contracts.Values.{Any}
use forgeiq.Orchestrator.Steps.{
  World, ToolCall, call_of, Evidence, Stop, completed, needs_approval, budget_tool_calls,
  budget_time, tags_blocked, missing_scope, tool_failed, tags_allowed, find_missing_scope,
  check_step, after_check, after_call, record_result, run_steps,
}

abbrev IsTagEnforced : String → Type 0
IsTagEnforced t = (t ≡ "read") ⊎ (t ≡ "write")

-- The step `s`, among at most `total` steps, explains the stop after the calls `made`: the policy lacks
-- what the step needs, or the time was over when it was looked at, or the step's call has failed.
abbrev pub Explains : World → PolicyDecision → ℕ → PlanStep → List ToolCall → Stop → Type 0
Explains w pd total s made (completed ev) = ⊥
Explains w pd total s made (needs_approval i t) =
    (i ≡ s.step_id) × (t ≡ s.tool_name) × Mem "write" s.tags × (pd.allow_writes ≡ false)
Explains w pd total s made budget_tool_calls = pos_part pd.budgets.max_tool_calls < total
Explains w pd total s made budget_time =
    ltb_ℤ (times_int64 pd.budgets.max_seconds 1_000_000_000) (w.elapsed made) ≡ true
Explains w pd total s made (tags_blocked t) =
    (t ≡ s.tool_name)
    × ((x : String) × Mem x s.tags × IsTagEnforced x × (¬ Mem x pd.tool_tag_allow))
Explains w pd total s made (missing_scope x) = Mem x s.scopes × (¬ Mem x pd.scopes)
Explains w pd total s made (tool_failed e) =
    (s.stop_on_err ≡ true)
    × ((before : List ToolCall) × (made ≡ before ++ call_of s ∷ [])
        × (w.call_tool before (call_of s) ≡ err e))

not-mem : (xs : List String) (x : String) → contains xs x ≡ false → ¬ Mem x xs
not-mem xs x h m = cc (mem→contains xs x m)

tags_allowed-false :
    (allow tags : List String)
    → tags_allowed allow tags ≡ false
    → (x : String) × Mem x tags × IsTagEnforced x × (¬ Mem x allow)
unfolding tags_allowed
tags_allowed-false allow [] h = absurd (cc)
tags_allowed-false allow (t ∷ ts) h =
    elim (Bool-cases ((t == "read" || t == "write") && not (contains allow t))) [
      | inl e ↦ (
        t,
        mem-cons_self,
        ground (arith, eq_iff t "read", eq_iff t "write"),
        not-mem allow t (ground arith),
      )
      | inr e ↦
          let (x, m, k, n) = tags_allowed-false allow ts (rw e at h) in
          (x, mem-cons_of_mem t m, k, n)
    ]

find_missing_scope-some :
    (granted needed : List String) (x : String)
    → find_missing_scope granted needed ≡ some x
    → Mem x needed × (¬ Mem x granted)
unfolding find_missing_scope
find_missing_scope-some granted [] x h = absurd (cc)
find_missing_scope-some granted (y ∷ ys) x h = elim (Bool-cases (contains granted y)) [
  | inl e ↦
      let (m, n) = find_missing_scope-some granted ys x (rw e at h) in (mem-cons_of_mem y m, n)
  | inr e ↦
      let same : some y ≡ some x = rw e at h in
      (mem-cast (cc) (mem-cons_self {a = y}), λ m. cc (mem→contains granted x m, e, same))
]

over_budget :
    (limit : ℤ) (n total : ℕ)
    → 0 < n
    → n ≤ total
    → ltb_ℤ limit (pos n) ≡ true
    → pos_part limit < total
over_budget (pos k) n total z b h = ground arith
over_budget (negsuc k) n total z b h = omega arith

module _ (w : World) (pd : PolicyDecision) (n : ℕ) (s : PlanStep) (made : List ToolCall) where
  check_step-Explains :
      (stop : Stop) (total : ℕ)
      → 0 < n
      → n ≤ total
      → check_step pd n (w.elapsed made) s ≡ some stop
      → Explains w pd total s made stop
  unfolding check_step
  check_step-Explains (completed ev) total z b h = ground arith
  check_step-Explains (needs_approval i t) total z b h =
      (ground arith, ground arith, contains→mem s.tags "write" (ground arith), ground arith)
  check_step-Explains budget_tool_calls total z b h =
      over_budget pd.budgets.max_tool_calls n total z b (ground arith)
  check_step-Explains budget_time total z b h = ground arith
  check_step-Explains (tags_blocked t) total z b h =
      (ground arith, tags_allowed-false pd.tool_tag_allow s.tags (ground arith))
  check_step-Explains (missing_scope x) total z b h =
      find_missing_scope-some pd.scopes s.scopes x (ground arith)
  check_step-Explains (tool_failed e) total z b h = absurd (ground arith)

err-injective : (e f : Stop) (r : Result Stop (GoMap Evidence)) → r ≡ err e → r ≡ err f → e ≡ f
err-injective e f r h k = cc

-- How a run over `steps` ends: it called every step, or a step explains the stop.
abbrev pub Ends :
    World → PolicyDecision → ℕ → List PlanStep → List ToolCall → List ToolCall × Stop → Type 0
Ends w pd total steps before r =
    ((ev : GoMap Evidence) × (r.1 ≡ completed ev) × (r.0 ≡ before ++ map call_of steps))
    ⊎ ((s : PlanStep) × Mem s steps × Explains w pd total s r.0 r.1)

module _ (w : World) (pd : PolicyDecision) (total : ℕ) (s : PlanStep) (ss : List PlanStep)
    (made : List ToolCall) where
  after_check-Ends :
      (c : Option Stop) (r : List ToolCall × Stop)
      → ((stop : Stop) → c ≡ some stop → Explains w pd total s made stop)
      → Ends w pd total (s ∷ ss) made r
      → Ends w pd total (s ∷ ss) made (after_check c made r)
  after_check-Ends (some stop) r h k = inr (s, mem-cons_self, h stop refl)
  after_check-Ends none r h k = k

  after_call-Ends :
      (c : Result Stop (GoMap Evidence)) (next : GoMap Evidence → List ToolCall × Stop)
      → ((stop : Stop) → c ≡ err stop → Explains w pd total s (made ++ call_of s ∷ []) stop)
      → ((ev : GoMap Evidence) → Ends w pd total ss (made ++ call_of s ∷ []) (next ev))
      → Ends w pd total (s ∷ ss) made (after_call c (made ++ call_of s ∷ []) next)
  after_call-Ends (err stop) next h k = inr (s, mem-cons_self, h stop refl)
  after_call-Ends (ok ev) next h k = elim (k ev) [
    | inl (out, e, all) ↦ inl (out, e, all ∙ append_assoc made (call_of s ∷ []) (map call_of ss))
    | inr (t, m, x) ↦ inr (t, mem-cons_of_mem s m, x)
  ]

  record_result-Explains :
      (r : Result String (Option (GoMap Any))) (ev : GoMap Evidence) (stop : Stop)
      → w.call_tool made (call_of s) ≡ r
      → record_result s r ev ≡ err stop
      → Explains w pd total s (made ++ call_of s ∷ []) stop
  unfolding record_result
  record_result-Explains (ok out) ev stop k h = absurd (cc)
  record_result-Explains (err e) ev stop k h = elim (Bool-cases s.stop_on_err) [
    | inl b ↦
        let same : tool_failed e ≡ stop = err-injective (tool_failed e) stop _ refl (rw b at h) in
        subst (Explains w pd total s (made ++ call_of s ∷ [])) same (b, (made, refl, k))
    | inr b ↦ absurd (cc (rw b at h))
  ]

module _ (w : World) (pd : PolicyDecision) (total : ℕ) where
  pub run_steps-Ends :
      (made : List ToolCall) (n : ℕ) (ev : GoMap Evidence) (steps : List PlanStep)
      → n + length steps ≤ total
      → Ends w pd total steps made (run_steps w pd made n ev steps)
  unfolding run_steps
  run_steps-Ends made n ev [] b = inl (ev, refl, sym (append-nil made))
  run_steps-Ends made n ev (s ∷ ss) b =
      let made' = made ++ call_of s ∷ [] in
      after_check-Ends w pd total s ss made _ _
        (λ stop. check_step-Explains w pd (n + 1) s made stop total (omega arith) (omega arith))
        (after_call-Ends w pd total s ss made _ _
          (λ stop.
            record_result-Explains w pd total s ss made (w.call_tool made (call_of s)) ev stop refl)
          (λ ev'. run_steps-Ends made' (n + 1) ev' ss (omega arith)))
