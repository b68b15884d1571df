-- ===== src/Temporal/Activities/Guards.antt =====
-- The activity that calls tools lets through what the orchestrator's step loop lets through.
use forgeiq.Temporal.Activities.{
  eval_tool_call, after_checks, if_eval, call_tool, ActivityError, or_bad_call, ToolError,
  check_write, check_scopes, call_server, check_call, call_catalog, Tools, Services, Effect,
  check_tags, Activities,
}
use forgeiq.Prelude.{
  if-holds, ◌⊎◌, ◌++◌, ◌||◌, ◌==◌, ◌>>◌, inr, err, then_iff, inl, arith, ap, Result, not, ◌&&◌,
  Bool-cases, true, times_int64, refl, contains, ◌↔◌, false, [], pos, ok, none, ◌≡◌, ◌∷◌, some,
  ltb_ℤ, ℤ, String, ℕ, Option, List,
}
use forgeiq.Contracts.{PlanStep, PolicyDecision}
use forgeiq.Catalog.Known.{IsUsable, validate_tool_call_iff}
use forgeiq.Orchestrator.Steps.{call_of, ToolCall, check_step, tags_allowed, find_missing_scope}

-- The calls of the MCP server among the effects.
unfoldable pub server_calls : List Effect → List ToolCall
server_calls [] = []
server_calls (call_server c ∷ rest) = c ∷ server_calls rest
server_calls (_ ∷ rest) = server_calls rest

-- Without a catalog every call is usable.
abbrev pub IsUsableIn : Option Tools → PlanStep → Type 0
IsUsableIn none s = Unit
IsUsableIn (some c) s = IsUsable c s

check_tags_iff :
    (a : Activities) (w : Services) (allow ts : List String)
    → (check_tags a w allow ts ≡ ok tt) ↔ (tags_allowed allow ts ≡ true)
unfolding check_tags tags_allowed
check_tags_iff a w allow [] = (λ h. refl, λ h. refl)
check_tags_iff a w allow (t ∷ ts) =
    let (to, from) = check_tags_iff a w allow ts in
    elim (Bool-cases ((t == "read" || t == "write") && not (contains allow t))) [
      | inl e ↦ rw e (λ h. absurd (cc), λ h. absurd (cc))
      | inr e ↦ rw e (to, from)
    ]

or_bad_call-ok : (r : Result ToolError (Unit {0})) → or_bad_call r ≡ ok tt → r ≡ ok tt
or_bad_call-ok (ok tt) h = refl
or_bad_call-ok (err e) h = absurd (cc)

call_catalog_iff :
    (a : Activities) (w : Services) (c : Option Tools) (s : PlanStep)
    → (call_catalog a w c s ≡ ok tt) ↔ IsUsableIn c s
call_catalog_iff a w none s = (λ h. tt, λ h. refl)
call_catalog_iff a w (some c) s =
    let (to, from) = validate_tool_call_iff c s in
    (λ h. to (or_bad_call-ok _ h), λ u. ap or_bad_call (from u))

check_scopes-ok :
    (a : Activities) (w : Services) (o : Option String) → check_scopes a w o ≡ ok tt → o ≡ none
check_scopes-ok a w none h = refl
check_scopes-ok a w (some x) h = absurd (cc)

check_write-ok :
    (a : Activities) (w : Services) (pd : PolicyDecision) (s : PlanStep)
    → check_write a w pd s ≡ ok tt
    → (contains s.tags "write" && not pd.allow_writes) ≡ false
check_write-ok a w pd s h = elim (Bool-cases (contains s.tags "write" && not pd.allow_writes)) [
  | inl e ↦ absurd (cc (rw e at h))
  | inr e ↦ e
]

-- What the policy asks of a step, by the tests of the code.
abbrev Passes : PolicyDecision → PlanStep → Type 0
Passes pd s =
    ((contains s.tags "write" && not pd.allow_writes) ≡ false)
    × (tags_allowed pd.tool_tag_allow s.tags ≡ true)
    × (find_missing_scope pd.scopes s.scopes ≡ none)

check_call_iff :
    (a : Activities) (w : Services) (pd : PolicyDecision) (s : PlanStep)
    → (check_call a w pd s ≡ ok tt) ↔ (IsUsableIn a.catalog s × Passes pd s)
check_call_iff a w pd s =
    let scopes = check_scopes a w (find_missing_scope pd.scopes s.scopes) in
    let tags = check_tags a w pd.tool_tag_allow s.tags in
    let (split, join) = then_iff tags scopes in
    let (split', join') = then_iff (check_write a w pd s) (tags >> scopes) in
    let (split'', join'') =
      then_iff (call_catalog a w a.catalog s) (check_write a w pd s >> (tags >> scopes)) in
    let (to, from) = call_catalog_iff a w a.catalog s in
    let (tagged, untag) = check_tags_iff a w pd.tool_tag_allow s.tags in
    (
      λ h.
          let (p, h') = split'' h in
          let (q, h'') = split' h' in
          let (r, t) = split h'' in
          (to p, (check_write-ok a w pd s q, tagged r, check_scopes-ok a w _ t)),
      λ (u, (q, r, t)). join'' (from u, join' (rw q refl, join (untag r, rw t refl))),
    )

check_step_iff :
    (pd : PolicyDecision) (n : ℕ) (elapsed : ℤ) (s : PlanStep)
    → ltb_ℤ pd.budgets.max_tool_calls (pos n) ≡ false
    → ltb_ℤ (times_int64 pd.budgets.max_seconds 1_000_000_000) elapsed ≡ false
    → (check_step pd n elapsed s ≡ none) ↔ Passes pd s
unfolding check_step
check_step_iff pd n elapsed s h k = rw (h, k) (λ e. ground arith, λ (q, r, t). rw (q, r, t) refl)

server_calls-if_eval :
    (a : Activities) (c : ToolCall)
    → server_calls (if_eval a eval_tool_call ++ call_server c ∷ []) ≡ c ∷ []
unfolding server_calls
server_calls-if_eval a c =
    if-holds (λ (es : List Effect). server_calls (es ++ call_server c ∷ []) ≡ c ∷ []) a.has_eval _ _
      (λ e. refl) (λ e. refl)

-- After the checks: one call of the server, or none and an error.
after_checks-calls :
    (a : Activities) (w : Services) (s : PlanStep) (r : Result ActivityError (Unit {0}))
    → ((server_calls (after_checks a w s r).0 ≡ call_of s ∷ []) ↔ (r ≡ ok tt))
      × ((r ≡ ok tt)
          ⊎ ((server_calls (after_checks a w s r).0 ≡ [])
              × (e : ActivityError) × ((after_checks a w s r).1 ≡ err e)))
unfolding server_calls
after_checks-calls a w s (ok tt) = ((λ h. refl, λ h. server_calls-if_eval a (call_of s)), inl refl)
after_checks-calls a w s (err e) = ((λ h. absurd (cc), λ h. absurd (cc)), inr (refl, e, refl))

-- With the tool call and time budgets not yet spent, the activity CallTool calls the MCP server, once
-- and with the step's tool and arguments, exactly when the catalog accepts the call, if there is one,
-- and the orchestrator's check lets the step through. Otherwise it calls nothing and returns an error.
pub call_tool_iff :
    (a : Activities) (w : Services) (pd : PolicyDecision) (s : PlanStep) (n : ℕ) (elapsed : ℤ)
    → ltb_ℤ pd.budgets.max_tool_calls (pos n) ≡ false
    → ltb_ℤ (times_int64 pd.budgets.max_seconds 1_000_000_000) elapsed ≡ false
    → let made = server_calls (call_tool a w s pd).0 in
      ((made ≡ call_of s ∷ []) ↔ (IsUsableIn a.catalog s × (check_step pd n elapsed s ≡ none)))
      × ((made ≡ call_of s ∷ [])
          ⊎ ((made ≡ []) × (e : ActivityError) × ((call_tool a w s pd).1 ≡ err e)))
unfolding call_tool
call_tool_iff a w pd s n elapsed h k =
    let (once, either) = after_checks-calls a w s (check_call a w pd s) in
    let (to, from) = check_call_iff a w pd s in
    let (step, passes) = check_step_iff pd n elapsed s h k in
    (
      (λ m. let (u, p) = to (once.0 m) in (u, passes p), λ (u, p). once.1 (from (u, step p))),
      elim either [ inl e ↦ inl (once.1 e) | inr p ↦ inr p ],
    )
