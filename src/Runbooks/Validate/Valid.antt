-- ===== src/Runbooks/Validate/Valid.antt =====
-- What an accepted runbook satisfies: distinct step ids, and steps whose gates can be evaluated.
use mathlib.Core.List.{Mem}
use forgeiq.Prelude.{
  String, ◌≡◌, ◌≢◌, refl, Bool, true, false, not, ◌&&◌, Option, none, some, List, ◌∷◌, Result, ok,
  err, ◌>>=◌, ◌>>◌, guard, contains, contains→mem, mem→contains, is_some, ◌==◌, arith, eq_iff, inl,
  inr, Bool-cases, ap,
}
use forgeiq.Text.{is_blank}
use forgeiq.Contracts.{AgentKind, observability_kind, exec_kind, RunbookStep}
use forgeiq.Contracts.Values.{Any}
use forgeiq.Float64.{Float64}
use forgeiq.Runtime.{Runtime, map_string, parse_float_any}
use forgeiq.Runbooks.Gate.{gate_signal, gate_op, threshold}
use forgeiq.Runbooks.Validate.{
  RunbookError, require_field, check_agent, check_threshold, check_gate_fields, check_gate,
  add_step, gate_ops,
}

-- Inversion of a block.
pub step-ok :
    {B : Type 0} (m : Result RunbookError (Unit {0})) (r : Result RunbookError B) (a : B)
    → (m >> r) ≡ ok a
    → (m ≡ ok tt) × (r ≡ ok a)
step-ok (ok tt) r a h = (refl, h)
step-ok (err e) r a h = absurd (cc)

pub bind-ok :
    {A B : Type 0} (m : Result RunbookError A) (f : A → Result RunbookError B) (b : B)
    → (m >>= f) ≡ ok b
    → (a : A) × (m ≡ ok a) × (f a ≡ ok b)
bind-ok (ok a) f b h = (a, refl, h)
bind-ok (err e) f b h = absurd (cc)

pub guard-ok : (b : Bool) (e : RunbookError) → guard b e ≡ ok tt → b ≡ true
guard-ok true e h = refl
guard-ok false e h = absurd (cc)

not-true : (b : Bool) → not b ≡ true → b ≡ false
not-true b h = ground arith

-- The agent of the step is one that the workflow can call, and the step has what the agent needs.
pub data HasAgent (rt : Runtime) (s : RunbookStep) : Type 0 where
  observes :
      s.agent ≡ observability_kind
      → map_string rt s.input "query_type" ≢ ""
      → map_string rt s.input "query" ≢ ""
      → HasAgent rt s
  executes : s.agent ≡ exec_kind → map_string rt s.input "action_type" ≢ "" → HasAgent rt s

-- The gate is absent, or complete with an operator that is known and a threshold that is a number.
pub data HasGate (rt : Runtime) (s : RunbookStep) : Type 0 where
  ungated : gate_signal rt s ≡ "" → gate_op rt s ≡ "" → HasGate rt s
  gated :
      (given : Any) (limit : Float64)
      → gate_signal rt s ≢ ""
      → Mem (gate_op rt s) gate_ops
      → threshold s ≡ some given
      → parse_float_any rt given ≡ some limit
      → HasGate rt s

pub record IsValidStep (rt : Runtime) (s : RunbookStep) : Type 0 where
  pub id : is_blank s.id ≡ false
  pub name : is_blank s.name ≡ false
  pub task_type : is_blank s.task_type ≡ false
  pub has_input : s.input ≢ none
  pub agent : HasAgent rt s
  pub gate : HasGate rt s

module _ (rt : Runtime) (s : RunbookStep) where
  require_field-ok :
      (key : String) → require_field rt s key ≡ ok tt → map_string rt s.input key ≢ ""
  require_field-ok key h e = ground (arith, guard-ok _ _ h, eq_iff (map_string rt s.input key) "")

  check_agent-HasAgent : (k : AgentKind) → s.agent ≡ k → check_agent rt k s ≡ ok tt → HasAgent rt s
  unfolding check_agent
  check_agent-HasAgent observability_kind e h =
      let (a, b) = step-ok (require_field rt s "query_type") (require_field rt s "query") tt h in
      observes e (require_field-ok "query_type" a) (require_field-ok "query" b)
  check_agent-HasAgent exec_kind e h = executes e (require_field-ok "action_type" h)
  check_agent-HasAgent k e h = absurd (cc)

  check_threshold-ok :
      (raw : Option Any)
      → check_threshold rt s.id raw ≡ ok tt
      → (given : Any) × (limit : Float64) × (raw ≡ some given)
        × (parse_float_any rt given ≡ some limit)
  check_threshold-ok none h = absurd (cc)
  check_threshold-ok (some v) h = go (parse_float_any rt v) refl (guard-ok _ _ h)
    where
      go :
          (f : Option Float64)
          → parse_float_any rt v ≡ f
          → is_some f ≡ true
          → (given : Any) × (limit : Float64) × (some v ≡ some given)
            × (parse_float_any rt given ≡ some limit)
      go none p k = absurd (cc)
      go (some limit) p k = (v, limit, refl, p)

  check_gate_fields-parts :
      (signal op : String)
      → check_gate_fields rt s signal op ≡ ok tt
      → (signal ≢ "")
        × (contains gate_ops op ≡ true)
        × (check_threshold rt s.id (threshold s) ≡ ok tt)
  check_gate_fields-parts signal op h =
      (λ e. ground (arith, eq_iff signal ""), ground arith, ground arith)

  check_gate-HasGate : check_gate rt s ≡ ok tt → HasGate rt s
  unfolding check_gate
  check_gate-HasGate h = elim (Bool-cases (gate_signal rt s == "" && gate_op rt s == "")) [
    | inl e ↦
        ungated (ground (arith, eq_iff (gate_signal rt s) ""))
          (ground (arith, eq_iff (gate_op rt s) ""))
    | inr e ↦
        let (a, b, c) = check_gate_fields-parts (gate_signal rt s) (gate_op rt s) (rw e at h) in
        let (given, limit, p, q) = check_threshold-ok (threshold s) c in
        gated given limit a (contains→mem gate_ops (gate_op rt s) b) p q
  ]

-- What `add_step` has tested when it accepts a step.
add_step_parts :
    (rt : Runtime) (seen : List String) (place : String) (s : RunbookStep) (seen' : List String)
    → add_step rt seen place s ≡ ok seen'
    → (is_blank s.id ≡ false)
      × (contains seen s.id ≡ false)
      × (is_blank s.name ≡ false)
      × (is_blank s.task_type ≡ false)
      × (is_some s.input ≡ true)
      × (check_agent rt s.agent s ≡ ok tt)
      × (check_gate rt s ≡ ok tt)
      × (seen' ≡ s.id ∷ seen)
unfolding add_step
add_step_parts rt seen place s seen' h = ground arith

-- An accepted step is valid, its id was new, and it is remembered.
pub add_step-ok :
    (rt : Runtime) (seen : List String) (place : String) (s : RunbookStep) (seen' : List String)
    → add_step rt seen place s ≡ ok seen'
    → IsValidStep rt s × (¬ Mem s.id seen) × (seen' ≡ s.id ∷ seen)
add_step-ok rt seen place s seen' h =
    let f = add_step_parts rt seen place s seen' h in
    (
      record {
        id = f.0;
        name = f.2;
        task_type = f.3;
        has_input = λ p. cc (ap is_some p, f.4);
        agent = check_agent-HasAgent rt s s.agent refl f.5;
        gate = check_gate-HasGate rt s f.6;
      },
      λ m. cc (mem→contains seen s.id m, f.1),
      f.7,
    )
