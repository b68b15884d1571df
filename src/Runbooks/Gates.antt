-- ===== src/Runbooks/Gates.antt =====
-- What an open gate says: a step without a gate, or a healthy result whose signal meets the threshold.
use forgeiq.Prelude.{
  String, ◌≡◌, refl, ◌↔◌, true, false, Option, none, some, ◌==◌, arith, eq_iff, ◌⊎◌, inl, inr,
  Bool-cases, ◌||◌,
}
use forgeiq.GoMap.{GoMap, get}
use forgeiq.Float64
use forgeiq.Float64.{Float64}
use forgeiq.Contracts.{RunbookStep, ObservabilityOutput}
use forgeiq.Contracts.Values.{Any}
use forgeiq.Runtime.{Runtime, parse_float_any}
use forgeiq.Runbooks.Gate.{
  compare_float, gate_signal, gate_op, threshold, check_signal, check_signals, check_output,
  check_threshold, eval_diagnostic_gate,
}

-- The relation that each operator stands for.
pub data Meets (v : Float64) (op : String) (thr : Float64) : Type 0 where
  below : op ≡ "<" → Float64.lt v thr ≡ true → Meets v op thr
  at_most : op ≡ "<=" → Float64.le v thr ≡ true → Meets v op thr
  above : op ≡ ">" → Float64.lt thr v ≡ true → Meets v op thr
  at_least : op ≡ ">=" → Float64.le thr v ≡ true → Meets v op thr
  equal : op ≡ "==" → Float64.eq v thr ≡ true → Meets v op thr
  unequal : op ≡ "!=" → Float64.eq v thr ≡ false → Meets v op thr

module _ (v : Float64) (op : String) (thr : Float64) where
  compare_float-Meets : compare_float v op thr ≡ true → Meets v op thr
  unfolding compare_float
  compare_float-Meets h = elim (Bool-cases (op == "<")) [
    | inl a ↦ below ((eq_iff op "<").0 a) (rw a at h)
    | inr a ↦ elim (Bool-cases (op == "<=")) [
      | inl b ↦ at_most ((eq_iff op "<=").0 b) (rw (a, b) at h)
      | inr b ↦ elim (Bool-cases (op == ">")) [
        | inl c ↦ above ((eq_iff op ">").0 c) (rw (a, b, c) at h)
        | inr c ↦ elim (Bool-cases (op == ">=")) [
          | inl d ↦ at_least ((eq_iff op ">=").0 d) (rw (a, b, c, d) at h)
          | inr d ↦ elim (Bool-cases (op == "==")) [
            | inl e ↦ equal ((eq_iff op "==").0 e) (rw (a, b, c, d, e) at h)
            | inr e ↦ elim (Bool-cases (op == "!=")) [
              | inl f ↦ unequal ((eq_iff op "!=").0 f) (ground arith)
              | inr f ↦ absurd (ground arith)
            ]
          ]
        ]
      ]
    ]
  ]

  pub Meets-compare_float : Meets v op thr → compare_float v op thr ≡ true
  unfolding compare_float
  Meets-compare_float (below p h) = rw p h
  Meets-compare_float (at_most p h) = rw p h
  Meets-compare_float (above p h) = rw p h
  Meets-compare_float (at_least p h) = rw p h
  Meets-compare_float (equal p h) = rw p h
  Meets-compare_float (unequal p h) = rw (p, h) refl

-- The result meets a gate on the signal `signal`: the threshold is a number, the result is not
-- degraded, and the signal's value stands in the operator's relation to the threshold.
pub record Satisfies (rt : Runtime) (signal op : String) (raw : Option Any)
    (out : ObservabilityOutput) : Type 0 where
  pub given : Any
  pub limit : Float64
  pub signals : GoMap Float64
  pub value : Float64
  pub has_threshold : raw ≡ some given
  pub is_number : parse_float_any rt given ≡ some limit
  pub healthy : out.degraded ≡ false
  pub has_signals : out.signals ≡ some signals
  pub has_value : get signals signal ≡ some value
  pub meets : Meets value op limit

abbrev pub HasNoGate : Runtime → RunbookStep → Type 0
HasNoGate rt step = (gate_signal rt step ≡ "") ⊎ (gate_op rt step ≡ "")

module _ (rt : Runtime) (signal op : String) (raw : Option Any) (out : ObservabilityOutput)
    (given : Any) (limit : Float64) (has_threshold : raw ≡ some given)
    (is_number : parse_float_any rt given ≡ some limit) where
  check_signals-Satisfies :
      (m : Option (GoMap Float64))
      → out.signals ≡ m
      → out.degraded ≡ false
      → check_signals signal op limit m ≡ none
      → Satisfies rt signal op raw out
  check_signals-Satisfies none e d h = absurd (cc)
  check_signals-Satisfies (some m) e d h = go (get m signal) refl h
    where
      go :
          (v : Option Float64)
          → get m signal ≡ v
          → check_signal signal op limit v ≡ none
          → Satisfies rt signal op raw out
      go none p k = absurd (cc)
      go (some v) p k = record {
        given = given;
        limit = limit;
        signals = m;
        value = v;
        has_threshold = has_threshold;
        is_number = is_number;
        healthy = d;
        has_signals = e;
        has_value = p;
        meets = compare_float-Meets v op limit (ground arith);
      }

module _ (rt : Runtime) (signal op : String) (out : ObservabilityOutput) where
  check_threshold-Satisfies :
      (raw : Option Any)
      → check_threshold rt signal op out raw ≡ none
      → Satisfies rt signal op raw out
  check_threshold-Satisfies none h = absurd (cc)
  check_threshold-Satisfies (some v) h = go (parse_float_any rt v) refl h
    where
      go :
          (f : Option Float64)
          → parse_float_any rt v ≡ f
          → check_output signal op out f ≡ none
          → Satisfies rt signal op (some v) out
      go none p k = absurd (cc)
      go (some thr) p k = elim (Bool-cases out.degraded) [
        | inl d ↦ absurd (ground arith)
        | inr d ↦
            check_signals-Satisfies rt signal op (some v) out v thr refl p out.signals refl d
              (rw d at k)
      ]

  Satisfies-check_threshold :
      (raw : Option Any)
      → Satisfies rt signal op raw out
      → check_threshold rt signal op out raw ≡ none
  Satisfies-check_threshold raw s =
      rw
        (
          s.has_threshold,
          s.is_number,
          s.healthy,
          s.has_signals,
          s.has_value,
          Meets-compare_float _ _ _ s.meets,
        )
        refl

-- The gate of a diagnostic step lets the workflow go on exactly when the step has no gate (its signal
-- or its operator is blank) or the result satisfies it.
pub eval_diagnostic_gate_iff :
    (rt : Runtime) (step : RunbookStep) (out : ObservabilityOutput)
    → (eval_diagnostic_gate rt step out ≡ none) ↔ (
        HasNoGate rt step
        ⊎ Satisfies rt (gate_signal rt step) (gate_op rt step) (threshold step) out)
unfolding eval_diagnostic_gate
eval_diagnostic_gate_iff rt step out =
    elim (Bool-cases (gate_signal rt step == "" || gate_op rt step == "")) [
      | inl e ↦ (
        λ h. inl (ground (arith, eq_iff (gate_signal rt step) "", eq_iff (gate_op rt step) "")),
        λ h. rw e refl,
      )
      | inr e ↦ (
        λ h. inr (check_threshold-Satisfies rt _ _ out (threshold step) (rw e at h)),
        λ h. elim h [
          | inl n ↦
              absurd (ground (arith, eq_iff (gate_signal rt step) "", eq_iff (gate_op rt step) ""))
          | inr s ↦ rw e (Satisfies-check_threshold rt _ _ out (threshold step) s)
        ],
      )
    ]
