-- ===== src/Runbooks/Validate/Accepted.antt =====
-- An accepted runbook as a whole, and what that means for the workflow that runs it.
use mathlib.Core.List.{Mem}
use forgeiq.GoMap.{GoMap, get}
use forgeiq.Runbooks.Gates.{Meets}
use forgeiq.Prelude.{
  true, none, String, ◌≡◌, ◌≢◌, false, Option, some, List, [], ◌∷◌, ◌++◌, ok, arith, All,
  All-append, ◌>>=◌, ◌&&◌,
}
use forgeiq.Float64.{Float64}
use forgeiq.Text.{is_blank}
use forgeiq.Contracts.{RunbookStep, Runbook, ObservabilityOutput}
use forgeiq.Runtime.{Runtime}
use forgeiq.Runbooks.Gate.{
  Refusal, degraded, signals_missing, signal_not_found, not_met, threshold_missing,
  threshold_invalid,
}
use forgeiq.Runbooks.Validate.{add_step, add_steps, validate_runbook, is_empty}
use forgeiq.Runbooks.Validate.Valid.{IsValidStep, bind-ok, add_step-ok}

-- The ids of the steps differ from each other and from those in `seen`.
abbrev pub IsFresh : List String → List RunbookStep → Type 0
IsFresh seen [] = Unit
IsFresh seen (s ∷ ss) = (¬ Mem s.id seen) × IsFresh (s.id ∷ seen) ss

abbrev remember : List String → List RunbookStep → List String
remember seen [] = seen
remember seen (s ∷ ss) = remember (s.id ∷ seen) ss

IsFresh-append :
    (seen : List String) (xs ys : List RunbookStep)
    → IsFresh seen xs
    → IsFresh (remember seen xs) ys
    → IsFresh seen (xs ++ ys)
IsFresh-append seen [] ys hx hy = hy
IsFresh-append seen (x ∷ xs) ys hx hy = (hx.0, IsFresh-append (x.id ∷ seen) xs ys hx.1 hy)

module _ (rt : Runtime) where
  add_steps-ok :
      (seen : List String) (place : String) (ss : List RunbookStep) (seen' : List String)
      → add_steps rt seen place ss ≡ ok seen'
      → All (IsValidStep rt) ss × IsFresh seen ss × (seen' ≡ remember seen ss)
  unfolding add_steps
  add_steps-ok seen place [] seen' h = (tt, tt, ground arith)
  add_steps-ok seen place (s ∷ ss) seen' h =
      let (next, p, q) =
        bind-ok (add_step rt seen place s) (λ n. add_steps rt n place ss) seen' h in
      let (v, n, e) = add_step-ok rt seen place s next p in
      let (vs, f, r) = add_steps-ok (s.id ∷ seen) place ss seen' (rw e at q) in ((v, vs), (n, f), r)

  -- The steps of a runbook, in the order in which they run.
  abbrev pub all_steps : Runbook → List RunbookStep
  all_steps rb = rb.diagnostics ++ rb.actions

  pub record IsValidRunbook (rb : Runbook) : Type 0 where
    pub id : is_blank rb.id ≡ false
    pub version : is_blank rb.version ≡ false
    pub name : is_blank rb.name ≡ false
    pub steps : All (IsValidStep rt) (all_steps rb)
    pub distinct : IsFresh [] (all_steps rb)
    pub nonempty : all_steps rb ≢ []

  validate_parts :
      (rb : Runbook) (seen : List String)
      → validate_runbook rt rb ≡ ok seen
      → (is_blank rb.id ≡ false)
        × (is_blank rb.version ≡ false)
        × (is_blank rb.name ≡ false)
        × ((is_empty rb.diagnostics && is_empty rb.actions) ≡ false)
        × ((add_steps rt [] "diagnostics" rb.diagnostics >>= λ s.
              add_steps rt s "actions" rb.actions)
            ≡ ok seen)
  unfolding validate_runbook
  validate_parts rb seen h = ground arith

  ne_nil : (xs ys : List RunbookStep) → (is_empty xs && is_empty ys) ≡ false → xs ++ ys ≢ []
  ne_nil [] [] h e = cc
  ne_nil [] (y ∷ ys) h e = cc
  ne_nil (x ∷ xs) ys h e = cc

  -- A runbook that `ValidateRunbook` accepts has an id, a version, a name and at least one step; the
  -- ids of its steps are distinct across both sections; and each step has its required fields, an agent
  -- that the workflow can call with the fields which that agent needs, and no gate or a complete one.
  pub validate_runbook-IsValidRunbook :
      (rb : Runbook) (seen : List String) → validate_runbook rt rb ≡ ok seen → IsValidRunbook rb
  validate_runbook-IsValidRunbook rb seen h =
      let f = validate_parts rb seen h in
      let (mid, p, q) =
        bind-ok (add_steps rt [] "diagnostics" rb.diagnostics)
          (λ s. add_steps rt s "actions" rb.actions) seen f.4 in
      let (vd, fd, ed) = add_steps-ok [] "diagnostics" rb.diagnostics mid p in
      let (va, fa, ea) = add_steps-ok mid "actions" rb.actions seen q in
      record {
        id = f.0;
        version = f.1;
        name = f.2;
        steps = All-append (IsValidStep rt) rb.diagnostics rb.actions vd va;
        distinct = IsFresh-append [] rb.diagnostics rb.actions fd (rw ed at fa);
        nonempty = ne_nil rb.diagnostics rb.actions f.3;
      }

  abbrev operators : List String
  operators = "<" ∷ "<=" ∷ ">" ∷ ">=" ∷ "==" ∷ "!=" ∷ []

  -- The refusal is for a fault of the result: it is degraded, has no signals, lacks the signal, or has a
  -- value that does not stand in the relation to the threshold that a known operator asks for.
  abbrev pub OfResult : ObservabilityOutput → Refusal → Type 0
  OfResult out threshold_missing = ⊥
  OfResult out threshold_invalid = ⊥
  OfResult out degraded = out.degraded ≡ true
  OfResult out signals_missing = out.signals ≡ none
  OfResult out (signal_not_found s) =
      (m : GoMap Float64) × (out.signals ≡ some m) × (get m s ≡ none)
  OfResult out (not_met s op thr v) =
      Mem op operators
      × ((m : GoMap Float64) × (out.signals ≡ some m) × (get m s ≡ some v))
      × (¬ Meets v op thr)

  abbrev pub Blames : ObservabilityOutput → Option Refusal → Type 0
  Blames out none = Unit
  Blames out (some why) = OfResult out why
