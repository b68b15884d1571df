-- ===== src/Runbooks/Validate.antt =====
-- `ValidateRunbook` of internal/runbooks/validate.go: the checks that a runbook passes before it is
-- loaded, in the order in which the code makes them.
pub mod Valid
pub mod Accepted
use forgeiq.Prelude.{
  ◌>>=◌, ◌>>◌, ◌>>◌, String, Bool, true, false, not, ◌&&◌, ◌||◌, Option, none, some, List, [], ◌∷◌,
  Result, ok, err, ◌>>◌, guard, contains, is_some, ◌==◌, if◌then◌else◌,
}
use forgeiq.Text.{is_blank}
use forgeiq.Contracts.{AgentKind, observability_kind, exec_kind, RunbookStep, Runbook}
use forgeiq.Contracts.Values.{Any}
use forgeiq.Runtime.{Runtime, map_string, parse_float_any}
use forgeiq.Runbooks.Gate.{gate_signal, gate_op, threshold}

pub data RunbookError : Type 0 where
  id_required version_required name_required no_steps : RunbookError
  -- the section that the step stands in
  step_id_required : String → RunbookError
  -- the others name the step
  duplicate_step step_name_required task_type_required input_required : String → RunbookError
  field_required : String → String → RunbookError
  unsupported_agent : String → AgentKind → RunbookError
  gate_incomplete : String → RunbookError
  invalid_gate_op : String → String → RunbookError
  threshold_required threshold_not_number : String → RunbookError

abbrev pub is_empty {ℓ} : {A : Type ℓ} → List A → Bool
is_empty [] = true
is_empty (x ∷ xs) = false

abbrev pub gate_ops : List String
gate_ops = "<" ∷ "<=" ∷ ">" ∷ ">=" ∷ "==" ∷ "!=" ∷ []

module _ (rt : Runtime) where
  abbrev pub require_field : RunbookStep → String → Result RunbookError (Unit {0})
  require_field s key = guard (not (map_string rt s.input key == "")) (field_required s.id key)

  -- The switch on the step's agent.
  unfoldable pub check_agent : AgentKind → RunbookStep → Result RunbookError (Unit {0})
  check_agent observability_kind s = require_field s "query_type" >> require_field s "query"
  check_agent exec_kind s = require_field s "action_type"
  check_agent k s = err (unsupported_agent s.id k)

  abbrev pub check_threshold : String → Option Any → Result RunbookError (Unit {0})
  check_threshold id none = err (threshold_required id)
  check_threshold id (some v) = guard (is_some (parse_float_any rt v)) (threshold_not_number id)

  abbrev pub check_gate_fields : RunbookStep → String → String → Result RunbookError (Unit {0})
  check_gate_fields s signal op = do
    guard (not (signal == "" || op == "")) (gate_incomplete s.id)
    guard (contains gate_ops op) (invalid_gate_op s.id op)
    check_threshold s.id (threshold s)

  unfoldable pub check_gate : RunbookStep → Result RunbookError (Unit {0})
  check_gate s =
      if gate_signal rt s == "" && gate_op rt s == ""
      then ok tt
      else check_gate_fields s (gate_signal rt s) (gate_op rt s)

  -- `addStep`: the ids seen so far, with the step's id added.
  unfoldable pub add_step : List String → String → RunbookStep → Result RunbookError (List String)
  add_step seen place s = do
    guard (not (is_blank s.id)) (step_id_required place)
    guard (not (contains seen s.id)) (duplicate_step s.id)
    guard (not (is_blank s.name)) (step_name_required s.id)
    guard (not (is_blank s.task_type)) (task_type_required s.id)
    guard (is_some s.input) (input_required s.id)
    check_agent s.agent s
    check_gate s
    ok (s.id ∷ seen)

  unfoldable pub add_steps :
      List String → String → List RunbookStep → Result RunbookError (List String)
  add_steps seen place [] = ok seen
  add_steps seen place (s ∷ ss) = do seen' ← add_step seen place s; add_steps seen' place ss

  unfoldable pub validate_runbook : Runbook → Result RunbookError (List String)
  validate_runbook rb = do
    guard (not (is_blank rb.id)) id_required
    guard (not (is_blank rb.version)) version_required
    guard (not (is_blank rb.name)) name_required
    guard (not (is_empty rb.diagnostics && is_empty rb.actions)) no_steps
    seen ← add_steps [] "diagnostics" rb.diagnostics
    add_steps seen "actions" rb.actions
