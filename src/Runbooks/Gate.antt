-- ===== src/Runbooks/Gate.antt =====
-- `evalDiagnosticGate` and `compareFloat` of internal/controlplane/temporal/runbook_workflow.go: a
-- diagnostic step may carry a threshold that its signal has to meet before the workflow goes on.
use forgeiq.Prelude.{String, Bool, false, not, ◌||◌, Option, none, some, ◌==◌, if◌then◌else◌}
use forgeiq.GoMap.{GoMap, get}
use forgeiq.Float64
use forgeiq.Float64.{Float64}
use forgeiq.Contracts.{RunbookStep, ObservabilityOutput}
use forgeiq.Contracts.Values.{Any}
use forgeiq.Runtime.{Runtime, map_string, parse_float_any, lookup}

unfoldable pub compare_float : Float64 → String → Float64 → Bool
compare_float v op thr =
    if op == "<"
    then Float64.lt v thr
    else if op == "<="
    then Float64.le v thr
    else if op == ">"
    then Float64.lt thr v
    else if op == ">="
    then Float64.le thr v
    else if op == "=="
    then Float64.eq v thr
    else if op == "!="
    then not (Float64.eq v thr)
    else false

-- Why a gate fails.
pub data Refusal : Type 0 where
  threshold_missing threshold_invalid degraded signals_missing : Refusal
  signal_not_found : String → Refusal
  not_met : String → String → Float64 → Float64 → Refusal

module _ (rt : Runtime) where
  abbrev pub gate_signal : RunbookStep → String
  gate_signal step = map_string rt step.input "gate_signal"

  abbrev pub gate_op : RunbookStep → String
  gate_op step = map_string rt step.input "gate_op"

abbrev pub threshold : RunbookStep → Option Any
threshold step = lookup step.input "gate_threshold"

abbrev pub check_signal : String → String → Float64 → Option Float64 → Option Refusal
check_signal signal op thr none = some (signal_not_found signal)
check_signal signal op thr (some v) =
    if compare_float v op thr then none else some (not_met signal op thr v)

abbrev pub check_signals : String → String → Float64 → Option (GoMap Float64) → Option Refusal
check_signals signal op thr none = some signals_missing
check_signals signal op thr (some m) = check_signal signal op thr (get m signal)

abbrev pub check_output : String → String → ObservabilityOutput → Option Float64 → Option Refusal
check_output signal op out none = some threshold_invalid
check_output signal op out (some thr) =
    if out.degraded then some degraded else check_signals signal op thr out.signals

abbrev pub check_threshold :
    Runtime → String → String → ObservabilityOutput → Option Any → Option Refusal
check_threshold rt signal op out none = some threshold_missing
check_threshold rt signal op out (some v) = check_output signal op out (parse_float_any rt v)

-- `none` is `true, ""`: the workflow goes on.
unfoldable pub eval_diagnostic_gate : Runtime → RunbookStep → ObservabilityOutput → Option Refusal
eval_diagnostic_gate rt step out =
    if gate_signal rt step == "" || gate_op rt step == ""
    then none
    else check_threshold rt (gate_signal rt step) (gate_op rt step) out (threshold step)
