-- ===== src/Examples/Memory.antt =====
-- Deltas on a new memory of the runbook workflow.
use forgeiq.Prelude.{ℕ, ◌+◌, ◌%◌, ◌^◌, ◌≡◌, refl, none, some, List, [], ◌∷◌}
use forgeiq.GoMap.{get}
use forgeiq.Temporal.Memory.Patches.{
  progress, other_bucket, str, Delta, ApplyError, unknown_bucket, same_bucket,
}
use forgeiq.Temporal.Memory.Buckets.{IntentState, apply_progress}
use forgeiq.Temporal.Memory.{RunbookMemory, new_runbook_memory, check_delta, commit, mutate, apply}
use forgeiq.Temporal.Memory.Frame.{apply_error_unchanged, AgreesOffBucket, apply-AgreesOffBucket}
use forgeiq.Temporal.Memory.Audit.{
  Appends, apply-Appends, apply_all, first_version, count, versions_counted, apply_expected,
  second_update_refused,
}
use forgeiq.Temporal.Memory.Effects.{Extends, apply_all-Extends}

abbrev nothing_known : IntentState
nothing_known = record {
  incident_id = "i1";
  service = "api";
  symptom = "slow";
  goal = "g";
  metadata = [];
}

abbrev fresh : RunbookMemory
fresh = new_runbook_memory nothing_known

abbrev completes : ℕ → Delta
completes v = record {
  bucket = progress;
  action = "mark_step_completed";
  patch = ("step_id", str "s1") ∷ [];
  actor = "workflow";
  rationale = "";
  refs = [];
  expected_ver = v;
}

abbrev unknown : Delta
unknown = record (completes 0) { bucket = other_bucket "notes" }

abbrev once : RunbookMemory
once = (apply 1 (completes 0) fresh).0

accepted_once : (apply 1 (completes 0) fresh).1 ≡ none
unfolding apply check_delta mutate same_bucket apply_progress get
accepted_once = refl

accepted_twice : (apply 2 (completes 1) once).1 ≡ none
unfolding apply check_delta mutate same_bucket apply_progress get commit new_runbook_memory
accepted_twice = refl

apply_error_unchanged_example : (apply 1 unknown fresh).0 ≡ fresh
unfolding apply check_delta mutate same_bucket
apply_error_unchanged_example = apply_error_unchanged 1 unknown fresh (unknown_bucket "notes") refl

apply-AgreesOffBucket_example : AgreesOffBucket progress fresh once
apply-AgreesOffBucket_example = apply-AgreesOffBucket 1 (completes 0) fresh

apply-Appends_example : Appends (completes 0) fresh once
apply-Appends_example = apply-Appends 1 (completes 0) fresh accepted_once

abbrev several : List (ℕ × Delta)
several = (1, completes 0) ∷ (2, unknown) ∷ (3, completes 1) ∷ []

versions_counted_example :
    (apply_all several fresh).versions progress
    ≡ (first_version progress + count progress (apply_all several fresh).deltas) % 2 ^ 64
versions_counted_example = versions_counted nothing_known several progress

apply_expected_example : once.versions progress ≡ 1
apply_expected_example = apply_expected 2 (completes 1) once accepted_twice refl

second_update_refused_example :
    (x : ApplyError) × ((apply 3 (completes 1) (apply 2 (completes 1) once).0).1 ≡ some x)
    × ((apply 3 (completes 1) (apply 2 (completes 1) once).0).0 ≡ (apply 2 (completes 1) once).0)
second_update_refused_example =
    second_update_refused 2 3 (completes 1) (completes 1) once refl refl refl accepted_twice

apply_all-Extends_example : Extends fresh (apply_all several fresh)
apply_all-Extends_example = apply_all-Extends several fresh
