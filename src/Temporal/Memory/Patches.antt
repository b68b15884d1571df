-- ===== src/Temporal/Memory/Patches.antt =====
-- Deltas: the bucket, the action and the patch of a change, and the errors of applying one.
use forgeiq.Prelude.{
  ℕ, String, Bool, true, false, ◌≡◌, ◌↔◌, Option, none, some, ℤ, arith, ◌==◌, eq_iff,
}
use forgeiq.GoMap.{GoMap}
use forgeiq.Contracts.{Runbook, ObservabilityOutput, ExecOutput}
use forgeiq.Contracts.Values.{Any}

-- `MemoryBucket` is a string type: one of the six constants, or any other text.
pub data MemoryBucket : Type 0 where
  intent plan evidence policy_risk progress pointers : MemoryBucket
  other_bucket : String → MemoryBucket

-- `==` on buckets.
unfoldable pub same_bucket : MemoryBucket → MemoryBucket → Bool
same_bucket intent intent = true
same_bucket plan plan = true
same_bucket evidence evidence = true
same_bucket policy_risk policy_risk = true
same_bucket progress progress = true
same_bucket pointers pointers = true
same_bucket (other_bucket a) (other_bucket b) = a == b
same_bucket _ _ = false

pub same_bucket_iff : (a b : MemoryBucket) → (same_bucket a b ≡ true) ↔ (a ≡ b)
unfolding same_bucket
same_bucket_iff intent b = ground arith
same_bucket_iff plan b = ground arith
same_bucket_iff evidence b = ground arith
same_bucket_iff policy_risk b = ground arith
same_bucket_iff progress b = ground arith
same_bucket_iff pointers b = ground arith
same_bucket_iff (other_bucket s) (other_bucket t) = ground (arith, eq_iff s t)
same_bucket_iff (other_bucket s) b = ground arith

pub record ApprovalSignal : Type 0 where
  pub step_id : String
  pub approved : Bool
  pub approver : String
  pub comment : String

-- The dynamic types that a patch holds.
pub data PatchValue : Type 0 where
  bool : Bool → PatchValue
  str : String → PatchValue
  int : ℤ → PatchValue
  approval : ApprovalSignal → PatchValue
  runbook : Runbook → PatchValue
  observability : ObservabilityOutput → PatchValue
  exec : ExecOutput → PatchValue
  value : Any → PatchValue

pub record Delta : Type 0 where
  pub bucket : MemoryBucket
  pub action : String
  pub patch : GoMap PatchValue
  pub actor : String
  pub rationale : String
  pub refs : GoMap String
  -- the pattern of an `int64`
  pub expected_ver : ℕ

pub data ApplyError : Type 0 where
  bucket_required action_required : ApplyError
  version_mismatch : MemoryBucket → ℕ → ℕ → ApplyError
  unsupported_action : MemoryBucket → String → ApplyError
  wrong_patch : MemoryBucket → String → ApplyError
  unknown_bucket : String → ApplyError

-- `d.Patch[k].(T)`
abbrev pub as_bool : Option PatchValue → Option Bool
as_bool (some (bool b)) = some b
as_bool _ = none

abbrev pub as_string : Option PatchValue → Option String
as_string (some (str s)) = some s
as_string _ = none

abbrev pub as_int : Option PatchValue → Option ℤ
as_int (some (int z)) = some z
as_int _ = none

abbrev pub as_approval : Option PatchValue → Option ApprovalSignal
as_approval (some (approval a)) = some a
as_approval _ = none

abbrev pub as_runbook : Option PatchValue → Option Runbook
as_runbook (some (runbook r)) = some r
as_runbook _ = none

abbrev pub as_observability : Option PatchValue → Option ObservabilityOutput
as_observability (some (observability o)) = some o
as_observability _ = none

abbrev pub as_exec : Option PatchValue → Option ExecOutput
as_exec (some (exec o)) = some o
as_exec _ = none

-- `s, _ := d.Patch[k].(string)`
abbrev pub string_or_empty : Option PatchValue → String
string_or_empty (some (str s)) = s
string_or_empty _ = ""
