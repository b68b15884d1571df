-- ===== src/Temporal/Memory.antt =====
-- The memory of the runbook workflow, internal/controlplane/temporal/runbook_memory.go: state in
-- buckets, changed only by deltas, with a version for each bucket and a log of the deltas.
pub mod Patches
pub mod Buckets
pub mod Frame
pub mod Audit
pub mod Effects
use forgeiq.Prelude.{
  ℕ, ◌+◌, ◌%◌, ◌^◌, String, Bool, false, ◌&&◌, not, Option, none, some, List, [], ◌∷◌, ◌++◌, ltb,
  eqb, ◌==◌, if◌then◌else◌,
}
use forgeiq.GoMap.{GoMap}
use Patches.{
  MemoryBucket, intent, plan, evidence, policy_risk, progress, pointers, other_bucket, same_bucket,
  PatchValue, Delta, ApplyError, bucket_required, action_required, version_mismatch, unknown_bucket,
}
use Buckets.{
  IntentState, PlanState, EvidenceState, PolicyRiskState, ProgressState, PointersState,
  apply_intent, apply_plan, apply_evidence, apply_policy, apply_progress, apply_pointers,
  empty_plan, Applied, refused,
}

pub record DeltaEntry : Type 0 where
  pub at : ℕ
  pub bucket : MemoryBucket
  pub action : String
  pub patch : GoMap PatchValue
  pub actor : String
  pub rationale : String
  pub refs : GoMap String
  pub prev_ver : ℕ
  pub next_ver : ℕ

-- A version is the pattern of an `int64`. `versions` is total: a missing key reads as 0.
pub record RunbookMemory : Type 0 where
  pub intent : IntentState
  pub plan : PlanState
  pub evidence : EvidenceState
  pub policy_risk : PolicyRiskState
  pub progress : ProgressState
  pub pointers : PointersState
  pub versions : MemoryBucket → ℕ
  pub deltas : List DeltaEntry

unfoldable pub new_runbook_memory : IntentState → RunbookMemory
unfolding empty_plan
new_runbook_memory i = record {
  intent = i;
  plan = empty_plan;
  evidence = record { diagnostics = []; actions = []; facts = [] };
  policy_risk = record {
    requires_human_approval = false;
    approval_reasons = [];
    budgets = [];
    tool_scopes = [];
    approvals = [];
  };
  progress = record {
    completed_steps = [];
    retries = [];
    rollback = [];
    failed = false;
    failure_reason = "";
    notes = [];
  };
  pointers = record { selected_runbook_id = ""; artifacts = [] };
  versions = λ b. if same_bucket b intent then 1 else 0;
  deltas = [];
}

-- `prev + 1` on `int64`.
abbrev pub next_version : ℕ → ℕ
next_version v = (v + 1) % 2 ^ 64

-- `bump`, and the log entry that `Apply` appends with its versions.
unfoldable pub commit : ℕ → Delta → RunbookMemory → RunbookMemory
commit now d m =
    let prev = m.versions d.bucket in
    record m {
      versions = λ b. if same_bucket d.bucket b then next_version prev else m.versions b;
      deltas =
          m.deltas
          ++ record {
            at = now;
            bucket = d.bucket;
            action = d.action;
            patch = d.patch;
            actor = d.actor;
            rationale = d.rationale;
            refs = d.refs;
            prev_ver = prev;
            next_ver = next_version prev;
          }
            ∷ [];
    }

-- The memory with what the switch has written into one of its buckets.
abbrev pub set_bucket {ℓ} : {S : Type ℓ} → (S → RunbookMemory) → Applied S → Applied RunbookMemory
set_bucket put (s, e) = (put s, e)

-- The switch of `Apply` over the buckets.
unfoldable pub mutate : MemoryBucket → Delta → RunbookMemory → Applied RunbookMemory
mutate policy_risk d m =
    set_bucket (λ s. record m { policy_risk = s }) (apply_policy d m.policy_risk)
mutate pointers d m = set_bucket (λ s. record m { pointers = s }) (apply_pointers d m.pointers)
mutate plan d m = set_bucket (λ s. record m { plan = s }) (apply_plan d m.plan)
mutate evidence d m = set_bucket (λ s. record m { evidence = s }) (apply_evidence d m.evidence)
mutate progress d m = set_bucket (λ s. record m { progress = s }) (apply_progress d m.progress)
mutate intent d m = set_bucket (λ s. record m { intent = s }) (apply_intent d m.intent)
mutate (other_bucket b) d m = refused m (unknown_bucket b)

-- `d.ExpectedVer > 0`, of an `int64` pattern.
abbrev pub is_positive : ℕ → Bool
is_positive v = ltb 0 v && ltb v (2 ^ 63)

-- The checks at the start of `Apply`.
unfoldable pub check_delta : Delta → RunbookMemory → Option ApplyError
check_delta d m =
    if same_bucket d.bucket (other_bucket "")
    then some bucket_required
    else if d.action == ""
    then some action_required
    else if is_positive d.expected_ver && not (eqb (m.versions d.bucket) d.expected_ver)
    then some (version_mismatch d.bucket d.expected_ver (m.versions d.bucket))
    else none

-- The version and the log entry are written only where the switch returned no error.
abbrev pub finish : ℕ → Delta → Applied RunbookMemory → Applied RunbookMemory
finish now d (m, none) = (commit now d m, none)
finish now d (m, some e) = (m, some e)

abbrev pub unless_refused : ℕ → Delta → RunbookMemory → Option ApplyError → Applied RunbookMemory
unless_refused now d m (some e) = refused m e
unless_refused now d m none = finish now d (mutate d.bucket d m)

-- The memory after the call, and the error it returned.
unfoldable pub apply : ℕ → Delta → RunbookMemory → RunbookMemory × Option ApplyError
apply now d m = unless_refused now d m (check_delta d m)
