-- ===== src/Temporal/Memory/Frame.antt =====
-- What a delta leaves alone: everything if it is refused, and the other buckets if it is applied.
use forgeiq.Temporal.Memory.Buckets.{
  apply_policy, apply_pointers, apply_plan, apply_evidence, apply_progress, apply_intent,
}
use forgeiq.Prelude.{ap, ℕ, ◌≡◌, ◌≢◌, refl, Option, none, some, arith, Option-cases, inl, inr}
use forgeiq.Temporal.Memory.Patches.{
  other_bucket, MemoryBucket, intent, plan, evidence, policy_risk, progress, pointers,
  same_bucket_iff, Delta, ApplyError,
}
use forgeiq.Temporal.Memory.{
  ProgressState, PolicyRiskState, PointersState, PlanState, IntentState, EvidenceState,
  other_bucket, apply_progress, apply_policy, apply_pointers, apply_plan, apply_intent,
  apply_evidence, Applied, RunbookMemory, commit, mutate, check_delta, unless_refused, finish,
  apply,
}

-- The switch writes nothing before it returns an error.
module _ (d : Delta) where
  apply_policy_error :
      (s : PolicyRiskState) (e : ApplyError)
      → (apply_policy d s).1 ≡ some e
      → (apply_policy d s).0 ≡ s
  unfolding apply_policy
  apply_policy_error s e h = ground arith

  apply_pointers_error :
      (s : PointersState) (e : ApplyError)
      → (apply_pointers d s).1 ≡ some e
      → (apply_pointers d s).0 ≡ s
  unfolding apply_pointers
  apply_pointers_error s e h = ground arith

  apply_plan_error :
      (s : PlanState) (e : ApplyError) → (apply_plan d s).1 ≡ some e → (apply_plan d s).0 ≡ s
  unfolding apply_plan
  apply_plan_error s e h = ground arith

  apply_evidence_error :
      (s : EvidenceState) (e : ApplyError)
      → (apply_evidence d s).1 ≡ some e
      → (apply_evidence d s).0 ≡ s
  unfolding apply_evidence
  apply_evidence_error s e h = ground arith

  apply_progress_error :
      (s : ProgressState) (e : ApplyError)
      → (apply_progress d s).1 ≡ some e
      → (apply_progress d s).0 ≡ s
  unfolding apply_progress
  apply_progress_error s e h = ground arith

  apply_intent_error :
      (s : IntentState) (e : ApplyError) → (apply_intent d s).1 ≡ some e → (apply_intent d s).0 ≡ s
  unfolding apply_intent
  apply_intent_error s e h = ground arith

  mutate_error :
      (b : MemoryBucket) (m : RunbookMemory) (e : ApplyError)
      → (mutate b d m).1 ≡ some e
      → (mutate b d m).0 ≡ m
  unfolding mutate
  mutate_error policy_risk m e h =
      ap (λ s. record m { policy_risk = s }) (apply_policy_error m.policy_risk e h)
  mutate_error pointers m e h =
      ap (λ s. record m { pointers = s }) (apply_pointers_error m.pointers e h)
  mutate_error plan m e h = ap (λ s. record m { plan = s }) (apply_plan_error m.plan e h)
  mutate_error evidence m e h =
      ap (λ s. record m { evidence = s }) (apply_evidence_error m.evidence e h)
  mutate_error progress m e h =
      ap (λ s. record m { progress = s }) (apply_progress_error m.progress e h)
  mutate_error intent m e h = ap (λ s. record m { intent = s }) (apply_intent_error m.intent e h)
  mutate_error (other_bucket b) m e h = refl

  finish_error :
      (now : ℕ) (m : RunbookMemory) (r : Applied RunbookMemory) (e : ApplyError)
      → ((x : ApplyError) → r.1 ≡ some x → r.0 ≡ m)
      → (finish now d r).1 ≡ some e
      → (finish now d r).0 ≡ m
  finish_error now m (m', none) e k h = absurd (cc)
  finish_error now m (m', some x) e k h = k x refl

  unless_refused_error :
      (now : ℕ) (m : RunbookMemory) (c : Option ApplyError) (e : ApplyError)
      → (unless_refused now d m c).1 ≡ some e
      → (unless_refused now d m c).0 ≡ m
  unless_refused_error now m (some x) e h = refl
  unless_refused_error now m none e h =
      finish_error now m (mutate d.bucket d m) e (mutate_error d.bucket m) h

-- A delta that `Apply` refuses changes nothing: no bucket, no version and no log entry.
pub apply_error_unchanged :
    (now : ℕ) (d : Delta) (m : RunbookMemory) (e : ApplyError)
    → (apply now d m).1 ≡ some e
    → (apply now d m).0 ≡ m
unfolding apply
apply_error_unchanged now d m e h = unless_refused_error d now m (check_delta d m) e h

-- Each bucket but `b`, and each version but that of `b`, is the same in both memories.
pub record AgreesOffBucket (b : MemoryBucket) (m m' : RunbookMemory) : Type 0 where
  pub intent : b ≢ intent → m'.intent ≡ m.intent
  pub plan : b ≢ plan → m'.plan ≡ m.plan
  pub evidence : b ≢ evidence → m'.evidence ≡ m.evidence
  pub policy_risk : b ≢ policy_risk → m'.policy_risk ≡ m.policy_risk
  pub progress : b ≢ progress → m'.progress ≡ m.progress
  pub pointers : b ≢ pointers → m'.pointers ≡ m.pointers
  pub versions : (c : MemoryBucket) → b ≢ c → m'.versions c ≡ m.versions c

AgreesOffBucket-refl : (b : MemoryBucket) (m : RunbookMemory) → AgreesOffBucket b m m
AgreesOffBucket-refl b m = record {
  intent = λ n. refl;
  plan = λ n. refl;
  evidence = λ n. refl;
  policy_risk = λ n. refl;
  progress = λ n. refl;
  pointers = λ n. refl;
  versions = λ c n. refl;
}

-- The mutation itself writes no version and no log.
pub mutate_rest :
    (b : MemoryBucket) (d : Delta) (m : RunbookMemory)
    → ((mutate b d m).0.versions ≡ m.versions) × ((mutate b d m).0.deltas ≡ m.deltas)
unfolding mutate
mutate_rest policy_risk d m = (refl, refl)
mutate_rest pointers d m = (refl, refl)
mutate_rest plan d m = (refl, refl)
mutate_rest evidence d m = (refl, refl)
mutate_rest progress d m = (refl, refl)
mutate_rest intent d m = (refl, refl)
mutate_rest (other_bucket b) d m = (refl, refl)

-- Of the buckets it writes one.
mutate-AgreesOffBucket :
    (b : MemoryBucket) (d : Delta) (m : RunbookMemory) → AgreesOffBucket b m (mutate b d m).0
unfolding mutate
mutate-AgreesOffBucket b d m = record {
  intent = λ n. ground arith;
  plan = λ n. ground arith;
  evidence = λ n. ground arith;
  policy_risk = λ n. ground arith;
  progress = λ n. ground arith;
  pointers = λ n. ground arith;
  versions = λ c n. ap (λ v. v c) (mutate_rest b d m).0;
}

finish-committed :
    (now : ℕ) (d : Delta) (r : Applied RunbookMemory)
    → (finish now d r).1 ≡ none
    → (finish now d r).0 ≡ commit now d r.0
finish-committed now d (m', none) h = refl
finish-committed now d (m', some e) h = absurd (cc)

unless_refused-committed :
    (now : ℕ) (d : Delta) (m : RunbookMemory) (c : Option ApplyError)
    → (unless_refused now d m c).1 ≡ none
    → ((unless_refused now d m c).0 ≡ commit now d (mutate d.bucket d m).0) × (c ≡ none)
unless_refused-committed now d m (some e) h = absurd (cc)
unless_refused-committed now d m none h = (finish-committed now d (mutate d.bucket d m) h, refl)

-- An applied delta: what was mutated, and what was committed after it.
pub apply-committed :
    (now : ℕ) (d : Delta) (m : RunbookMemory)
    → (apply now d m).1 ≡ none
    → ((apply now d m).0 ≡ commit now d (mutate d.bucket d m).0) × (check_delta d m ≡ none)
unfolding apply
apply-committed now d m h = unless_refused-committed now d m (check_delta d m) h

commit-AgreesOffBucket :
    (now : ℕ) (d : Delta) (m m' : RunbookMemory)
    → AgreesOffBucket d.bucket m m'
    → AgreesOffBucket d.bucket m (commit now d m')
unfolding commit
commit-AgreesOffBucket now d m m' a = record {
  intent = a.intent;
  plan = a.plan;
  evidence = a.evidence;
  policy_risk = a.policy_risk;
  progress = a.progress;
  pointers = a.pointers;
  versions = λ c n. ground (arith, same_bucket_iff d.bucket c, a.versions c);
}

-- A delta, applied or refused, leaves every bucket but its own as it was, and every version but that
-- of its own bucket.
pub apply-AgreesOffBucket :
    (now : ℕ) (d : Delta) (m : RunbookMemory) → AgreesOffBucket d.bucket m (apply now d m).0
apply-AgreesOffBucket now d m = elim (Option-cases (apply now d m).1) [
  | inr (e, h) ↦ rw (apply_error_unchanged now d m e h) (AgreesOffBucket-refl d.bucket m)
  | inl h ↦
      rw (apply-committed now d m h).0 (
        commit-AgreesOffBucket now d m (mutate d.bucket d m).0
          (mutate-AgreesOffBucket d.bucket d m))
]
