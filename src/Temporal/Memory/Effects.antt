-- ===== src/Temporal/Memory/Effects.antt =====
-- What the deltas of the workflow do: histories only grow, a failure stays, and a recorded result is
-- read back.
use forgeiq.Prelude.{
  if-holds, ℕ, ◌≡◌, refl, sym, Bool, true, false, Option, none, some, List, [], ◌∷◌, ◌++◌,
  Option-cases, inl, inr, append_assoc, append-nil, if◌then◌else◌, ◌==◌,
}
use forgeiq.GoMap.{get}
use forgeiq.Temporal.Memory.Patches.{
  MemoryBucket, intent, plan, evidence, policy_risk, progress, pointers, other_bucket, Delta,
  ApprovalSignal, as_approval, string_or_empty,
}
use forgeiq.Temporal.Memory.Buckets.{
  PolicyRiskState, ProgressState, apply_policy, apply_progress, append_approval,
}
use forgeiq.Temporal.Memory.{Applied, RunbookMemory, commit, mutate, apply}
use forgeiq.Temporal.Memory.Frame.{apply_error_unchanged, apply-committed}
use forgeiq.Temporal.Memory.Audit.{apply-Appends, apply_all}

-- `ys` is `xs` with more at its end.
abbrev pub Grows {ℓ} : {A : Type ℓ} → List A → List A → Type ℓ
Grows {A = A} xs ys = (more : List A) × (ys ≡ xs ++ more)

Grows-refl {ℓ} : {A : Type ℓ} (xs : List A) → Grows xs xs
Grows-refl xs = ([], sym (append-nil xs))

Grows-trans {ℓ} : {A : Type ℓ} (xs ys zs : List A) → Grows xs ys → Grows ys zs → Grows xs zs
Grows-trans xs ys zs (a, p) (b, q) = (a ++ b, rw (q, p) (append_assoc xs a b))

-- What later deltas cannot take back.
pub record Extends (m m' : RunbookMemory) : Type 0 where
  pub approvals : Grows m.policy_risk.approvals m'.policy_risk.approvals
  pub reasons : Grows m.policy_risk.approval_reasons m'.policy_risk.approval_reasons
  pub completed : Grows m.progress.completed_steps m'.progress.completed_steps
  pub log : Grows m.deltas m'.deltas
  pub failed : m.progress.failed ≡ true → m'.progress.failed ≡ true

pub Extends-refl : (m : RunbookMemory) → Extends m m
Extends-refl m = record {
  approvals = Grows-refl _;
  reasons = Grows-refl _;
  completed = Grows-refl _;
  log = Grows-refl _;
  failed = λ h. h;
}

pub Extends-trans : (a b c : RunbookMemory) → Extends a b → Extends b c → Extends a c
Extends-trans a b c p q = record {
  approvals = Grows-trans _ _ _ p.approvals q.approvals;
  reasons = Grows-trans _ _ _ p.reasons q.reasons;
  completed = Grows-trans _ _ _ p.completed q.completed;
  log = Grows-trans _ _ _ p.log q.log;
  failed = λ h. q.failed (p.failed h);
}

Grows-if {ℓ} :
    {A : Type ℓ} (t : Bool) (xs : List A) (x : A) → Grows xs (if t then xs else xs ++ x ∷ [])
Grows-if true xs x = Grows-refl xs
Grows-if false xs x = (x ∷ [], refl)

-- What a new policy state keeps of the old one.
abbrev KeepsPolicy : PolicyRiskState → PolicyRiskState → Type 0
KeepsPolicy s s' = Grows s.approvals s'.approvals × Grows s.approval_reasons s'.approval_reasons

same_policy : (s : PolicyRiskState) → KeepsPolicy s s
same_policy s = (Grows-refl _, Grows-refl _)

abbrev KeepsIn : PolicyRiskState → Applied PolicyRiskState → Type 0
KeepsIn s r = KeepsPolicy s r.0

append_approval-KeepsPolicy :
    (d : Delta) (s : PolicyRiskState) (a : Option ApprovalSignal)
    → KeepsPolicy s (append_approval d s a).0
append_approval-KeepsPolicy d s none = same_policy s
append_approval-KeepsPolicy d s (some a) = ((a ∷ [], refl), Grows-if _ _ _)

apply_policy-KeepsPolicy : (d : Delta) (s : PolicyRiskState) → KeepsPolicy s (apply_policy d s).0
unfolding apply_policy
apply_policy-KeepsPolicy d s =
    if-holds (KeepsIn s) (d.action == "set_requires_human_approval") _ _
      (λ e. (Grows-refl _, Grows-if _ _ _))
      (λ e.
        if-holds (KeepsIn s) (d.action == "append_approval") _ _
          (λ f. append_approval-KeepsPolicy d s (as_approval (get d.patch "approval")))
          (λ f. same_policy s))

abbrev KeepsProgress : ProgressState → ProgressState → Type 0
KeepsProgress s s' =
    Grows s.completed_steps s'.completed_steps × (s.failed ≡ true → s'.failed ≡ true)

same_progress : (s : ProgressState) → KeepsProgress s s
same_progress s = (Grows-refl _, λ h. h)

abbrev KeepsProgressIn : ProgressState → Applied ProgressState → Type 0
KeepsProgressIn s r = KeepsProgress s r.0

apply_progress-KeepsProgress :
    (d : Delta) (s : ProgressState) → KeepsProgress s (apply_progress d s).0
unfolding apply_progress
apply_progress-KeepsProgress d s =
    if-holds (KeepsProgressIn s) (d.action == "mark_step_completed") _ _
      (λ e.
        if-holds (KeepsProgressIn s) (string_or_empty (get d.patch "step_id") == "") _ _
          (λ f. same_progress s) (λ f. ((_, refl), λ h. h)))
      (λ e.
        if-holds (KeepsProgressIn s) (d.action == "mark_failed") _ _
          (λ f. (Grows-refl _, λ h. refl)) (λ f. same_progress s))

-- What a mutation keeps, the log aside.
abbrev Keeps : RunbookMemory → RunbookMemory → Type 0
Keeps m m' = KeepsPolicy m.policy_risk m'.policy_risk × KeepsProgress m.progress m'.progress

mutate-Keeps : (b : MemoryBucket) (d : Delta) (m : RunbookMemory) → Keeps m (mutate b d m).0
unfolding mutate
mutate-Keeps policy_risk d m = (apply_policy-KeepsPolicy d m.policy_risk, same_progress m.progress)
mutate-Keeps progress d m = (same_policy m.policy_risk, apply_progress-KeepsProgress d m.progress)
mutate-Keeps pointers d m = (same_policy m.policy_risk, same_progress m.progress)
mutate-Keeps plan d m = (same_policy m.policy_risk, same_progress m.progress)
mutate-Keeps evidence d m = (same_policy m.policy_risk, same_progress m.progress)
mutate-Keeps intent d m = (same_policy m.policy_risk, same_progress m.progress)
mutate-Keeps (other_bucket b) d m = (same_policy m.policy_risk, same_progress m.progress)

committed-Extends :
    (now : ℕ) (d : Delta) (m m' : RunbookMemory)
    → Keeps m m'
    → Grows m.deltas (commit now d m').deltas
    → Extends m (commit now d m')
unfolding commit
committed-Extends now d m m' k l = record {
  approvals = k.0.0;
  reasons = k.0.1;
  completed = k.1.0;
  log = l;
  failed = k.1.1;
}

-- No delta, applied or refused, takes back an approval, an approval reason, a completed step, a log
-- entry or the failed mark: each list is a prefix of what it becomes.
pub apply-Extends : (now : ℕ) (d : Delta) (m : RunbookMemory) → Extends m (apply now d m).0
apply-Extends now d m = elim (Option-cases (apply now d m).1) [
  | inr (e, h) ↦ rw (apply_error_unchanged now d m e h) (Extends-refl m)
  | inl h ↦
      let c = (apply-committed now d m h).0 in
      let p = apply-Appends now d m h in
      let grown : Grows m.deltas (apply now d m).0.deltas = (p.entry ∷ [], p.log) in
      rw c (
        committed-Extends now d m (mutate d.bucket d m).0 (mutate-Keeps d.bucket d m)
          (rw c at grown))
]

-- No sequence of deltas, each applied or refused, takes back an approval, an approval reason, a
-- completed step, a log entry or the failed mark: each list is a prefix of what it becomes.
pub apply_all-Extends : (ds : List (ℕ × Delta)) (m : RunbookMemory) → Extends m (apply_all ds m)
apply_all-Extends [] m = Extends-refl m
apply_all-Extends ((now, d) ∷ ds) m =
    Extends-trans m (apply now d m).0 _ (apply-Extends now d m)
      (apply_all-Extends ds (apply now d m).0)
