-- ===== src/Temporal/Memory/Audit.antt =====
-- The audit log: versions count the deltas of their bucket, the log only grows, and a stale delta is
-- refused.
use forgeiq.Prelude.{
  ℕ, suc, ◌+◌, ◌%◌, ◌^◌, ◌≡◌, refl, sym, ap, ◌∙◌, true, none, some, List, [], ◌∷◌, ◌++◌, arith,
  Option-cases, Bool-cases, inl, inr, if◌then◌else◌,
}
use forgeiq.Temporal.Memory.Patches.{
  MemoryBucket, intent, same_bucket, same_bucket_iff, Delta, ApplyError,
}
use forgeiq.Temporal.Memory.Buckets.{IntentState}
use forgeiq.Temporal.Memory.{
  mutate, RunbookMemory, DeltaEntry, new_runbook_memory, commit, check_delta, apply, is_positive,
  next_version,
}
use forgeiq.Temporal.Memory.Frame.{
  apply_error_unchanged, apply-committed, mutate_rest, apply-AgreesOffBucket, AgreesOffBucket,
}

-- The deltas of one bucket in a log.
abbrev pub count : MemoryBucket → List DeltaEntry → ℕ
count b [] = 0
count b (e ∷ es) = if same_bucket e.bucket b then suc (count b es) else count b es

count-append :
    (b : MemoryBucket) (xs ys : List DeltaEntry) → count b (xs ++ ys) ≡ count b xs + count b ys
count-append b [] ys = omega arith
count-append b (e ∷ es) ys = ground (arith, count-append b es ys)

-- The deltas that a workflow applies, each with its time; like the workflow it drops the errors.
abbrev pub apply_all : List (ℕ × Delta) → RunbookMemory → RunbookMemory
apply_all [] m = m
apply_all ((now, d) ∷ ds) m = apply_all ds (apply now d m).0

-- The version that a bucket starts with.
abbrev pub first_version : MemoryBucket → ℕ
first_version b = if same_bucket b intent then 1 else 0

-- Every version is its first value plus the number of the bucket's log entries, modulo 2^64.
abbrev pub IsCounted : RunbookMemory → Type 0
IsCounted m = (b : MemoryBucket) → m.versions b ≡ (first_version b + count b m.deltas) % 2 ^ 64

IsCounted-new : (i : IntentState) → IsCounted (new_runbook_memory i)
unfolding new_runbook_memory
IsCounted-new i b = ground arith

-- One applied delta: one more entry, with the versions of its bucket before and after.
pub record Appends (d : Delta) (m m' : RunbookMemory) : Type 0 where
  pub entry : DeltaEntry
  pub log : m'.deltas ≡ m.deltas ++ entry ∷ []
  pub bucket : entry.bucket ≡ d.bucket
  pub action : entry.action ≡ d.action
  pub patch : entry.patch ≡ d.patch
  pub prev_ver : entry.prev_ver ≡ m.versions d.bucket
  pub next_ver : entry.next_ver ≡ m'.versions d.bucket
  pub version : m'.versions d.bucket ≡ next_version (m.versions d.bucket)

commit-Appends :
    (now : ℕ) (d : Delta) (m m' : RunbookMemory)
    → m'.versions ≡ m.versions
    → m'.deltas ≡ m.deltas
    → Appends d m (commit now d m')
unfolding commit
commit-Appends now d m m' v l = record {
  entry = record {
    at = now;
    bucket = d.bucket;
    action = d.action;
    patch = d.patch;
    actor = d.actor;
    rationale = d.rationale;
    refs = d.refs;
    prev_ver = m'.versions d.bucket;
    next_ver = next_version (m'.versions d.bucket);
  };
  log = rw l refl;
  bucket = refl;
  action = refl;
  patch = refl;
  prev_ver = rw v refl;
  next_ver = ground (arith, same_bucket_iff d.bucket d.bucket);
  version = rw v (ground (arith, same_bucket_iff d.bucket d.bucket));
}

-- An accepted delta adds exactly one entry at the end of the log, with the delta's bucket, action and
-- patch and with the bucket's versions before and after, and the bucket's version goes up by one.
pub apply-Appends :
    (now : ℕ) (d : Delta) (m : RunbookMemory)
    → (apply now d m).1 ≡ none
    → Appends d m (apply now d m).0
apply-Appends now d m h =
    let (v, l) = mutate_rest d.bucket d m in
    rw (apply-committed now d m h).0 (commit-Appends now d m (mutate d.bucket d m).0 v l)

counted_step : (a n v : ℕ) → v ≡ (a + n) % 2 ^ 64 → (v + 1) % 2 ^ 64 ≡ (a + (n + 1)) % 2 ^ 64
counted_step a n v h = omega arith

count_log :
    (d : Delta) (m m' : RunbookMemory) (b : MemoryBucket)
    → Appends d m m'
    → count b m'.deltas ≡ count b m.deltas + (if same_bucket d.bucket b then 1 else 0)
count_log d m m' b p = rw (p.log, count-append, p.bucket) (ground arith)

Appends-IsCounted :
    (d : Delta) (m m' : RunbookMemory)
    → Appends d m m'
    → AgreesOffBucket d.bucket m m'
    → IsCounted m
    → IsCounted m'
Appends-IsCounted d m m' p f k b = elim (Bool-cases (same_bucket d.bucket b)) [
  | inl e ↦
      let here : d.bucket ≡ b = (same_bucket_iff d.bucket b).0 e in
      let now : m'.versions b ≡ next_version (m.versions b) = rw here at p.version in
      now
      ∙ counted_step (first_version b) (count b m.deltas) (m.versions b) (k b)
      ∙ ap (λ n. (first_version b + n) % 2 ^ 64) (sym (rw e at (count_log d m m' b p)))
  | inr e ↦
      f.versions b (λ q. cc ((same_bucket_iff d.bucket b).1 q, e))
      ∙ k b
      ∙ ap (λ n. (first_version b + n) % 2 ^ 64) (omega (arith, rw e at (count_log d m m' b p)))
]

apply-IsCounted :
    (now : ℕ) (d : Delta) (m : RunbookMemory) → IsCounted m → IsCounted (apply now d m).0
apply-IsCounted now d m k = elim (Option-cases (apply now d m).1) [
  | inr (e, h) ↦ rw (apply_error_unchanged now d m e h) k
  | inl h ↦
      Appends-IsCounted d m (apply now d m).0 (apply-Appends now d m h)
        (apply-AgreesOffBucket now d m) k
]

apply_all-IsCounted :
    (ds : List (ℕ × Delta)) (m : RunbookMemory) → IsCounted m → IsCounted (apply_all ds m)
apply_all-IsCounted [] m k = k
apply_all-IsCounted ((now, d) ∷ ds) m k = apply_all-IsCounted ds _ (apply-IsCounted now d m k)

-- From a new memory, whatever deltas are applied and whichever of them are refused, each bucket's
-- version is its first value plus the number of the log's entries for that bucket, modulo 2^64.
pub versions_counted :
    (i : IntentState) (ds : List (ℕ × Delta)) (b : MemoryBucket)
    → (apply_all ds (new_runbook_memory i)).versions b
      ≡ (first_version b + count b (apply_all ds (new_runbook_memory i)).deltas) % 2 ^ 64
versions_counted i ds = apply_all-IsCounted ds _ (IsCounted-new i)

-- An accepted delta with a positive expected version found exactly that version.
pub apply_expected :
    (now : ℕ) (d : Delta) (m : RunbookMemory)
    → (apply now d m).1 ≡ none
    → is_positive d.expected_ver ≡ true
    → m.versions d.bucket ≡ d.expected_ver
apply_expected now d m h p =
    let (_, c) = apply-committed now d m h in unfold check_delta in ground arith

-- No lost update: of two deltas to one bucket that expect the same version, the second is refused once
-- the first was accepted, and it changes nothing.
pub second_update_refused :
    (t u : ℕ) (d e : Delta) (m : RunbookMemory)
    → e.bucket ≡ d.bucket
    → e.expected_ver ≡ d.expected_ver
    → is_positive d.expected_ver ≡ true
    → (apply t d m).1 ≡ none
    → (x : ApplyError) × ((apply u e (apply t d m).0).1 ≡ some x)
      × ((apply u e (apply t d m).0).0 ≡ (apply t d m).0)
second_update_refused t u d e m sb sv p h = elim (Option-cases (apply u e (apply t d m).0).1) [
  | inr (x, r) ↦ (x, r, apply_error_unchanged u e (apply t d m).0 x r)
  | inl r ↦
      let first = apply_expected t d m h p in
      let second = apply_expected u e (apply t d m).0 r (rw sv p) in
      let moved = (apply-Appends t d m h).version in
      absurd (omega (arith, first, rw (sb, sv) at second, moved))
]
