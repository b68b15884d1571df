-- ===== src/Tenancy/Paths.antt =====
-- The task that a path names and its tenant, for `extractTaskIDFromPath` and `tenantFromTaskID` of
-- internal/middleware/tenancy.go.
use forgeiq.Tenancy.{drop_text, cut, tenant_from_task_id, extract_with, extract_task_id_from_path}
use forgeiq.Text.{trim_space, has_prefix, contains_text}
use forgeiq.Prelude.{
  eq_iff, ◌==◌, ◌≢◌, ◌&&◌, refl, not, false, arith, [], ◌∷◌, ◌||◌, true, some, ◌≡◌, List, Bool,
  String, Bool-cases, inl, inr, ◌⊎◌,
}

-- The starts of the paths that end in the id of a task.
abbrev pub task_paths : List String
task_paths =
    "/status/" ∷ "/result/" ∷ "/approve/" ∷ "/feedback/" ∷ "/refine/" ∷ "/stop/" ∷ "/events/" ∷ []

abbrev pub IsIn : String → List String → Type 0
IsIn p [] = ⊥
IsIn p (q ∷ qs) = (p ≡ q) ⊎ IsIn p qs

-- The path is one of those starts and then, white space aside, the id, which holds no slash.
abbrev NamesTaskIn : List String → String → String → Type 0
NamesTaskIn starts path id =
    (p : String) × IsIn p starts
    × (has_prefix path p ≡ true)
    × (trim_space (drop_text path p) ≡ id)
    × (id ≢ "")
    × (contains_text id "/" ≡ false)

abbrev pub NamesTask : String → String → Type 0
NamesTask path id = NamesTaskIn task_paths path id

-- The id is "tenant-", the tenant, "-task-" and a rest; white space around the tenant does not count.
abbrev pub IsTaskOf : String → String → Type 0
IsTaskOf tenant id =
    (part : String) × (rest : String) × (has_prefix id "tenant-" ≡ true)
    × (cut "-task-" (drop_text id "tenant-") ≡ some (part, rest))
    × (trim_space part ≡ tenant)
    × (tenant ≢ "")

-- Two starts of one text are starts of each other.
comparable :
    (s p q : String)
    → has_prefix s p ≡ true
    → has_prefix s q ≡ true
    → (has_prefix p q || has_prefix q p) ≡ true
unfolding has_prefix
comparable s String.[] String.[] h k = refl
comparable s String.[] (String.◌∷◌ c q) h k = refl
comparable s (String.◌∷◌ c p) String.[] h k = refl
comparable String.[] (String.◌∷◌ c p) (String.◌∷◌ d q) h k = absurd (cc)
comparable (String.◌∷◌ b s) (String.◌∷◌ c p) (String.◌∷◌ d q) h k = ground (arith, comparable s p q)

abbrev clash : String → String → Bool
clash p q = has_prefix p q || has_prefix q p

abbrev clear_of : String → List String → Bool
clear_of p [] = true
clear_of p (q ∷ qs) = not (clash p q) && clear_of p qs

abbrev apart : List String → Bool
apart [] = true
apart (p ∷ ps) = clear_of p ps && apart ps

pub ne_blank : (s : String) → s ≢ "" → (s == "") ≡ false
ne_blank s n = elim (Bool-cases (s == "")) [ inl e ↦ absurd (n ((eq_iff s "").0 e)) | inr e ↦ e ]

clear_of-IsIn :
    (p q : String) (qs : List String) → clear_of p qs ≡ true → IsIn q qs → clash p q ≡ false
clear_of-IsIn p q [] h m = absurd m
clear_of-IsIn p q (x ∷ xs) h (inl e) = rw e (ground arith)
clear_of-IsIn p q (x ∷ xs) h (inr m) = clear_of-IsIn p q xs (ground arith) m

extract_with-named :
    (starts : List String) (path id : String)
    → apart starts ≡ true
    → NamesTaskIn starts path id
    → extract_with starts path ≡ id
unfolding extract_with
extract_with-named [] path id a (p, m, t, e, n, c) = absurd m
extract_with-named (x ∷ xs) path id a (p, inl m, t, e, n, c) =
    let t' : has_prefix path x ≡ true = rw m at t in
    let e' : trim_space (drop_text path x) ≡ id = rw m at e in rw (t', e', ne_blank id n, c) refl
extract_with-named (x ∷ xs) path id a (p, inr m, t, e, n, c) =
    elim (Bool-cases (has_prefix path x)) [
      | inl k ↦ absurd (cc (comparable path x p k t, clear_of-IsIn x p xs (ground arith) m))
      | inr k ↦ rw k (extract_with-named xs path id (ground arith) (p, m, t, e, n, c))
    ]

distinct_starts : apart task_paths ≡ true
unfolding has_prefix
distinct_starts = refl

pub extract_task_id_from_path-named :
    (path id : String) → NamesTask path id → extract_task_id_from_path path ≡ id
unfolding extract_task_id_from_path
extract_task_id_from_path-named path id h = extract_with-named task_paths path id distinct_starts h

pub tenant_from_task_id-IsTaskOf :
    (tenant id : String) → IsTaskOf tenant id → tenant_from_task_id id ≡ some tenant
unfolding tenant_from_task_id
tenant_from_task_id-IsTaskOf tenant id (part, rest, t, c, e, n) =
    rw (t, c, e, ne_blank tenant n) refl
