-- ===== src/Validation/Accepted.antt =====
-- What the validation of plan steps accepts.
use mathlib.Core.List.{Mem}
use forgeiq.Prelude.{
  some, none, is_some, Option, String, ◌≡◌, ◌≢◌, refl, ◌↔◌, inl, inr, true, false, List, [], ◌∷◌,
  ok, All, arith, eq_iff, Bool-cases, ◌==◌, contains, contains→mem, mem→contains,
}
use forgeiq.Contracts.{Task, PlanStep}
use forgeiq.GoMap.{GoMap}
use forgeiq.Contracts.Values.{Any}
use forgeiq.Validation.{
  valid_types, has_input, validate_task, valid_tags, check_tags, is_empty, validate_plan_step,
}

-- A step names itself, its tool and the tool's version, has a tag and a scope, and only known tags.
pub record IsValidStep (s : PlanStep) : Type 0 where
  pub step_id : s.step_id ≢ ""
  pub tool_name : s.tool_name ≢ ""
  pub tool_version : s.tool_version ≢ ""
  pub tags : s.tags ≢ []
  pub scopes : s.scopes ≢ []
  pub known : All (λ t. Mem t valid_tags) s.tags

check_tags_iff : (tags : List String) → (check_tags tags ≡ ok tt) ↔ All (λ t. Mem t valid_tags) tags
unfolding check_tags
check_tags_iff [] = (λ h. tt, λ h. refl)
check_tags_iff (t ∷ ts) =
    let (to, from) = check_tags_iff ts in
    elim (Bool-cases (contains valid_tags t)) [
      | inl e ↦ rw e (λ h. (contains→mem valid_tags t e, to h), λ h. from h.1)
      | inr e ↦ rw e (λ h. absurd (cc), λ h. absurd (cc (e, mem→contains valid_tags t h.0)))
    ]

is_empty-not : (xs : List String) → is_empty xs ≡ false → xs ≢ []
is_empty-not [] h e = cc
is_empty-not (x ∷ xs) h e = cc

not-is_empty : (xs : List String) → xs ≢ [] → is_empty xs ≡ false
not-is_empty [] n = absurd (n refl)
not-is_empty (x ∷ xs) n = refl

guards_iff :
    (s : PlanStep)
    → (validate_plan_step s ≡ ok tt) ↔ (
        ((s.step_id == "") ≡ false)
        × ((s.tool_name == "") ≡ false)
        × ((s.tool_version == "") ≡ false)
        × (is_empty s.tags ≡ false)
        × (is_empty s.scopes ≡ false)
        × (check_tags s.tags ≡ ok tt))
unfolding validate_plan_step
guards_iff s = (λ h. ground arith, λ h. ground arith)

differs : (x : String) → (x ≢ "") ↔ ((x == "") ≡ false)
differs x = (λ n. ground (arith, eq_iff x ""), λ n. λ e. ground (arith, eq_iff x ""))

-- A plan step is accepted exactly when it has an id, a tool name, a tool version, at least one tag and
-- one scope, and each of its tags is one of the five known ones.
pub validate_plan_step_iff : (s : PlanStep) → (validate_plan_step s ≡ ok tt) ↔ IsValidStep s
validate_plan_step_iff s =
    let (to, from) = guards_iff s in
    let (known, checked) = check_tags_iff s.tags in
    (
      λ h.
          let f = to h in
          record {
            step_id = (differs s.step_id).1 f.0;
            tool_name = (differs s.tool_name).1 f.1;
            tool_version = (differs s.tool_version).1 f.2;
            tags = is_empty-not s.tags f.3;
            scopes = is_empty-not s.scopes f.4;
            known = known f.5;
          },
      λ v. from (
        (differs s.step_id).0 v.step_id,
        (differs s.tool_name).0 v.tool_name,
        (differs s.tool_version).0 v.tool_version,
        not-is_empty s.tags v.tags,
        not-is_empty s.scopes v.scopes,
        checked v.known,
      ),
    )

-- A task has an id, an input and a known type, and a triage task names a service and a symptom.
pub record IsValidTask (t : Task) : Type 0 where
  pub id : t.id ≢ ""
  pub input : t.input ≢ none
  pub type : Mem t.type valid_types
  pub triage :
      t.type ≡ "incident_triage"
      → (has_input t.input "service" ≡ true) × (has_input t.input "symptom" ≡ true)

task_guards_iff :
    (t : Task)
    → (validate_task t ≡ ok tt) ↔ (
        ((t.id == "") ≡ false)
        × ((t.type == "") ≡ false)
        × (is_some t.input ≡ true)
        × (contains valid_types t.type ≡ true)
        × ((t.type == "incident_triage") ≡ true
            → (has_input t.input "service" ≡ true) × (has_input t.input "symptom" ≡ true)))
unfolding validate_task
task_guards_iff t = (λ h. ground arith, λ h. ground arith)

is_some-not : (i : Option (GoMap Any)) → (is_some i ≡ true) ↔ (i ≢ none)
is_some-not none = (λ h. absurd (cc), λ n. absurd (n refl))
is_some-not (some m) = (λ h. λ e. absurd (cc), λ n. refl)

type_named : (t : String) → Mem t valid_types → (t == "") ≡ false
unfolding contains
type_named t m = elim (Bool-cases (t == "")) [
  | inl e ↦ absurd (cc (rw ((eq_iff t "").0 e) at (mem→contains valid_types t m)))
  | inr e ↦ e
]

-- A task is accepted exactly when it has an id, an input and one of the three types, and its input
-- has a service and a symptom if it is a triage task.
pub validate_task_iff : (t : Task) → (validate_task t ≡ ok tt) ↔ IsValidTask t
validate_task_iff t =
    let (to, from) = task_guards_iff t in
    (
      λ h.
          let f = to h in
          record {
            id = (differs t.id).1 f.0;
            input = (is_some-not t.input).0 f.2;
            type = contains→mem valid_types t.type f.3;
            triage = λ e. f.4 ((eq_iff t.type "incident_triage").1 e);
          },
      λ v. from (
        (differs t.id).0 v.id,
        type_named t.type v.type,
        (is_some-not t.input).1 v.input,
        mem→contains valid_types t.type v.type,
        λ e. v.triage ((eq_iff t.type "incident_triage").0 e),
      ),
    )
