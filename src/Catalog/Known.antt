-- ===== src/Catalog/Known.antt =====
-- What the catalog holds and which plans it lets through.
use forgeiq.GoMap.{get-put}
use forgeiq.Catalog.{err, ◌∷◌, List, validate_args, some, ok, String, ArgsError}
use forgeiq.Prelude.{
  ◌==◌, [], then_iff, refl, err, if◌then◌else◌, inr, inl, Option-cases, All, ◌↔◌, ◌≡◌, Result,
}
use forgeiq.Contracts.{Plan, PlanStep}
use forgeiq.Catalog.Tools.{
  with_owner, key, in_step, args_result, validate_steps, validate_plan, upsert, ToolError,
  ToolDescriptor, validate_tool_call, get_tool, Tools,
}

-- After an upsert, a lookup finds the descriptor, with its owner, under exactly the names and versions
-- that make the same key, with or without white space around them; every other lookup is as before.
pub get_tool-upsert :
    (c : Tools) (td : ToolDescriptor) (name version : String)
    → get_tool (upsert c td) name version ≡ (
        if key td.info.name td.info.version == key name version
        then some (with_owner td)
        else get_tool c name version)
unfolding get_tool upsert
get_tool-upsert c td name version =
    get-put c (key td.info.name td.info.version) (key name version) (with_owner td)

-- The tool is there and accepts the arguments.
pub record IsUsable (c : Tools) (s : PlanStep) : Type 0 where
  pub tool : ToolDescriptor
  pub known : get_tool c s.tool_name s.tool_version ≡ some tool
  pub accepted : validate_args tool.info.schema s.args ≡ ok tt

args_result-ok : (r : Result ArgsError (Unit {0})) → args_result r ≡ ok tt → r ≡ ok tt
args_result-ok (ok tt) h = refl
args_result-ok (err e) h = absurd (cc)

in_step-ok : (s : PlanStep) (r : Result ToolError (Unit {0})) → in_step s r ≡ ok tt → r ≡ ok tt
in_step-ok s (ok tt) h = refl
in_step-ok s (err e) h = absurd (cc)

pub validate_tool_call_iff :
    (c : Tools) (s : PlanStep)
    → (validate_tool_call c s.tool_name s.tool_version s.args ≡ ok tt) ↔ IsUsable c s
unfolding validate_tool_call
validate_tool_call_iff c s = (
  λ h. elim (Option-cases (get_tool c s.tool_name s.tool_version)) [
    | inl e ↦ absurd (cc (rw e at h))
    | inr (td, e) ↦ record { tool = td; known = e; accepted = args_result-ok _ (rw e at h) }
  ],
  λ u. rw (u.known, u.accepted) refl,
)

validate_steps_iff :
    (c : Tools) (ss : List PlanStep) → (validate_steps c ss ≡ ok tt) ↔ All (IsUsable c) ss
unfolding validate_steps
validate_steps_iff c [] = (λ h. tt, λ h. refl)
validate_steps_iff c (s ∷ ss) =
    let call = validate_tool_call c s.tool_name s.tool_version s.args in
    let (split, join) = then_iff (in_step s call) (validate_steps c ss) in
    let (to, from) = validate_steps_iff c ss in
    let (first, last) = validate_tool_call_iff c s in
    (
      λ h. let (a, b) = split h in (first (in_step-ok s call a), to b),
      λ h. join (rw (last h.0) refl, from h.1),
    )

-- A plan passes the catalog exactly when every step names a tool that the catalog has and gives it
-- arguments that its schema accepts.
pub validate_plan_iff :
    (c : Tools) (plan : Plan) → (validate_plan c plan ≡ ok tt) ↔ All (IsUsable c) plan.steps
validate_plan_iff c plan = validate_steps_iff c plan.steps
