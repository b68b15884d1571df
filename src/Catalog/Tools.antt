-- ===== src/Catalog/Tools.antt =====
-- The tool catalog of internal/catalog/catalog.go. Its lock makes the calls sequential.
use forgeiq.Prelude.{
  ◌>>◌, String, concat, Option, none, some, List, [], ◌∷◌, map, Result, ok, err, ◌==◌,
  if◌then◌else◌,
}
use forgeiq.GoMap.{GoMap, get, put, get_str}
use forgeiq.Text.{trim_space}
use forgeiq.Contracts.{Plan, PlanStep}
use forgeiq.Contracts.Values.{Any}
use forgeiq.Catalog.{ArgsError, validate_args}

-- `ToolInfo` of internal/controlplane/interfaces/interfaces.go; `none` is a nil map.
pub record ToolInfo : Type 0 where
  pub name : String
  pub version : String
  pub tags : List String
  pub scopes : List String
  pub schema : Option (GoMap Any)
  pub meta : Option (GoMap String)

pub record ToolDescriptor : Type 0 where
  pub info : ToolInfo
  pub owner : String
  pub compatibility : GoMap String

-- The tools by name and version.
abbrev pub Tools : Type 0
Tools = GoMap ToolDescriptor

unfoldable pub key : String → String → String
unfolding trim_space
key name version = concat (trim_space name) (concat ":" (trim_space version))

-- `td` with its owner from the metadata, where it has none.
abbrev owner_in : Option (GoMap String) → String
owner_in none = ""
owner_in (some m) = get_str m "owner"

abbrev pub with_owner : ToolDescriptor → ToolDescriptor
with_owner td = if td.owner == "" then record td { owner = owner_in td.info.meta } else td

unfoldable pub upsert : Tools → ToolDescriptor → Tools
unfolding key put
upsert c td = put c (key td.info.name td.info.version) (with_owner td)

unfoldable pub get_tool : Tools → String → String → Option ToolDescriptor
unfolding key get
get_tool c name version = get c (key name version)

-- `List`, in the order in which the range visits the entries, which Go leaves open.
abbrev pub list_tools : Tools → List ToolDescriptor
list_tools c = map (λ e. e.1) c

abbrev pub described : ToolInfo → ToolDescriptor
described t = record { info = t; owner = ""; compatibility = [] }

unfoldable pub upsert_all : Tools → List ToolInfo → Tools
unfolding upsert
upsert_all c [] = c
upsert_all c (t ∷ ts) = upsert_all (upsert c (described t)) ts

-- `RefreshFromToolClient`, with the client's answer; `none` is a nil client. Nothing changes where
-- there is an error.
unfoldable pub refresh : Tools → Option (Result String (List ToolInfo)) → Tools × Option String
unfolding upsert_all
refresh c none = (c, some "tool client is nil")
refresh c (some (err e)) = (c, some e)
refresh c (some (ok tools)) = (upsert_all c tools, none)

pub data ToolError : Type 0 where
  unknown_tool : String → String → ToolError
  bad_args : ArgsError → ToolError

abbrev pub args_result : Result ArgsError (Unit {0}) → Result ToolError (Unit {0})
args_result (ok u) = ok u
args_result (err e) = err (bad_args e)

abbrev pub check_found :
    String → String → Option (GoMap Any) → Option ToolDescriptor → Result ToolError (Unit {0})
check_found name version args none = err (unknown_tool name version)
check_found name version args (some td) = args_result (validate_args td.info.schema args)

unfoldable pub validate_tool_call :
    Tools → String → String → Option (GoMap Any) → Result ToolError (Unit {0})
unfolding get_tool validate_args
validate_tool_call c name version args = check_found name version args (get_tool c name version)

abbrev pub in_step : PlanStep → Result ToolError (Unit {0}) → Result (String × ToolError) (Unit {0})
in_step s (ok u) = ok u
in_step s (err e) = err (s.step_id, e)

-- The error names the step.
unfoldable pub validate_steps : Tools → List PlanStep → Result (String × ToolError) (Unit {0})
unfolding validate_tool_call
validate_steps c [] = ok tt
validate_steps c (s ∷ rest) = do
  in_step s (validate_tool_call c s.tool_name s.tool_version s.args)
  validate_steps c rest

abbrev pub validate_plan : Tools → Plan → Result (String × ToolError) (Unit {0})
validate_plan c plan = validate_steps c plan.steps
