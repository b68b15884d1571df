-- ===== src/Temporal/Activities/Tags.antt =====
-- The tags of a routing request: `pickA2AClient`, `parseCSVTags` and `uniqueStrings` of
-- internal/controlplane/temporal/activies.go.
use forgeiq.Prelude.{
  String, concat, not, List, [], ◌∷◌, ◌++◌, contains, sort_stable, if◌then◌else◌, ◌==◌,
}
use forgeiq.GoMap.{get, get_str}
use forgeiq.Text.{trim_space, str_lt, split}
use forgeiq.Contracts.{Task}
use forgeiq.Routing.{RouteRequest}

unfoldable pub trimmed_parts : List String → List String
unfolding trim_space
trimmed_parts [] = []
trimmed_parts (p ∷ ps) =
    if trim_space p == "" then trimmed_parts ps else trim_space p ∷ trimmed_parts ps

unfoldable pub parse_csv_tags : String → List String
unfolding split trimmed_parts
parse_csv_tags s = trimmed_parts (split b',' s)

-- The loop of `uniqueStrings`, with the texts `seen` so far.
unfoldable pub unique_from : List String → List String → List String
unfolding trim_space contains
unique_from seen [] = []
unique_from seen (s ∷ rest) =
    let t = trim_space s in
    let skip = unique_from seen rest in
    let keep = t ∷ unique_from (t ∷ seen) rest in
    if t == "" then skip else if contains seen t then skip else keep

unfoldable pub unique_strings : List String → List String
unfolding unique_from
unique_strings xs = unique_from [] xs

abbrev tenant_tag : Task → List String
tenant_tag task =
    if trim_space task.tenant_id == ""
    then []
    else concat "tenant:" (trim_space task.tenant_id) ∷ []

-- The tags of the kind's own entry, or else those of the common one.
abbrev planner_tags : String → Task → List String
planner_tags kind task =
    let own = trim_space (get_str task.metadata (concat "planner_tags_" kind)) in
    let common = trim_space (get_str task.metadata "planner_tags") in
    if not (own == "")
    then parse_csv_tags own
    else if not (common == "")
    then parse_csv_tags common
    else []

unfoldable pub tags_for : String → Task → List String
unfolding unique_strings parse_csv_tags trim_space get str_lt sort_stable
tags_for kind task =
    sort_stable str_lt (unique_strings (kind ∷ (tenant_tag task ++ planner_tags kind task)))

unfoldable pub request_for : String → Task → RouteRequest
unfolding tags_for
request_for kind task = record {
  agent_type = kind;
  task_type = task.type;
  tags = tags_for kind task;
  goal = task.type;
  seed = task.id;
}
