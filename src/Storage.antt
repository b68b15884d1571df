-- ===== src/Storage.antt =====
-- The in-memory storage of internal/storage/memory.go, with the records of internal/storage/storage.go.
-- A record is shared by pointer between the store and its callers, so the store keeps addresses, and
-- the records themselves stand in a heap.
pub mod Pages
pub mod Lookup
use forgeiq.Prelude.{
  ℕ, String, Bool, false, not, ◌&&◌, ◌||◌, Option, none, some, List, [], ◌∷◌, ◌++◌, Result, ok, err,
  ℤ, pos, pos_part, ltb, ltb_ℤ, eqb, length, take, drop, if◌then◌else◌, ◌==◌, concat,
}
use forgeiq.GoMap.{GoMap, get, put}
use forgeiq.Contracts.Values.{Any}

pub record WorkflowRecord : Type 0 where
  pub id : String
  pub task_id : String
  pub type : String
  pub status : String
  pub input : GoMap Any
  pub output : GoMap Any
  pub metadata : GoMap String
  pub created_at : ℕ
  pub updated_at : ℕ
  pub completed_at : Option ℕ
  pub error : String

pub record ArtifactRecord : Type 0 where
  pub id : String
  pub workflow_id : String
  pub task_id : String
  pub type : String
  pub payload : GoMap Any
  pub created_at : ℕ

pub record AuditLog : Type 0 where
  pub id : String
  pub workflow_id : String
  pub action : String
  pub actor : String
  pub resource : String
  pub details : GoMap Any
  pub ip_address : String
  pub user_agent : String
  pub created_at : ℕ

pub record WorkflowFilter : Type 0 where
  pub task_id : String
  pub type : String
  pub status : String
  pub from : Option ℕ
  pub to : Option ℕ
  pub limit : ℤ
  pub offset : ℤ

pub record AuditFilter : Type 0 where
  pub workflow_id : String
  pub action : String
  pub from : Option ℕ
  pub to : Option ℕ
  pub limit : ℤ
  pub offset : ℤ

-- What is at each address of the workflow records that callers have made.
abbrev pub Heap : Type 0
Heap = ℕ → WorkflowRecord

abbrev pub write : Heap → ℕ → WorkflowRecord → Heap
write h p w q = if eqb q p then w else h q

pub record MemoryStorage : Type 0 where
  pub workflows : GoMap ℕ
  pub artifacts : GoMap ArtifactRecord
  pub audit_logs : List AuditLog

abbrev pub new_memory_storage : MemoryStorage
new_memory_storage = record { workflows = []; artifacts = []; audit_logs = [] }

-- The key is the record's id at the time of the call.
unfoldable pub save_workflow : Heap → ℕ → MemoryStorage → MemoryStorage
unfolding put
save_workflow h p m = record m { workflows = put m.workflows (h p).id p }

abbrev or_missing {ℓ} : {A : Type ℓ} → String → String → Option A → Result String A
or_missing kind id none = err (concat kind (concat " not found: " id))
or_missing kind id (some a) = ok a

-- The address of the record.
unfoldable pub get_workflow : MemoryStorage → String → Result String ℕ
unfolding get
get_workflow m id = or_missing "workflow" id (get m.workflows id)

abbrev pub set_status : String → ℕ → Heap → Result String ℕ → Result String Heap
set_status status now h (err e) = err e
set_status status now h (ok p) = ok (write h p (record (h p) { status = status; updated_at = now }))

-- The new status is written into the shared record.
unfoldable pub update_workflow_status :
    MemoryStorage → Heap → String → String → ℕ → Result String Heap
unfolding get_workflow
update_workflow_status m h id status now = set_status status now h (get_workflow m id)

unfoldable pub save_artifact : ArtifactRecord → MemoryStorage → MemoryStorage
unfolding put
save_artifact a m = record m { artifacts = put m.artifacts a.id a }

unfoldable pub get_artifact : MemoryStorage → String → Result String ArtifactRecord
unfolding get
get_artifact m id = or_missing "artifact" id (get m.artifacts id)

unfoldable pub save_audit_log : AuditLog → MemoryStorage → MemoryStorage
save_audit_log l m = record m { audit_logs = m.audit_logs ++ l ∷ [] }

-- `want != "" && have != want`
abbrev pub mismatch : String → String → Bool
mismatch want have = not (want == "") && not (have == want)

abbrev pub too_early : Option ℕ → ℕ → Bool
too_early none t = false
too_early (some from) t = ltb t from

abbrev pub too_late : Option ℕ → ℕ → Bool
too_late none t = false
too_late (some to) t = ltb to t

abbrev pub skips_workflow : WorkflowFilter → WorkflowRecord → Bool
skips_workflow f w =
    mismatch f.task_id w.task_id
    || mismatch f.type w.type
    || mismatch f.status w.status
    || too_early f.from w.created_at
    || too_late f.to w.created_at

abbrev pub skips_audit : AuditFilter → AuditLog → Bool
skips_audit f l =
    mismatch f.workflow_id l.workflow_id
    || mismatch f.action l.action
    || too_early f.from l.created_at
    || too_late f.to l.created_at

-- The loop with its `continue`s.
unfoldable pub collect {ℓ} : {A : Type ℓ} → (A → Bool) → List A → List A
collect skips [] = []
collect skips (a ∷ rest) = if skips a then collect skips rest else a ∷ collect skips rest

-- `if n > 0 && n < len(results)`
abbrev pub in_range {ℓ} : {A : Type ℓ} → ℤ → List A → Bool
in_range n results = ltb_ℤ (pos 0) n && ltb_ℤ n (pos (length results))

abbrev pub skip_offset {ℓ} : {A : Type ℓ} → ℤ → List A → List A
skip_offset offset results =
    if in_range offset results then drop (pos_part offset) results else results

abbrev pub cap_at {ℓ} : {A : Type ℓ} → ℤ → List A → List A
cap_at limit results = if in_range limit results then take (pos_part limit) results else results

-- "Simple limit/offset"
unfoldable pub page {ℓ} : {A : Type ℓ} → ℤ → ℤ → List A → List A
page limit offset results = cap_at limit (skip_offset offset results)

-- `visited` are the stored workflows in the order in which the range over the map visits them, which
-- Go leaves open; `none` is a nil filter.
unfoldable pub list_workflows : List WorkflowRecord → Option WorkflowFilter → List WorkflowRecord
unfolding collect page
list_workflows visited none = visited
list_workflows visited (some f) = page f.limit f.offset (collect (skips_workflow f) visited)

-- `visited` as above.
unfoldable pub list_artifacts : List ArtifactRecord → String → List ArtifactRecord
unfolding collect
list_artifacts visited workflow_id = collect (λ a. not (a.workflow_id == workflow_id)) visited

unfoldable pub query_audit_logs : MemoryStorage → Option AuditFilter → List AuditLog
unfolding collect page
query_audit_logs m none = m.audit_logs
query_audit_logs m (some f) = page f.limit f.offset (collect (skips_audit f) m.audit_logs)
