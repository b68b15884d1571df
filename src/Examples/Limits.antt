-- ===== src/Examples/Limits.antt =====
-- The request limiter and the in-memory storage.
use mathlib.Core.List.{Mem}
use forgeiq.Prelude.{
  ℕ, ◌+◌, ◌≤◌, ◌<◌, String, ◌≡◌, refl, none, some, List, [], ◌∷◌, ◌++◌, ok, pos, ltb_ℤ, length,
  drop, arith,
}
use forgeiq.GoMap.{get, put}
use forgeiq.RateLimit.{new_rate_limiter, Arrival, recent, allow, serve}
use forgeiq.RateLimit.Window.{times_for}
use forgeiq.RateLimit.Limit.{serve_within_limit, allow_exactly}
use forgeiq.Storage.{
  Heap, WorkflowRecord, MemoryStorage, new_memory_storage, AuditLog, AuditFilter, save_workflow,
  get_workflow, update_workflow_status, save_audit_log, query_audit_logs, page,
}
use forgeiq.Storage.Lookup.{update_workflow_status_seen, status_in}
use forgeiq.Storage.Pages.{IsMatch, query_audit_logs-IsMatch, page_lem}

abbrev arrivals : List Arrival
arrivals =
    record { identifier = "a"; at_time = 1 }
    ∷ record { identifier = "b"; at_time = 2 }
    ∷ record { identifier = "a"; at_time = 3 }
    ∷ record { identifier = "a"; at_time = 4 }
    ∷ []

-- Two requests of "a" are let through, the third is not.
third_refused : length (times_for "a" (serve (new_rate_limiter (pos 2) (pos 10)) [] arrivals).1) ≡ 2
unfolding times_for serve allow recent get put
third_refused = refl

serve_within_limit_example :
    length
      (recent (pos 10) 5 (times_for "a" (serve (new_rate_limiter (pos 2) (pos 10)) [] arrivals).1))
    ≤ 2
serve_within_limit_example =
    serve_within_limit (pos 2) (pos 10) arrivals "a" 5
      (omega arith, (omega arith, (omega arith, (omega arith, tt)))) (omega arith)

allow_exactly_example :
    (allow (serve (new_rate_limiter (pos 2) (pos 10)) [] arrivals).0 "a" 5).1
    ≡ ltb_ℤ
        (pos (
          length (
            recent
              (pos 10)
              5
              (times_for "a" (serve (new_rate_limiter (pos 2) (pos 10)) [] arrivals).1))))
        (pos 2)
allow_exactly_example =
    allow_exactly (pos 2) (pos 10) arrivals "a" 5
      (omega arith, (omega arith, (omega arith, (omega arith, tt)))) (omega arith)

abbrev workflow : WorkflowRecord
workflow = record {
  id = "w1";
  task_id = "t1";
  type = "incident_triage";
  status = "running";
  input = [];
  output = [];
  metadata = [];
  created_at = 1;
  updated_at = 1;
  completed_at = none;
  error = "";
}

abbrev heap : Heap
heap p = workflow

abbrev stored : MemoryStorage
stored = save_workflow heap 7 new_memory_storage

update_workflow_status_seen_example :
    (h' : Heap) × (update_workflow_status stored heap "w1" "completed" 9 ≡ ok h')
    × (status_in h' (get_workflow stored "w1") ≡ ok "completed")
unfolding get_workflow save_workflow get put
update_workflow_status_seen_example =
    update_workflow_status_seen stored heap "w1" "w1" 7 7 "completed" 9 refl refl

abbrev log : String → AuditLog
log id = record {
  id = id;
  workflow_id = "w1";
  action = "tool_called";
  actor = "";
  resource = "r";
  details = [];
  ip_address = "";
  user_agent = "";
  created_at = 5;
}

abbrev logged : MemoryStorage
logged = save_audit_log (log "b") (save_audit_log (log "a") new_memory_storage)

abbrev by_workflow : AuditFilter
by_workflow = record {
  workflow_id = "w1";
  action = "";
  from = none;
  to = some 6;
  limit = pos 1;
  offset = pos 1;
}

query_audit_logs-IsMatch_example :
    ((l : AuditLog)
      → Mem l (query_audit_logs logged (some by_workflow))
      → Mem l logged.audit_logs × IsMatch by_workflow l)
    × (0 < 1 → length (query_audit_logs logged (some by_workflow)) ≤ 1)
query_audit_logs-IsMatch_example = query_audit_logs-IsMatch logged by_workflow

abbrev five : List ℕ
five = 0 ∷ 1 ∷ 2 ∷ 3 ∷ 4 ∷ []

page_lem_example :
    (2 < 5 → page (pos 2) (pos 2) five ++ drop (2 + 2) five ≡ drop 2 five)
    × (0 < length (page (pos 2) (pos 2) five))
page_lem_example = page_lem 2 2 five (omega arith) (omega arith)
