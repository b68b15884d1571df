-- ===== src/Storage/Lookup.antt =====
-- A status update of the in-memory storage is seen wherever the record is.
use forgeiq.Prelude.{
  ap, ℕ, String, ◌≡◌, refl, inl, inr, Result, ok, err, eqb, if◌then◌else◌, Bool-cases,
}
use forgeiq.Storage.{
  Heap, write, WorkflowRecord, MemoryStorage, get_workflow, update_workflow_status,
}

-- The status of the workflow that an id gives, read from a heap.
abbrev pub status_in : Heap → Result String ℕ → Result String String
status_in h (ok p) = ok (h p).status
status_in h (err e) = err e

write-status :
    (h : Heap) (p q : ℕ) (w : WorkflowRecord)
    → (write h p w q).status ≡ (if eqb q p then w.status else (h q).status)
write-status h p q w = elim (Bool-cases (eqb q p)) [ inl t ↦ rw t refl | inr t ↦ rw t refl ]

-- An update of a stored workflow succeeds; then any id that gives the same record, whichever key it
-- was saved under, shows the new status, and any id that gives another record shows its old one.
pub update_workflow_status_seen :
    (m : MemoryStorage) (h : Heap) (i j : String) (p q : ℕ) (status : String) (now : ℕ)
    → get_workflow m i ≡ ok p
    → get_workflow m j ≡ ok q
    → (h' : Heap) × (update_workflow_status m h i status now ≡ ok h')
      × (status_in h' (get_workflow m j) ≡ ok (if eqb q p then status else (h q).status))
unfolding update_workflow_status
update_workflow_status_seen m h i j p q status now e f =
    let w : WorkflowRecord = record (h p) { status = status; updated_at = now } in
    (write h p w, rw e refl, rw f (ap ok (write-status h p q w)))
