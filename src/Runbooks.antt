-- ===== src/Runbooks.antt =====
-- internal/runbooks: the validation of runbooks, and the gates of diagnostic steps that the runbook
-- workflow evaluates.
pub mod Gate
pub mod Gates
pub mod Validate
