-- ===== src/Temporal.antt =====
-- The durable workflows of internal/controlplane/temporal.
pub mod Memory
pub mod Runbook
pub mod Incident
pub mod Iterative
pub mod Activities
pub mod Agentic
