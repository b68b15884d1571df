-- ===== src/Examples.antt =====
-- Runs on small inputs, and the theorems about them at such inputs.
mod Memory
mod Runbook
mod Incident
mod Limits
mod Checks
mod Routing
mod Strategies
mod Agentic
mod Tenancy
