-- ===== src/Policy.antt =====
-- Configuration profiles on the agent: internal/agent/policy. `Plan` is engine.go; the other
-- modules are reconcile.go.
pub mod Plan
pub mod Agent
pub mod Apply
pub mod Profiles
pub mod Reconcile
mod Examples
