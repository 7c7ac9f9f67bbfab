-- ===== src/SelfUpdate.antt =====
-- The agent's self-update: internal/agent/selfupdate. `Record` and `Decide` are record.go and
-- decide.go; `Device` has what the supervisor reaches outside itself, and `Supervise` is supervise.go.
pub mod Record
pub mod Decide
pub mod Device
pub mod Supervise
