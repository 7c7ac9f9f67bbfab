-- ===== src/Rollout.antt =====
-- Automatic agent rollouts: internal/server/releasefeed/rollout.go over the tables of
-- internal/server/store. `Rows` and `Db` are the tables and the queries, `Moves`, `Pilot` and `Engine`
-- the rollout.
pub mod Rows
pub mod Db
pub mod Moves
pub mod Pilot
pub mod Engine
pub mod Identity
pub mod Gate
pub mod Builds
pub mod Spared
mod Examples
