-- ===== src/Commands.antt =====
-- The command queue: internal/server/commands/service.go over the tables of
-- internal/server/store/commands.go.
pub mod Rows
pub mod Store
pub mod Output
pub mod Payload
pub mod Service
pub mod Queue
pub mod Progress
pub mod Passwords
pub mod Results
pub mod Delivery
mod Examples
