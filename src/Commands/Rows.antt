-- ===== src/Commands/Rows.antt =====
-- Rows of the command tables: internal/server/store/commands.go, models.go,
-- adminpasswords.go. Identifiers and times are
-- numbers, texts byte strings. Every row is of the one tenant.
use retune.Base.{Bool, List, Option, Text, false, true, ℕ}
use retune.Release.Version.{ℤ}

pub data Status : Type 0 where
  queued delivered running succeeded failed timed_out expired : Status

pub record Command : Type 0 where
  pub id : ℕ
  pub device_id : ℕ
  pub kind : Text
  pub payload : Text
  pub status : Status
  pub created_by : Text
  pub created_at : ℕ
  pub delivered_at : Option ℕ
  pub started_at : Option ℕ
  pub completed_at : Option ℕ
  pub expires_at : ℕ

pub record CommandResult : Type 0 where
  pub command_id : ℕ
  pub exit_code : ℤ
  pub stdout : Text
  pub stderr : Text
  pub stdout_truncated : Bool
  pub stderr_truncated : Bool
  pub error : Text
  pub started_at : ℕ
  pub finished_at : ℕ

pub data DeviceStatus : Type 0 where
  active retired replaced unenrolled : DeviceStatus

pub record Device : Type 0 where
  pub id : ℕ
  pub hostname : Text
  pub status : DeviceStatus

-- The action is "command.queued" or "command.wipe_queued".
pub data Details : Type 0 where
  -- The device and the type.
  of_command : ℕ → Text → Details
  -- The device, its hostname, the reason, and whether the wipe is protected.
  of_wipe : ℕ → Text → Text → Bool → Details

pub record AuditEntry : Type 0 where
  pub actor : Text
  pub target_id : ℕ
  pub details : Details

pub data PasswordState : Type 0 where
  pending current superseded abandoned : PasswordState

-- A row of local_admin_passwords without the secrets. `current` is the state "active".
pub record AdminPassword : Type 0 where
  pub id : ℕ
  pub device_id : ℕ
  pub account : Text
  pub state : PasswordState
  pub command_id : ℕ
  pub activated_at : Option ℕ

-- `wakes` are the devices notified.
pub record Db : Type 0 where
  pub devices : List Device
  pub commands : List Command
  pub results : List CommandResult
  pub audit : List AuditEntry
  pub passwords : List AdminPassword
  pub wakes : List ℕ

abbrev pub is_queued : Status → Bool
is_queued queued = true
is_queued _ = false

-- status IN ('queued', 'delivered')
abbrev pub is_waiting : Status → Bool
is_waiting queued = true
is_waiting delivered = true
is_waiting _ = false

-- status IN ('queued', 'delivered', 'running')
abbrev pub is_open : Status → Bool
is_open queued = true
is_open delivered = true
is_open running = true
is_open _ = false

abbrev pub is_active : DeviceStatus → Bool
is_active active = true
is_active _ = false
