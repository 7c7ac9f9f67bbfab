-- ===== src/Commands/Passwords.antt =====
-- Settle of internal/server/laps/service.go, the completion hook that internal/server/app/app.go sets, and
-- SettleAdminPassword of internal/server/store/adminpasswords.go.
pub mod Settled
use retune.Base.{
  Bool, List, Text, any, bytes, false, if◌then◌else◌, map, not, some, text_eq, true, ℕ, ◌&&◌, ◌==◌,
}
use retune.Commands.Rows.{
  AdminPassword, Db, PasswordState, Status, abandoned, current, pending, succeeded, superseded,
}
use retune.Commands.Service.{OnComplete}

abbrev is_pending : PasswordState → Bool
is_pending pending = true
is_pending _ = false

abbrev is_current : PasswordState → Bool
is_current current = true
is_current _ = false

abbrev is_succeeded : Status → Bool
is_succeeded succeeded = true
is_succeeded _ = false

-- The command's password, still pending.
unfoldable pub awaits : ℕ → AdminPassword → Bool
awaits command p = (p.command_id == command) && is_pending p.state

-- `lower` is the lower of the database.
module _ (lower : Text → Text) where
  -- Active, of the settled row's device and account, and not that row.
  unfoldable pub outdated : AdminPassword → AdminPassword → Bool
  outdated settled p =
      (p.device_id == settled.device_id)
      && text_eq (lower p.account) (lower settled.account)
      && is_current p.state
      && not (p.id == settled.id)

  -- Both updates of the statement read the table as it was before them.
  unfoldable pub settle_one : ℕ → ℕ → List AdminPassword → AdminPassword → AdminPassword
  unfolding awaits outdated
  settle_one command at before p =
      if awaits command p
      then record p { state = current; activated_at = some at }
      else if any (λ s. awaits command s && outdated s p) before
      then record p { state = superseded }
      else p

  unfoldable pub abandon_one : ℕ → AdminPassword → AdminPassword
  unfolding awaits
  abandon_one command p = if awaits command p then record p { state = abandoned } else p

  unfoldable pub settle_admin_password : ℕ → Bool → ℕ → Db → Db
  unfolding settle_one abandon_one
  settle_admin_password command false at db = record db {
    passwords = map (abandon_one command) db.passwords;
  }
  settle_admin_password command true at db = record db {
    passwords = map (settle_one command at db.passwords) db.passwords;
  }

  unfoldable pub settle : OnComplete
  unfolding settle_admin_password
  settle c status at db =
      if text_eq c.kind (bytes "rotate_local_admin_password")
      then some (settle_admin_password c.id (is_succeeded status) at db)
      else some db
