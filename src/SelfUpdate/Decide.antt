-- ===== src/SelfUpdate/Decide.antt =====
-- The pure rules of internal/agent/selfupdate/decide.go.
pub mod Rules
mod Examples
use retune.Base.{ℕ, String, Bool, true, false, not, ◌&&◌, ltb, ◌==◌, str_eq, if◌then◌else◌}
use retune.SelfUpdate.Record.{Record, Status, pending, rolled_back, refused}

pub data Action : Type 0 where
  action_none action_update : Action

pub record Decision : Type 0 where
  pub action : Action
  pub reason : String
  pub report : Bool

abbrev quiet : String → Decision
quiet why = record { action = action_none; reason = why; report = false }

abbrev loud : String → Decision
loud why = record { action = action_none; reason = why; report = true }

abbrev update : Decision
update = record { action = action_update; reason = ""; report = false }

-- The switch on the last attempt's status, for an attempt at the assigned version.
by_attempt : Status → Decision
by_attempt rolled_back = quiet "this version was already tried here and rolled back"
by_attempt pending = quiet "an update to this version is already under way"
by_attempt _ = update

pub decide : String → String → Bool → ℕ → Record → Decision
unfolding by_attempt
decide running assigned injected trusted attempted =
    if not injected
    then loud "this build has no injected version, so it will not self-update"
    else if str_eq assigned ""
    then quiet "the assigned build has no version"
    else if str_eq running assigned
    then quiet "this device is already running the assigned version"
    else if trusted == 0
    then loud "this build has no trusted release keys, so it will not self-update"
    else if str_eq attempted.to_version assigned
    then by_attempt attempted.status
    else update

abbrev is_refused : Status → Bool
is_refused refused = true
is_refused _ = false

pub already_refused : Record → Bool → String → Bool
already_refused rec found item_id = found && (is_refused rec.status && str_eq rec.item_id item_id)

pub data ReconcileAction : Type 0 where
  reconcile_none reconcile_report reconcile_abandon : ReconcileAction

by_status : Status → Record → String → ℕ → ReconcileAction
by_status rolled_back rec running now = if rec.reported then reconcile_none else reconcile_report
by_status pending rec running now =
    if str_eq rec.to_version running
    then reconcile_none
    else if not (ltb now rec.deadline)
    then reconcile_abandon
    else reconcile_none
by_status _ rec running now = reconcile_none

pub reconcile : Record → Bool → String → ℕ → ReconcileAction
unfolding by_status
reconcile rec found running now =
    if not found then reconcile_none else by_status rec.status rec running now
