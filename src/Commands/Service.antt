-- ===== src/Commands/Service.antt =====
-- Deliver, Start, Complete and Get of internal/server/commands/service.go. A transaction that returns an
-- error leaves the tables as they were. The database itself does not fail.
use retune.Base.{
  Bool, List, Option, Text, [], bytes, false, if◌then◌else◌, map, none, some, text_eq, true, ℕ,
  ◌==◌, ◌∷◌,
}
use retune.Release.Version.{ℤ}
use retune.Commands.Rows.{
  Command, CommandResult, Db, Status, failed, is_queued, succeeded, timed_out,
}
use retune.Commands.Store.{
  complete_command, expire_commands, find_command, find_result, insert_command_result,
  mark_command_running, mark_commands_delivered, pending_commands,
}
use retune.Commands.Output.{clamp_output}

pub data Error : Type 0 where
  bad_request not_found device_not_active : Error
  -- What a callback or a constraint of the tables returned.
  refused : Error

-- protocol.Command
pub record Order : Type 0 where
  pub id : ℕ
  pub kind : Text
  pub payload : Text

abbrev pub order_of : Command → Order
order_of c = record { id = c.id; kind = c.kind; payload = c.payload }

-- The loop over what is pending: the queued ones, and what is handed out.
unfoldable pub fresh : List Command → List ℕ
fresh [] = []
fresh (c ∷ cs) = let rest = fresh cs in if is_queued c.status then c.id ∷ rest else rest

unfoldable pub deliver : ℕ → ℕ → Db → List Order × Db
unfolding expire_commands pending_commands mark_commands_delivered fresh
deliver now device db =
    let current = expire_commands now db in
    let pending = pending_commands device current in
    (map order_of pending, mark_commands_delivered (fresh pending) now current)

-- Nothing was changed: another device's command is as good as none.
abbrev pub unchanged : ℕ → Option Command → Option Error
unchanged device none = some not_found
unchanged device (some c) = if c.device_id == device then none else some not_found

abbrev pub started : ℕ → ℕ → Db → Bool × Db → Option Error × Db
started device id db (true, after) = (none, after)
started device id db (false, after) = (unchanged device (find_command id db.commands), db)

-- `none` is nil.
unfoldable pub start : ℕ → ℕ → ℕ → Db → Option Error × Db
unfolding mark_command_running
start now device id db = started device id db (mark_command_running id device now db)

-- protocol.CommandResult
pub record Reported : Type 0 where
  pub status : Text
  pub exit_code : ℤ
  pub stdout : Text
  pub stderr : Text
  pub stdout_truncated : Bool
  pub stderr_truncated : Bool
  pub error : Text
  pub started_at : ℕ
  pub finished_at : ℕ

unfoldable pub result_status : Text → Option Status
result_status s =
    if text_eq s (bytes "succeeded")
    then some succeeded
    else if text_eq s (bytes "failed")
    then some failed
    else if text_eq s (bytes "timed_out")
    then some timed_out
    else none

unfoldable pub result_row : ℕ → Reported → CommandResult
unfolding clamp_output
result_row id r = record {
  command_id = id;
  exit_code = r.exit_code;
  stdout = (clamp_output r.stdout r.stdout_truncated).0;
  stderr = (clamp_output r.stderr r.stderr_truncated).0;
  stdout_truncated = (clamp_output r.stdout r.stdout_truncated).1;
  stderr_truncated = (clamp_output r.stderr r.stderr_truncated).1;
  error = (clamp_output r.error false).0;
  started_at = r.started_at;
  finished_at = r.finished_at;
}

-- Service.OnComplete: what runs in the transaction that records a result. `none` is an error.
abbrev pub OnComplete : Type 0
OnComplete = Command → Status → ℕ → Db → Option Db

-- The transaction began with `db`; an error brings it back.
abbrev pub commit : Db → Option Db → Option Error × Db
commit db none = (some refused, db)
commit db (some after) = (none, after)

module _ (on_complete : Option OnComplete) where
  abbrev pub call_hook : Option OnComplete → Option Command → Status → ℕ → Db → Option Db
  call_hook none c status at db = some db
  call_hook (some hook) none status at db = none
  call_hook (some hook) (some c) status at db = hook c status at db

  abbrev pub run_hook : ℕ → Status → ℕ → Option Db → Option Db
  run_hook id status at none = none
  run_hook id status at (some db) = call_hook on_complete (find_command id db.commands) status at db

  abbrev pub completed : ℕ → ℕ → ℕ → Status → Reported → Db → Bool × Db → Option Error × Db
  completed now device id status r db (false, after) =
      (unchanged device (find_command id db.commands), db)
  completed now device id status r db (true, after) =
      commit db (run_hook id status now (insert_command_result (result_row id r) after))

  abbrev pub with_status : ℕ → ℕ → ℕ → Reported → Db → Option Status → Option Error × Db
  with_status now device id r db none = (some bad_request, db)
  with_status now device id r db (some status) =
      completed now device id status r db (complete_command id device status now db)

  unfoldable pub complete : ℕ → ℕ → ℕ → Reported → Db → Option Error × Db
  unfolding result_status
  complete now device id r db = with_status now device id r db (result_status r.status)

abbrev read_back : Option Command → Option CommandResult → Option (Command × Option CommandResult)
read_back none r = none
read_back (some c) r = some (c, r)

-- `none` is ErrNotFound.
unfoldable pub get : ℕ → Db → Option (Command × Option CommandResult)
unfolding find_command find_result
get id db = read_back (find_command id db.commands) (find_result id db.results)
