-- ===== src/Commands/Store.antt =====
-- The queries of internal/server/store/commands.go, and GetDevice of internal/server/store/devices.go.
use retune.Base.{
  Bool, List, Option, Text, [], any, false, if◌then◌else◌, leb, ltb, none, some, ℕ, ◌&&◌, ◌++◌,
  ◌==◌, ◌||◌, ◌∷◌,
}
use retune.Commands.Rows.{
  Command, CommandResult, Db, Device, Status, delivered, expired, is_open, is_queued, is_waiting,
  running,
}

-- UPDATE ... SET set WHERE test
unfoldable pub update_where : (Command → Bool) → (Command → Command) → List Command → List Command
update_where test set [] = []
update_where test set (c ∷ cs) = (if test c then set c else c) ∷ update_where test set cs

unfoldable pub select : (Command → Bool) → List Command → List Command
select test [] = []
select test (c ∷ cs) = let rest = select test cs in if test c then c ∷ rest else rest

-- ORDER BY created_at, id
unfoldable pub before : Command → Command → Bool
before c d = ltb c.created_at d.created_at || ((c.created_at == d.created_at) && leb c.id d.id)

unfoldable pub insert : Command → List Command → List Command
unfolding before
insert c [] = c ∷ []
insert c (d ∷ ds) = let later = insert c ds in if before c d then c ∷ d ∷ ds else d ∷ later

unfoldable pub in_order : List Command → List Command
unfolding insert
in_order [] = []
in_order (c ∷ cs) = insert c (in_order cs)

-- The row that the table holds: a jsonb column does not keep the bytes of the payload.
abbrev pub as_stored : (Text → Text) → Command → Command
as_stored jsonb c = record c { payload = jsonb c.payload }

unfoldable pub create_command : (Text → Text) → Command → Db → Db
create_command jsonb c db = record db {
  commands = db.commands ++ as_stored jsonb c ∷ [];
  wakes = c.device_id ∷ db.wakes;
}

unfoldable pub find_command : ℕ → List Command → Option Command
find_command id [] = none
find_command id (c ∷ cs) = if c.id == id then some c else find_command id cs

unfoldable pub find_device : ℕ → List Device → Option Device
find_device id [] = none
find_device id (d ∷ ds) = if d.id == id then some d else find_device id ds

unfoldable pub find_result : ℕ → List CommandResult → Option CommandResult
find_result id [] = none
find_result id (r ∷ rs) = if r.command_id == id then some r else find_result id rs

unfoldable pub lapsed : ℕ → Command → Bool
lapsed now c = is_waiting c.status && leb c.expires_at now

abbrev pub expire : ℕ → Command → Command
expire now c = record c { status = expired; completed_at = some now }

unfoldable pub expire_commands : ℕ → Db → Db
unfolding update_where lapsed
expire_commands now db = record db { commands = update_where (lapsed now) (expire now) db.commands }

unfoldable pub owed_to : ℕ → Command → Bool
owed_to device c = (c.device_id == device) && is_open c.status

unfoldable pub pending_commands : ℕ → Db → List Command
unfolding in_order select owed_to
pending_commands device db = in_order (select (owed_to device) db.commands)

unfoldable pub one_of : List ℕ → ℕ → Bool
one_of [] id = false
one_of (i ∷ ids) id = (i == id) || one_of ids id

abbrev pub deliver_row : ℕ → Command → Command
deliver_row at c = record c { status = delivered; delivered_at = some at }

unfoldable pub undelivered : List ℕ → Command → Bool
unfolding one_of
undelivered ids c = one_of ids c.id && is_queued c.status

unfoldable pub mark_commands_delivered : List ℕ → ℕ → Db → Db
unfolding update_where undelivered
mark_commands_delivered [] at db = db
mark_commands_delivered (i ∷ ids) at db = record db {
  commands = update_where (undelivered (i ∷ ids)) (deliver_row at) db.commands;
}

unfoldable pub startable : ℕ → ℕ → Command → Bool
startable id device c = (c.id == id) && (c.device_id == device) && is_waiting c.status

abbrev pub start_row : ℕ → Command → Command
start_row at c = record c { status = running; started_at = some at }

-- The test says whether a row was changed.
unfoldable pub mark_command_running : ℕ → ℕ → ℕ → Db → Bool × Db
unfolding update_where startable
mark_command_running id device at db = (
  any (startable id device) db.commands,
  record db { commands = update_where (startable id device) (start_row at) db.commands },
)

unfoldable pub completable : ℕ → ℕ → Command → Bool
completable id device c = (c.id == id) && (c.device_id == device) && is_open c.status

abbrev pub complete_row : Status → ℕ → Command → Command
complete_row status at c = record c { status = status; completed_at = some at }

unfoldable pub complete_command : ℕ → ℕ → Status → ℕ → Db → Bool × Db
unfolding update_where completable
complete_command id device status at db = (
  any (completable id device) db.commands,
  record db {
    commands = update_where (completable id device) (complete_row status at) db.commands;
  },
)

abbrev pub insert_unless : Option CommandResult → CommandResult → Db → Option Db
insert_unless none r db = some (record db { results = r ∷ db.results })
insert_unless (some other) r db = none

-- command_id is the primary key: a second row for it is an error.
unfoldable pub insert_command_result : CommandResult → Db → Option Db
unfolding find_result
insert_command_result r db = insert_unless (find_result r.command_id db.results) r db
