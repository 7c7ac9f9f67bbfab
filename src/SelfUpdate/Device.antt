-- ===== src/SelfUpdate/Device.antt =====
-- What a supervisor reaches: the update record on disk (ReadRecord, WriteRecord and RemoveRecord of
-- internal/agent/selfupdate/record.go), the service behind ServiceController (controller.go, with Stop
-- as in controller_windows.go) and the folder of staged builds. Any call may fail: a script says how
-- each one ends.
pub mod Ensures
pub mod Keeps
use retune.Base.{
  Bool, List, Option, String, none, some, ◌++◌, [], false, if◌then◌else◌, str_append, str_eq, true,
  ◌∷◌,
}
use retune.SelfUpdate.Record.{Record}

pub record Service : Type 0 where
  pub bin_path : String
  pub args : List String
  pub running : Bool
  pub recovery : Bool

-- An entry of the folder of staged builds, and whether it is itself a folder.
pub record Entry : Type 0 where
  pub name : String
  pub is_dir : Bool

pub record Device : Type 0 where
  pub file : Option Record
  pub service : Service
  pub builds : List Entry

-- How a call ends. A failed call to the service may have taken effect all the same.
pub data Outcome : Type 0 where
  done : Outcome
  failed : Bool → String → Outcome

-- The calls to come end as the script says, and those after it succeed.
pub record World : Type 0 where
  pub device : Device
  pub script : List Outcome

abbrev pub Act {ℓ} : Type ℓ → Type ℓ
Act A = World → A × World

-- A Go `error`: `none` is nil.
abbrev pub Err : Type 0
Err = Option String

module _ {ℓ} {A : Type ℓ} where
  abbrev pub pure : A → Act A
  pure a w = (a, w)

  abbrev pub branch : Err → (String → Act A) → Act A → Act A
  branch (some e) on_error next = on_error e
  branch none on_error next = next

  -- `if err := m; err != nil { on_error(err) }; next`
  unfoldable pub try : Act Err → (String → Act A) → Act A → Act A
  try m on_error next w = let (e, w') = m w in branch e on_error next w'

  -- `m`, its error only logged.
  unfoldable pub ignore : Act Err → Act A → Act A
  ignore m next w = next (m w).1

-- What the file system shows at this point.
unfoldable pub look {ℓ} : {A : Type ℓ} → (Device → Act A) → Act A
look f w = f w.device w

unfoldable pub bind {ℓ κ} : {A : Type ℓ} {B : Type κ} → Act A → (A → Act B) → Act B
bind m f w = let (a, w') = m w in f a w'

infixl 10 ◌>>◌
abbrev pub ◌>>◌ : Act Err → Act Err → Act Err
m >> next = try m (λ e. pure (some e)) next

-- `fmt.Errorf(what + ": %w", err)`
abbrev pub wrap : String → Act Err → Act Err
wrap what m = try m (λ e. pure (some (str_append what e))) (pure none)

abbrev answer_effect : Bool → (Device → Device) → Device → Device
answer_effect true effect d = effect d
answer_effect false effect d = d

-- A call with an effect on the device, ended by the script.
answer : List Outcome → (Device → Device) → (Device → Device) → Device → Err × World
answer [] effect partial d = (none, record { device = effect d; script = [] })
answer (done ∷ rest) effect partial d = (none, record { device = effect d; script = rest })
answer (failed took e ∷ rest) effect partial d =
    (some e, record { device = answer_effect took partial d; script = rest })

pub call : (Device → Device) → Act Err
unfolding answer
call effect w = answer w.script effect effect w.device

-- A call that changes nothing when it fails: a file is written aside and renamed.
pub atomic : (Device → Device) → Act Err
unfolding answer
atomic effect w = answer w.script effect (λ d. d) w.device

unfoldable pub write_record : Record → Act Err
unfolding atomic
write_record rec = atomic (λ d. record d { file = some rec })

-- Removing a record that is not there is no error.
unfoldable pub remove_record : Act Err
unfolding atomic
remove_record = atomic (λ d. record d { file = none })

-- ReadRecord's error; the record itself is read off the device.
unfoldable pub read_record : Act Err
unfolding atomic
read_record = atomic (λ d. d)

-- A context, which is done once it is cancelled. `without_cancel` is context.WithoutCancel.
pub data Ctx : Type 0 where
  live cancelled : Ctx

abbrev pub without_cancel : Ctx → Ctx
without_cancel ctx = live

abbrev pub stopped : Device → Device
stopped d = record d { service = record d.service { running = false } }

-- Stop asks a running service to stop and waits until it does or the context is done: on a done context
-- it has asked and returns the context's error. On a service that does not run it does nothing.
unfoldable pub stop : Ctx → Act Err
unfolding call look try
stop live = call stopped
stop cancelled = look (λ d.
    if d.service.running then call stopped >> pure (some "context canceled") else call stopped)

unfoldable pub set_bin_path : String → List String → Act Err
unfolding call
set_bin_path path args =
    call (λ d. record d { service = record d.service { bin_path = path; args = args } })

unfoldable pub set_recovery_actions : Act Err
unfolding call
set_recovery_actions = call (λ d. record d { service = record d.service { recovery = true } })

unfoldable pub start : Act Err
unfolding call
start = call (λ d. record d { service = record d.service { running = true } })

-- Config, of which only the path is used here: `none` when it fails.
unfoldable pub config : Act (Option String)
unfolding atomic
config w =
    let (e, w') = atomic (λ d. d) w in
    (elim e [ none ↦ some w'.device.service.bin_path | some _ ↦ none ], w')

-- os.ReadDir of the builds.
unfoldable pub read_builds : Act Err
unfolding atomic
read_builds = atomic (λ d. d)

unfoldable pub without : String → List Entry → List Entry
without name [] = []
without name (e ∷ es) = let rest = without name es in if str_eq e.name name then rest else e ∷ rest

-- os.RemoveAll of one build; what a failed call left of it is still listed.
unfoldable pub remove_build : String → Act Err
unfolding atomic without
remove_build name = atomic (λ d. record d { builds = without name d.builds })
