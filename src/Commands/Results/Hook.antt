-- ===== src/Commands/Results/Hook.antt =====
-- The completion hook where a result is stored, and what the stored row says.
use retune.Base.{
  ==→eq, Bool-cases, List, Option, [], ap, false, inl, inr, none, refl, some, sym, ℕ, ◌==◌, ◌∙◌,
  ◌∷◌, ◌≡◌, ◌≢◌, ◌⊎◌,
}
use retune.Commands.Rows.{Command, CommandResult, Db, Status}
use retune.Commands.Store.{find_command}
use retune.Commands.Service.{OnComplete, Reported, call_hook, result_row, run_hook}
use retune.Commands.Output.{clamp_output}
use retune.Commands.Progress.Runs.{find_here, find_later}

-- A callback that lets a result be stored leaves the commands and the results as they are.
abbrev pub HookKeeps : Option OnComplete → Type 0
HookKeeps none = Unit
HookKeeps (some hook) =
    (c : Command) (s : Status) (at : ℕ) (db after : Db)
    → hook c s at db ≡ some after
    → (after.commands ≡ db.commands) × (after.results ≡ db.results)

-- The callback refuses the result of the command `id`.
abbrev pub Refuses : Option OnComplete → ℕ → Status → ℕ → Type 0
Refuses none id s at = ⊥
Refuses (some hook) id s at = (c : Command) × (db : Db) × (c.id ≡ id) × (hook c s at db ≡ none)

-- The row says what the device reported; output is stored as clampOutput leaves it.
pub record Reports (id : ℕ) (r : Reported) (row : CommandResult) : Type 0 where
  pub command_is : row.command_id ≡ id
  pub exit_code_is : row.exit_code ≡ r.exit_code
  pub stdout_is : (row.stdout, row.stdout_truncated) ≡ clamp_output r.stdout r.stdout_truncated
  pub stderr_is : (row.stderr, row.stderr_truncated) ≡ clamp_output r.stderr r.stderr_truncated
  pub error_is : row.error ≡ (clamp_output r.error false).0
  pub started_is : row.started_at ≡ r.started_at
  pub finished_is : row.finished_at ≡ r.finished_at

pub result_row-Reports : (id : ℕ) (r : Reported) → Reports id r (result_row id r)
unfolding result_row
result_row-Reports id r = record {
  command_is = refl;
  exit_code_is = refl;
  stdout_is = refl;
  stderr_is = refl;
  error_is = refl;
  started_is = refl;
  finished_is = refl;
}

find_command-id :
    (id : ℕ) (c : Command) (cs : List Command) → find_command id cs ≡ some c → c.id ≡ id
unfolding find_command
find_command-id id c [] f = absurd (cc f)
find_command-id id c (b ∷ cs) f = elim (Bool-cases (b.id == id)) [
  | inl e ↦
      let same : b ≡ c = cc (find_here id b cs e, f) in
      sym (ap {A = Command} (λ x. x.id) same) ∙ ==→eq b.id id e
  | inr e ↦ find_command-id id c cs (sym (find_later id b cs e) ∙ f)
]

-- The tables with the same commands and the same results.
pub record Like (db after : Db) : Type 0 where
  pub commands_are : after.commands ≡ db.commands
  pub results_are : after.results ≡ db.results

-- Where the command has a row, the callback refuses, or leaves the two tables.
pub run_hook-Like :
    (hook : Option OnComplete)
    → HookKeeps hook
    → (id now : ℕ) (s : Status) (db : Db) → find_command id db.commands ≢ none
    → (Refuses hook id s now × (run_hook hook id s now (some db) ≡ none))
      ⊎ ((after : Db) × (run_hook hook id s now (some db) ≡ some after) × Like db after)
run_hook-Like none k id now s db h =
    inr (db, refl, record { commands_are = refl; results_are = refl })
run_hook-Like (some f) k id now s db h = by_row (find_command id db.commands) refl
  where
    by_result :
        (c : Command) (o : Option Db)
        → c.id ≡ id
        → f c s now db ≡ o
        → (Refuses (some f) id s now × (o ≡ none))
          ⊎ ((after : Db) × (o ≡ some after) × Like db after)
    by_result c none e g = inl ((c, db, e, g), refl)
    by_result c (some after) e g =
        let kept = k c s now db after g in
        inr (after, refl, record { commands_are = kept.0; results_are = kept.1 })

    by_row :
        (o : Option Command)
        → find_command id db.commands ≡ o
        → (Refuses (some f) id s now × (call_hook (some f) (some f) o s now db ≡ none))
          ⊎ ((after : Db) × (call_hook (some f) (some f) o s now db ≡ some after) × Like db after)
    by_row none e = absurd (h e)
    by_row (some c) e = by_result c (f c s now db) (find_command-id id c db.commands e) refl
