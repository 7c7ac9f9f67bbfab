-- ===== src/Commands/Progress/Runs.antt =====
-- Runs of the service: any sequence of its steps.
use retune.Base.{
  Bool, Bool-cases, List, Option, Text, [], ap, bytes, false, if◌then◌else◌, inl, inr, none, refl,
  some, subst, sym, text_eq, true, ℕ, ◌==◌, ◌∙◌, ◌∷◌, ◌≡◌,
}
use retune.Commands.Rows.{Command, CommandResult, Db, Status, failed, succeeded, timed_out}
use retune.Commands.Store.{
  complete_command, find_command, find_result, insert_command_result, insert_unless, as_stored,
}
use retune.Commands.Service.{
  OnComplete, Reported, call_hook, commit, complete, completed, deliver, result_row, result_status,
  run_hook, start, with_status, fresh,
}
use retune.Commands.Queue.{QueueOptions, Setting, done, queue}
use retune.Commands.Queue.Placed.{queue-Placed}
use retune.Commands.Progress.{
  Advance, Evolves, Evolves-append, Evolves-refl, Evolves-trans, complete_command-Evolves,
  deliver-Evolves, rank, start-Evolves,
}

-- One call; the identifier of a queued command is new.
pub data Step (setting : Setting) (hook : Option OnComplete) : Db → Db → Type 0 where
  delivers : (now device : ℕ) (db : Db) → Step setting hook db (deliver now device db).1
  starts : (now device id : ℕ) (db : Db) → Step setting hook db (start now device id db).1
  completes :
      (now device id : ℕ) (r : Reported) (db : Db)
      → Step setting hook db (complete hook now device id r db).1
  queues :
      (now id : ℕ) (o : QueueOptions) (db after : Db) (c : Command)
      → find_command id db.commands ≡ none
      → queue setting now id o false db ≡ done (some (c, after))
      → Step setting hook db after

pub data Run (setting : Setting) (hook : Option OnComplete) : Db → Db → Type 0 where
  nothing : (db : Db) → Run setting hook db db
  next :
      (db mid after : Db)
      → Step setting hook db mid
      → Run setting hook mid after
      → Run setting hook db after

-- What the callback does to the command table is itself an evolution of it.
abbrev pub HookEvolves : Option OnComplete → Type 0
HookEvolves none = Unit
HookEvolves (some hook) =
    (c : Command) (s : Status) (at : ℕ) (db after : Db)
    → hook c s at db ≡ some after
    → Evolves db.commands after.commands

pub find_here :
    (id : ℕ) (d : Command) (ds : List Command)
    → (d.id == id) ≡ true
    → find_command id (d ∷ ds) ≡ some d
unfolding find_command
find_here id d ds h = rw h refl

pub find_later :
    (id : ℕ) (d : Command) (ds : List Command)
    → (d.id == id) ≡ false
    → find_command id (d ∷ ds) ≡ find_command id ds
unfolding find_command
find_later id d ds h = rw h refl

find_nothing : (id : ℕ) (c : Command) → find_command id [] ≡ some c → ⊥
unfolding find_command
find_nothing id c f = cc f

same_test : (b d : Command) (id : ℕ) (t : Bool) → Advance b d → (b.id == id) ≡ t → (d.id == id) ≡ t
same_test b d id t a e = subst (λ i. (i == id) ≡ t) (sym a.same_id) e

pub find_command-Evolves :
    (id : ℕ) (c : Command) (cs ds : List Command)
    → Evolves cs ds
    → find_command id cs ≡ some c
    → (d : Command) × (find_command id ds ≡ some d) × Advance c d
find_command-Evolves id c [] ds h f = absurd (find_nothing id c f)
find_command-Evolves id c (b ∷ cs) [] h f = absurd h
find_command-Evolves id c (b ∷ cs) (d ∷ ds) h f = elim (Bool-cases (b.id == id)) [
  | inl e ↦
      let same : b ≡ c = cc (find_here id b cs e, f) in
      (d, find_here id d ds (same_test b d id true h.0 e), subst (λ x. Advance x d) same h.0)
  | inr e ↦
      let (x, g, a) = find_command-Evolves id c cs ds h.1 (sym (find_later id b cs e) ∙ f) in
      (x, find_later id d ds (same_test b d id false h.0 e) ∙ g, a)
]

pub result_status-rank : (t : Text) (s : Status) → result_status t ≡ some s → rank s ≡ 3
unfolding result_status
result_status-rank t s h =
    chosen (text_eq t (bytes "succeeded")) (text_eq t (bytes "failed"))
      (text_eq t (bytes "timed_out")) h
  where
    chosen :
        (a b c : Bool)
        → (if a
            then some succeeded
            else if b
            then some failed
            else if c
            then some timed_out
            else none)
          ≡ some s
        → rank s ≡ 3
    chosen true b c e = let same : succeeded ≡ s = cc e in ap rank (sym same)
    chosen false true c e = let same : failed ≡ s = cc e in ap rank (sym same)
    chosen false false true e = let same : timed_out ≡ s = cc e in ap rank (sym same)
    chosen false false false e = absurd (cc e)

module _ (setting : Setting) (hook : Option OnComplete) (keeps : HookEvolves hook) where
  call_hook-Evolves :
      (h : Option OnComplete)
      → HookEvolves h
      → (c : Option Command) (s : Status) (at : ℕ) (db after : Db)
      → call_hook hook h c s at db ≡ some after
      → Evolves db.commands after.commands
  call_hook-Evolves none k c s at db after e =
      let same : db ≡ after = cc e in
      subst {A = Db} (λ x. Evolves db.commands x.commands) same (Evolves-refl db.commands)
  call_hook-Evolves (some f) k none s at db after e = absurd (cc e)
  call_hook-Evolves (some f) k (some c) s at db after e = k c s at db after e

  run_hook-Evolves :
      (id at : ℕ) (s : Status) (stored : Option Db) (cs : List Command) (after : Db)
      → ((x : Db) → stored ≡ some x → Evolves cs x.commands)
      → run_hook hook id s at stored ≡ some after
      → Evolves cs after.commands
  run_hook-Evolves id at s none cs after h e = absurd (cc e)
  run_hook-Evolves id at s (some db) cs after h e =
      Evolves-trans cs db.commands after.commands (h db refl)
        (call_hook-Evolves hook keeps (find_command id db.commands) s at db after e)

  commit-Evolves :
      (db : Db) (o : Option Db)
      → ((x : Db) → o ≡ some x → Evolves db.commands x.commands)
      → Evolves db.commands (commit db o).1.commands
  commit-Evolves db none h = Evolves-refl db.commands
  commit-Evolves db (some x) h = h x refl

  insert_command_result-commands :
      (r : CommandResult) (db after : Db)
      → insert_command_result r db ≡ some after
      → after.commands ≡ db.commands
  unfolding insert_command_result
  insert_command_result-commands r db after e = inserted (find_result r.command_id db.results) e
    where
      inserted :
          (o : Option CommandResult)
          → insert_unless o r db ≡ some after
          → after.commands ≡ db.commands
      inserted none e =
          let same : record db { results = r ∷ db.results } ≡ after = cc e in
          sym (ap {A = Db} (λ x. x.commands) same)
      inserted (some o) e = absurd (cc e)

  completed-Evolves :
      (now device id : ℕ) (s : Status) (r : Reported) (db : Db) (u : Bool × Db)
      → Evolves db.commands u.1.commands
      → Evolves db.commands (completed hook now device id s r db u).1.commands
  completed-Evolves now device id s r db (false, after) h = Evolves-refl db.commands
  completed-Evolves now device id s r db (true, after) h =
      commit-Evolves db (run_hook hook id s now (insert_command_result (result_row id r) after))
        (λ x e.
          run_hook-Evolves id now s (insert_command_result (result_row id r) after) db.commands x
            (λ y i.
              subst (Evolves db.commands)
                (sym (insert_command_result-commands (result_row id r) after y i)) h)
            e)

  complete-Evolves :
      (now device id : ℕ) (r : Reported) (db : Db)
      → Evolves db.commands (complete hook now device id r db).1.commands
  unfolding complete
  complete-Evolves now device id r db = with-Evolves (result_status r.status) refl
    where
      with-Evolves :
          (o : Option Status)
          → result_status r.status ≡ o
          → Evolves db.commands (with_status hook now device id r db o).1.commands
      with-Evolves none e = Evolves-refl db.commands
      with-Evolves (some s) e =
          completed-Evolves now device id s r db (complete_command id device s now db)
            (complete_command-Evolves id device now s db (result_status-rank r.status s e))

  queue-Evolves :
      (now id : ℕ) (o : QueueOptions) (db after : Db) (c : Command)
      → queue setting now id o false db ≡ done (some (c, after))
      → Evolves db.commands after.commands
  queue-Evolves now id o db after c h =
      subst (Evolves db.commands) (sym (queue-Placed setting now id o db after c h).commands_are)
        (Evolves-append db.commands (as_stored setting.jsonb c ∷ []))

  Step-Evolves : (db after : Db) → Step setting hook db after → Evolves db.commands after.commands
  Step-Evolves db after (delivers now device _) = deliver-Evolves now device db
  Step-Evolves db after (starts now device id _) = start-Evolves now device id db
  Step-Evolves db after (completes now device id r _) = complete-Evolves now device id r db
  Step-Evolves db after (queues now id o _ _ c fresh h) = queue-Evolves now id o db after c h

  run-Evolves : (db after : Db) → Run setting hook db after → Evolves db.commands after.commands
  run-Evolves db after (nothing _) = Evolves-refl db.commands
  run-Evolves db after (next _ mid _ s r) =
      Evolves-trans db.commands mid.commands after.commands (Step-Evolves db mid s)
        (run-Evolves mid after r)

  -- In every run of Deliver, Start, Complete and Queue, a stored command stays: its device, type,
  -- payload and expiry are kept, its status never goes back in the order queued, delivered, running,
  -- ended, and once it has ended nothing of it changes; provided that what OnComplete does to the
  -- command table is such an evolution too.
  pub run-Advance :
      (db after : Db) (id : ℕ) (c : Command)
      → Run setting hook db after
      → find_command id db.commands ≡ some c
      → (d : Command) × (find_command id after.commands ≡ some d) × Advance c d
  run-Advance db after id c r f =
      find_command-Evolves id c db.commands after.commands (run-Evolves db after r) f
