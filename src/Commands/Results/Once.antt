-- ===== src/Commands/Results/Once.antt =====
-- Complete stores a result once.
use retune.Base.{
  Bool-cases, Option, any, ap, arith, false, inl, inr, none, refl, some, subst, sym, true, ℕ, ◌∙◌,
  ◌∷◌, ◌≡◌, ◌≢◌, ◌⊎◌,
}
use retune.Commands.Rows.{Command, CommandResult, Db, Status, is_open}
use retune.Commands.Store.{
  completable, complete_command, complete_row, find_command, find_result, insert_command_result,
}
use retune.Commands.Service.{
  Error, OnComplete, Reported, commit, complete, completed, refused, result_row, result_status,
  run_hook, with_status,
}
use retune.Commands.Delivery.{Stored}
use retune.Commands.Queue.{Setting}
use retune.Commands.Progress.{complete_row-Advance, rank}
use retune.Commands.Progress.Runs.{
  Run, Step, completes, delivers, next, nothing, queues, result_status-rank, starts,
}
use retune.Commands.Results.{
  Recorded, Recorded-Tracks, Stored-any, Tracks, Tracks-refl, absent, any-Stored, completable_iff,
  deliver-Recorded, queue-Recorded, start-Recorded, update-Tracks,
}
use retune.Commands.Results.Ended.{ended, no_longer, store-Recorded}
use retune.Commands.Results.Hook.{
  HookKeeps, Like, Refuses, Reports, result_row-Reports, run_hook-Like,
}

-- The insertion succeeds where there is no result.
inserted :
    (row : CommandResult) (db : Db)
    → find_result row.command_id db.results ≡ none
    → insert_command_result row db ≡ some (record db { results = row ∷ db.results })
unfolding insert_command_result
inserted row db h = rw h refl

abbrev completed_db : ℕ → ℕ → ℕ → Status → Reported → Db → Db
completed_db now device id s r db = record (complete_command id device s now db).1 {
  results = result_row id r ∷ db.results;
}

result_row-id : (id : ℕ) (r : Reported) → (result_row id r).command_id ≡ id
unfolding result_row
result_row-id id r = refl

-- An open command of the device still has a row when it is completed.
still_found :
    (now device id : ℕ) (s : Status) (r : Reported) (db : Db)
    → rank s ≡ 3
    → any (completable id device) db.commands ≡ true
    → find_command id (completed_db now device id s r db).commands ≢ none
unfolding complete_command
still_found now device id s r db e found_one h =
    let test = completable id device in
    let (x, stored, hit) = any-Stored test db.commands found_one in
    let (x_id, _, _) = (completable_iff id device x).0 hit in
    let t =
      update-Tracks test (complete_row s now) (λ c. complete_row-Advance id device now s c e)
        db.commands in
    let (d, k, a) = t.forth x stored in absent id _ d h k (a.same_id ∙ x_id)

-- Under the invariant only the callback refuses the result of an open command of the device.
complete_open :
    (hook : Option OnComplete)
    → HookKeeps hook
    → (now device id : ℕ) (s : Status) (r : Reported) (db : Db) → Recorded db
    → result_status r.status ≡ some s
    → any (completable id device) db.commands ≡ true
    → (Refuses hook id s now × (complete hook now device id r db ≡ (some refused, db)))
      ⊎ ((after : Db) × (complete hook now device id r db ≡ (none, after))
          × Like (completed_db now device id s r db) after)
unfolding complete complete_command
complete_open hook keeps now device id s r db w e found_one =
    let upd = (complete_command id device s now db).1 in
    let (x, stored, hit) = any-Stored (completable id device) db.commands found_one in
    let (x_id, _, x_open) = (completable_iff id device x).0 hit in
    let free : find_result (result_row id r).command_id db.results ≡ none =
      subst (λ i. find_result i db.results ≡ none) (x_id ∙ sym (result_row-id id r))
        (w.open_free x stored x_open) in
    let steps =
      ap (with_status hook now device id r db) e
      ∙ ap (λ b. completed hook now device id s r db (b, upd)) found_one
      ∙ ap (λ o. commit db (run_hook hook id s now o)) (inserted (result_row id r) upd free) in
    elim (run_hook-Like hook keeps id now s (completed_db now device id s r db)
      (still_found now device id s r db (result_status-rank r.status s e) found_one)) [
        | inl h ↦ inl (h.0, steps ∙ ap (commit db) h.1)
        | inr h ↦ inr (h.0, steps ∙ ap (commit db) h.1, h.2)
      ]

-- Without an open command of the device, Complete changes nothing.
complete-none :
    (hook : Option OnComplete) (now device id : ℕ) (r : Reported) (db : Db)
    → any (completable id device) db.commands ≡ false
    → (complete hook now device id r db).1 ≡ db
unfolding complete complete_command
complete-none hook now device id r db h = by_status (result_status r.status)
  where
    by_status : (o : Option Status) → (with_status hook now device id r db o).1 ≡ db
    by_status none = refl
    by_status (some s) =
        ap
          (λ b.
            (completed hook now device id s r db (b, (complete_command id device s now db).1)).1)
          h

nothing_open :
    (now device id : ℕ) (s : Status) (r : Reported) (db : Db)
    → rank s ≡ 3
    → any (completable id device) db.commands ≡ true
    → Recorded db
    → any (completable id device) (completed_db now device id s r db).commands ≡ false
unfolding complete_command
nothing_open now device id s r db t found_one w =
    elim (Bool-cases (any (completable id device) (completed_db now device id s r db).commands)) [
      | inl e ↦
          let (x, k, hit) = any-Stored (completable id device) _ e in
          let (x_id, _, x_open) = (completable_iff id device x).0 hit in
          absurd (no_longer x.status (ended now device id s db t found_one w x k x_id) x_open)
      | inr e ↦ e
    ]

find_result-completed :
    (now device id : ℕ) (s : Status) (r : Reported) (db : Db)
    → find_result id (completed_db now device id s r db).results ≡ some (result_row id r)
unfolding find_result result_row
find_result-completed now device id s r db = ground arith

Like-Recorded : (db after : Db) → Like db after → Recorded db → Recorded after
Like-Recorded db after h w =
    Recorded-Tracks db after w
      (subst (Tracks db.commands) (sym h.commands_are) (Tracks-refl db.commands)) h.results_are

complete-Recorded :
    (hook : Option OnComplete)
    → HookKeeps hook
    → (now device id : ℕ) (r : Reported) (db : Db) → Recorded db
    → Recorded (complete hook now device id r db).1
unfolding complete
complete-Recorded hook keeps now device id r db w = by_status (result_status r.status) refl
  where
    at_open :
        (s : Status)
        → result_status r.status ≡ some s
        → any (completable id device) db.commands ≡ true
        → Recorded (complete hook now device id r db).1
    at_open s e a = elim (complete_open hook keeps now device id s r db w e a) [
      | inl h ↦ subst {A = Option Error × Db} (λ x. Recorded x.1) (sym h.1) w
      | inr h ↦
          subst {A = Option Error × Db} (λ x. Recorded x.1) (sym h.1)
            (Like-Recorded (completed_db now device id s r db) h.0 h.2 (
              store-Recorded now device id s db (result_row id r) (result_status-rank r.status s e)
                (result_row-id id r) a w))
    ]

    by_status :
        (o : Option Status)
        → result_status r.status ≡ o
        → Recorded (complete hook now device id r db).1
    by_status none e =
        subst Recorded (sym (ap (λ o. (with_status hook now device id r db o).1) e)) w
    by_status (some s) e = elim (Bool-cases (any (completable id device) db.commands)) [
      | inl a ↦ at_open s e a
      | inr a ↦ subst Recorded (sym (complete-none hook now device id r db a)) w
    ]

Step-Recorded :
    (setting : Setting) (hook : Option OnComplete) (db after : Db)
    → HookKeeps hook
    → Step setting hook db after
    → Recorded db
    → Recorded after
Step-Recorded setting hook db after k (delivers now device _) w = deliver-Recorded now device db w
Step-Recorded setting hook db after k (starts now device id _) w = start-Recorded now device id db w
Step-Recorded setting hook db after k (completes now device id r _) w =
    complete-Recorded hook k now device id r db w
Step-Recorded setting hook db after k (queues now id o _ _ c f q) w =
    queue-Recorded setting now id o db after c f q w

-- With an OnComplete that leaves the commands and the results as they are, or with none, every run of
-- Deliver, Start, Complete and Queue keeps this: rows of one identifier are of one device, an open
-- command has no result, and there is no result without a command.
pub Run-Recorded :
    (setting : Setting) (hook : Option OnComplete) (db after : Db)
    → HookKeeps hook
    → Run setting hook db after
    → Recorded db
    → Recorded after
Run-Recorded setting hook db after k (nothing _) w = w
Run-Recorded setting hook db after k (next _ mid _ s r) w =
    Run-Recorded setting hook mid after k r (Step-Recorded setting hook db mid k s w)

-- With such an OnComplete and from such tables, Complete with a terminal status on an open command of
-- the device either returns the error of OnComplete, which refuses this command's result, and changes
-- nothing; or it returns nil, there is a result that says what the device reported, and whatever is
-- reported for the command later changes nothing.
pub complete-complete :
    (hook : Option OnComplete) (now later device id : ℕ) (s : Status) (r again : Reported) (db : Db)
    (c : Command)
    → HookKeeps hook
    → Recorded db
    → result_status r.status ≡ some s
    → Stored c db.commands
    → c.id ≡ id
    → c.device_id ≡ device
    → is_open c.status ≡ true
    → (Refuses hook id s now × (complete hook now device id r db ≡ (some refused, db)))
      ⊎ ((after : Db) × (complete hook now device id r db ≡ (none, after))
          × ((row : CommandResult) × (find_result id after.results ≡ some row) × Reports id r row)
          × ((complete hook later device id again after).1 ≡ after))
complete-complete hook now later device id s r again db c keeps w e k c_id c_device o =
    let hit =
      Stored-any (completable id device) c db.commands k
        ((completable_iff id device c).1 (c_id, c_device, o)) in
    elim (complete_open hook keeps now device id s r db w e hit) [
      | inl h ↦ inl h
      | inr h ↦
          let like = h.2 in
          let closed =
            ap (any (completable id device)) like.commands_are
            ∙ nothing_open now device id s r db (result_status-rank r.status s e) hit w in
          let stored =
            ap (find_result id) like.results_are ∙ find_result-completed now device id s r db in
          inr (
            h.0,
            h.1,
            (result_row id r, stored, result_row-Reports id r),
            complete-none hook later device id again h.0 closed,
          )
    ]
