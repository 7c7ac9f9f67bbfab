-- ===== src/Rollout/Identity.antt =====
-- What identifies a rollout is written once: a step writes none of it.
use retune.Base.{List, Option, String, [], none, some, ℕ, ◌∷◌, ◌≡◌, ◌==◌}
use retune.Rollout.Rows.{
  ApprovalStatus, Assignment, Db, Health, Mode, Rollout, State, approved, pending, pilot, promoting,
}
use retune.Rollout.Db.Keeps.{Keeps, columns, columns_rules, Keeps-if}
use retune.Rollout.Moves.{
  Included, Setting, assigned, awaiting, halt, include_group, needs_approval, promote, reject_if,
  release_pilot, remove_assignment, retire, save, save_assignment, supersede, wait,
}
use retune.Rollout.Pilot.{
  after_delay, approved_pilot, begin_pilot, decide_pilot, ensure_excluded, enter_pilot,
  exclude_from, included_fleet, included_pilot, pilot_of, started_pilot, step_pilot, watch_pilot,
  with_pilot_group,
}
use retune.Rollout.Engine.{
  approved_fleet, decide_fleet, halt_or, pilot_health, step, step_promoting, step_state,
  with_fleet_approval, supersede_others,
}

remove_assignment-columns : (id : Option ℕ) → Keeps columns (remove_assignment id)
unfolding remove_assignment
remove_assignment-columns none = search columns_rules depth 8
remove_assignment-columns (some id) = search columns_rules depth 8

module _ (env : Setting) where
  save-columns : (ro : Rollout) (who action : String) → Keeps columns (save env ro who action)
  unfolding save
  save-columns ro who action = search columns_rules depth 8

  wait-columns : (ro : Rollout) (detail : String) → Keeps columns (wait env ro detail)
  unfolding wait
  wait-columns ro detail = search columns_rules depth 8

  release_pilot-columns : (p e : Option ℕ) (ro : Rollout) → Keeps columns (release_pilot env p e ro)
  unfolding release_pilot
  release_pilot-columns none (some id) ro =
      search (columns_rules, remove_assignment-columns) depth 8
  release_pilot-columns none none ro = search columns_rules depth 8
  release_pilot-columns (some _) e ro = search columns_rules depth 8

  halt-columns : (ro : Rollout) (why : String) → Keeps columns (halt env ro why)
  unfolding halt
  halt-columns ro why = search (columns_rules, release_pilot-columns, save-columns) depth 8

  needs_approval-columns : (group : ℕ) → Keeps columns (needs_approval env group)
  unfolding needs_approval
  needs_approval-columns group = search columns_rules depth 8

  save_assignment-columns :
      (item group : ℕ) (mode : Mode) → Keeps columns (save_assignment env item group mode)
  unfolding save_assignment
  save_assignment-columns item group mode = search columns_rules depth 8

  include_group-columns : (ro : Rollout) (group : ℕ) → Keeps columns (include_group env ro group)
  unfolding include_group
  include_group-columns ro group =
      search (columns_rules, needs_approval-columns, save_assignment-columns) depth 12

  retire-columns : (ro : Rollout) (olds : List Rollout) → Keeps columns (retire env ro olds)
  unfolding retire
  retire-columns ro [] = search columns_rules depth 8
  retire-columns ro (old ∷ rest) =
      let others : Keeps columns (retire env ro rest) = retire-columns ro rest in
      Keeps-if _ (old.id == ro.id) _ _ others
        (search (columns_rules, remove_assignment-columns) depth 14)

  promote-columns : (ro : Rollout) (fleet : ℕ) → Keeps columns (promote env ro fleet)
  unfolding promote
  promote-columns ro fleet =
      search (columns_rules, remove_assignment-columns, retire-columns, save-columns) depth 12

  reject_if-columns : (id : Option ℕ) → Keeps columns (reject_if env id)
  unfolding reject_if
  reject_if-columns none = search columns_rules depth 8
  reject_if-columns (some id) = search columns_rules depth 8

  supersede-columns : (ro : Rollout) (by : String) → Keeps columns (supersede env ro by)
  unfolding supersede
  supersede-columns ro by =
      search (columns_rules, remove_assignment-columns, reject_if-columns) depth 12

  begin_pilot-columns : (ro : Rollout) (id : ℕ) → Keeps columns (begin_pilot env ro id)
  unfolding begin_pilot
  begin_pilot-columns ro id = search (columns_rules, save-columns) depth 8

  approved_pilot-columns :
      (ro : Rollout) (a : Option Assignment) → Keeps columns (approved_pilot env ro a)
  unfolding approved_pilot
  approved_pilot-columns ro none = search halt-columns
  approved_pilot-columns ro (some a) = search begin_pilot-columns

  decide_pilot-columns :
      (ro : Rollout) (group : ℕ) (s : ApprovalStatus) (expires : ℕ)
      → Keeps columns (decide_pilot env ro group s expires)
  unfolding decide_pilot
  decide_pilot-columns ro group pending expires =
      search (columns_rules, wait-columns, halt-columns) depth 8
  decide_pilot-columns ro group approved expires =
      search (columns_rules, approved_pilot-columns) depth 8
  decide_pilot-columns ro group s expires = search halt-columns

  exclude_from-columns :
      (current : Option Rollout) (ro : Rollout) (group : ℕ)
      → Keeps columns (exclude_from env current ro group)
  unfolding exclude_from
  exclude_from-columns none ro group = search columns_rules depth 8
  exclude_from-columns (some c) ro group = search (columns_rules, save_assignment-columns) depth 8

  ensure_excluded-columns :
      (e : Option ℕ) (ro : Rollout) (group : ℕ) → Keeps columns (ensure_excluded env e ro group)
  unfolding ensure_excluded
  ensure_excluded-columns none ro group = search (columns_rules, exclude_from-columns) depth 8
  ensure_excluded-columns (some e) ro group = search columns_rules depth 8

  included_pilot-columns : (ro : Rollout) (i : Included) → Keeps columns (included_pilot env ro i)
  unfolding included_pilot
  included_pilot-columns ro (assigned id) = search begin_pilot-columns
  included_pilot-columns ro (awaiting id) = search (columns_rules, save-columns) depth 8

  enter_pilot-columns :
      (a : Option ℕ) (ro : Rollout) (group : ℕ) → Keeps columns (enter_pilot env a ro group)
  unfolding enter_pilot
  enter_pilot-columns none ro group =
      search (columns_rules, ensure_excluded-columns, include_group-columns, included_pilot-columns)
        depth 8
  enter_pilot-columns (some a) ro group = search (columns_rules, decide_pilot-columns) depth 8

  included_fleet-columns : (ro : Rollout) (i : Included) → Keeps columns (included_fleet env ro i)
  unfolding included_fleet
  included_fleet-columns ro (assigned id) = search promote-columns
  included_fleet-columns ro (awaiting id) = search (columns_rules, save-columns) depth 8

  after_delay-columns :
      (ro : Rollout) (health : Health) (at : ℕ) → Keeps columns (after_delay env ro health at)
  unfolding after_delay
  after_delay-columns ro health at =
      search (columns_rules, wait-columns, include_group-columns, included_fleet-columns) depth 8

  started_pilot-columns :
      (s : Option ℕ) (ro : Rollout) (health : Health)
      → Keeps columns (started_pilot env s ro health)
  unfolding started_pilot
  started_pilot-columns none ro health = search columns_rules
  started_pilot-columns (some at) ro health = search after_delay-columns

  watch_pilot-columns : (ro : Rollout) (group : ℕ) → Keeps columns (watch_pilot env ro group)
  unfolding watch_pilot
  watch_pilot-columns ro group = search (columns_rules, halt-columns, started_pilot-columns) depth 8

  pilot_of-columns :
      (a : Option ℕ) (ro : Rollout) (group : ℕ) → Keeps columns (pilot_of env a ro group)
  unfolding pilot_of
  pilot_of-columns none ro group = search enter_pilot-columns
  pilot_of-columns (some a) ro group = search watch_pilot-columns

  with_pilot_group-columns :
      (g : Option ℕ) (ro : Rollout) → Keeps columns (with_pilot_group env g ro)
  unfolding with_pilot_group
  with_pilot_group-columns none ro = search halt-columns
  with_pilot_group-columns (some g) ro = search pilot_of-columns

  approved_fleet-columns :
      (ro : Rollout) (a : Option Assignment) → Keeps columns (approved_fleet env ro a)
  unfolding approved_fleet
  approved_fleet-columns ro none = search halt-columns
  approved_fleet-columns ro (some a) = search promote-columns

  decide_fleet-columns :
      (ro : Rollout) (s : ApprovalStatus) (expires : ℕ)
      → Keeps columns (decide_fleet env ro s expires)
  unfolding decide_fleet
  decide_fleet-columns ro pending expires =
      search (columns_rules, wait-columns, halt-columns) depth 8
  decide_fleet-columns ro approved expires = search (columns_rules, approved_fleet-columns) depth 8
  decide_fleet-columns ro s expires = search halt-columns

  with_fleet_approval-columns :
      (a : Option ℕ) (ro : Rollout) → Keeps columns (with_fleet_approval env a ro)
  unfolding with_fleet_approval
  with_fleet_approval-columns none ro = search halt-columns
  with_fleet_approval-columns (some a) ro = search (columns_rules, decide_fleet-columns) depth 8

  pilot_health-columns : (g : Option ℕ) (ro : Rollout) → Keeps columns (pilot_health env g ro)
  unfolding pilot_health
  pilot_health-columns none ro = search columns_rules
  pilot_health-columns (some g) ro = search columns_rules depth 8

  halt_or-columns : (h : Option Health) (ro : Rollout) → Keeps columns (halt_or env h ro)
  unfolding halt_or
  halt_or-columns none ro = search with_fleet_approval-columns
  halt_or-columns (some h) ro = search halt-columns

  step_state-columns : (s : State) (ro : Rollout) → Keeps columns (step_state env s ro)
  unfolding step_state step_pilot step_promoting
  step_state-columns pilot ro = search with_pilot_group-columns
  step_state-columns promoting ro =
      search (columns_rules, pilot_health-columns, halt_or-columns) depth 8
  step_state-columns s ro = search columns_rules

  pub step-Keeps : (ro : Rollout) → Keeps columns (step env ro)
  unfolding step
  step-Keeps ro = search (columns_rules, step_state-columns) depth 8

  -- However a step ends, it leaves every rollout its identifier, build, version, pilot group and
  -- delay, adds no rollout and removes none.
  pub step-columns : (ro : Rollout) (db : Db) → columns (step env ro db).1 ≡ columns db
  step-columns ro db = (step-Keeps ro).at db

  pub supersede_others-columns :
      (id : ℕ) (by : String) (olds : List Rollout) → Keeps columns (supersede_others env id by olds)
  unfolding supersede_others
  supersede_others-columns id by [] = search columns_rules
  supersede_others-columns id by (old ∷ rest) =
      let others : Keeps columns (supersede_others env id by rest) =
        supersede_others-columns id by rest in
      Keeps-if _ (old.id == id) _ _ others (search (columns_rules, supersede-columns) depth 8)
