-- ===== src/Rollout/Examples.antt =====
-- A rollout on a fleet of one pilot group.
use retune.Base.{Option, [], false, none, not, refl, some, str_eq, true, ◌∷◌, ◌≡◌, inl, arith}
use retune.Rollout.Rows.{Db, Rollout, State, include, pilot, promoted, exclude}
use retune.Rollout.Db.{
  Res, build_health, create_assignment, delete_assignment, err, find_assignment, in_state,
  insert_audit, list_in_state, ok, update_rollout, update_row, without_id, ◌>>=◌,
}
use retune.Rollout.Db.Keeps.{columns}
use retune.Rollout.Db.Returns.{OnOk}
use retune.Rollout.Moves.{
  Setting, include_group, needs_approval, promote, promoted_with, remove_assignment, retire, save,
  save_assignment,
}
use retune.Rollout.Pilot.{
  after_delay, included_fleet, pilot_of, started_pilot, step_pilot, watch_pilot, with_pilot_group,
}
use retune.Rollout.Engine.{step, start}
use retune.Rollout.Builds.{OncePerBuild, start-OncePerBuild, start-older}
use retune.Rollout.Spared.{assigned_id, promote-Spares}
use retune.Rollout.Identity.{step-columns}
use retune.Rollout.Gate.{GoneOn, Passed, step_pilot-Passed}

abbrev setting : Setting
setting = record {
  now = 7200;
  approvals_required = false;
  approval_threshold = 10;
  all_devices = 1;
  newer = λ a b. not (str_eq a b);
  say_failed = λ h. "failed";
  say_piloting = λ at n. "piloting";
}

abbrev watched : Rollout
watched = record {
  id = 5;
  agent_version_id = 9;
  state = pilot;
  pilot_group_id = some 2;
  delay_hours = 1;
  pilot_assignment_id = some 3;
  pilot_approval_id = none;
  pilot_started_at = some 3600;
  exclude_assignment_id = none;
  fleet_assignment_id = none;
  fleet_approval_id = none;
  promoted_at = none;
  detail = "";
  updated_at = 3600;
  version = "1.1";
}

abbrev fleet : Db
fleet = record {
  policy = record { enabled = true; pilot_group_id = some 2; delay_hours = 1 };
  rollouts = watched ∷ [];
  approvals = [];
  assignments = record { id = 3; item_id = 9; group_id = 2; mode = include } ∷ [];
  groups = record { id = 1; is_static = false; members = 100 } ∷ [];
  health = λ group build. record { succeeded = 1; failed_devices = 0; failures = [] };
  audit = [];
  next_id = 10;
}

abbrev state_of : Res Rollout → Option State
state_of (ok ro) = some ro.state
state_of (err e) = none

promotes : state_of (step_pilot setting watched fleet).0 ≡ some promoted
unfolding step_pilot with_pilot_group pilot_of watch_pilot build_health ◌>>=◌ started_pilot
    after_delay include_group needs_approval save_assignment create_assignment insert_audit
    find_assignment included_fleet promote list_in_state in_state remove_assignment
    delete_assignment without_id retire save update_rollout update_row promoted_with
promotes = refl

abbrev Shown : Type 0
Shown =
    OnOk (λ ro. GoneOn ro.state → Passed setting watched fleet) (step_pilot setting watched fleet).0

step_pilot-Passed_example : Shown
step_pilot-Passed_example = step_pilot-Passed setting watched fleet refl

step-columns_example : columns (step setting watched fleet).1 ≡ columns fleet
step-columns_example = step-columns setting watched fleet

abbrev promoted_build : Rollout
promoted_build = record watched { id = 4; agent_version_id = 8; state = promoted; version = "1.1" }

abbrev settled_fleet : Db
settled_fleet = record fleet { rollouts = promoted_build ∷ [] }

start-OncePerBuild_example : OncePerBuild (columns (start setting 9 "1.2" settled_fleet).1)
start-OncePerBuild_example = start-OncePerBuild setting 9 "1.2" settled_fleet (refl, tt)

start-older_example : start setting 7 "1.1" settled_fleet ≡ (ok tt, settled_fleet)
start-older_example = start-older setting 7 "1.1" settled_fleet (inl (refl, refl))

-- The older build's rollout is promoted, and assignment 6 is recorded by no rollout.
abbrev shared_fleet : Db
shared_fleet = record fleet {
  rollouts = promoted_build ∷ watched ∷ [];
  assignments = record { id = 6; item_id = 8; group_id = 2; mode = exclude } ∷ fleet.assignments;
}

promote-Spares_example :
    assigned_id 6 (promote setting watched 7 shared_fleet).1 ≡ assigned_id 6 shared_fleet
unfolding in_state
promote-Spares_example =
    promote-Spares 6 setting watched 7 shared_fleet
      ((λ e. absurd (ground arith)), (λ e. absurd (ground arith)), λ e. absurd (ground arith))
      (
        (λ e. (
          (λ k. absurd (ground arith)),
          (λ k. absurd (ground arith)),
          λ k. absurd (ground arith),
        )),
        tt,
      )
