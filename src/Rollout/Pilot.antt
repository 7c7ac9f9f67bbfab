-- ===== src/Rollout/Pilot.antt =====
-- stepPilot of internal/server/releasefeed/rollout.go: a build goes to the pilot group, is watched
-- there, and goes on to all devices.
use retune.Base.{
  List, Option, [], if◌then◌else◌, ltb, none, some, str_append, ℕ, ◌*◌, ◌+◌, ◌==◌, ◌∷◌,
}
use retune.Rollout.Rows.{
  ApprovalStatus, Assignment, Health, Rollout, approved, exclude, include, pending, promoting,
}
use retune.Rollout.Db.{
  M, build_health, fail, get_approval, get_assignment_for, list_in_state, nil_pointer, pure, ◌>>=◌,
  ◌>>◌,
}
use retune.Rollout.Moves.{
  Included, Setting, actor, approval_outcome, assigned, awaiting, halt, include_group, is_promoted,
  promote, save, save_assignment, wait,
}

-- fleetBuild: the last promoted rollout.
unfoldable pub last_build : List Rollout → Option Rollout
last_build [] = none
last_build (r ∷ []) = some r
last_build (r ∷ s ∷ rs) = last_build (s ∷ rs)

module _ (env : Setting) where
  unfoldable pub piloting : Rollout → ℕ → Rollout
  piloting ro assignment = record ro {
    pilot_assignment_id = some assignment;
    pilot_started_at = some env.now;
    detail = "";
  }

  unfoldable pub begin_pilot : Rollout → ℕ → M Rollout
  unfolding save piloting
  begin_pilot ro assignment = do
    save env (piloting ro assignment) actor "agent_rollout.piloting"
    pure (piloting ro assignment)

  unfoldable pub approved_pilot : Rollout → Option Assignment → M Rollout
  unfolding halt begin_pilot
  approved_pilot ro none = halt env ro "the pilot assignment was approved but is not there"
  approved_pilot ro (some a) = begin_pilot ro a.id

  -- The pilot waits for this approval.
  unfoldable pub decide_pilot : Rollout → ℕ → ApprovalStatus → ℕ → M Rollout
  unfolding approved_pilot approval_outcome
  decide_pilot ro group pending expires_at =
      if ltb env.now expires_at
      then wait env ro "waiting for a second administrator to approve the pilot"
      else halt env ro "nobody approved the pilot assignment before it lapsed"
  decide_pilot ro group approved expires_at = do
    found ← get_assignment_for ro.agent_version_id group include
    approved_pilot ro found
  decide_pilot ro group status expires_at =
      halt env ro (str_append "the pilot assignment was " (approval_outcome status))

  unfoldable pub exclude_from : Option Rollout → Rollout → ℕ → M Rollout
  exclude_from none ro group = pure ro
  exclude_from (some current) ro group =
      if current.agent_version_id == ro.agent_version_id then pure ro else do
        id ← save_assignment env current.agent_version_id group exclude
        pure (record ro { exclude_assignment_id = some id })

  -- The pilot group is kept off the build that the rest of the fleet is on.
  unfoldable pub ensure_excluded : Option ℕ → Rollout → ℕ → M Rollout
  unfolding last_build exclude_from
  ensure_excluded (some id) ro group = pure ro
  ensure_excluded none ro group = do
    builds ← list_in_state is_promoted
    exclude_from (last_build builds) ro group

  unfoldable pub included_pilot : Rollout → Included → M Rollout
  unfolding begin_pilot save
  included_pilot ro (assigned id) = begin_pilot ro id
  included_pilot ro (awaiting id) =
      let ro' : Rollout = record ro {
        pilot_approval_id = some id;
        detail = "waiting for a second administrator to approve the pilot";
      } in
      do save env ro' actor "agent_rollout.approval_requested"; pure ro'

  -- No pilot assignment yet.
  unfoldable pub enter_pilot : Option ℕ → Rollout → ℕ → M Rollout
  unfolding decide_pilot ensure_excluded included_pilot include_group
  enter_pilot (some approval) ro group = do
    a ← get_approval approval
    decide_pilot ro group a.status a.expires_at
  enter_pilot none ro group = do
    ro' ← ensure_excluded ro.exclude_assignment_id ro group
    included ← include_group env ro' group
    included_pilot ro' included

  unfoldable pub included_fleet : Rollout → Included → M Rollout
  unfolding promote save
  included_fleet ro (assigned id) = promote env ro id
  included_fleet ro (awaiting id) =
      let ro' : Rollout = record ro {
        state = promoting;
        fleet_approval_id = some id;
        detail = "the pilot passed; waiting for a second administrator to approve All devices";
      } in
      do save env ro' actor "agent_rollout.approval_requested"; pure ro'

  unfoldable pub after_delay : Rollout → Health → ℕ → M Rollout
  unfolding wait include_group included_fleet
  after_delay ro health promote_at =
      if ltb env.now promote_at
      then wait env ro (env.say_piloting promote_at health.succeeded)
      else if health.succeeded == 0
      then wait env ro "the pilot period is over, but no pilot device runs it yet"
      else (do included ← include_group env ro env.all_devices; included_fleet ro included)

  unfoldable pub started_pilot : Option ℕ → Rollout → Health → M Rollout
  unfolding after_delay
  started_pilot none ro health = fail nil_pointer
  started_pilot (some at) ro health = after_delay ro health (at + ro.delay_hours * 3600)

  -- The pilot devices have the build.
  unfoldable pub watch_pilot : Rollout → ℕ → M Rollout
  unfolding halt started_pilot
  watch_pilot ro group = do
    health ← build_health group ro.agent_version_id
    if ltb 0 health.failed_devices
        then halt env ro (env.say_failed health)
        else started_pilot ro.pilot_started_at ro health

  unfoldable pub pilot_of : Option ℕ → Rollout → ℕ → M Rollout
  unfolding enter_pilot watch_pilot
  pilot_of none ro group = enter_pilot ro.pilot_approval_id ro group
  pilot_of (some id) ro group = watch_pilot ro group

  unfoldable pub with_pilot_group : Option ℕ → Rollout → M Rollout
  unfolding pilot_of halt
  with_pilot_group none ro = halt env ro "the pilot group was deleted"
  with_pilot_group (some group) ro = pilot_of ro.pilot_assignment_id ro group

  unfoldable pub step_pilot : Rollout → M Rollout
  unfolding with_pilot_group
  step_pilot ro = with_pilot_group ro.pilot_group_id ro
