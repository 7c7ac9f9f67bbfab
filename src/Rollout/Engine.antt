-- ===== src/Rollout/Engine.antt =====
-- The rest of internal/server/releasefeed/rollout.go: stepPromoting, one step of any rollout, and the
-- operations Advance, Resume and Start.
use retune.Base.{
  Bool, List, Option, String, [], false, if◌then◌else◌, ltb, none, not, some, str_append, suc, true,
  ℕ, ◌&&◌, ◌==◌, ◌∷◌,
}
use retune.Rollout.Rows.{
  ApprovalStatus, Assignment, Db, Health, Rollout, State, approved, include, pending, pilot,
  promoting,
}
use retune.Rollout.Db.{
  Error, M, Res, build_health, create_rollout, err, fail, get_approval, get_assignment_for,
  get_policy, get_rollout, in_state, insert_audit, list_in_state, new_id, not_halted, ok, pure,
  ◌>>=◌, ◌>>◌,
}
use retune.Rollout.Moves.{
  Setting, actor, approval_outcome, halt, is_active, is_halted, is_promoted, promote, save,
  supersede, unchanged, wait,
}
use retune.Rollout.Pilot.{step_pilot}

module _ (env : Setting) where
  unfoldable pub approved_fleet : Rollout → Option Assignment → M Rollout
  unfolding halt promote
  approved_fleet ro none = halt env ro "All devices was approved but the assignment is not there"
  approved_fleet ro (some a) = promote env ro a.id

  unfoldable pub decide_fleet : Rollout → ApprovalStatus → ℕ → M Rollout
  unfolding approved_fleet wait approval_outcome
  decide_fleet ro pending expires_at =
      if ltb env.now expires_at
      then wait env ro "the pilot passed; waiting for a second administrator to approve All devices"
      else halt env ro "nobody approved All devices before the request lapsed"
  decide_fleet ro approved expires_at = do
    found ← get_assignment_for ro.agent_version_id env.all_devices include
    approved_fleet ro found
  decide_fleet ro status expires_at =
      halt env ro (str_append "All devices was " (approval_outcome status))

  unfoldable pub with_fleet_approval : Option ℕ → Rollout → M Rollout
  unfolding decide_fleet halt
  with_fleet_approval none ro = halt env ro "promotion lost track of its approval"
  with_fleet_approval (some id) ro = do a ← get_approval id; decide_fleet ro a.status a.expires_at

  -- The health of the pilot group, if there still is one.
  unfoldable pub pilot_health : Option ℕ → Rollout → M (Option Health)
  pilot_health none ro = pure none
  pilot_health (some group) ro = do
    health ← build_health group ro.agent_version_id
    pure (if ltb 0 health.failed_devices then some health else none)

  unfoldable pub halt_or : Option Health → Rollout → M Rollout
  unfolding halt with_fleet_approval
  halt_or (some health) ro = halt env ro (env.say_failed health)
  halt_or none ro = with_fleet_approval ro.fleet_approval_id ro

  unfoldable pub step_promoting : Rollout → M Rollout
  unfolding pilot_health halt_or
  step_promoting ro = do bad ← pilot_health ro.pilot_group_id ro; halt_or bad ro

  unfoldable pub step_state : State → Rollout → M Rollout
  unfolding step_pilot step_promoting
  step_state pilot ro = step_pilot env ro
  step_state promoting ro = step_promoting ro
  step_state _ ro = pure ro

  unfoldable pub step : Rollout → M Bool
  unfolding step_state unchanged
  step ro = do ro' ← step_state ro.state ro; pure (not (unchanged ro ro'))

  -- How many moved, and whether any step failed: an error stops no other rollout.
  unfoldable pub count_moved : Res Bool → ℕ × List Error → ℕ × List Error
  count_moved (ok true) (n, es) = (suc n, es)
  count_moved (ok false) (n, es) = (n, es)
  count_moved (err e) (n, es) = (n, e ∷ es)

  unfoldable pub advance_all : List Rollout → Db → (ℕ × List Error) × Db
  unfolding count_moved
  advance_all [] db = ((0, []), db)
  advance_all (ro ∷ ros) db =
      let (r, db') = step ro db in
      let (done, db'') = advance_all ros db' in (count_moved r done, db'')

  unfoldable pub advance : Db → (ℕ × List Error) × Db
  unfolding advance_all step
  advance db = advance_all (in_state is_active db.rollouts) db

  unfoldable pub resume : ℕ → String → M (Unit {0})
  unfolding step save
  resume id who = do
    ro ← get_rollout id
    if not (is_halted ro.state)
        then fail not_halted
        else let ro' : Rollout = record ro {
          state = pilot;
          pilot_approval_id = none;
          fleet_approval_id = none;
          detail = "";
        } in
          do save env ro' who "agent_rollout.resumed"; changed ← step ro'; pure tt

  unfoldable pub supersede_others : ℕ → String → List Rollout → M (Unit {0})
  unfolding supersede
  supersede_others id by [] = pure tt
  supersede_others id by (old ∷ rest) =
      let others = supersede_others id by rest in
      if old.id == id then others else (do supersede env old by; others)

  -- The build is newer than every build that has been promoted.
  unfoldable pub overtakes_all : String → List Rollout → Bool
  overtakes_all version [] = true
  overtakes_all version (old ∷ rest) = env.newer version old.version && overtakes_all version rest

  unfoldable pub new_rollout : ℕ → ℕ → String → ℕ → ℕ → Rollout
  new_rollout id build version group delay = record {
    id = id;
    agent_version_id = build;
    state = pilot;
    pilot_group_id = some group;
    delay_hours = delay;
    pilot_assignment_id = none;
    pilot_approval_id = none;
    pilot_started_at = none;
    exclude_assignment_id = none;
    fleet_assignment_id = none;
    fleet_approval_id = none;
    promoted_at = none;
    detail = "";
    updated_at = env.now;
    version = version;
  }

  unfoldable pub begin_rollout : ℕ → ℕ → String → Bool → M (Unit {0})
  unfolding supersede_others step
  begin_rollout id build version false = pure tt
  begin_rollout id build version true = do
    insert_audit actor "agent_rollout.started" id
    active ← list_in_state is_active
    supersede_others id version active
    started ← get_rollout id
    changed ← step started
    pure tt

  unfoldable pub with_policy : Bool → Option ℕ → ℕ → ℕ → String → M (Unit {0})
  unfolding begin_rollout overtakes_all new_rollout
  with_policy true (some group) delay build version = do
    promoted_builds ← list_in_state is_promoted
    if not (overtakes_all version promoted_builds) then pure tt else do
      id ← new_id
      created ← create_rollout (new_rollout id build version group delay)
      begin_rollout id build version created
  with_policy _ _ delay build version = pure tt

  unfoldable pub start : ℕ → String → M (Unit {0})
  unfolding with_policy
  start build version = do
    p ← get_policy
    with_policy p.enabled p.pilot_group_id p.delay_hours build version
