-- ===== src/Rollout/Moves.antt =====
-- The moves of internal/server/releasefeed/rollout.go that change rows: wait, halt, include, promote
-- and supersede. Logging is left out, and an audit entry keeps its actor, action and target.
use retune.Base.{
  Bool, List, Option, String, [], false, if◌then◌else◌, ltb, none, not, some, str_append, str_eq,
  true, ℕ, ◌&&◌, ◌+◌, ◌==◌, ◌∷◌,
}
use retune.Rollout.Rows.{
  ApprovalStatus, Health, Mode, Rollout, State, approved, expired, failed, halted, include, pending,
  pilot, promoted, promoting, rejected, same_state, superseded,
}
use retune.Rollout.Db.{
  M, create_approval, create_assignment, delete_assignment, get_group, insert_audit, list_in_state,
  new_id, pure, reject_approval, update_rollout, ◌>>=◌, ◌>>◌,
}

-- What a step is run with: the clock, two-person approval's settings, the group of all devices, the
-- version order (release.Newer), and the two messages that fmt.Sprintf formats.
pub record Setting : Type 0 where
  pub now : ℕ
  pub approvals_required : Bool
  pub approval_threshold : ℕ
  pub all_devices : ℕ
  pub newer : String → String → Bool
  pub say_failed : Health → String
  pub say_piloting : ℕ → ℕ → String

abbrev pub actor : String
actor = "system:agent-rollout"

-- A day, in seconds.
abbrev pub approval_ttl : ℕ
approval_ttl = 86400

abbrev pub is_promoted : State → Bool
is_promoted promoted = true
is_promoted _ = false

abbrev pub is_active : State → Bool
is_active pilot = true
is_active promoting = true
is_active _ = false

abbrev pub is_halted : State → Bool
is_halted halted = true
is_halted _ = false

unfoldable pub approval_outcome : ApprovalStatus → String
approval_outcome pending = "pending"
approval_outcome approved = "approved"
approval_outcome rejected = "rejected"
approval_outcome expired = "not approved before it lapsed"
approval_outcome failed = "approved, but could not be carried out"

unfoldable pub same_id : Option ℕ → Option ℕ → Bool
same_id none none = true
same_id none (some b) = false
same_id (some a) none = false
same_id (some a) (some b) = a == b

unfoldable pub unchanged : Rollout → Rollout → Bool
unfolding same_id
unchanged a b =
    same_state a.state b.state
    && str_eq a.detail b.detail
    && same_id a.pilot_assignment_id b.pilot_assignment_id
    && same_id a.pilot_approval_id b.pilot_approval_id
    && same_id a.fleet_approval_id b.fleet_approval_id
    && same_id a.fleet_assignment_id b.fleet_assignment_id
    && same_id a.exclude_assignment_id b.exclude_assignment_id

unfoldable pub remove_assignment : Option ℕ → M (Unit {0})
remove_assignment none = pure tt
remove_assignment (some id) = do delete_assignment id; insert_audit actor "assignment.deleted" id

-- An assignment was made, or an approval of it was asked for.
pub data Included : Type 0 where
  assigned awaiting : ℕ → Included

module _ (env : Setting) where
  unfoldable pub save : Rollout → String → String → M (Unit {0})
  save ro who action = do
    update_rollout (record ro { updated_at = env.now })
    insert_audit who action ro.id

  -- Record what a rollout waits for, without changing its state.
  unfoldable pub wait : Rollout → String → M Rollout
  wait ro detail = if str_eq ro.detail detail then pure ro else do
    update_rollout (record ro { detail = detail; updated_at = env.now })
    pure (record ro { detail = detail; updated_at = env.now })

  -- Without a pilot assignment, the pilot group goes back onto the fleet's build.
  unfoldable pub release_pilot : Option ℕ → Option ℕ → Rollout → M Rollout
  release_pilot none (some id) ro = do
    remove_assignment (some id)
    pure (record ro { exclude_assignment_id = none })
  release_pilot none none ro = pure ro
  release_pilot (some _) e ro = pure ro

  unfoldable pub halt : Rollout → String → M Rollout
  unfolding release_pilot save
  halt ro why = do
    ro' ← release_pilot ro.pilot_assignment_id ro.exclude_assignment_id ro
    save (record ro' { state = halted; detail = why }) actor "agent_rollout.halted"
    pure (record ro' { state = halted; detail = why })

  unfoldable pub needs_approval : ℕ → M Bool
  needs_approval group = if not env.approvals_required then pure false else do
    g ← get_group group
    pure (if not g.is_static then true else ltb env.approval_threshold g.members)

  unfoldable pub save_assignment : ℕ → ℕ → Mode → M ℕ
  save_assignment item group mode = do
    id ← create_assignment item group mode
    insert_audit actor "assignment.created" id
    pure id

  unfoldable pub include_group : Rollout → ℕ → M Included
  unfolding needs_approval save_assignment
  include_group ro group = do
    held ← needs_approval group
    if not held
        then (do id ← save_assignment ro.agent_version_id group include; pure (assigned id))
        else do
          id ← new_id
          create_approval (record {
            id = id;
            status = pending;
            expires_at = env.now + approval_ttl;
            item_id = ro.agent_version_id;
            group_id = group;
          })
          insert_audit actor "approval.requested" id
          pure (awaiting id)

  unfoldable pub replaced : String → Rollout → Rollout
  replaced by old = record old {
    fleet_assignment_id = none;
    pilot_assignment_id = none;
    exclude_assignment_id = none;
    state = superseded;
    detail = str_append "replaced by " by;
    updated_at = env.now;
  }

  -- The builds that a promotion replaces lose their assignments.
  unfoldable pub retire : Rollout → List Rollout → M (Unit {0})
  unfolding replaced
  retire ro [] = pure tt
  retire ro (old ∷ rest) =
      let others = retire ro rest in
      if old.id == ro.id then others else do
        remove_assignment old.fleet_assignment_id
        remove_assignment old.pilot_assignment_id
        remove_assignment old.exclude_assignment_id
        update_rollout (replaced ro.version old)
        others

  unfoldable pub promoted_with : Rollout → ℕ → Rollout
  promoted_with ro fleet = record ro {
    state = promoted;
    fleet_assignment_id = some fleet;
    promoted_at = some env.now;
    detail = "";
    pilot_assignment_id = none;
    exclude_assignment_id = none;
  }

  unfoldable pub promote : Rollout → ℕ → M Rollout
  unfolding retire save promoted_with
  promote ro fleet = do
    older ← list_in_state is_promoted
    remove_assignment ro.pilot_assignment_id
    remove_assignment ro.exclude_assignment_id
    retire ro older
    save (promoted_with ro fleet) actor "agent_rollout.promoted"
    pure (promoted_with ro fleet)

  unfoldable pub reject_if : Option ℕ → M (Unit {0})
  reject_if none = pure tt
  reject_if (some id) = reject_approval env.now id

  unfoldable pub overtaken : Rollout → String → Rollout
  overtaken ro by = record ro {
    pilot_assignment_id = none;
    exclude_assignment_id = none;
    pilot_approval_id = none;
    fleet_approval_id = none;
    state = superseded;
    detail = str_append "replaced by " by;
    updated_at = env.now;
  }

  unfoldable pub supersede : Rollout → String → M (Unit {0})
  unfolding reject_if overtaken
  supersede ro by = do
    remove_assignment ro.pilot_assignment_id
    remove_assignment ro.exclude_assignment_id
    reject_if ro.pilot_approval_id
    reject_if ro.fleet_approval_id
    update_rollout (overtaken ro by)
    insert_audit actor "agent_rollout.superseded" ro.id
