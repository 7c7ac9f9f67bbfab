-- ===== src/Rollout/Gate.antt =====
-- What a pilot must show before its build goes on.
use retune.Base.{
  Bool, Option, String, arith, false, if◌then◌else◌, ltb, none, refl, some, subst, sym, true, ℕ,
  ◌*◌, ◌+◌, ◌==◌, ◌≡◌, ◌≢◌, ◌≤◌,
}
use retune.Rollout.Rows.{
  ApprovalStatus, Assignment, Db, Health, Rollout, State, approved, pending, pilot, promoted,
  promoting,
}
use retune.Rollout.Db.{M, Res, err, ok, build_health, ◌>>=◌}
use retune.Rollout.Db.Returns.{
  OnOk, Returns, Returns-bind, Returns-if, Returns-pure, Returns-through,
}
use retune.Rollout.Moves.{Included, Setting, assigned, awaiting, halt, wait}
use retune.Rollout.Pilot.{
  after_delay, approved_pilot, begin_pilot, decide_pilot, ensure_excluded, enter_pilot,
  exclude_from, included_pilot, last_build, piloting, step_pilot, pilot_of, started_pilot,
  watch_pilot, with_pilot_group,
}

abbrev pub GoneOn : State → Type 0
GoneOn promoting = Unit
GoneOn promoted = Unit
GoneOn _ = ⊥

-- The delay is over, no device of the group failed, and at least one runs the build.
pub record Healthy (env : Setting) (ro : Rollout) (health : Health) (promote_at : ℕ) : Type 0 where
  pub over : promote_at ≤ env.now
  pub none_failed : health.failed_devices ≡ 0
  pub some_run : 1 ≤ health.succeeded

-- The pilot group has the build since some time, and is healthy after the delay.
abbrev pub Passed : Setting → Rollout → Db → Type 0
Passed env ro db =
    (group : ℕ) × (at : ℕ) × (ro.pilot_group_id ≡ some group)
    × (ro.pilot_started_at ≡ some at)
    × (ro.pilot_assignment_id ≢ none)
    × Healthy env ro (db.health group ro.agent_version_id) (at + ro.delay_hours * 3600)

abbrev Stays : Rollout → Type 0
Stays ro = ¬ GoneOn ro.state

module _ (env : Setting) where
  halt-Stays : (ro : Rollout) (why : String) → Returns Stays (halt env ro why)
  unfolding halt
  halt-Stays ro why = Returns-bind _ _ _ λ ro'. Returns-bind _ _ _ λ _. Returns-pure _ _ λ h. h

  wait-Stays : (ro : Rollout) (detail : String) → Stays ro → Returns Stays (wait env ro detail)
  unfolding wait
  wait-Stays ro detail h =
      Returns-if _ _ _ _ (Returns-pure _ _ h) (Returns-bind _ _ _ λ _. Returns-pure _ _ h)

  begin_pilot-Stays : (ro : Rollout) (id : ℕ) → Stays ro → Returns Stays (begin_pilot env ro id)
  unfolding begin_pilot piloting
  begin_pilot-Stays ro id h = Returns-bind _ _ _ λ _. Returns-pure _ _ h

  approved_pilot-Stays :
      (ro : Rollout) (a : Option Assignment) → Stays ro → Returns Stays (approved_pilot env ro a)
  unfolding approved_pilot
  approved_pilot-Stays ro none h = halt-Stays ro _
  approved_pilot-Stays ro (some a) h = begin_pilot-Stays ro a.id h

  decide_pilot-Stays :
      (ro : Rollout) (group : ℕ) (s : ApprovalStatus) (expires : ℕ)
      → Stays ro
      → Returns Stays (decide_pilot env ro group s expires)
  unfolding decide_pilot
  decide_pilot-Stays ro group pending expires h =
      Returns-if _ _ _ _ (wait-Stays ro _ h) (halt-Stays ro _)
  decide_pilot-Stays ro group approved expires h =
      Returns-bind _ _ _ λ found. approved_pilot-Stays ro found h
  decide_pilot-Stays ro group s expires h = halt-Stays ro _

  exclude_from-Stays :
      (current : Option Rollout) (ro : Rollout) (group : ℕ)
      → Stays ro
      → Returns Stays (exclude_from env current ro group)
  unfolding exclude_from
  exclude_from-Stays none ro group h = Returns-pure _ _ h
  exclude_from-Stays (some c) ro group h =
      Returns-if _ _ _ _ (Returns-pure _ _ h) (Returns-bind _ _ _ λ id. Returns-pure _ _ h)

  ensure_excluded-Stays :
      (e : Option ℕ) (ro : Rollout) (group : ℕ)
      → Stays ro
      → Returns Stays (ensure_excluded env e ro group)
  unfolding ensure_excluded
  ensure_excluded-Stays none ro group h =
      Returns-bind _ _ _ λ builds. exclude_from-Stays (last_build builds) ro group h
  ensure_excluded-Stays (some e) ro group h = Returns-pure _ _ h

  included_pilot-Stays :
      (ro : Rollout) (i : Included) → Stays ro → Returns Stays (included_pilot env ro i)
  unfolding included_pilot
  included_pilot-Stays ro (assigned id) h = begin_pilot-Stays ro id h
  included_pilot-Stays ro (awaiting id) h = Returns-bind _ _ _ λ _. Returns-pure _ _ h

  enter_pilot-Stays :
      (a : Option ℕ) (ro : Rollout) (group : ℕ)
      → Stays ro
      → Returns Stays (enter_pilot env a ro group)
  unfolding enter_pilot
  enter_pilot-Stays none ro group h =
      Returns-through _ Stays _ _ (ensure_excluded-Stays ro.exclude_assignment_id ro group h)
        λ ro' h'. Returns-bind _ _ _ λ i. included_pilot-Stays ro' i h'
  enter_pilot-Stays (some a) ro group h =
      Returns-bind _ _ _ λ a. decide_pilot-Stays ro group a.status a.expires_at h

  never-at : (A : Type 0) (r : Res Rollout) → OnOk Stays r → OnOk (λ ro'. GoneOn ro'.state → A) r
  never-at A (ok ro') s = λ g. absurd (s g)
  never-at A (err e) s = tt

  never :
      (A : Type 0) (m : M Rollout)
      → Returns Stays m
      → (db : Db) → OnOk (λ ro'. GoneOn ro'.state → A) (m db).0
  never A m h db = never-at A (m db).0 (h.at db)

  weaken :
      (A B : Type 0)
      → (A → B)
      → (r : Res Rollout) → OnOk (λ ro'. GoneOn ro'.state → A) r
      → OnOk (λ ro'. GoneOn ro'.state → B) r
  weaken A B f (ok ro') h = λ g. f (h g)
  weaken A B f (err e) h = tt

  if-OnOk :
      (Q : Rollout → Type 0) (b : Bool) (m n : M Rollout) (db : Db)
      → (b ≡ true → OnOk Q (m db).0)
      → (b ≡ false → OnOk Q (n db).0)
      → OnOk Q ((if b then m else n) db).0
  if-OnOk Q true m n db h k = h refl
  if-OnOk Q false m n db h k = k refl

  trivially : {A : Type 0} → A → (r : Res Rollout) → OnOk (λ ro'. GoneOn ro'.state → A) r
  trivially a (ok ro') = λ _. a
  trivially a (err e) = tt

  module _ (ro : Rollout) (h : Stays ro) (health : Health) (db : Db) where
    after_delay-Healthy :
        (at : ℕ)
        → health.failed_devices ≡ 0
        → OnOk
            (λ ro'. GoneOn ro'.state → Healthy env ro health at)
            (after_delay env ro health at db).0
    unfolding after_delay
    after_delay-Healthy at z =
        if-OnOk _ (ltb env.now at) _ _ db (λ e. never _ _ (wait-Stays ro _ h) db)
          (λ e.
            if-OnOk _ (health.succeeded == 0) _ _ db (λ e'. never _ _ (wait-Stays ro _ h) db)
              (λ e'.
                trivially (record { over = ground arith; none_failed = z; some_run = ground arith })
                  _))

  pilot-waits : (ro : Rollout) → ro.state ≡ pilot → Stays ro
  pilot-waits ro e = subst (λ s. ¬ GoneOn s) (sym e) (λ g. g)

  module _ (ro : Rollout) (h : Stays ro) (db : Db) where
    abbrev Checked : Res Rollout → Type 0
    Checked = OnOk (λ ro'. GoneOn ro'.state → Passed env ro db)

    module _ (group : ℕ) (has_group : ro.pilot_group_id ≡ some group)
        (has_build : ro.pilot_assignment_id ≢ none) where
      started-Checked :
          (s : Option ℕ)
          → ro.pilot_started_at ≡ s
          → (db.health group ro.agent_version_id).failed_devices ≡ 0
          → Checked (started_pilot env s ro (db.health group ro.agent_version_id) db).0
      unfolding started_pilot
      started-Checked none e z = tt
      started-Checked (some at) e z =
          weaken _ _ (λ healthy. (group, at, has_group, e, has_build, healthy)) _
            (after_delay-Healthy ro h (db.health group ro.agent_version_id) db
              (at + ro.delay_hours * 3600) z)

      watch-Checked : Checked (watch_pilot env ro group db).0
      unfolding watch_pilot ◌>>=◌ build_health
      watch-Checked =
          if-OnOk _ (ltb 0 (db.health group ro.agent_version_id).failed_devices) _ _ db
            (λ e. never _ _ (halt-Stays ro _) db)
            (λ e. started-Checked ro.pilot_started_at refl (ground arith))

    pilot_of-Checked :
        (a : Option ℕ) (group : ℕ)
        → ro.pilot_assignment_id ≡ a
        → ro.pilot_group_id ≡ some group
        → Checked (pilot_of env a ro group db).0
    unfolding pilot_of
    pilot_of-Checked none group e g =
        never _ _ (enter_pilot-Stays ro.pilot_approval_id ro group h) db
    pilot_of-Checked (some a) group e g = watch-Checked group g λ n. cc (e, n)

    with_group-Checked :
        (g : Option ℕ) → ro.pilot_group_id ≡ g → Checked (with_pilot_group env g ro db).0
    unfolding with_pilot_group
    with_group-Checked none e = never _ _ (halt-Stays ro _) db
    with_group-Checked (some group) e = pilot_of-Checked ro.pilot_assignment_id group refl e

  -- A rollout that leaves the pilot step for promoting or promoted has passed its pilot: its group has
  -- the assignment since a recorded time, the delay from that time is over, no device of the group has
  -- failed on the build, and at least one runs it.
  pub step_pilot-Passed :
      (ro : Rollout) (db : Db)
      → ro.state ≡ pilot
      → OnOk (λ ro'. GoneOn ro'.state → Passed env ro db) (step_pilot env ro db).0
  unfolding step_pilot
  step_pilot-Passed ro db e = with_group-Checked ro (pilot-waits ro e) db ro.pilot_group_id refl
