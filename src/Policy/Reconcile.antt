-- ===== src/Policy/Reconcile.antt =====
-- Reconcile, forgetRemoved and revert of internal/agent/policy/reconcile.go: apply what is assigned,
-- undo what has gone, and report.
pub mod Claimed
use retune.Base.{Bool, List, Option, String, [], if◌then◌else◌, none, some, ◌∷◌}
use retune.Policy.Plan.{Action, Assigned, Settings, plan}
use retune.Policy.Agent.{Agent, Applied, Handler, Prior, SettingResult, delete_key, get_key}
use retune.Policy.Apply.{apply, handler_for}
use retune.Policy.Profiles.{
  active, add_result, first_results, identities, is_current, record_applied, send_all,
  still_claimed,
}

module _ {S T W : Type 0} (io : Settings S) where
  pub apply_all :
      List (Handler S T W)
      → List (Action S)
      → List (String × List SettingResult)
      → Agent S T W
      → List (String × List SettingResult) × Agent S T W
  unfolding add_result apply
  apply_all handlers [] results st = (results, st)
  apply_all handlers (a ∷ as') results st =
      let (v, st') = apply io handlers a st in
      apply_all handlers as'
        (add_result (record { identity = a.identity; status = v.0; detail = v.1 }) a.profiles
          results)
        st'

  reverted : String → Option String → Agent S T W → Agent S T W
  reverted id none st = record st { priors = delete_key id st.priors }
  reverted id (some e) st = st

  -- A panic in Revert is not recovered, and ends the agent: it is no result of a call here.
  revert_by :
      String → Prior S T → Option (S → T → W → Option String × W) → Agent S T W → Agent S T W
  unfolding reverted
  revert_by id prior none st = st
  revert_by id prior (some undo) st =
      let (r, w) = undo prior.setting prior.found st.machine in
      reverted id r (record st { machine = w })

  revert_with : String → Prior S T → Option (Handler S T W) → Agent S T W → Agent S T W
  unfolding revert_by
  revert_with id prior none st = st
  revert_with id prior (some h) st = revert_by id prior h.revert st

  revert_one : List (Handler S T W) → String → Option (Prior S T) → Agent S T W → Agent S T W
  unfolding revert_with handler_for
  revert_one handlers id none st = st
  revert_one handlers id (some prior) st = revert_with id prior (handler_for handlers prior.kind) st

  pub revert_all : List (Handler S T W) → (String → Bool) → List String → Agent S T W → Agent S T W
  unfolding revert_one
  revert_all handlers claimed [] st = st
  revert_all handlers claimed (id ∷ ids) st =
      revert_all handlers claimed ids
        (if claimed id then st else revert_one handlers id (get_key id st.priors) st)

  -- The recorded profiles in any order; those still assigned stay.
  pub forget_removed :
      List (Handler S T W) → List (Assigned S) → List (String × Applied) → Agent S T W → Agent S T W
  unfolding revert_all still_claimed is_current
  forget_removed handlers assigned [] st = st
  forget_removed handlers assigned ((id, rec) ∷ rest) st =
      let st' : Agent S T W =
        if rec.revert_on_removal
        then revert_all handlers (still_claimed io assigned) rec.identities st
        else st in
      forget_removed handlers assigned rest
        (if is_current id assigned then st else record st' { applied = delete_key id st'.applied })

  after_plan :
      List (Handler S T W)
      → List (Assigned S)
      → Option (List (Action S))
      → Agent S T W
      → Option (Agent S T W)
  unfolding apply_all first_results active forget_removed record_applied send_all
  after_plan handlers assigned none st = none
  after_plan handlers assigned (some actions) st =
      let (results, applied_st) = apply_all handlers actions (first_results io assigned []) st in
      let kept_st = forget_removed handlers assigned applied_st.applied applied_st in
      some (record kept_st {
        applied = record_applied io (active assigned) kept_st.applied;
        sent = send_all assigned results kept_st.sent;
      })

  -- One cycle; `none` where the plan fails.
  pub reconcile : List (Handler S T W) → List (Assigned S) → Agent S T W → Option (Agent S T W)
  unfolding after_plan active
  reconcile handlers assigned st = after_plan handlers assigned (plan io (active assigned)) st
