-- ===== src/Policy/Apply.antt =====
-- apply and rememberPrior of internal/agent/policy/reconcile.go: test a setting, then set it only if
-- needed, then test again.
pub mod Evidence
use retune.Base.{
  Bool, List, Option, String, [], false, if◌then◌else◌, none, some, str_append, str_eq, true, ◌∷◌,
  not,
}
use retune.Policy.Plan.{Action, Settings}
use retune.Policy.Agent.{
  Agent, Called, Handler, Prior, SettingStatus, compliant, conflict, error, errs, get_key,
  not_applicable, panics, put_key, remediated, returns,
}

module _ {S T W : Type 0} (handlers : List (Handler S T W)) where
  handler_in : String → List (Handler S T W) → Option (Handler S T W)
  handler_in kind [] = none
  handler_in kind (h ∷ hs) = if str_eq h.kind kind then some h else handler_in kind hs

  unfoldable pub handler_for : String → Option (Handler S T W)
  unfolding handler_in
  handler_for kind = handler_in kind handlers

abbrev pub Verdict : Type 0
Verdict = SettingStatus × String

panicked : String → Verdict
panicked p = (error, str_append "the handler panicked: " p)

after_set : Called Bool → Verdict
unfolding panicked
after_set (returns true) = (remediated, "")
after_set (returns false) =
    (error, "the setting was applied but the machine still does not match it")
after_set (errs e) = (error, e)
after_set (not_applicable e) = (error, e)
after_set (panics p) = panicked p

module _ {S T W : Type 0} (io : Settings S) where
  -- The state to go back to.
  remember : T → Action S → Agent S T W → Agent S T W
  remember state action st = record st {
    priors =
        put_key action.identity
          (record { kind = io.kind action.setting; setting = action.setting; found = state })
          st.priors;
  }

  -- The second test, unless Set failed.
  test_again : Handler S T W → Action S → Called (Unit {0}) → Agent S T W → Verdict × Agent S T W
  unfolding after_set
  test_again h action (returns _) st =
      let (r, w) = h.test action.setting st.machine in (after_set r, record st { machine = w })
  test_again h action (errs e) st = ((error, e), st)
  test_again h action (not_applicable e) st = ((error, e), st)
  test_again h action (panics p) st = (panicked p, st)

  set_and_test : Handler S T W → Action S → Agent S T W → Verdict × Agent S T W
  unfolding test_again
  set_and_test h action st =
      let (r, w) = h.set action.setting st.machine in
      test_again h action r (record st { machine = w })

  -- A panic while reading ends the setting; an error of reading is only logged.
  after_get : Handler S T W → Action S → Called T → Agent S T W → Verdict × Agent S T W
  unfolding remember set_and_test panicked
  after_get h action (returns state) st = set_and_test h action (remember state action st)
  after_get h action (errs e) st = set_and_test h action st
  after_get h action (not_applicable e) st = set_and_test h action st
  after_get h action (panics p) st = (panicked p, st)

  -- rememberPrior looks for a recorded state first, and asks the handler only without one.
  remember_and_set :
      Handler S T W → Action S → Option (Prior S T) → Agent S T W → Verdict × Agent S T W
  unfolding after_get set_and_test
  remember_and_set h action (some p) st = set_and_test h action st
  remember_and_set h action none st =
      let (got, w) = h.get action.setting st.machine in
      after_get h action got (record st { machine = w })

  fix_drift : Handler S T W → Action S → Agent S T W → Verdict × Agent S T W
  unfolding remember_and_set
  fix_drift h action st = remember_and_set h action (get_key action.identity st.priors) st

  after_test : Handler S T W → Action S → Called Bool → Agent S T W → Verdict × Agent S T W
  unfolding fix_drift panicked
  after_test h action (returns true) st = ((compliant, ""), st)
  after_test h action (returns false) st = fix_drift h action st
  after_test h action (errs e) st = ((error, e), st)
  after_test h action (not_applicable e) st = ((not_applicable, e), st)
  after_test h action (panics p) st = (panicked p, st)

  apply_with : Option (Handler S T W) → Action S → Agent S T W → Verdict × Agent S T W
  unfolding after_test
  apply_with none action st = (
    (
      error,
      str_append "this agent cannot apply \"" (str_append (io.kind action.setting) "\" settings"),
    ),
    st,
  )
  apply_with (some h) action st =
      let (r, w) = h.test action.setting st.machine in
      after_test h action r (record st { machine = w })

  unfoldable pub apply : List (Handler S T W) → Action S → Agent S T W → Verdict × Agent S T W
  unfolding apply_with handler_for
  apply handlers action st =
      if action.conflict
      then ((conflict, action.detail), st)
      else apply_with (handler_for handlers (io.kind action.setting)) action st
