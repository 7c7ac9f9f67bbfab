-- ===== src/Policy/Apply/Evidence.antt =====
-- What a setting's reported status stands on, and what applying it leaves recorded.
use retune.Base.{
  Bool, Bool-cases, List, Option, false, if◌then◌else◌, inl, inr, none, refl, some, true, ◌≡◌,
}
use retune.Policy.Plan.{Action, Settings}
use retune.Policy.Agent.{
  Agent, Called, Handler, Prior, SettingStatus, compliant, conflict, errs, get_key, not_applicable,
  panics, remediated, returns,
}
use retune.Policy.Apply.{
  Verdict, after_get, after_set, after_test, apply, apply_with, fix_drift, handler_for, panicked,
  remember_and_set, set_and_test, test_again, remember,
}

-- The setting is reported as holding.
abbrev pub Holding : SettingStatus → Type 0
Holding compliant = Unit
Holding remediated = Unit
Holding _ = ⊥

module _ {S T W : Type 0} (io : Settings S) (a : Action S) where
  -- The last that was done to the machine is the handler's test of the setting, which returned true.
  abbrev pub TestedBy : Handler S T W → Agent S T W → Type 0
  TestedBy h st =
      (w : W) × (((h.test a.setting w).0 ≡ returns true) × (st.machine ≡ (h.test a.setting w).1))

  abbrev Backed : Handler S T W → Verdict × Agent S T W → Type 0
  Backed h (v, st) = Holding v.0 → TestedBy h st

  module _ (h : Handler S T W) where
    after_set-Backed :
        (w : W) (r : Called Bool) (st : Agent S T W)
        → (h.test a.setting w).0 ≡ r
        → st.machine ≡ (h.test a.setting w).1
        → Holding (after_set r).0
        → TestedBy h st
    unfolding after_set panicked
    after_set-Backed w (returns true) st e m k = (w, (e, m))
    after_set-Backed w (returns false) st e m k = absurd k
    after_set-Backed w (errs x) st e m k = absurd k
    after_set-Backed w (not_applicable x) st e m k = absurd k
    after_set-Backed w (panics x) st e m k = absurd k

    test_again-Backed :
        (r : Called (Unit {0})) (st : Agent S T W) → Backed h (test_again io h a r st)
    unfolding test_again panicked
    test_again-Backed (returns _) st k =
        after_set-Backed st.machine _ (record st { machine = (h.test a.setting st.machine).1 }) refl
          refl k
    test_again-Backed (errs e) st k = absurd k
    test_again-Backed (not_applicable e) st k = absurd k
    test_again-Backed (panics p) st k = absurd k

    set_and_test-Backed : (st : Agent S T W) → Backed h (set_and_test io h a st)
    unfolding set_and_test
    set_and_test-Backed st =
        test_again-Backed _ (record st { machine = (h.set a.setting st.machine).1 })

    after_get-Backed : (got : Called T) (st : Agent S T W) → Backed h (after_get io h a got st)
    unfolding after_get panicked
    after_get-Backed (returns state) st k = set_and_test-Backed (remember io state a st) k
    after_get-Backed (errs e) st k = set_and_test-Backed st k
    after_get-Backed (not_applicable e) st k = set_and_test-Backed st k
    after_get-Backed (panics p) st k = absurd k

    remember_and_set-Backed :
        (p : Option (Prior S T)) (st : Agent S T W) → Backed h (remember_and_set io h a p st)
    unfolding remember_and_set
    remember_and_set-Backed (some p) st = set_and_test-Backed st
    remember_and_set-Backed none st =
        after_get-Backed _ (record st { machine = (h.get a.setting st.machine).1 })

    after_test-Backed :
        (w : W) (r : Called Bool) (st : Agent S T W)
        → (h.test a.setting w).0 ≡ r
        → st.machine ≡ (h.test a.setting w).1
        → Backed h (after_test io h a r st)
    unfolding after_test fix_drift panicked
    after_test-Backed w (returns true) st e m k = (w, (e, m))
    after_test-Backed w (returns false) st e m k = remember_and_set-Backed _ st k
    after_test-Backed w (errs x) st e m k = absurd k
    after_test-Backed w (not_applicable x) st e m k = absurd k
    after_test-Backed w (panics x) st e m k = absurd k

  -- There is no conflict, and the handler for the setting's kind has tested it.
  abbrev pub Evident : List (Handler S T W) → Agent S T W → Type 0
  Evident handlers st =
      (a.conflict ≡ false)
      × ((h : Handler S T W) × ((handler_for handlers (io.kind a.setting) ≡ some h)
            × TestedBy h st))

  apply_with-Evident :
      (handlers : List (Handler S T W)) (o : Option (Handler S T W)) (st : Agent S T W)
      → a.conflict ≡ false
      → handler_for handlers (io.kind a.setting) ≡ o
      → Holding (apply_with io o a st).0.0
      → Evident handlers (apply_with io o a st).1
  unfolding apply_with
  apply_with-Evident handlers none st c e k = absurd k
  apply_with-Evident handlers (some h) st c e k = (
    c,
    (
      h,
      (
        e,
        after_test-Backed h st.machine _ (record st { machine = (h.test a.setting st.machine).1 })
            refl refl k,
      ),
    ),
  )

  by_conflict-Evident :
      (handlers : List (Handler S T W)) (st : Agent S T W) (b : Bool)
      → a.conflict ≡ b
      → Holding
          (if b
            then ((conflict, a.detail), st)
            else apply_with io (handler_for handlers (io.kind a.setting)) a st).0.0
      → Evident handlers
          (if b
            then ((conflict, a.detail), st)
            else apply_with io (handler_for handlers (io.kind a.setting)) a st).1
  by_conflict-Evident handlers st true e k = absurd k
  by_conflict-Evident handlers st false e k = apply_with-Evident handlers _ st e refl k

  -- Whatever the handlers do, a setting that is reported as compliant or remediated is not in conflict,
  -- and the last that was done to the machine is the test of its handler, which returned true.
  pub apply-Evident :
      (handlers : List (Handler S T W)) (st : Agent S T W)
      → Holding (apply io handlers a st).0.0
      → Evident handlers (apply io handlers a st).1
  unfolding apply
  apply-Evident handlers st k = by_conflict-Evident handlers st a.conflict refl k

  module _ (h : Handler S T W) where
    test_again-priors :
        (r : Called (Unit {0})) (st : Agent S T W) → (test_again io h a r st).1.priors ≡ st.priors
    unfolding test_again
    test_again-priors (returns _) st = refl
    test_again-priors (errs e) st = refl
    test_again-priors (not_applicable e) st = refl
    test_again-priors (panics p) st = refl

    after_test-priors :
        (p : Prior S T) (r : Called Bool) (st : Agent S T W)
        → get_key a.identity st.priors ≡ some p
        → (after_test io h a r st).1.priors ≡ st.priors
    unfolding after_test fix_drift remember_and_set set_and_test
    after_test-priors p (returns true) st e = refl
    after_test-priors p (returns false) st e = rw e (test_again-priors _ _)
    after_test-priors p (errs x) st e = refl
    after_test-priors p (not_applicable x) st e = refl
    after_test-priors p (panics x) st e = refl

  apply_with-priors :
      (p : Prior S T) (o : Option (Handler S T W)) (st : Agent S T W)
      → get_key a.identity st.priors ≡ some p
      → (apply_with io o a st).1.priors ≡ st.priors
  unfolding apply_with
  apply_with-priors p none st e = refl
  apply_with-priors p (some h) st e = after_test-priors h p _ _ e

  -- Applying a setting whose state was recorded before leaves all recorded states as they are,
  -- whatever the handlers do.
  pub apply-priors :
      (handlers : List (Handler S T W)) (p : Prior S T) (st : Agent S T W)
      → get_key a.identity st.priors ≡ some p
      → (apply io handlers a st).1.priors ≡ st.priors
  unfolding apply
  apply-priors handlers p st e = elim (Bool-cases a.conflict) [
    | inl c ↦ simp c
    | inr c ↦ simp (c, apply_with-priors p (handler_for handlers (io.kind a.setting)) st e)
  ]
