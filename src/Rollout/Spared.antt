-- ===== src/Rollout/Spared.antt =====
-- Which assignments a promotion leaves.
use retune.Base.{
  Bool, Bool-cases, List, Option, String, [], any, ap, arith, false, if◌then◌else◌, inl, inr, none,
  refl, some, true, ℕ, ◌==◌, ◌∷◌, ◌≡◌, ◌≢◌,
}
use retune.Rollout.Rows.{Assignment, Db, Rollout}
use retune.Rollout.Db.{
  M, delete_assignment, in_state, insert_audit, list_in_state, pure, update_rollout, without_id,
  ◌>>=◌, ◌>>◌,
}
use retune.Rollout.Db.Keeps.{Keeps, Keeps-bind, Keeps-pure}
use retune.Rollout.Moves.{
  Setting, actor, is_promoted, promote, promoted_with, remove_assignment, retire, save,
}

-- Some assignment has the identifier.
abbrev has_id : ℕ → List Assignment → Bool
has_id id = any (λ a. a.id == id)

abbrev pub assigned_id : ℕ → Db → Bool
assigned_id id db = has_id id db.assignments

-- The identifier is none of the three that the rollout records.
abbrev pub Spares : ℕ → Rollout → Type 0
Spares id ro =
    (ro.pilot_assignment_id ≢ some id)
    × (ro.exclude_assignment_id ≢ some id)
    × (ro.fleet_assignment_id ≢ some id)

-- None of these rollouts records the identifier, except that the one numbered `own` may.
abbrev pub OthersSpare : ℕ → ℕ → List Rollout → Type 0
OthersSpare id own [] = Unit
OthersSpare id own (r ∷ rs) = ((r.id == own) ≡ false → Spares id r) × OthersSpare id own rs

has_id-without_id :
    (id gone : ℕ) (rows : List Assignment)
    → gone ≢ id
    → has_id id (without_id gone rows) ≡ has_id id rows
unfolding without_id
has_id-without_id id gone [] n = refl
has_id-without_id id gone (a ∷ rows) n = elim (Bool-cases (a.id == gone)) [
  | inl e ↦ elim (Bool-cases (a.id == id)) [
    | inl e' ↦ absurd (ground arith)
    | inr e' ↦ simp (e, e', has_id-without_id id gone rows n)
  ]
  | inr e ↦ simp (e, has_id-without_id id gone rows n)
]

module _ (id : ℕ) where
  delete-Spares : (gone : ℕ) → gone ≢ id → Keeps (assigned_id id) (delete_assignment gone)
  unfolding delete_assignment
  delete-Spares gone n = record { at = λ db. has_id-without_id id gone db.assignments n }

  audit-Spares : (who action : String) (n : ℕ) → Keeps (assigned_id id) (insert_audit who action n)
  unfolding insert_audit
  audit-Spares who action n = record { at = λ db. refl }

  update-Spares : (ro : Rollout) → Keeps (assigned_id id) (update_rollout ro)
  unfolding update_rollout
  update-Spares ro = record { at = λ db. refl }

  remove-Spares : (o : Option ℕ) → o ≢ some id → Keeps (assigned_id id) (remove_assignment o)
  unfolding remove_assignment
  remove-Spares none n = Keeps-pure _ tt
  remove-Spares (some gone) n =
      Keeps-bind _ _ _ (delete-Spares gone λ e. n (ap some e)) λ _. audit-Spares _ _ _

  Keeps-case :
      (b : Bool) (m n : M (Unit {0}))
      → (b ≡ true → Keeps (assigned_id id) m)
      → (b ≡ false → Keeps (assigned_id id) n)
      → Keeps (assigned_id id) (if b then m else n)
  Keeps-case true m n h k = h refl
  Keeps-case false m n h k = k refl

  retire-Spares :
      (env : Setting) (ro : Rollout) (older : List Rollout)
      → OthersSpare id ro.id older
      → Keeps (assigned_id id) (retire env ro older)
  unfolding retire
  retire-Spares env ro [] h = Keeps-pure _ tt
  retire-Spares env ro (old ∷ rest) h =
      let others : Keeps (assigned_id id) (retire env ro rest) = retire-Spares env ro rest h.1 in
      Keeps-case (old.id == ro.id) _ _ (λ e. others)
        (λ e. Keeps-bind _ _ _ (remove-Spares old.fleet_assignment_id (h.0 e).2) λ _.
          Keeps-bind _ _ _ (remove-Spares old.pilot_assignment_id (h.0 e).0) λ _.
            Keeps-bind _ _ _ (remove-Spares old.exclude_assignment_id (h.0 e).1)
              λ _. Keeps-bind _ _ _ (update-Spares _) λ _. others)

  module _ (env : Setting) (ro : Rollout) (fleet : ℕ) where
    save-Spares :
        (r : Rollout) (who action : String) → Keeps (assigned_id id) (save env r who action)
    unfolding save
    save-Spares r who action = Keeps-bind _ _ _ (update-Spares _) λ _. audit-Spares _ _ _

    -- What promote does once it has the promoted rollouts.
    abbrev after_list : List Rollout → M Rollout
    after_list older = do
      remove_assignment ro.pilot_assignment_id
      remove_assignment ro.exclude_assignment_id
      retire env ro older
      save env (promoted_with env ro fleet) actor "agent_rollout.promoted"
      pure (promoted_with env ro fleet)

    after_list-Spares :
        (older : List Rollout)
        → Spares id ro
        → OthersSpare id ro.id older
        → Keeps (assigned_id id) (after_list older)
    after_list-Spares older s h = Keeps-bind _ _ _ (remove-Spares ro.pilot_assignment_id s.0) λ _.
        Keeps-bind _ _ _ (remove-Spares ro.exclude_assignment_id s.1) λ _.
          Keeps-bind _ _ _ (retire-Spares env ro older h)
            λ _. Keeps-bind _ _ _ (save-Spares _ _ _) λ _. Keeps-pure _ _

    -- A promotion leaves every assignment that neither the rollout itself nor another promoted rollout
    -- records: where the identifier is none of those, it is assigned afterwards exactly if it was.
    pub promote-Spares :
        (db : Db)
        → Spares id ro
        → OthersSpare id ro.id (in_state is_promoted db.rollouts)
        → assigned_id id (promote env ro fleet db).1 ≡ assigned_id id db
    unfolding promote ◌>>=◌ list_in_state
    promote-Spares db s h = (after_list-Spares (in_state is_promoted db.rollouts) s h).at db
