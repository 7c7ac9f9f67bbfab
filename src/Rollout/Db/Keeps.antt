-- ===== src/Rollout/Db/Keeps.antt =====
-- What the queries leave of a part of the database.
use retune.Base.{
  Bool, List, Option, String, [], false, if◌then◌else◌, none, refl, some, true, ℕ, ◌==◌, ◌∙◌, ◌∷◌,
  ◌≡◌,
}
use retune.Rollout.Rows.{Approval, Assignment, Db, Mode, Rollout, State}
use retune.Rollout.Db.{
  Error, M, Res, build_health, continue, create_approval, create_assignment, delete_assignment, err,
  fail, get_approval, get_assignment_for, get_group, get_rollout, insert_audit, list_in_state,
  new_id, ok, pure, reject_approval, update_rollout, update_row, upsert, write_back, ◌>>=◌,
}

-- However it ends, the action leaves what `g` reads off the database.
pub record Keeps {ℓ} {A : Type ℓ} {X : Type 0} (g : Db → X) (m : M A) : Type ℓ where
  pub at : (db : Db) → g (m db).1 ≡ g db

module _ {X : Type 0} (g : Db → X) where
  continue-Keeps {ℓ κ} :
      {A : Type ℓ} {B : Type κ} (r : Res A) (f : A → M B) (db : Db)
      → ((a : A) → Keeps g (f a))
      → g (continue r f db).1 ≡ g db
  continue-Keeps (ok a) f db k = (k a).at db
  continue-Keeps (err e) f db k = refl

  pub Keeps-bind {ℓ κ} :
      {A : Type ℓ} {B : Type κ} (m : M A) (f : A → M B)
      → Keeps g m
      → ((a : A) → Keeps g (f a))
      → Keeps g (m >>= f)
  unfolding ◌>>=◌
  Keeps-bind m f h k = record { at = λ db. continue-Keeps (m db).0 f (m db).1 k ∙ h.at db }

  pub Keeps-pure {ℓ} : {A : Type ℓ} (a : A) → Keeps g (pure a)
  Keeps-pure a = record { at = λ db. refl }

  pub Keeps-fail {ℓ} : {A : Type ℓ} (e : Error) → Keeps g (fail {A = A} e)
  Keeps-fail e = record { at = λ db. refl }

  pub Keeps-if {ℓ} :
      {A : Type ℓ} (b : Bool) (m n : M A) → Keeps g m → Keeps g n → Keeps g (if b then m else n)
  Keeps-if true m n h k = h
  Keeps-if false m n h k = k

abbrev pub Columns : Type 0
Columns = (ℕ × ℕ) × ((Option ℕ × ℕ) × String)

-- The columns that are written once, with the row.
abbrev pub fixed : Rollout → Columns
fixed r = ((r.id, r.agent_version_id), ((r.pilot_group_id, r.delay_hours), r.version))

abbrev pub fixed_rows : List Rollout → List Columns
fixed_rows [] = []
fixed_rows (r ∷ rs) = fixed r ∷ fixed_rows rs

abbrev pub columns : Db → List Columns
columns db = fixed_rows db.rollouts

write-fixed : (new r : Rollout) (b : Bool) → fixed (if b then write_back new r else r) ≡ fixed r
write-fixed new r true = refl
write-fixed new r false = refl

update-fixed : (new : Rollout) (rs : List Rollout) → fixed_rows (update_row new rs) ≡ fixed_rows rs
unfolding update_row
update-fixed new [] = refl
update-fixed new (r ∷ rs) = cc (write-fixed new r (r.id == new.id), update-fixed new rs)

pub update_rollout-columns : (r : Rollout) → Keeps columns (update_rollout r)
unfolding update_rollout
update_rollout-columns r = record { at = λ db. update-fixed r db.rollouts }

pub delete_assignment-columns : (id : ℕ) → Keeps columns (delete_assignment id)
unfolding delete_assignment
delete_assignment-columns id = record { at = λ db. refl }

pub insert_audit-columns :
    (who action : String) (id : ℕ) → Keeps columns (insert_audit who action id)
unfolding insert_audit
insert_audit-columns who action id = record { at = λ db. refl }

pub create_approval-columns : (a : Approval) → Keeps columns (create_approval a)
unfolding create_approval
create_approval-columns a = record { at = λ db. refl }

pub reject_approval-columns : (now id : ℕ) → Keeps columns (reject_approval now id)
unfolding reject_approval
reject_approval-columns now id = record { at = λ db. refl }

pub get_approval-columns : (id : ℕ) → Keeps columns (get_approval id)
unfolding get_approval
get_approval-columns id = record { at = λ db. refl }

pub get_group-columns : (id : ℕ) → Keeps columns (get_group id)
unfolding get_group
get_group-columns id = record { at = λ db. refl }

pub get_rollout-columns : (id : ℕ) → Keeps columns (get_rollout id)
unfolding get_rollout
get_rollout-columns id = record { at = λ db. refl }

pub list_in_state-columns : (p : State → Bool) → Keeps columns (list_in_state p)
unfolding list_in_state
list_in_state-columns p = record { at = λ db. refl }

pub get_assignment_for-columns :
    (item group : ℕ) (mode : Mode) → Keeps columns (get_assignment_for item group mode)
unfolding get_assignment_for
get_assignment_for-columns item group mode = record { at = λ db. refl }

upsert-columns :
    (o : Option Assignment) (a : Assignment) (db : Db) → columns (upsert o a db).1 ≡ columns db
unfolding upsert
upsert-columns none a db = refl
upsert-columns (some old) a db = refl

pub create_assignment-columns :
    (item group : ℕ) (mode : Mode) → Keeps columns (create_assignment item group mode)
unfolding create_assignment
create_assignment-columns item group mode = record { at = λ db. upsert-columns _ _ db }

pub build_health-columns : (group version : ℕ) → Keeps columns (build_health group version)
unfolding build_health
build_health-columns group version = record { at = λ db. refl }

pub new_id-columns : Keeps columns new_id
unfolding new_id
new_id-columns = record { at = λ db. refl }

pub ruleset columns_rules = (
  Keeps-bind, Keeps-pure, Keeps-fail, Keeps-if, update_rollout-columns, delete_assignment-columns,
  insert_audit-columns, create_approval-columns, reject_approval-columns, get_approval-columns,
  get_group-columns, get_rollout-columns, list_in_state-columns, get_assignment_for-columns,
  create_assignment-columns, build_health-columns, new_id-columns,
)
