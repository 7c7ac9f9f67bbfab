-- ===== src/Rollout/Db.antt =====
-- The queries of internal/server/store that a rollout makes. A query fails only by finding no row: a
-- broken connection is left out. A new identifier is the next unused one.
pub mod Keeps
pub mod Returns
use retune.Base.{
  Bool, List, Option, String, [], any, false, if◌then◌else◌, ltb, none, some, true, ℕ, ◌&&◌, ◌++◌,
  ◌+◌, ◌==◌, ◌∷◌,
}
use retune.Rollout.Rows.{
  Approval, ApprovalStatus, Assignment, Db, Group, Health, Mode, Policy, Rollout, State, pending,
  rejected, same_mode,
}

pub data Error : Type 0 where
  not_found not_halted nil_pointer : Error

pub data Res {ℓ} (A : Type ℓ) : Type ℓ where
  ok : A → Res A
  err : Error → Res A

-- What was written before an error stays written.
abbrev pub M {ℓ} : Type ℓ → Type ℓ
M A = Db → Res A × Db

abbrev pub continue {ℓ κ} : {A : Type ℓ} {B : Type κ} → Res A → (A → M B) → M B
continue (ok a) f = f a
continue (err e) f = λ db. (err e, db)

infixl 5 ◌>>=◌ ◌>>◌
unfoldable pub ◌>>=◌ {ℓ κ} : {A : Type ℓ} {B : Type κ} → M A → (A → M B) → M B
◌>>=◌ m f db = let (r, db') = m db in continue r f db'

abbrev pub ◌>>◌ {ℓ} : {B : Type ℓ} → M (Unit {0}) → M B → M B
m >> k = m >>= λ _. k

abbrev pub pure {ℓ} : {A : Type ℓ} → A → M A
pure a db = (ok a, db)

abbrev pub fail {ℓ} : {A : Type ℓ} → Error → M A
fail e db = (err e, db)

-- ListRolloutsInState, oldest first: rows stand in the order of their creation.
unfoldable pub in_state : (State → Bool) → List Rollout → List Rollout
in_state p [] = []
in_state p (r ∷ rs) = let rest = in_state p rs in if p r.state then r ∷ rest else rest

unfoldable pub list_in_state : (State → Bool) → M (List Rollout)
unfolding in_state
list_in_state p db = (ok (in_state p db.rollouts), db)

unfoldable pub find_rollout : ℕ → List Rollout → Res Rollout
find_rollout id [] = err not_found
find_rollout id (r ∷ rs) = if r.id == id then ok r else find_rollout id rs

unfoldable pub get_rollout : ℕ → M Rollout
unfolding find_rollout
get_rollout id db = (find_rollout id db.rollouts, db)

unfoldable pub has_version : ℕ → List Rollout → Bool
has_version v = any (λ r. r.agent_version_id == v)

-- A build already rolled out is left alone.
unfoldable pub create_rollout : Rollout → M Bool
unfolding has_version
create_rollout r db =
    if has_version r.agent_version_id db.rollouts
    then (ok false, db)
    else (ok true, record db { rollouts = db.rollouts ++ r ∷ [] })

-- A step's columns are written back; the rest of the row stays.
abbrev write_back : Rollout → Rollout → Rollout
write_back new old = record new {
  id = old.id;
  agent_version_id = old.agent_version_id;
  pilot_group_id = old.pilot_group_id;
  delay_hours = old.delay_hours;
  version = old.version;
}

unfoldable pub update_row : Rollout → List Rollout → List Rollout
update_row new [] = []
update_row new (r ∷ rs) = (if r.id == new.id then write_back new r else r) ∷ update_row new rs

unfoldable pub update_rollout : Rollout → M (Unit {0})
unfolding update_row
update_rollout r db = (ok tt, record db { rollouts = update_row r db.rollouts })

unfoldable pub find_approval : ℕ → List Approval → Res Approval
find_approval id [] = err not_found
find_approval id (a ∷ rows) = if a.id == id then ok a else find_approval id rows

unfoldable pub get_approval : ℕ → M Approval
unfolding find_approval
get_approval id db = (find_approval id db.approvals, db)

unfoldable pub create_approval : Approval → M (Unit {0})
create_approval a db = (ok tt, record db { approvals = db.approvals ++ a ∷ [] })

abbrev is_pending : ApprovalStatus → Bool
is_pending pending = true
is_pending _ = false

-- DecideApproval to rejected, of a pending approval that has not lapsed. What it finds otherwise, a
-- decided or missing approval, is no error for its caller here.
unfoldable pub reject_rows : ℕ → ℕ → List Approval → List Approval
reject_rows now id [] = []
reject_rows now id (a ∷ rows) =
    (if (a.id == id) && is_pending a.status && ltb now a.expires_at
      then record a { status = rejected }
      else a)
    ∷ reject_rows now id rows

unfoldable pub reject_approval : ℕ → ℕ → M (Unit {0})
unfolding reject_rows
reject_approval now id db = (ok tt, record db { approvals = reject_rows now id db.approvals })

abbrev pub is_for : ℕ → ℕ → Mode → Assignment → Bool
is_for item group mode a = (a.item_id == item) && (a.group_id == group) && same_mode a.mode mode

unfoldable pub find_assignment : ℕ → ℕ → Mode → List Assignment → Option Assignment
find_assignment item group mode [] = none
find_assignment item group mode (a ∷ rows) =
    if is_for item group mode a then some a else find_assignment item group mode rows

unfoldable pub get_assignment_for : ℕ → ℕ → Mode → M (Option Assignment)
unfolding find_assignment
get_assignment_for item group mode db = (ok (find_assignment item group mode db.assignments), db)

upsert : Option Assignment → Assignment → Db → Res ℕ × Db
upsert (some old) a db = (ok old.id, db)
upsert none a db =
    (ok a.id, record db { assignments = db.assignments ++ a ∷ []; next_id = db.next_id + 1 })

-- CreateAssignment: an assignment of the same item, group and mode is replaced and keeps its
-- identifier. Its options and times are left out.
unfoldable pub create_assignment : ℕ → ℕ → Mode → M ℕ
unfolding upsert find_assignment
create_assignment item group mode db =
    upsert (find_assignment item group mode db.assignments)
      (record { id = db.next_id; item_id = item; group_id = group; mode = mode }) db

unfoldable pub without_id : ℕ → List Assignment → List Assignment
without_id id [] = []
without_id id (a ∷ rows) = let rest = without_id id rows in if a.id == id then rest else a ∷ rest

unfoldable pub delete_assignment : ℕ → M (Unit {0})
unfolding without_id
delete_assignment id db = (ok tt, record db { assignments = without_id id db.assignments })

unfoldable pub find_group : ℕ → List Group → Res Group
find_group id [] = err not_found
find_group id (g ∷ gs) = if g.id == id then ok g else find_group id gs

unfoldable pub get_group : ℕ → M Group
unfolding find_group
get_group id db = (find_group id db.groups, db)

unfoldable pub build_health : ℕ → ℕ → M Health
build_health group version db = (ok (db.health group version), db)

unfoldable pub insert_audit : String → String → ℕ → M (Unit {0})
insert_audit actor action target db = (
  ok tt,
  record db {
    audit = db.audit ++ record { actor = actor; action = action; target_id = target } ∷ [];
  },
)

-- uuid.NewV7
unfoldable pub new_id : M ℕ
new_id db = (ok db.next_id, record db { next_id = db.next_id + 1 })

unfoldable pub get_policy : M Policy
get_policy db = (ok db.policy, db)
