-- ===== src/Commands/Results/Ended.antt =====
-- A command that has its result has ended.
use retune.Base.{
  ==→eq, Bool-cases, List, any, ap, arith, false, inl, inr, refl, subst, sym, true, ℕ, ◌==◌, ◌∙◌,
  ◌∷◌, ◌≡◌, ◌≢◌,
}
use retune.Commands.Rows.{
  Command, CommandResult, Db, Status, delivered, expired, failed, is_open, queued, running,
  succeeded, timed_out,
}
use retune.Commands.Store.{completable, complete_command, complete_row, find_result, update_where}
use retune.Commands.Delivery.{Stored}
use retune.Commands.Progress.{complete_row-Advance, rank}
use retune.Commands.Results.{
  Recorded, Recorded-Tracks, Stored-update, any-Stored, completable_iff, update-Tracks, written,
}

find_result_other :
    (id i : ℕ) (r : CommandResult) (rs : List CommandResult)
    → (r.command_id == i) ≡ false
    → find_result i (r ∷ rs) ≡ find_result i rs
unfolding find_result
find_result_other id i r rs h = rw h refl

apart : (m n : ℕ) → m ≢ n → (m == n) ≡ false
apart m n h = elim (Bool-cases (m == n)) [ inl t ↦ absurd (h (==→eq m n t)) | inr t ↦ t ]

terminal : (s : Status) → rank s ≡ 3 → is_open s ≡ false
terminal queued h = absurd (omega (arith, h))
terminal delivered h = absurd (omega (arith, h))
terminal running h = absurd (omega (arith, h))
terminal succeeded h = refl
terminal failed h = refl
terminal timed_out h = refl
terminal expired h = refl

-- After the update every row of the identifier has ended.
pub ended :
    (now device id : ℕ) (s : Status) (db : Db)
    → rank s ≡ 3
    → any (completable id device) db.commands ≡ true
    → Recorded db
    → (c : Command)
    → Stored c (update_where (completable id device) (complete_row s now) db.commands)
    → c.id ≡ id
    → is_open c.status ≡ false
ended now device id s db r found_one w c k same =
    let test = completable id device in
    let (x, stored, hit) = any-Stored test db.commands found_one in
    let (x_id, x_device, _) = (completable_iff id device x).0 hit in
    let (d, kd, e) = Stored-update test (complete_row s now) c db.commands k in
    elim (written test (complete_row s now) (test d) d c refl e) [
      | inl h ↦ subst {A = Command} (λ y. is_open y.status ≡ false) h.1 (terminal s r)
      | inr h ↦ elim (Bool-cases (is_open d.status)) [
        | inl o ↦
            let d_id : d.id ≡ id = ap {A = Command} (λ y. y.id) h.1 ∙ same in
            let d_device = w.one_device d x kd stored (d_id ∙ sym x_id) ∙ x_device in
            absurd (cc ((completable_iff id device d).1 (d_id, d_device, o), h.0))
        | inr o ↦ subst {A = Command} (λ y. is_open y.status ≡ false) h.1 o
      ]
    ]

pub no_longer : (s : Status) → is_open s ≡ false → is_open s ≡ true → ⊥
no_longer s a b = cc (a, b)

-- What a successful update and insertion leave.
pub store-Recorded :
    (now device id : ℕ) (s : Status) (db : Db) (row : CommandResult)
    → rank s ≡ 3
    → row.command_id ≡ id
    → any (completable id device) db.commands ≡ true
    → Recorded db
    → Recorded (record (complete_command id device s now db).1 { results = row ∷ db.results })
unfolding complete_command
store-Recorded now device id s db row r e found_one w =
    let test = completable id device in
    let set = complete_row s now in
    let rows = update_where test set db.commands in
    let t = update-Tracks test set (λ c. complete_row-Advance id device now s c r) db.commands in
    let v : Recorded (record db { commands = rows }) =
      Recorded-Tracks db (record db { commands = rows }) w t refl in
    let (x, stored, hit) = any-Stored test db.commands found_one in
    let (x_id, x_device, _) = (completable_iff id device x).0 hit in
    record {
      one_device = v.one_device;
      open_free = λ c k o.
          find_result_other c.id c.id row db.results (
            apart row.command_id c.id
              (λ h. no_longer c.status (ended now device id s db r found_one w c k (sym h ∙ e)) o))
          ∙ v.open_free c k o;
      has_row = λ i none_here.
          let (d, k, a) = t.forth x stored in
          find_result_other i i row db.results
            (apart row.command_id i (λ h. none_here d k (a.same_id ∙ x_id ∙ sym e ∙ h)))
          ∙ v.has_row i none_here;
    }
