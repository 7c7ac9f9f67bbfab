-- ===== src/SelfUpdate/Decide/Rules.antt =====
-- When decide.go updates, reports, and abandons an attempt.
use retune.Base.{ℕ, String, ◌≤◌, ◌≡◌, ◌≢◌, ◌↔◌, ◌⊎◌, Bool, true, false, arith, eq_iff}
use retune.SelfUpdate.Record.{Record, pending, rolled_back}
use retune.SelfUpdate.Decide.{action_update, decide, reconcile, reconcile_abandon}

-- An attempt at this version that was rolled back here or has not been settled.
abbrev pub Blocks : Record → String → Type 0
Blocks rec version =
    (rec.to_version ≡ version) × ((rec.status ≡ rolled_back) ⊎ (rec.status ≡ pending))

abbrev pub MayUpdate : String → String → Bool → ℕ → Record → Type 0
MayUpdate running assigned injected trusted rec =
    (injected ≡ true)
    × (assigned ≢ "")
    × (running ≢ assigned)
    × (trusted ≢ 0)
    × ¬ Blocks rec assigned

-- The build was not stamped, or has nothing to verify another assigned version with.
abbrev pub IsBuildFault : String → String → Bool → ℕ → Type 0
IsBuildFault running assigned injected trusted =
    (injected ≡ false) ⊎ ((assigned ≢ "") × (running ≢ assigned) × (trusted ≡ 0))

abbrev pub IsStale : Record → Bool → String → ℕ → Type 0
IsStale rec found running now =
    (found ≡ true) × (rec.status ≡ pending) × (rec.to_version ≢ running) × (rec.deadline ≤ now)

-- Decide updates exactly when the build is stamped, the assigned version is not empty and differs
-- from the running one, there is a trusted key, and the last attempt does not block the version.
pub decide-update_iff :
    (running assigned : String) (injected : Bool) (trusted : ℕ) (rec : Record)
    → ((decide running assigned injected trusted rec).action ≡ action_update)
      ↔ MayUpdate running assigned injected trusted rec
unfolding decide
decide-update_iff running assigned injected trusted rec = (
  λ h. ground (arith, eq_iff assigned "", eq_iff running assigned, eq_iff rec.to_version assigned),
  λ h. ground (arith, eq_iff assigned "", eq_iff running assigned, eq_iff rec.to_version assigned),
)

-- A refusal is reported exactly when the build is at fault: it was not stamped, or it has no
-- trusted key while another version that has a name is assigned to it.
pub decide-report_iff :
    (running assigned : String) (injected : Bool) (trusted : ℕ) (rec : Record)
    → ((decide running assigned injected trusted rec).report ≡ true)
      ↔ IsBuildFault running assigned injected trusted
unfolding decide
decide-report_iff running assigned injected trusted rec = (
  λ h. ground (arith, eq_iff assigned "", eq_iff running assigned, eq_iff rec.to_version assigned),
  λ h. ground (arith, eq_iff assigned "", eq_iff running assigned, eq_iff rec.to_version assigned),
)

-- A starting agent abandons an attempt exactly when it is pending, is for another version than the
-- running one, and its deadline has come.
pub reconcile-abandon_iff :
    (rec : Record) (found : Bool) (running : String) (now : ℕ)
    → (reconcile rec found running now ≡ reconcile_abandon) ↔ IsStale rec found running now
unfolding reconcile
reconcile-abandon_iff rec found running now = (
  λ h. ground (arith, eq_iff rec.to_version running),
  λ h. ground (arith, eq_iff rec.to_version running),
)
