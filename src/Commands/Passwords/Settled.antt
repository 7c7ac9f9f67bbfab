-- ===== src/Commands/Passwords/Settled.antt =====
-- The completion hook settles passwords and nothing else.
use retune.Base.{
  Bool, Text, bytes, false, if◌then◌else◌, refl, some, subst, sym, text_eq, true, ℕ, ◌≡◌,
}
use retune.Commands.Rows.{Db}
use retune.Commands.Passwords.{settle, settle_admin_password}
use retune.Commands.Progress.{Evolves, Evolves-refl}
use retune.Commands.Progress.Runs.{HookEvolves}
use retune.Commands.Results.Hook.{HookKeeps}

settle_admin_password-commands :
    (lower : Text → Text) (command at : ℕ) (is_success : Bool) (db : Db)
    → ((settle_admin_password lower command is_success at db).commands ≡ db.commands)
      × ((settle_admin_password lower command is_success at db).results ≡ db.results)
unfolding settle_admin_password
settle_admin_password-commands lower command at true db = (refl, refl)
settle_admin_password-commands lower command at false db = (refl, refl)

chosen :
    (t : Bool) (db settled after : Db)
    → (settled.commands ≡ db.commands) × (settled.results ≡ db.results)
    → (if t then some settled else some db) ≡ some after
    → (after.commands ≡ db.commands) × (after.results ≡ db.results)
chosen true db settled after k e =
    let same : settled ≡ after = cc e in
    subst {A = Db} (λ x. (x.commands ≡ db.commands) × (x.results ≡ db.results)) same k
chosen false db settled after k e =
    let same : db ≡ after = cc e in
    subst {A = Db} (λ x. (x.commands ≡ db.commands) × (x.results ≡ db.results)) same (refl, refl)

pub settle-HookKeeps : (lower : Text → Text) → HookKeeps (some (settle lower))
unfolding settle
settle-HookKeeps lower c s at db after e =
    chosen (text_eq c.kind (bytes "rotate_local_admin_password")) db _ after
      (settle_admin_password-commands lower c.id at _ db) e

pub settle-HookEvolves : (lower : Text → Text) → HookEvolves (some (settle lower))
settle-HookEvolves lower c s at db after e =
    subst (Evolves db.commands) (sym (settle-HookKeeps lower c s at db after e).0)
      (Evolves-refl db.commands)
