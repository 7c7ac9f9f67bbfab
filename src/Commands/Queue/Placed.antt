-- ===== src/Commands/Queue/Placed.antt =====
-- What Queue has done where it succeeds.
use retune.Base.{
  Text, [], ap, false, is_blank, leb, length, not, refl, some, subst, sym, trim_space, ℕ, ◌++◌, ◌+◌,
  ◌||◌, ◌∷◌, ◌≡◌,
}
use retune.Commands.Rows.{AuditEntry, Command, Db, is_active, queued}
use retune.Commands.Store.{as_stored, create_command, find_device}
use retune.Commands.Service.{bad_request, device_not_active, not_found}
use retune.Commands.Payload.{Kind, kind_of, normalize}
use retune.Commands.Queue.{
  QueueOptions, Setting, admit, asked_ttl, audit_of, cap_ttl, done, hostname_confirmed,
  insert_audit, is_wipe, max_wipe_reason, new_command, place, queue, signed_ttl,
}
use retune.Commands.Queue.Wipes.{bind-done, found-done, require-done}

pub record Placed (jsonb : Text → Text) (id now : ℕ) (o : QueueOptions) (db after : Db)
    (c : Command) : Type 0 where
  pub ttl : ℕ
  pub id_is : c.id ≡ id
  pub device_is : c.device_id ≡ o.device_id
  pub status_is : c.status ≡ queued
  pub expiry_is : c.expires_at ≡ now + ttl
  pub commands_are : after.commands ≡ db.commands ++ as_stored jsonb c ∷ []
  pub results_are : after.results ≡ db.results

module _ (setting : Setting) where
  place-Placed :
      (now id ttl : ℕ) (payload : Text) (o : QueueOptions) (entry : AuditEntry) (db after : Db)
      (c : Command)
      → done (place setting false (new_command setting now id payload ttl o) entry db)
        ≡ done (some (c, after))
      → Placed setting.jsonb id now o db after c
  unfolding create_command
  place-Placed now id ttl payload o entry db after c h =
      let row = new_command setting now id payload ttl o in
      let same_row : row ≡ c = cc h in
      let same_db : insert_audit setting entry (create_command setting.jsonb row db) ≡ after =
        cc h in
      subst (λ x. Placed setting.jsonb id now o db after x) same_row
        (record {
          ttl = ttl;
          id_is = refl;
          device_is = refl;
          status_is = refl;
          expiry_is = refl;
          commands_are = sym (ap {A = Db} (λ x. x.commands) same_db);
          results_are = sym (ap {A = Db} (λ x. x.results) same_db);
        })

  admit-Placed :
      (k : Kind) (payload : Text) (now id : ℕ) (o : QueueOptions) (db after : Db) (c : Command)
      → admit setting k payload now id o false db ≡ done (some (c, after))
      → Placed setting.jsonb id now o db after c
  unfolding admit
  admit-Placed k payload now id o db after c h =
      let (_, h1) =
        require-done bad_request (not (is_wipe k) || not (is_blank (trim_space o.reason))) _ _ h in
      let (_, h2) =
        require-done bad_request
          (not (is_wipe k) || leb (length (trim_space o.reason)) max_wipe_reason) _ _ h1 in
      let (ttl, _, h3) =
        bind-done (signed_ttl setting k o.device_id payload now (cap_ttl k (asked_ttl o.ttl))) _ _
          h2 in
      let (d, _, h4) = found-done not_found (find_device o.device_id db.devices) _ _ h3 in
      let (_, h5) = require-done device_not_active (is_active d.status) _ _ h4 in
      let (_, h6) = require-done bad_request (hostname_confirmed setting k o d) _ _ h5 in
      place-Placed now id ttl payload o (audit_of setting k id payload o d) db after c h6

  pub queue-Placed :
      (now id : ℕ) (o : QueueOptions) (db after : Db) (c : Command)
      → queue setting now id o false db ≡ done (some (c, after))
      → Placed setting.jsonb id now o db after c
  unfolding queue
  queue-Placed now id o db after c h =
      let (k, e, h1) = found-done bad_request (kind_of o.kind) _ _ h in
      let (payload, n, h2) = found-done bad_request (normalize setting.json k o.payload) _ _ h1 in
      admit-Placed k payload now id o db after c h2
