-- ===== src/Commands/Progress.antt =====
-- How the rows of the command table change: the steps of the service, and what any run of them keeps.
pub mod Runs
pub mod Handed
use retune.Base.{
  Bool, List, Option, [], arith, false, if◌then◌else◌, refl, some, subst, sym, true, ℕ, ◌&&◌, ◌++◌,
  ◌==◌, ◌∙◌, ◌∷◌, ◌≡◌, ◌≤◌,
}
use retune.Commands.Rows.{
  Command, Db, Status, delivered, expired, failed, is_open, is_queued, is_waiting, queued, running,
  succeeded, timed_out,
}
use retune.Commands.Store.{
  completable, complete_command, complete_row, deliver_row, expire, expire_commands, lapsed,
  mark_command_running, mark_commands_delivered, one_of, pending_commands, start_row, startable,
  undelivered, update_where,
}
use retune.Commands.Service.{deliver, fresh, start, started}

abbrev pub rank : Status → ℕ
rank queued = 0
rank delivered = 1
rank running = 2
rank _ = 3

-- One row over time: it stays the same command, its status never goes back, and from a terminal status
-- on nothing of it changes.
pub record Advance (c d : Command) : Type 0 where
  pub same_id : d.id ≡ c.id
  pub same_device : d.device_id ≡ c.device_id
  pub same_kind : d.kind ≡ c.kind
  pub same_payload : d.payload ≡ c.payload
  pub same_expiry : d.expires_at ≡ c.expires_at
  pub onward : rank c.status ≤ rank d.status
  pub final : is_open c.status ≡ false → d ≡ c

pub Advance-refl : (c : Command) → Advance c c
Advance-refl c = record {
  same_id = refl;
  same_device = refl;
  same_kind = refl;
  same_payload = refl;
  same_expiry = refl;
  onward = omega arith;
  final = λ h. refl;
}

open_stays : (c d : Command) → Advance c d → is_open c.status ≡ false → is_open d.status ≡ false
open_stays c d a h = subst (λ x. is_open x.status ≡ false) (sym (a.final h)) h

Advance-trans : (c d e : Command) → Advance c d → Advance d e → Advance c e
Advance-trans c d e a b = record {
  same_id = b.same_id ∙ a.same_id;
  same_device = b.same_device ∙ a.same_device;
  same_kind = b.same_kind ∙ a.same_kind;
  same_payload = b.same_payload ∙ a.same_payload;
  same_expiry = b.same_expiry ∙ a.same_expiry;
  onward = omega (arith, a.onward, b.onward);
  final = λ h. b.final (open_stays c d a h) ∙ a.final h;
}

-- The rows advance in place, and new ones may follow.
abbrev pub Evolves : List Command → List Command → Type 0
Evolves [] ds = Unit
Evolves (c ∷ cs) [] = ⊥
Evolves (c ∷ cs) (d ∷ ds) = Advance c d × Evolves cs ds

pub Evolves-refl : (cs : List Command) → Evolves cs cs
Evolves-refl [] = tt
Evolves-refl (c ∷ cs) = (Advance-refl c, Evolves-refl cs)

pub Evolves-trans : (cs ds es : List Command) → Evolves cs ds → Evolves ds es → Evolves cs es
Evolves-trans [] ds es p q = tt
Evolves-trans (c ∷ cs) [] es p q = absurd p
Evolves-trans (c ∷ cs) (d ∷ ds) [] p q = absurd q
Evolves-trans (c ∷ cs) (d ∷ ds) (e ∷ es) p q =
    (Advance-trans c d e p.0 q.0, Evolves-trans cs ds es p.1 q.1)

pub Evolves-append : (cs ds : List Command) → Evolves cs (cs ++ ds)
Evolves-append [] ds = tt
Evolves-append (c ∷ cs) ds = (Advance-refl c, Evolves-append cs ds)

pub Advance-if :
    (t : Bool) (c d : Command) → (t ≡ true → Advance c d) → Advance c (if t then d else c)
Advance-if true c d h = h refl
Advance-if false c d h = Advance-refl c

update_where-Evolves :
    (test : Command → Bool) (set : Command → Command)
    → ((c : Command) → test c ≡ true → Advance c (set c))
    → (cs : List Command) → Evolves cs (update_where test set cs)
unfolding update_where
update_where-Evolves test set h [] = tt
update_where-Evolves test set h (c ∷ cs) =
    (Advance-if (test c) c (set c) (h c), update_where-Evolves test set h cs)

-- A row that is open takes a status of a higher rank.
abbrev moved : Command → Status → Option ℕ → Option ℕ → Option ℕ → Command
moved c s d b e = record c { status = s; delivered_at = d; started_at = b; completed_at = e }

moved-Advance :
    (c : Command) (s : Status) (d b e : Option ℕ)
    → is_open c.status ≡ true
    → rank c.status ≤ rank s
    → Advance c (moved c s d b e)
moved-Advance c s d b e o r = record {
  same_id = refl;
  same_device = refl;
  same_kind = refl;
  same_payload = refl;
  same_expiry = refl;
  onward = r;
  final = λ h. absurd (ground (arith, o, h));
}

waiting_is_open : (s : Status) → is_waiting s ≡ true → (is_open s ≡ true) × (rank s ≤ 1)
waiting_is_open queued h = (refl, omega arith)
waiting_is_open delivered h = (refl, omega arith)
waiting_is_open running h = absurd (cc h)
waiting_is_open succeeded h = absurd (cc h)
waiting_is_open failed h = absurd (cc h)
waiting_is_open timed_out h = absurd (cc h)
waiting_is_open expired h = absurd (cc h)

rank_bound : (s : Status) → rank s ≤ 3
rank_bound queued = omega arith
rank_bound delivered = omega arith
rank_bound running = omega arith
rank_bound succeeded = omega arith
rank_bound failed = omega arith
rank_bound timed_out = omega arith
rank_bound expired = omega arith

pub both : (a b : Bool) → (a && b) ≡ true → (a ≡ true) × (b ≡ true)
both true b h = (refl, h)
both false b h = absurd (cc h)

queued_is_first : (s : Status) → is_queued s ≡ true → s ≡ queued
queued_is_first queued h = refl
queued_is_first delivered h = absurd (cc h)
queued_is_first running h = absurd (cc h)
queued_is_first succeeded h = absurd (cc h)
queued_is_first failed h = absurd (cc h)
queued_is_first timed_out h = absurd (cc h)
queued_is_first expired h = absurd (cc h)

-- Each update writes a row onward.
pub expire-Advance : (now : ℕ) (c : Command) → lapsed now c ≡ true → Advance c (expire now c)
unfolding lapsed
expire-Advance now c h =
    let w = waiting_is_open c.status (both _ _ h).0 in
    moved-Advance c expired c.delivered_at c.started_at (some now) w.0 (omega (arith, w.1))

pub deliver_row-Advance :
    (ids : List ℕ) (at : ℕ) (c : Command) → undelivered ids c ≡ true → Advance c (deliver_row at c)
unfolding undelivered
deliver_row-Advance ids at c h =
    let q = queued_is_first c.status (both (one_of ids c.id) _ h).1 in
    moved-Advance c delivered (some at) c.started_at c.completed_at
      (subst (λ s. is_open s ≡ true) (sym q) refl) (subst (λ s. rank s ≤ 1) (sym q) (omega arith))

pub start_row-Advance :
    (id device at : ℕ) (c : Command) → startable id device c ≡ true → Advance c (start_row at c)
unfolding startable
start_row-Advance id device at c h =
    let w = waiting_is_open c.status (both ((c.id == id) && (c.device_id == device)) _ h).1 in
    moved-Advance c running c.delivered_at (some at) c.completed_at w.0 (omega (arith, w.1))

pub complete_row-Advance :
    (id device at : ℕ) (s : Status) (c : Command)
    → rank s ≡ 3
    → completable id device c ≡ true
    → Advance c (complete_row s at c)
unfolding completable
complete_row-Advance id device at s c r h =
    moved-Advance c s c.delivered_at c.started_at (some at)
      (both ((c.id == id) && (c.device_id == device)) _ h).1 (omega (arith, rank_bound c.status, r))

expire_commands-Evolves :
    (now : ℕ) (db : Db) → Evolves db.commands (expire_commands now db).commands
unfolding expire_commands
expire_commands-Evolves now db =
    update_where-Evolves (lapsed now) (expire now) (expire-Advance now) db.commands

mark_commands_delivered-Evolves :
    (ids : List ℕ) (at : ℕ) (db : Db)
    → Evolves db.commands (mark_commands_delivered ids at db).commands
unfolding mark_commands_delivered
mark_commands_delivered-Evolves [] at db = Evolves-refl db.commands
mark_commands_delivered-Evolves (i ∷ ids) at db =
    update_where-Evolves (undelivered (i ∷ ids)) (deliver_row at) (deliver_row-Advance (i ∷ ids) at)
      db.commands

mark_command_running-Evolves :
    (id device at : ℕ) (db : Db)
    → Evolves db.commands (mark_command_running id device at db).1.commands
unfolding mark_command_running
mark_command_running-Evolves id device at db =
    update_where-Evolves (startable id device) (start_row at) (start_row-Advance id device at)
      db.commands

pub complete_command-Evolves :
    (id device at : ℕ) (s : Status) (db : Db)
    → rank s ≡ 3
    → Evolves db.commands (complete_command id device s at db).1.commands
unfolding complete_command
complete_command-Evolves id device at s db r =
    update_where-Evolves (completable id device) (complete_row s at)
      (λ c. complete_row-Advance id device at s c r) db.commands

pub deliver-Evolves :
    (now device : ℕ) (db : Db) → Evolves db.commands (deliver now device db).1.commands
unfolding deliver
deliver-Evolves now device db =
    let current = expire_commands now db in
    Evolves-trans db.commands current.commands _ (expire_commands-Evolves now db)
      (mark_commands_delivered-Evolves (fresh (pending_commands device current)) now current)

started-Evolves :
    (device id : ℕ) (db : Db) (r : Bool × Db)
    → Evolves db.commands r.1.commands
    → Evolves db.commands (started device id db r).1.commands
started-Evolves device id db (true, after) h = h
started-Evolves device id db (false, after) h = Evolves-refl db.commands

pub start-Evolves :
    (now device id : ℕ) (db : Db) → Evolves db.commands (start now device id db).1.commands
unfolding start
start-Evolves now device id db =
    started-Evolves device id db (mark_command_running id device now db)
      (mark_command_running-Evolves id device now db)
