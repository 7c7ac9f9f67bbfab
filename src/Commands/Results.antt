-- ===== src/Commands/Results.antt =====
-- A command's result is stored once.
pub mod Ended
pub mod Hook
pub mod Once
use retune.Base.{
  ==→eq, Bool, Bool-cases, List, [], any, ap, arith, false, if◌then◌else◌, inl, inr, none, refl,
  some, subst, sym, true, ℕ, ◌&&◌, ◌++◌, ◌==◌, ◌||◌, ◌↔◌, ◌∙◌, ◌∷◌, ◌≡◌, ◌≢◌, ◌⊎◌,
}
use retune.Commands.Rows.{Command, Db, is_open, current}
use retune.Commands.Store.{
  as_stored, completable, deliver_row, expire, expire_commands, find_command, find_result, lapsed,
  mark_command_running, mark_commands_delivered, pending_commands, start_row, startable,
  undelivered, update_where,
}
use retune.Commands.Service.{deliver, fresh, start, started}
use retune.Commands.Delivery.{Stored}
use retune.Commands.Queue.{QueueOptions, Setting, done, queue}
use retune.Commands.Queue.Placed.{queue-Placed}
use retune.Commands.Progress.{
  Advance, Advance-if, Advance-refl, both, deliver_row-Advance, expire-Advance, start_row-Advance,
}
use retune.Commands.Progress.Runs.{find_here, find_later}

-- Rows of one identifier are of one device, an open command has no result, and there is no result
-- without a command.
pub record Recorded (db : Db) : Type 0 where
  pub one_device :
      (c d : Command)
      → Stored c db.commands
      → Stored d db.commands
      → c.id ≡ d.id
      → c.device_id ≡ d.device_id
  pub open_free :
      (c : Command)
      → Stored c db.commands
      → is_open c.status ≡ true
      → find_result c.id db.results ≡ none
  pub has_row :
      (id : ℕ)
      → ((c : Command) → Stored c db.commands → c.id ≢ id)
      → find_result id db.results ≡ none

-- The rows advance; none is added or removed.
pub record Tracks (cs ds : List Command) : Type 0 where
  pub back : (d : Command) → Stored d ds → (c : Command) × Stored c cs × Advance c d
  pub forth : (c : Command) → Stored c cs → (d : Command) × Stored d ds × Advance c d

pub Stored-update :
    (test : Command → Bool) (set : Command → Command) (c : Command) (cs : List Command)
    → Stored c (update_where test set cs)
    → (d : Command) × Stored d cs × ((if test d then set d else d) ≡ c)
unfolding update_where
Stored-update test set c [] h = absurd h
Stored-update test set c (b ∷ cs) h = elim h [
  | inl e ↦ (b, inl refl, e)
  | inr k ↦ let (d, s, e) = Stored-update test set c cs k in (d, inr s, e)
]

-- A row that the update wrote, or one that it passed over.
pub written :
    (test : Command → Bool) (set : Command → Command) (t : Bool) (d c : Command)
    → test d ≡ t
    → (if t then set d else d) ≡ c
    → ((test d ≡ true) × (set d ≡ c)) ⊎ ((test d ≡ false) × (d ≡ c))
written test set true d c e h = inl (e, h)
written test set false d c e h = inr (e, h)

or_right : (a b : Bool) → a ≡ false → (a || b) ≡ true → b ≡ true
or_right false b e h = h
or_right true b e h = absurd (cc e)

or_true : (a : Bool) → (a || true) ≡ true
or_true true = refl
or_true false = refl

pub any-Stored :
    (test : Command → Bool) (cs : List Command)
    → any test cs ≡ true
    → (c : Command) × Stored c cs × (test c ≡ true)
any-Stored test [] h = absurd (cc h)
any-Stored test (c ∷ cs) h = elim (Bool-cases (test c)) [
  | inl e ↦ (c, inl refl, e)
  | inr e ↦
      let (d, s, t) = any-Stored test cs (or_right (test c) (any test cs) e h) in (d, inr s, t)
]

pub Stored-any :
    (test : Command → Bool) (c : Command) (cs : List Command)
    → Stored c cs
    → test c ≡ true
    → any test cs ≡ true
Stored-any test c [] h e = absurd h
Stored-any test c (d ∷ cs) h e = elim h [
  | inl k ↦ rw (subst (λ x. test x ≡ true) (sym k) e) refl
  | inr k ↦ rw (Stored-any test c cs k e) (or_true (test d))
]

-- What a completed row test says.
pub completable_iff :
    (id device : ℕ) (c : Command)
    → (completable id device c ≡ true)
      ↔ ((c.id ≡ id) × (c.device_id ≡ device) × (is_open c.status ≡ true))
unfolding completable
completable_iff id device c = (
  λ h.
      let (e, o) = both ((c.id == id) && (c.device_id == device)) (is_open c.status) h in
      let (i, d) = both (c.id == id) (c.device_id == device) e in
      (==→eq c.id id i, ==→eq c.device_id device d, o),
  λ h. ground (arith, h.0, h.1, h.2),
)

Stored-forth :
    (test : Command → Bool) (set : Command → Command) (c : Command) (cs : List Command)
    → Stored c cs
    → Stored (if test c then set c else c) (update_where test set cs)
unfolding update_where
Stored-forth test set c [] h = absurd h
Stored-forth test set c (d ∷ cs) h = elim h [
  | inl e ↦ inl (ap (λ x. if test x then set x else x) e)
  | inr k ↦ inr (Stored-forth test set c cs k)
]

pub update-Tracks :
    (test : Command → Bool) (set : Command → Command)
    → ((c : Command) → test c ≡ true → Advance c (set c))
    → (cs : List Command) → Tracks cs (update_where test set cs)
update-Tracks test set a cs = record {
  back = λ d s.
      let (c, k, e) = Stored-update test set d cs s in
      (c, k, subst (Advance c) e (Advance-if (test c) c (set c) (a c)));
  forth = λ c s. (
    (if test c then set c else c),
    Stored-forth test set c cs s,
    Advance-if (test c) c (set c) (a c),
  );
}

open_before : (c d : Command) → Advance c d → is_open d.status ≡ true → is_open c.status ≡ true
open_before c d a o = elim (Bool-cases (is_open c.status)) [
  | inl e ↦ e
  | inr e ↦
      let same : d ≡ c = a.final e in absurd (cc (subst (λ x. is_open x.status ≡ true) same o, e))
]

pub Recorded-Tracks :
    (db after : Db)
    → Recorded db
    → Tracks db.commands after.commands
    → after.results ≡ db.results
    → Recorded after
Recorded-Tracks db after w t same = record {
  one_device = λ c d s k e.
      let (c0, s0, a) = t.back c s in
      let (d0, k0, b) = t.back d k in
      a.same_device ∙ w.one_device c0 d0 s0 k0 (sym a.same_id ∙ e ∙ b.same_id) ∙ sym b.same_device;
  open_free = λ c s o.
      let (c0, s0, a) = t.back c s in
      subst (λ r. find_result c.id r ≡ none) (sym same)
        (subst (λ i. find_result i db.results ≡ none) (sym a.same_id)
          (w.open_free c0 s0 (open_before c0 c a o)));
  has_row = λ id none_here.
      subst (λ r. find_result id r ≡ none) (sym same)
        (w.has_row id (λ c s e. let (d, k, a) = t.forth c s in none_here d k (a.same_id ∙ e)));
}

pub deliver-Recorded : (now device : ℕ) (db : Db) → Recorded db → Recorded (deliver now device db).1
unfolding deliver expire_commands
deliver-Recorded now device db w =
    let current = expire_commands now db in
    marked (fresh (pending_commands device current)) current (
      Recorded-Tracks db current w
        (update-Tracks (lapsed now) (expire now) (expire-Advance now) db.commands) refl)
  where
    marked : (ids : List ℕ) (d : Db) → Recorded d → Recorded (mark_commands_delivered ids now d)
    marked [] d v = v
    marked (i ∷ ids) d v =
        Recorded-Tracks d (mark_commands_delivered (i ∷ ids) now d) v
          (update-Tracks (undelivered (i ∷ ids)) (deliver_row now)
            (deliver_row-Advance (i ∷ ids) now) d.commands)
          refl

started-Recorded :
    (device id : ℕ) (db : Db) (u : Bool × Db)
    → Recorded db
    → Recorded u.1
    → Recorded (started device id db u).1
started-Recorded device id db (true, after) w v = v
started-Recorded device id db (false, after) w v = w

pub start-Recorded :
    (now device id : ℕ) (db : Db) → Recorded db → Recorded (start now device id db).1
unfolding start mark_command_running
start-Recorded now device id db w =
    started-Recorded device id db (mark_command_running id device now db) w (
      Recorded-Tracks db (mark_command_running id device now db).1 w
        (update-Tracks (startable id device) (start_row now) (start_row-Advance id device now)
          db.commands)
        refl)

pub absent :
    (id : ℕ) (cs : List Command) (c : Command) → find_command id cs ≡ none → Stored c cs → c.id ≢ id
absent id [] c f h e = absurd h
absent id (b ∷ cs) c f h e = elim (Bool-cases (b.id == id)) [
  | inl t ↦ absurd (cc (find_here id b cs t, f))
  | inr t ↦ elim h [
    | inl k ↦
        let same : (b.id == id) ≡ true = ground (arith, ap {A = Command} (λ x. x.id) k, e) in
        absurd (cc (same, t))
    | inr k ↦ absent id cs c (sym (find_later id b cs t) ∙ f) k e
  ]
]

Stored-append :
    (c x : Command) (cs : List Command) → Stored x (cs ++ c ∷ []) → Stored x cs ⊎ (c ≡ x)
Stored-append c x [] h = elim h [ inl e ↦ inr e | inr k ↦ absurd k ]
Stored-append c x (b ∷ cs) h = elim h [
  | inl e ↦ inl (inl e)
  | inr k ↦ elim (Stored-append c x cs k) [ inl y ↦ inl (inr y) | inr e ↦ inr e ]
]

append-Stored : (c x : Command) (cs : List Command) → Stored x cs → Stored x (cs ++ c ∷ [])
append-Stored c x [] h = absurd h
append-Stored c x (b ∷ cs) h = elim h [ inl e ↦ inl e | inr k ↦ inr (append-Stored c x cs k) ]

pub Tracks-refl : (cs : List Command) → Tracks cs cs
Tracks-refl cs = record {
  back = λ d s. (d, s, Advance-refl d);
  forth = λ c s. (c, s, Advance-refl c);
}

-- A row with a new identifier is added.
append-Recorded :
    (c : Command) (db : Db)
    → find_command c.id db.commands ≡ none
    → Recorded db
    → Recorded (record db { commands = db.commands ++ c ∷ [] })
append-Recorded c db f w = record {
  one_device = λ x y s k e. elim (Stored-append c x db.commands s) [
    | inl s0 ↦ elim (Stored-append c y db.commands k) [
      | inl k0 ↦ w.one_device x y s0 k0 e
      | inr k0 ↦ absurd (absent c.id db.commands x f s0 (e ∙ sym (ap {A = Command} (λ z. z.id) k0)))
    ]
    | inr s0 ↦ elim (Stored-append c y db.commands k) [
      | inl k0 ↦
          absurd (absent c.id db.commands y f k0 (sym e ∙ sym (ap {A = Command} (λ z. z.id) s0)))
      | inr k0 ↦ ap {A = Command} (λ z. z.device_id) (sym s0 ∙ k0)
    ]
  ];
  open_free = λ x s o. elim (Stored-append c x db.commands s) [
    | inl s0 ↦ w.open_free x s0 o
    | inr s0 ↦
        subst {A = Command} (λ z. find_result z.id db.results ≡ none) s0
          (w.has_row c.id (λ y k. absent c.id db.commands y f k))
  ];
  has_row = λ i none_here. w.has_row i (λ x s. none_here x (append-Stored c x db.commands s));
}

-- The new command has a new identifier.
pub queue-Recorded :
    (setting : Setting) (now id : ℕ) (o : QueueOptions) (db after : Db) (c : Command)
    → find_command id db.commands ≡ none
    → queue setting now id o false db ≡ done (some (c, after))
    → Recorded db
    → Recorded after
queue-Recorded setting now id o db after c f q w =
    let p = queue-Placed setting now id o db after c q in
    let rows = db.commands ++ as_stored setting.jsonb c ∷ [] in
    Recorded-Tracks (record db { commands = rows }) after
      (append-Recorded (as_stored setting.jsonb c) db
        (subst (λ i. find_command i db.commands ≡ none) (sym p.id_is) f) w)
      (subst (Tracks rows) (sym p.commands_are) (Tracks-refl rows)) p.results_are
