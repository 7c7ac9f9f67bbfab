-- ===== src/Commands/Progress/Handed.antt =====
-- A queued command is handed out until it ends or lapses.
use retune.Base.{
  Bool-cases, List, Option, [], arith, false, inl, inr, none, some, subst, sym, true, ℕ, ◌++◌, ◌<◌,
  ◌==◌, ◌∙◌, ◌∷◌, ◌≡◌,
}
use retune.Commands.Rows.{Command, Db, is_open}
use retune.Commands.Store.{as_stored, find_command, lapsed}
use retune.Commands.Service.{OnComplete, deliver, order_of}
use retune.Commands.Queue.{QueueOptions, Setting, done, queue}
use retune.Commands.Queue.Placed.{queue-Placed}
use retune.Commands.Progress.{Advance}
use retune.Commands.Progress.Runs.{HookEvolves, Run, find_here, find_later, run-Advance}
use retune.Commands.Delivery.{Listed, Stored, deliver-Owed_iff}

find_command-append :
    (id : ℕ) (c : Command) (cs : List Command)
    → find_command id cs ≡ none
    → c.id ≡ id
    → find_command id (cs ++ c ∷ []) ≡ some c
unfolding find_command
find_command-append id c [] h e = find_here id c [] (ground (arith, e))
find_command-append id c (b ∷ cs) h e = elim (Bool-cases (b.id == id)) [
  | inl t ↦ absurd (cc (find_here id b cs t, h))
  | inr t ↦
      find_later id b (cs ++ c ∷ []) t
      ∙ find_command-append id c cs (sym (find_later id b cs t) ∙ h) e
]

pub find_command-Stored :
    (id : ℕ) (c : Command) (cs : List Command) → find_command id cs ≡ some c → Stored c cs
unfolding find_command
find_command-Stored id c [] h = absurd (cc h)
find_command-Stored id c (b ∷ cs) h = elim (Bool-cases (b.id == id)) [
  | inl t ↦ inl (cc (find_here id b cs t, h))
  | inr t ↦ inr (find_command-Stored id c cs (sym (find_later id b cs t) ∙ h))
]

order_of-eq : (c d : Command) → Advance c d → order_of d ≡ order_of c
order_of-eq c d a = cc (a.same_id, a.same_kind, a.same_payload)

not_yet_lapsed : (later : ℕ) (c : Command) → later < c.expires_at → lapsed later c ≡ false
unfolding lapsed
not_yet_lapsed later c h = ground arith

module _ (setting : Setting) (hook : Option OnComplete) (keeps : HookEvolves hook) where
  -- A command that was queued under a new identifier is handed out to its device, after any run of the
  -- service, at every poll in time for its expiry, if it has not ended by then: its identifier, its type
  -- and its payload as the jsonb column wrote it.
  pub queue-Handed :
      (now id later : ℕ) (o : QueueOptions) (db mid after : Db) (c d : Command)
      → find_command id db.commands ≡ none
      → queue setting now id o false db ≡ done (some (c, mid))
      → Run setting hook mid after
      → find_command id after.commands ≡ some d
      → is_open d.status ≡ true
      → later < c.expires_at
      → Listed (order_of (as_stored setting.jsonb c)) (deliver later o.device_id after).0
  queue-Handed now id later o db mid after c d unused q run f op in_time =
      let row = as_stored setting.jsonb c in
      let p = queue-Placed setting now id o db mid c q in
      let begun : find_command id mid.commands ≡ some row =
        subst (λ cs. find_command id cs ≡ some row) (sym p.commands_are)
          (find_command-append id row db.commands unused p.id_is) in
      let (x, g, a) = run-Advance setting hook keeps mid after id row run begun in
      let same : x ≡ d = cc (g, f) in
      let b : Advance row d = subst (Advance row) same a in
      (deliver-Owed_iff later o.device_id after (order_of row)).1 (record {
        row = d;
        stored = find_command-Stored id d after.commands f;
        is_order = order_of-eq row d b;
        for_device = b.same_device ∙ p.device_is;
        row_open = op;
        not_lapsed = not_yet_lapsed later d (subst (λ t. later < t) (sym b.same_expiry) in_time);
      })
