-- ===== src/SelfUpdate/Supervise/Verdict.antt =====
-- What nil from Supervise and from its rollback promises.
use retune.Base.{
  String, none, refl, some, true, ◌≡◌, ◌⊎◌, Bool, List, [], ◌∷◌, false, if◌then◌else◌, inl, inr,
  subst, sym,
}
use retune.SelfUpdate.Record.{Record, rolled_back, pending}
use retune.SelfUpdate.Device.{
  Act, Ctx, Device, Err, set_bin_path, start, stop, wrap, ◌>>◌, Entry, cancelled, read_builds,
  remove_build, remove_record, write_record, pure, World, look, read_record, set_recovery_actions,
}
use retune.SelfUpdate.Device.Keeps.{
  Keeps, Keeps-atomic, Keeps-if, Keeps-ignore, Keeps-look, Keeps-pure, Keeps-try,
}
use retune.SelfUpdate.Device.Ensures.{
  Ensures, Ensures-call, Ensures-pure, Ensures-try, Ensures-atomic, Ensures-weaken, Ensures-bind,
  Ensures-ignore,
}
use retune.SelfUpdate.Supervise.{
  Exit, polling, restore_build, returned, after_failed_restore, cancel, keep, prune_entries,
  prune_old_builds, rollback, Tick, meet, settle, watch, carry_out, is_pending, supervise,
  supervise_found,
}

abbrev Any : Device → Type 0
Any d = Unit

-- The service runs the build at `path` with the record's arguments.
abbrev pub Serves : String → Record → Device → Type 0
Serves path rec d =
    (d.service.bin_path ≡ path) × (d.service.args ≡ rec.from_args) × (d.service.running ≡ true)

-- The update stood: the new build runs, and the record is gone.
abbrev pub Stands : Record → Device → Type 0
Stands rec d = (d.file ≡ none) × Serves rec.to_bin_path rec d

-- The previous build runs, and the record says that the update was rolled back, and why.
abbrev pub RolledBack : Record → String → Device → Type 0
RolledBack rec why d =
    (d.file ≡ some (record rec { status = rolled_back; detail = why }))
    × Serves rec.from_bin_path rec d

-- The two ways in which an update is over.
abbrev pub IsSettled : Record → Device → Type 0
IsSettled rec d = Stands rec d ⊎ ((why : String) × RolledBack rec why d)

abbrev OnNil : (Device → Type 0) → Err → Device → Type 0
OnNil Q none d = Q d
OnNil Q (some e) d = Unit

abbrev OnExit : (Device → Type 0) → Exit → Device → Type 0
OnExit Q (returned e) d = OnNil Q e d
OnExit Q polling d = Unit

module _ {P R : Device → Type 0} where
  -- An error ends the run, so only nil's promise goes on.
  seq :
      {Q : Device → Type 0} (m n : Act Err)
      → Ensures P m (OnNil R)
      → Ensures R n (OnNil Q)
      → Ensures P (m >> n) (OnNil Q)
  seq m n h k = Ensures-try _ _ _ (OnNil R) h (λ e. Ensures-pure _ (λ d p. tt)) k

  wrapped :
      (what : String) (m : Act Err) → Ensures P m (OnNil R) → Ensures P (wrap what m) (OnNil R)
  wrapped what m h =
      Ensures-try _ _ _ (OnNil R) h (λ e. Ensures-pure _ (λ d p. tt)) (Ensures-pure _ (λ d p. p))

restore_build-Serves :
    (ctx : Ctx) (rec : Record)
    → Ensures Any (restore_build ctx rec) (OnNil (Serves rec.from_bin_path rec))
unfolding restore_build stop set_bin_path start
restore_build-Serves ctx rec =
    let Pointed : Device → Type 0 =
      λ d. (d.service.bin_path ≡ rec.from_bin_path) × (d.service.args ≡ rec.from_args) in
    seq {R = Pointed} _ _
      (seq {R = Any} _ _
        (wrapped {R = Any} _ _ (Ensures-call _ _ (λ d p. tt) (λ d e p. tt) (λ d e p. tt)))
        (wrapped {R = Pointed} _ _
          (Ensures-call _ _ (λ d p. (refl, refl)) (λ d e p. tt) (λ d e p. tt))))
      (wrapped _ _ (Ensures-call _ _ (λ d p. (p.0, p.1, refl)) (λ d e p. tt) (λ d e p. tt)))

module _ (rec : Record) where
  cancel-fails : Ensures Any (cancel rec) (OnNil (λ _. ⊥))
  unfolding cancel remove_record
  cancel-fails =
      seq {R = Any} _ _
        (seq {R = Any} _ _
          (wrapped _ _ (Ensures-weaken (restore_build-Serves cancelled rec) (λ d p. p) weak))
          (wrapped _ _ (Ensures-atomic _ _ (λ d p. tt) (λ d e p. tt))))
        (Ensures-pure _ (λ d p. tt))
    where
      weak : (e : Err) (d : Device) → OnNil (Serves rec.from_bin_path rec) e d → OnNil Any e d
      weak none d p = tt
      weak (some e) d p = tt

  remove_build-Stands : (name : String) → Keeps (Stands rec) (remove_build name)
  unfolding remove_build
  remove_build-Stands name = Keeps-atomic _ λ d h. h

  prune_entries-Stands : (es : List Entry) → Keeps (Stands rec) (prune_entries rec es)
  unfolding prune_entries
  prune_entries-Stands [] = Keeps-pure none
  prune_entries-Stands (e ∷ es) =
      Keeps-if _ _ _ (Keeps-ignore _ _ (remove_build-Stands e.name) (prune_entries-Stands es))
        (prune_entries-Stands es)

  prune_old_builds-Stands : Keeps (Stands rec) (prune_old_builds rec)
  unfolding prune_old_builds read_builds
  prune_old_builds-Stands =
      Keeps-try _ _ _ (Keeps-atomic _ λ d h. h) (λ e. Keeps-pure _)
        (Keeps-look _ λ d. prune_entries-Stands d.builds)

  keep-Stands : Ensures (Serves rec.to_bin_path rec) (keep rec) (OnNil (Stands rec))
  unfolding keep remove_record
  keep-Stands =
      seq {R = Stands rec} _ _ (wrapped _ _ (Ensures-atomic _ _ (λ d p. (refl, p)) (λ d e p. tt)))
        (record { at = λ w p. stood _ _ (prune_old_builds-Stands.at w p) })
    where
      stood : (e : Err) (d : Device) → Stands rec d → OnNil (Stands rec) e d
      stood none d p = p
      stood (some e) d p = tt

module _ (same_path : String → String → Bool) (rec : Record) where
  after_failed_restore-fails :
      (why e : String) → Ensures Any (after_failed_restore same_path rec why e) (OnNil (λ _. ⊥))
  unfolding after_failed_restore write_record
  after_failed_restore-fails why e =
      Ensures-bind _ _ (λ _. Any) (record { at = λ w p. tt })
        (λ path.
          Ensures-try _ _ _ (λ _. Any) (Ensures-atomic _ _ (λ d p. tt) (λ d e p. tt))
            (λ e. Ensures-pure _ (λ d p. tt)) (Ensures-pure _ (λ d p. tt)))

  rollback-RolledBack :
      (ctx : Ctx) (why : String)
      → Ensures Any (rollback same_path ctx rec why) (OnNil (RolledBack rec why))
  unfolding rollback write_record
  rollback-RolledBack ctx why =
      Ensures-try _ _ _ (OnNil (Serves rec.from_bin_path rec)) (restore_build-Serves ctx rec)
        (λ e. Ensures-weaken (after_failed_restore-fails why e) (λ d p. tt) never)
        (wrapped _ _ (Ensures-atomic _ _ (λ d p. (refl, p)) (λ d e p. tt)))
    where
      never : (e : Err) (d : Device) → OnNil (λ _. ⊥) e d → OnNil (RolledBack rec why) e d
      never none d p = absurd p
      never (some e) d p = tt

  settle-OnExit :
      {P R : Device → Type 0} (m : Act Err)
      → Ensures P m (OnNil R)
      → ((d : Device) → R d → IsSettled rec d)
      → Ensures P (settle m) (OnExit (IsSettled rec))
  settle-OnExit {R = R} m h good = Ensures-bind _ _ (OnNil R) h end
    where
      end : (e : Err) → Ensures (OnNil R e) (pure (returned e)) (OnExit (IsSettled rec))
      end none = Ensures-pure _ good
      end (some e) = Ensures-pure _ (λ d p. tt)

  roll_and_settle :
      (P : Device → Type 0) (ctx : Ctx) (why : String)
      → Ensures P (settle (rollback same_path ctx rec why)) (OnExit (IsSettled rec))
  roll_and_settle P ctx why =
      settle-OnExit _ (Ensures-weaken (rollback-RolledBack ctx why) (λ d p. tt) (λ e d p. p))
        (λ d p. inr (why, p))

  Ensures-if :
      {P : Device → Type 0} {Q : Exit → Device → Type 0} (b : Bool) (m n : Act Exit)
      → Ensures P m Q
      → Ensures P n Q
      → Ensures P (if b then m else n) Q
  Ensures-if true m n h k = h
  Ensures-if false m n h k = k

  watch-IsSettled :
      (ticks : List Tick)
      → Ensures (Serves rec.to_bin_path rec) (watch same_path rec ticks) (OnExit (IsSettled rec))
  unfolding watch meet
  watch-IsSettled [] = Ensures-pure _ (λ d p. tt)
  watch-IsSettled (t ∷ ts) =
      let round : Ensures (Serves rec.to_bin_path rec) _ (OnExit (IsSettled rec)) =
        Ensures-if _ _ _ (settle-OnExit _ (keep-Stands rec) (λ d p. inl p)) (
          Ensures-if _ _ _ (roll_and_settle _ _ _) (
            Ensures-if _ _ _
              (settle-OnExit _ (Ensures-weaken (cancel-fails rec) (λ d p. tt) (λ e d p. p))
                (λ d p. absurd p))
              (watch-IsSettled ts))) in
      record { at = λ w p. round.at (record w { device = record w.device { file = t.file } }) p }

  carry_out-IsSettled :
      (ctx : Ctx) (ticks : List Tick)
      → Ensures Any (carry_out same_path ctx rec ticks) (OnExit (IsSettled rec))
  unfolding carry_out set_bin_path set_recovery_actions start
  carry_out-IsSettled ctx ticks =
      let Pointed : Device → Type 0 =
        λ d. (d.service.bin_path ≡ rec.to_bin_path) × (d.service.args ≡ rec.from_args) in
      Ensures-try _ _ _ (λ _. Any) (record { at = λ w p. tt })
        (λ e. Ensures-ignore Any (record { at = λ w p. tt }) (Ensures-pure _ (λ d p. tt)))
        (Ensures-try _ _ _ (OnNil Pointed)
          (Ensures-call _ _ (λ d p. (refl, refl)) (λ d e p. tt) (λ d e p. tt))
          (λ e. roll_and_settle _ _ _)
          (Ensures-try _ _ _ (OnNil Pointed)
            (Ensures-call _ _ (λ d p. p) (λ d e p. tt) (λ d e p. tt)) (λ e. roll_and_settle _ _ _)
            (Ensures-try _ _ _ (OnNil (Serves rec.to_bin_path rec))
              (Ensures-call _ _ (λ d p. (p.0, p.1, refl)) (λ d e p. tt) (λ d e p. tt))
              (λ e. roll_and_settle _ _ _) (watch-IsSettled ticks))))

-- A rollback that returns nil, however its calls end, has the previous build running with the
-- arguments that the record keeps, and a record of the update as rolled_back with the reason given.
pub rollback-nil :
    (same_path : String → String → Bool) (rec : Record) (ctx : Ctx) (why : String) (w : World)
    → (rollback same_path ctx rec why w).0 ≡ none
    → RolledBack rec why (rollback same_path ctx rec why w).1.device
rollback-nil same_path rec ctx why w h =
    subst (λ e. OnNil (RolledBack rec why) e (rollback same_path ctx rec why w).1.device) h
      ((rollback-RolledBack same_path rec ctx why).at w tt)

-- A supervisor that finds a pending record and returns nil has settled the update, however its
-- calls end and whatever it meets while polling: either the new build runs and the record is gone,
-- or the previous build runs and the record says rolled_back. The service has its old arguments.
pub supervise-nil :
    (same_path : String → String → Bool) (rec : Record) (ctx : Ctx) (ticks : List Tick) (w : World)
    → w.device.file ≡ some rec
    → rec.status ≡ pending
    → (supervise same_path ctx ticks w).0 ≡ returned none
    → IsSettled rec (supervise same_path ctx ticks w).1.device
unfolding supervise look read_record
supervise-nil same_path rec ctx ticks w f s h =
    let P : Device → Type 0 = λ d. d.file ≡ some rec in
    let read : Ensures P read_record (λ _. P) = Ensures-atomic _ _ (λ d p. p) (λ d e p. p) in
    let start_up : Ensures Any
        (if is_pending rec.status then carry_out same_path ctx rec ticks else pure (returned none))
        (OnExit (IsSettled rec)) =
      subst
        (λ status.
          Ensures Any
            (if is_pending status then carry_out same_path ctx rec ticks else pure (returned none))
            (OnExit (IsSettled rec)))
        (sym s) (carry_out-IsSettled same_path rec ctx ticks) in
    let found : Ensures P (look (λ d. supervise_found same_path d.file ctx ticks))
        (OnExit (IsSettled rec)) =
      record {
        at = λ w' p.
            subst
              (λ file.
                let out = supervise_found same_path file ctx ticks w' in
                OnExit (IsSettled rec) out.0 out.1.device)
              (sym p) (start_up.at w' tt);
      } in
    let run : Ensures P (supervise same_path ctx ticks) (OnExit (IsSettled rec)) =
      Ensures-try _ _ _ (λ _. P) read (λ e. Ensures-pure _ (λ d p. tt)) found in
    subst (λ e. OnExit (IsSettled rec) e (supervise same_path ctx ticks w).1.device) h (run.at w f)
