-- ===== src/SelfUpdate/Supervise/Deadline.antt =====
-- The supervisor ends by the record's deadline, and a cancelled one leaves no verdict.
use retune.Base.{
  Bool, Bool-cases, List, Option, String, [], any, false, inl, inr, ltb, lt→ltb, none, not, refl,
  some, true, ◌<◌, ◌∷◌, ◌≡◌, ◌≢◌, ◌⊎◌,
}
use retune.SelfUpdate.Record.{Record}
use retune.SelfUpdate.Device.{
  Act, Ctx, Device, Err, World, bind, cancelled, pure, remove_record, set_bin_path, start, stop,
  wrap,
}
use retune.SelfUpdate.Device.Keeps.{Keeps, Keeps-call, Keeps-stop, keeps_rules}
use retune.SelfUpdate.Device.Ensures.{
  Ensures, Ensures-atomic, Ensures-bind, Ensures-pure, Ensures-try,
}
use retune.SelfUpdate.Supervise.{
  Exit, Tick, cancel, checked_in, meet, polling, restore_build, returned, settle, watch,
}

-- One of the polls comes at or after the deadline.
abbrev pub reaches_deadline : Record → List Tick → Bool
reaches_deadline rec ticks = any (λ t. not (ltb t.now rec.deadline)) ticks

-- However its calls end, the polling loop is over once a poll has come at or after the deadline.
pub watch-ne-polling :
    (same_path : String → String → Bool) (rec : Record) (ticks : List Tick) (w : World)
    → reaches_deadline rec ticks ≡ true
    → (watch same_path rec ticks w).0 ≢ polling
unfolding watch meet bind
watch-ne-polling same_path rec [] w late = cc
watch-ne-polling same_path rec (t ∷ ts) w late =
    let w' : World = record w { device = record w.device { file = t.file } } in
    elim (Bool-cases (checked_in t)) [
      | inl yes' ↦ rw yes' (cc)
      | inr more ↦ elim (Bool-cases (ltb t.now rec.deadline)) [
        | inl early ↦ elim (Bool-cases t.ends) [
          | inl over ↦ rw (more, early, over) (cc)
          | inr on ↦ rw (more, early, on) (watch-ne-polling same_path rec ts w' (rw early at late))
        ]
        | inr late' ↦ rw (more, late') (cc)
      ]
    ]

-- The record on disk is gone or is still the one given.
abbrev pub Unjudged : Option Record → Device → Type 0
Unjudged f d = (d.file ≡ none) ⊎ (d.file ≡ f)

module _ (f : Option Record) where
  abbrev FileIs : Device → Type 0
  FileIs d = d.file ≡ f

  abbrev NoVerdict : Err → Device → Type 0
  NoVerdict none d = ⊥
  NoVerdict (some e) d = Unjudged f d

  abbrev NoVerdictExit : Exit → Device → Type 0
  NoVerdictExit exit d = ((e : String) × (exit ≡ returned (some e))) × Unjudged f d

  stop-FileIs : (ctx : Ctx) → Keeps FileIs (stop ctx)
  stop-FileIs = Keeps-stop λ d h. h

  set_bin_path-FileIs : (path : String) (args : List String) → Keeps FileIs (set_bin_path path args)
  unfolding set_bin_path
  set_bin_path-FileIs path args = Keeps-call _ λ d h. h

  start-FileIs : Keeps FileIs start
  unfolding start
  start-FileIs = Keeps-call _ λ d h. h

  restore_build-FileIs : (ctx : Ctx) (rec : Record) → Keeps FileIs (restore_build ctx rec)
  unfolding restore_build
  restore_build-FileIs ctx rec =
      search (keeps_rules, stop-FileIs, set_bin_path-FileIs, start-FileIs) depth 8

  wrapped_file :
      (what : String) (m : Act Err) → Keeps FileIs m → Ensures FileIs (wrap what m) (λ e. FileIs)
  wrapped_file what m k =
      Ensures-try _ _ _ (λ e. FileIs) (record { at = k.at }) (λ e. Ensures-pure _ (λ d p. p))
        (Ensures-pure _ (λ d p. p))

  abbrev Removed : Err → Device → Type 0
  Removed none d = d.file ≡ none
  Removed (some e) d = Unjudged f d

  cancel-NoVerdict : (rec : Record) → Ensures FileIs (cancel rec) NoVerdict
  unfolding cancel remove_record
  cancel-NoVerdict rec =
      Ensures-try _ _ _ Removed
        (Ensures-try _ _ _ (λ e. FileIs) (wrapped_file _ _ (restore_build-FileIs cancelled rec))
          (λ e. Ensures-pure _ (λ d p. inr p))
          (Ensures-try _ _ _ Removed (Ensures-atomic _ _ (λ d p. refl) (λ d e p. inr p))
            (λ e. Ensures-pure _ (λ d p. p)) (Ensures-pure _ (λ d p. p))))
        (λ e. Ensures-pure _ (λ d p. p)) (Ensures-pure _ (λ d p. inl p))

  cancel-NoVerdictExit : (rec : Record) → Ensures FileIs (settle (cancel rec)) NoVerdictExit
  cancel-NoVerdictExit rec = Ensures-bind _ _ NoVerdict (cancel-NoVerdict rec) end
    where
      end : (e : Err) → Ensures (NoVerdict e) (pure (returned e)) NoVerdictExit
      end none = Ensures-pure _ (λ d p. absurd p)
      end (some e) = Ensures-pure _ (λ d p. ((e, refl), p))

-- A round that takes the context's end before the deadline, with no proof of life, gives no verdict:
-- it returns an error, and the record on disk is removed or left as the agent wrote it.
pub watch_cancelled :
    (same_path : String → String → Bool) (rec : Record) (t : Tick) (ts : List Tick) (w : World)
    → checked_in t ≡ false
    → t.now < rec.deadline
    → t.ends ≡ true
    → ((e : String) × ((watch same_path rec (t ∷ ts) w).0 ≡ returned (some e)))
      × Unjudged t.file (watch same_path rec (t ∷ ts) w).1.device
unfolding watch meet
watch_cancelled same_path rec t ts w quiet early over =
    rw (quiet, lt→ltb _ _ early, over)
      ((cancel-NoVerdictExit t.file rec).at
        (record w { device = record w.device { file = t.file } }) refl)
