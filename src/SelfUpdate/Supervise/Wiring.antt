-- ===== src/SelfUpdate/Supervise/Wiring.antt =====
-- What the service is pointed at, over every run of the supervisor.
use retune.Base.{Bool, List, String, [], inl, inr, none, refl, some, subst, sym, ◌∷◌, ◌≡◌, ◌⊎◌}
use retune.SelfUpdate.Record.{Record}
use retune.SelfUpdate.Device.{
  Act, Ctx, Device, Entry, World, config, look, read_builds, read_record, remove_build,
  remove_record, set_bin_path, set_recovery_actions, start, stop, write_record,
}
use retune.SelfUpdate.Device.Keeps.{
  Keeps, Keeps-atomic, Keeps-bind, Keeps-call, Keeps-if, Keeps-ignore, Keeps-look, Keeps-pure,
  Keeps-stop, Keeps-try, keeps_rules,
}
use retune.SelfUpdate.Device.Ensures.{Ensures, Ensures-pure, Ensures-try}
use retune.SelfUpdate.Supervise.{
  Tick, after_failed_restore, cancel, carry_out, keep, meet, polling, prune_entries,
  prune_old_builds, restore_build, rollback, supervise, supervise_found, watch,
}

-- The service has the arguments it had, and is pointed at the previous build or at the new one.
pub record IsWired (rec : Record) (d : Device) : Type 0 where
  pub args_kept : d.service.args ≡ rec.from_args
  pub one_of_two : (d.service.bin_path ≡ rec.from_bin_path) ⊎ (d.service.bin_path ≡ rec.to_bin_path)

module _ (rec : Record) where
  set_bin_path-from : Keeps (IsWired rec) (set_bin_path rec.from_bin_path rec.from_args)
  unfolding set_bin_path
  set_bin_path-from = Keeps-call _ λ d h. record { args_kept = refl; one_of_two = inl refl }

  set_bin_path-to : Keeps (IsWired rec) (set_bin_path rec.to_bin_path rec.from_args)
  unfolding set_bin_path
  set_bin_path-to = Keeps-call _ λ d h. record { args_kept = refl; one_of_two = inr refl }

  stop-IsWired : (ctx : Ctx) → Keeps (IsWired rec) (stop ctx)
  stop-IsWired = Keeps-stop λ d h. record { args_kept = h.args_kept; one_of_two = h.one_of_two }

  start-IsWired : Keeps (IsWired rec) start
  unfolding start
  start-IsWired = Keeps-call _ λ d h. record { args_kept = h.args_kept; one_of_two = h.one_of_two }

  recovery-IsWired : Keeps (IsWired rec) set_recovery_actions
  unfolding set_recovery_actions
  recovery-IsWired =
      Keeps-call _ λ d h. record { args_kept = h.args_kept; one_of_two = h.one_of_two }

  write_record-IsWired : (r : Record) → Keeps (IsWired rec) (write_record r)
  unfolding write_record
  write_record-IsWired r =
      Keeps-atomic _ λ d h. record { args_kept = h.args_kept; one_of_two = h.one_of_two }

  remove_record-IsWired : Keeps (IsWired rec) remove_record
  unfolding remove_record
  remove_record-IsWired =
      Keeps-atomic _ λ d h. record { args_kept = h.args_kept; one_of_two = h.one_of_two }

  remove_build-IsWired : (name : String) → Keeps (IsWired rec) (remove_build name)
  unfolding remove_build
  remove_build-IsWired name =
      Keeps-atomic _ λ d h. record { args_kept = h.args_kept; one_of_two = h.one_of_two }

  read_builds-IsWired : Keeps (IsWired rec) read_builds
  unfolding read_builds
  read_builds-IsWired = Keeps-atomic _ λ d h. h

  read_record-IsWired : Keeps (IsWired rec) read_record
  unfolding read_record
  read_record-IsWired = Keeps-atomic _ λ d h. h

  config-IsWired : Keeps (IsWired rec) config
  unfolding config
  config-IsWired = record { at = (Keeps-atomic (λ d. d) (λ d h. h)).at }

ruleset wired = (
  keeps_rules, set_bin_path-from, set_bin_path-to, stop-IsWired, start-IsWired, recovery-IsWired,
  write_record-IsWired, remove_record-IsWired, remove_build-IsWired, read_builds-IsWired,
  read_record-IsWired, config-IsWired,
)

restore_build-IsWired : (rec : Record) (ctx : Ctx) → Keeps (IsWired rec) (restore_build ctx rec)
unfolding restore_build
restore_build-IsWired rec ctx = search wired depth 8

cancel-IsWired : (rec : Record) → Keeps (IsWired rec) (cancel rec)
unfolding cancel
cancel-IsWired rec = search (wired, restore_build-IsWired) depth 8

prune_entries-IsWired :
    (rec r : Record) (es : List Entry) → Keeps (IsWired rec) (prune_entries r es)
unfolding prune_entries
prune_entries-IsWired rec r [] = Keeps-pure none
prune_entries-IsWired rec r (e ∷ es) =
    Keeps-if _ _ _
      (Keeps-ignore _ _ (remove_build-IsWired rec e.name) (prune_entries-IsWired rec r es))
      (prune_entries-IsWired rec r es)

keep-IsWired : (rec : Record) → Keeps (IsWired rec) (keep rec)
unfolding keep prune_old_builds
keep-IsWired rec =
    Keeps-try _ _ _ (search wired depth 8) (λ e. Keeps-pure _)
      (Keeps-try _ _ _ (read_builds-IsWired rec) (λ e. Keeps-pure _)
        (Keeps-look _ λ d. prune_entries-IsWired rec rec d.builds))

meet-IsWired {ℓ} :
    {A : Type ℓ} (rec : Record) (t : Tick) (m : Act A)
    → Keeps (IsWired rec) m
    → Keeps (IsWired rec) (meet t m)
unfolding meet
meet-IsWired rec t m k = record {
  at = λ w h. k.at _ (record { args_kept = h.args_kept; one_of_two = h.one_of_two });
}

module _ (same_path : String → String → Bool) (rec : Record) where
  rollback-IsWired :
      (ctx : Ctx) (why : String) → Keeps (IsWired rec) (rollback same_path ctx rec why)
  unfolding rollback after_failed_restore
  rollback-IsWired ctx why = search (wired, restore_build-IsWired) depth 10

  watch-IsWired : (ticks : List Tick) → Keeps (IsWired rec) (watch same_path rec ticks)
  unfolding watch
  watch-IsWired [] = Keeps-pure polling
  watch-IsWired (t ∷ ts) = meet-IsWired rec t _ (
      Keeps-if _ _ _ (Keeps-bind _ _ (keep-IsWired rec) (λ e. Keeps-pure _)) (
        Keeps-if _ _ _ (Keeps-bind _ _ (rollback-IsWired _ _) (λ e. Keeps-pure _)) (
          Keeps-if _ _ _ (Keeps-bind _ _ (cancel-IsWired rec) (λ e. Keeps-pure _))
            (watch-IsWired ts))))

  carry_out-IsWired :
      (ctx : Ctx) (ticks : List Tick) → Keeps (IsWired rec) (carry_out same_path ctx rec ticks)
  unfolding carry_out
  carry_out-IsWired ctx ticks = search (wired, rollback-IsWired, watch-IsWired) depth 12

-- However its calls fail and whatever it meets while polling, a supervisor that finds a record of
-- the service as it stands leaves the service its arguments, and points it at the previous build or
-- at the new one.
pub supervise-IsWired :
    (same_path : String → String → Bool) (rec : Record) (ctx : Ctx) (ticks : List Tick) (w : World)
    → w.device.file ≡ some rec
    → IsWired rec w.device
    → IsWired rec (supervise same_path ctx ticks w).1.device
unfolding supervise look read_record
supervise-IsWired same_path rec ctx ticks w f h =
    let P : Device → Type 0 = λ d. (d.file ≡ some rec) × IsWired rec d in
    let read : Ensures P read_record (λ _. P) = record {
      at = (Keeps-atomic {P = P} (λ d. d) (λ d p. p)).at;
    } in
    let found : Ensures P (look (λ d. supervise_found same_path d.file ctx ticks))
        (λ _. IsWired rec) =
      record {
        at = λ w' p.
            subst (λ file. IsWired rec (supervise_found same_path file ctx ticks w').1.device)
              (sym p.0)
              ((Keeps-if _ _ _ (carry_out-IsWired same_path rec ctx ticks) (Keeps-pure _)).at w'
                p.1);
      } in
    (Ensures-try _ _ _ (λ _. P) read (λ e. Ensures-pure _ (λ d p. p.1)) found).at w (f, h)
