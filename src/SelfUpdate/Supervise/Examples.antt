-- ===== src/SelfUpdate/Supervise/Examples.antt =====
-- The supervisor at work on one device.
use retune.Base.{[], false, none, some, str_eq, true, ℕ, ◌∷◌, ◌≡◌, String, arith, inl, refl, ◌≢◌}
use retune.SelfUpdate.Record.{Record, pending, succeeded}
use retune.SelfUpdate.Device.{
  Device, World, done, failed, live, bind, config, ignore, look, read_builds, read_record,
  remove_build, remove_record, set_bin_path, set_recovery_actions, start, stop, try, write_record,
}
use retune.SelfUpdate.Supervise.{
  Tick, returned, supervise, checked_in, meet, polling, prune_old_builds, restore_build, rollback,
  watch,
}
use retune.SelfUpdate.Supervise.Wiring.{IsWired, supervise-IsWired}
use retune.SelfUpdate.Supervise.Verdict.{IsSettled, RolledBack, rollback-nil, supervise-nil}
use retune.SelfUpdate.Supervise.Deadline.{Unjudged, watch-ne-polling, watch_cancelled}
use retune.SelfUpdate.Supervise.Builds.{kept, kept-prune_old_builds}

abbrev upgrade : Record
upgrade = record {
  item_id = "item";
  from_version = "1.0";
  from_bin_path = "/opt/1.0";
  from_args = "--data-dir" ∷ "/data" ∷ [];
  to_version = "1.1";
  to_bin_path = "/opt/1.1";
  started_at = 0;
  deadline = 10;
  status = pending;
  detail = "";
  reported = false;
}

abbrev fleet_device : Device
fleet_device = record {
  file = some upgrade;
  service = record {
    bin_path = "/opt/1.0";
    args = "--data-dir" ∷ "/data" ∷ [];
    running = true;
    recovery = false;
  };
  builds = record { name = "0.9"; is_dir = true } ∷ record { name = "1.1"; is_dir = true } ∷ [];
}

-- Every call succeeds.
abbrev healthy : World
healthy = record { device = fleet_device; script = [] }

-- Starting the new build fails.
abbrev crashing : World
crashing = record {
  device = fleet_device;
  script = done ∷ done ∷ done ∷ done ∷ failed false "crash" ∷ [];
}

abbrev silent : ℕ → Tick
silent now = record { now = now; file = some upgrade; read_error = none; ends = false }

abbrev alive : ℕ → Tick
alive now = record {
  now = now;
  file = some (record upgrade { status = succeeded });
  read_error = none;
  ends = false;
}

abbrev stopped : ℕ → Tick
stopped now = record { now = now; file = some upgrade; read_error = none; ends = true }

update_stands : (supervise str_eq live (silent 1 ∷ alive 2 ∷ []) healthy).0 ≡ returned none
unfolding supervise read_record look stop set_bin_path set_recovery_actions start remove_record
    read_builds remove_build restore_build write_record config try ignore bind meet prune_old_builds
update_stands = refl

rolls_back : (supervise str_eq live (silent 1 ∷ silent 10 ∷ []) crashing).0 ≡ returned none
unfolding supervise read_record look stop set_bin_path set_recovery_actions start remove_record
    read_builds remove_build restore_build write_record config try ignore bind meet
rolls_back = refl

supervise-nil_example :
    IsSettled upgrade (supervise str_eq live (silent 1 ∷ alive 2 ∷ []) healthy).1.device
supervise-nil_example =
    supervise-nil str_eq upgrade live (silent 1 ∷ alive 2 ∷ []) healthy refl refl update_stands

rollback_returns : (rollback str_eq live upgrade "no check-in" healthy).0 ≡ none
unfolding rollback stop set_bin_path start restore_build write_record try
rollback_returns = refl

rollback-nil_example :
    RolledBack upgrade "no check-in" (rollback str_eq live upgrade "no check-in" healthy).1.device
rollback-nil_example = rollback-nil str_eq upgrade live "no check-in" healthy rollback_returns

supervise-IsWired_example :
    IsWired upgrade (supervise str_eq live (silent 1 ∷ silent 10 ∷ []) crashing).1.device
supervise-IsWired_example =
    supervise-IsWired str_eq upgrade live (silent 1 ∷ silent 10 ∷ []) crashing refl
      (record { args_kept = refl; one_of_two = inl refl })

watch-ne-polling_example : (watch str_eq upgrade (silent 1 ∷ silent 10 ∷ []) crashing).0 ≢ polling
watch-ne-polling_example = watch-ne-polling str_eq upgrade (silent 1 ∷ silent 10 ∷ []) crashing refl

abbrev AfterCancel : Type 0
AfterCancel =
    ((e : String) × ((watch str_eq upgrade (stopped 3 ∷ []) healthy).0 ≡ returned (some e)))
    × Unjudged (some upgrade) (watch str_eq upgrade (stopped 3 ∷ []) healthy).1.device

watch_cancelled_example : AfterCancel
unfolding checked_in
watch_cancelled_example =
    watch_cancelled str_eq upgrade (stopped 3) [] healthy refl (omega arith) refl

kept-prune_old_builds_example :
    kept upgrade (prune_old_builds upgrade healthy).1.device.builds
    ≡ record { name = "1.1"; is_dir = true } ∷ []
kept-prune_old_builds_example = kept-prune_old_builds upgrade healthy
