-- ===== src/SelfUpdate/Supervise.antt =====
-- The supervisor of internal/agent/selfupdate/supervise.go: it carries an update out and puts the
-- previous build back unless the new one checks in. Logging is left out.
pub mod Wiring
pub mod Verdict
pub mod Deadline
pub mod Builds
mod Examples
use retune.Base.{
  Bool, Option, String, false, if◌then◌else◌, none, some, str_append, true, ℕ, List, [], ltb, not,
  str_eq, ◌||◌, ◌∷◌,
}
use retune.SelfUpdate.Record.{Record, Status, pending, rolled_back, succeeded}
use retune.SelfUpdate.Device.{
  Act, Ctx, Err, config, pure, set_bin_path, start, stop, try, without_cancel, wrap, write_record,
  ◌>>◌, Entry, World, cancelled, ignore, live, read_builds, read_record, remove_build,
  remove_record, set_recovery_actions, bind, look,
}

-- What the supervisor meets at one poll: the time, the record as the running agent has left it, an
-- error of reading it, and whether the select after it takes the context's end.
pub record Tick : Type 0 where
  pub now : ℕ
  pub file : Option Record
  pub read_error : Err
  pub ends : Bool

-- Supervise returns an error or nil, or is still polling where the ticks given end.
pub data Exit : Type 0 where
  returned : Err → Exit
  polling : Exit

abbrev is_pending : Status → Bool
is_pending pending = true
is_pending _ = false

abbrev is_succeeded : Status → Bool
is_succeeded succeeded = true
is_succeeded _ = false

pub restore_build : Ctx → Record → Act Err
restore_build ctx rec =
    wrap "stopping new build: " (stop (without_cancel ctx))
    >> wrap "setting bin path back to previous build: "
        (set_bin_path rec.from_bin_path rec.from_args)
    >> wrap "starting previous build: " start

-- The record that a rollback leaves after a failed restore.
pub unrestored : Record → String → String → Bool → Record
unrestored rec detail e still =
    if still
    then record rec {
      status = pending;
      detail = str_append detail (
          str_append "; restoring the previous build failed: "
            (str_append e "; the service is still wired to the new build"));
    }
    else record rec {
      status = rolled_back;
      detail = str_append detail (str_append "; restoring the previous build also failed: " e);
    }

-- The context is over before the deadline: restore, and leave no verdict.
pub cancel : Record → Act Err
cancel rec =
    wrap "restoring previous build after cancellation: " (restore_build cancelled rec)
    >> wrap "removing update record after cancellation: " remove_record
    >> pure (some "context canceled")

-- Neither the build that won nor the one it replaced, and a folder.
pub is_old_build : Record → Entry → Bool
is_old_build rec e =
    not (not e.is_dir || (str_eq e.name rec.to_version || str_eq e.name rec.from_version))

pub prune_entries : Record → List Entry → Act Err
unfolding is_old_build
prune_entries rec [] = pure none
prune_entries rec (e ∷ es) =
    let rest = prune_entries rec es in
    if is_old_build rec e then ignore (remove_build e.name) rest else rest

pub prune_old_builds : Record → Act Err
unfolding prune_entries
prune_old_builds rec = try read_builds (λ e. pure none) (look (λ d. prune_entries rec d.builds))

-- The update stands.
pub keep : Record → Act Err
unfolding prune_old_builds
keep rec = wrap "removing settled update record: " remove_record >> prune_old_builds rec

has_succeeded : Option Record → Bool
has_succeeded none = false
has_succeeded (some cur) = is_succeeded cur.status

-- ReadRecord found a record that says the build checked in.
pub checked_in : Tick → Bool
unfolding has_succeeded
checked_in t = elim t.read_error [ none ↦ has_succeeded t.file | some _ ↦ false ]

-- The tick's record is on disk from here on.
unfoldable pub meet {ℓ} : {A : Type ℓ} → Tick → Act A → Act A
meet t m w = m (record w { device = record w.device { file = t.file } })

abbrev settle : Act Err → Act Exit
settle m = bind m (λ e. pure (returned e))

-- The record of an update abandoned because the service would not stop.
pub unstopped : Record → String → Record
unstopped rec e = record rec {
  status = rolled_back;
  detail = str_append "the service would not stop: " e;
}

-- `same_path` is strings.EqualFold on two cleaned paths.
module _ (same_path : String → String → Bool) where
  still_on_new_build : Record → Option String → Bool
  still_on_new_build rec none = false
  still_on_new_build rec (some bin_path) = same_path bin_path rec.to_bin_path

  pub after_failed_restore : Record → String → String → Act Err
  unfolding still_on_new_build unrestored
  after_failed_restore rec detail e = bind config λ path.
      try (write_record (unrestored rec detail e (still_on_new_build rec path)))
        (λ werr. pure (
          some (
            str_append "restoring previous build: " (
              str_append e
                (str_append " (and recording the rollback also failed: " (str_append werr ")"))))))
        (pure (some (str_append "restoring previous build: " e)))

  pub rollback : Ctx → Record → String → Act Err
  rollback ctx rec detail = try (restore_build ctx rec) (after_failed_restore rec detail) (
      wrap "writing rollback record: "
        (write_record (record rec { status = rolled_back; detail = detail })))

  -- The polling loop, round by round.
  pub watch : Record → List Tick → Act Exit
  unfolding checked_in keep rollback cancel
  watch rec [] = pure polling
  watch rec (t ∷ ts) = meet t (
      if checked_in t
      then settle (keep rec)
      else if not (ltb t.now rec.deadline)
      then settle (
          rollback (if t.ends then cancelled else live) rec
            "the new build never checked in before the deadline")
      else if t.ends
      then settle (cancel rec)
      else watch rec ts)

  -- Everything from a pending record on.
  pub carry_out : Ctx → Record → List Tick → Act Exit
  unfolding watch rollback unstopped
  carry_out ctx rec ticks =
      try (stop ctx)
        (λ e.
          ignore (write_record (unstopped rec e))
            (pure (returned (some (str_append "stopping service: " e)))))
        (try (set_bin_path rec.to_bin_path rec.from_args)
          (λ e.
            settle
              (rollback ctx rec (str_append "repointing the service at the new build failed: " e)))
          (try set_recovery_actions
            (λ e. settle (rollback ctx rec (str_append "setting recovery actions failed: " e)))
            (try start
              (λ e. settle (rollback ctx rec (str_append "starting the new build failed: " e)))
              (watch rec ticks))))

  abbrev supervise_found : Option Record → Ctx → List Tick → Act Exit
  supervise_found none ctx ticks = pure (returned none)
  supervise_found (some rec) ctx ticks =
      if is_pending rec.status then carry_out ctx rec ticks else pure (returned none)

  pub supervise : Ctx → List Tick → Act Exit
  unfolding carry_out
  supervise ctx ticks =
      try read_record (λ e. pure (returned (some (str_append "reading update record: " e))))
        (look (λ d. supervise_found d.file ctx ticks))
