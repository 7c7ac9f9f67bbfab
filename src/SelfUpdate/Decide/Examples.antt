-- ===== src/SelfUpdate/Decide/Examples.antt =====
-- Runs of the rules, and their theorems at concrete records.
use retune.Base.{[], false, refl, true, ◌↔◌, ◌≡◌}
use retune.SelfUpdate.Record.{Record, pending, rolled_back}
use retune.SelfUpdate.Decide.{decide, reconcile, action_update, reconcile_abandon}
use retune.SelfUpdate.Decide.Rules.{
  decide-update_iff, decide-report_iff, reconcile-abandon_iff, MayUpdate, IsBuildFault, IsStale,
}

abbrev failed_once : Record
failed_once = record {
  item_id = "item";
  from_version = "1.0";
  from_bin_path = "old";
  from_args = [];
  to_version = "1.1";
  to_bin_path = "new";
  started_at = 0;
  deadline = 10;
  status = rolled_back;
  detail = "";
  reported = true;
}

retries_another : (decide "1.0" "1.2" true 1 failed_once).action ≡ action_update
unfolding decide
retries_another = refl

decide-update_iff_example :
    ((decide "1.0" "1.2" true 1 failed_once).action ≡ action_update)
    ↔ MayUpdate "1.0" "1.2" true 1 failed_once
decide-update_iff_example = decide-update_iff "1.0" "1.2" true 1 failed_once

decide-report_iff_example :
    ((decide "1.0" "1.2" true 0 failed_once).report ≡ true) ↔ IsBuildFault "1.0" "1.2" true 0
decide-report_iff_example = decide-report_iff "1.0" "1.2" true 0 failed_once

abbrev in_flight : Record
in_flight = record failed_once { status = pending; reported = false }

abandons_at_deadline : reconcile in_flight true "1.0" 10 ≡ reconcile_abandon
unfolding reconcile
abandons_at_deadline = refl

reconcile-abandon_iff_example :
    (reconcile in_flight true "1.0" 10 ≡ reconcile_abandon) ↔ IsStale in_flight true "1.0" 10
reconcile-abandon_iff_example = reconcile-abandon_iff in_flight true "1.0" 10
