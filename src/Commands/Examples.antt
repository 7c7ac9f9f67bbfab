-- ===== src/Commands/Examples.antt =====
-- The command queue at concrete inputs.
use retune.Base.{
  Bool, Option, [], ap, arith, bytes, false, if◌then◌else◌, inl, inr, is_blank, length, none, refl,
  some, subst, sym, text_eq, to_lower, true, ◌*◌, ◌++◌, ◌||◌, ◌↔◌, ◌∙◌, ◌∷◌, ◌≡◌, ◌≤◌, ◌⊎◌,
}
use retune.Release.Version.{pos}
use retune.Release.Signing.{Crypto}
use retune.Opsign.{Clock, wipe_manifest}
use retune.Commands.Rows.{Command, CommandResult, Db, active, delivered, of_wipe, queued, succeeded}
use retune.Commands.Store.{find_command, find_result}
use retune.Commands.Service.{
  OnComplete, Reported, complete, deliver, order_of, refused, result_status,
}
use retune.Commands.Output.{clamp_output, max_output_bytes}
use retune.Commands.Output.Size.{alternating, clamp_output-alternating, clamp_output-length}
use retune.Commands.Payload.{
  Json, Kind, PayloadOf, Wipe, check, check_logs, check_rename, check_restart, check_rotate,
  check_run, check_updates, collect_logs, decode_payload, install_updates, kind_of, lock, never,
  normalize, refresh_inventory, rename_computer, restart, rotate_admin_password, run_powershell,
  security, wipe, zero_payload,
}
use retune.Commands.Payload.Normal.{ReadsBack, check-again, in_bounds, normalize-normalize}
use retune.Commands.Queue.{QueueOptions, Setting, done, queue}
use retune.Commands.Queue.Wipes.{Confirmed, queue-Confirmed}
use retune.Commands.Delivery.{Listed, Owed, Stored, deliver-Owed_iff}
use retune.Commands.Passwords.{settle}
use retune.Commands.Passwords.Settled.{settle-HookEvolves, settle-HookKeeps}
use retune.Commands.Progress.{Advance}
use retune.Commands.Progress.Runs.{Run, delivers, next, nothing, run-Advance}
use retune.Commands.Progress.Handed.{queue-Handed}
use retune.Commands.Results.{Recorded}
use retune.Commands.Results.Once.{Run-Recorded, complete-complete}
use retune.Commands.Results.Hook.{Refuses, Reports}

abbrev fixed : Wipe → (k : Kind) → PayloadOf k
fixed w run_powershell = record { script = bytes "ls"; timeout_seconds = pos 60; signature = none }
fixed w restart = zero_payload restart
fixed w refresh_inventory = tt
fixed w lock = tt
fixed w collect_logs = record { hours = pos 24 }
fixed w wipe = w
fixed w install_updates = record { scope = security; restart = never }
fixed w rename_computer = record { name = bytes "PC-1"; does_restart = false }
fixed w rotate_admin_password = record { account = []; length = pos 24 }

-- Reads every text as the fixed payload of its type.
abbrev json_of : Wipe → Json
json_of w = record { unmarshal = λ k s. some (fixed w k); marshal = λ k p. bytes "{x}" }

abbrev plain : Json
plain = json_of (zero_payload wipe)

checked_zero :
    (k : Kind) (q : PayloadOf k)
    → check k (zero_payload k) ≡ some q
    → some (fixed (zero_payload wipe) k) ≡ some q
unfolding check_run check_restart check_logs check_updates check_rename check_rotate
checked_zero run_powershell q c = absurd (cc c)
checked_zero restart q c = c
checked_zero refresh_inventory q c = c
checked_zero lock q c = c
checked_zero collect_logs q c = c
checked_zero wipe q c = c
checked_zero install_updates q c = c
checked_zero rename_computer q c = absurd (cc c)
checked_zero rotate_admin_password q c = c

checked_fixed :
    (k : Kind) (q : PayloadOf k)
    → check k (fixed (zero_payload wipe) k) ≡ some q
    → some (fixed (zero_payload wipe) k) ≡ some q
unfolding check_run check_restart check_logs check_updates check_rename check_rotate
checked_fixed run_powershell q c = c
checked_fixed restart q c = c
checked_fixed refresh_inventory q c = c
checked_fixed lock q c = c
checked_fixed collect_logs q c = c
checked_fixed wipe q c = c
checked_fixed install_updates q c = c
checked_fixed rename_computer q c = c
checked_fixed rotate_admin_password q c = c

plain_reads :
    (b : Bool) (k : Kind) (p q : PayloadOf k)
    → (if b then some (zero_payload k) else some (fixed (zero_payload wipe) k)) ≡ some p
    → check k p ≡ some q
    → some (fixed (zero_payload wipe) k) ≡ some q
plain_reads true k p q d c =
    let same : zero_payload k ≡ p = cc d in
    checked_zero k q (subst (λ x. check k x ≡ some q) (sym same) c)
plain_reads false k p q d c =
    let same : fixed (zero_payload wipe) k ≡ p = cc d in
    checked_fixed k q (subst (λ x. check k x ≡ some q) (sym same) c)

plain_laws : ReadsBack plain
unfolding decode_payload
plain_laws = record {
  reads_back = λ k raw p q d c. plain_reads (is_blank raw || text_eq raw (bytes "null")) k p q d c;
  writes_object = λ k p. refl;
}

normal : normalize plain collect_logs [] ≡ some (bytes "{x}")
unfolding normalize check_logs
normal = refl

normalize-normalize_example : normalize plain collect_logs (bytes "{x}") ≡ some (bytes "{x}")
normalize-normalize_example =
    normalize-normalize plain plain_laws collect_logs [] (bytes "{x}") normal

check-again_example :
    (in_bounds collect_logs (record { hours = pos 24 }) ≡ true)
    × (check_logs (record { hours = pos 24 }) ≡ some (record { hours = pos 24 }))
unfolding check_logs
check-again_example =
    check-again collect_logs (record { hours = pos 0 }) (record { hours = pos 24 }) refl

clamp_output-length_example : length (clamp_output (bytes "ok") false).0 ≤ 3 * max_output_bytes
clamp_output-length_example = clamp_output-length (bytes "ok") false

clamp_output-alternating_example :
    (length (clamp_output (alternating 2) false).0 ≡ 8)
    × ((clamp_output (alternating 2) false).1 ≡ false)
clamp_output-alternating_example = clamp_output-alternating 2 (omega arith)

-- A text is its own hash, and a key signs by standing before the bytes.
abbrev crypto : Crypto
crypto = record { verify_bytes = λ k msg sig. text_eq sig (k ++ msg); digest = λ s. s }

abbrev clock : Clock
clock = record { format = λ t. bytes "t" }

abbrev signed_wipe : Wipe
signed_wipe = record {
  is_protected = false;
  expires = some 100;
  signature = some (record {
    key_id = bytes "a";
    signature = bytes "a" ++ wipe_manifest clock (bytes "d") false 100;
  });
}

abbrev setting : Setting
setting = record {
  operations_keys = record { raw = bytes "a" } ∷ [];
  json = json_of signed_wipe;
  crypto = crypto;
  base64 = record { encode = λ s. s; decode = λ s. some s };
  clock = clock;
  jsonb = λ s. s;
  device_text = λ d. bytes "d";
}

abbrev office : Db
office = record {
  devices = record { id = 1; hostname = bytes "PC"; status = active } ∷ [];
  commands = [];
  results = [];
  audit = [];
  passwords = [];
  wakes = [];
}

abbrev wipe_it : QueueOptions
wipe_it = record {
  device_id = 1;
  kind = bytes "wipe";
  payload = bytes "{x}";
  created_by = bytes "admin";
  ttl = pos 0;
  confirm_hostname = bytes "pc ";
  reason = bytes "lost";
}

abbrev wipe_row : Command
wipe_row = record {
  id = 7;
  device_id = 1;
  kind = bytes "wipe";
  payload = bytes "{x}";
  status = queued;
  created_by = bytes "admin";
  created_at = 10;
  delivered_at = none;
  started_at = none;
  completed_at = none;
  expires_at = 100;
}

abbrev wipe_queued : Db
wipe_queued = record office {
  commands = wipe_row ∷ [];
  audit =
      record {
        actor = bytes "admin";
        target_id = 7;
        details = of_wipe 1 (bytes "PC") (bytes "lost") false;
      }
      ∷ [];
  wakes = 1 ∷ [];
}

queues_wipe : queue setting 10 7 wipe_it false office ≡ done (some (wipe_row, wipe_queued))
unfolding queue wipe_manifest
queues_wipe = refl

queue-Confirmed_example : Confirmed setting 10 wipe_it office wipe_row
queue-Confirmed_example =
    queue-Confirmed setting 10 7 wipe_it office wipe_queued wipe_row (unfold kind_of in refl)
      queues_wipe

abbrev delivered_wipe : Command
delivered_wipe = record wipe_row { status = delivered; delivered_at = some 20 }

-- The hook that the program sets.
abbrev settles : Option OnComplete
settles = some (settle to_lower)

polled : Run setting settles wipe_queued (deliver 20 1 wipe_queued).1
polled = next wipe_queued _ _ (delivers 20 1 wipe_queued) (nothing _)

run-Advance_example :
    (d : Command) × (find_command 7 (deliver 20 1 wipe_queued).1.commands ≡ some d)
    × Advance wipe_row d
run-Advance_example =
    run-Advance setting settles (settle-HookEvolves to_lower) wipe_queued
      (deliver 20 1 wipe_queued).1 7 wipe_row polled (unfold find_command in refl)

still_there : find_command 7 (deliver 20 1 wipe_queued).1.commands ≡ some delivered_wipe
unfolding deliver find_command
still_there = refl

queue-Handed_example : Listed (order_of wipe_row) (deliver 30 1 (deliver 20 1 wipe_queued).1).0
queue-Handed_example =
    queue-Handed setting settles (settle-HookEvolves to_lower) 10 7 30 wipe_it office wipe_queued
      (deliver 20 1 wipe_queued).1 wipe_row delivered_wipe (unfold find_command in refl) queues_wipe
      polled still_there refl (omega arith)

deliver-Owed_iff_example :
    Listed (order_of wipe_row) (deliver 20 1 wipe_queued).0
    ↔ Owed 20 1 (order_of wipe_row) wipe_queued.commands
deliver-Owed_iff_example = deliver-Owed_iff 20 1 wipe_queued (order_of wipe_row)

only_row : (c : Command) → Stored c (wipe_row ∷ []) → wipe_row ≡ c
only_row c h = elim h [ inl e ↦ e | inr k ↦ absurd k ]

wipe_queued-Recorded : Recorded wipe_queued
unfolding find_result
wipe_queued-Recorded = record {
  one_device = λ c d s k e. ap {A = Command} (λ x. x.device_id) (sym (only_row c s) ∙ only_row d k);
  open_free = λ c s o. refl;
  has_row = λ id h. refl;
}

Run-Recorded_example : Recorded (deliver 20 1 wipe_queued).1
Run-Recorded_example =
    Run-Recorded setting settles wipe_queued (deliver 20 1 wipe_queued).1
      (settle-HookKeeps to_lower) polled wipe_queued-Recorded

abbrev report : Reported
report = record {
  status = bytes "succeeded";
  exit_code = pos 0;
  stdout = bytes "done";
  stderr = [];
  stdout_truncated = false;
  stderr_truncated = false;
  error = [];
  started_at = 30;
  finished_at = 31;
}

complete-complete_example :
    (Refuses settles 7 succeeded 40
      × (complete settles 40 1 7 report wipe_queued ≡ (some refused, wipe_queued)))
    ⊎ ((after : Db) × (complete settles 40 1 7 report wipe_queued ≡ (none, after))
        × ((row : CommandResult) × (find_result 7 after.results ≡ some row) × Reports 7 report row)
        × ((complete settles 50 1 7 report after).1 ≡ after))
complete-complete_example =
    complete-complete settles 40 50 1 7 succeeded report report wipe_queued wipe_row
      (settle-HookKeeps to_lower) wipe_queued-Recorded (unfold result_status in refl) (inl refl)
      refl refl refl
