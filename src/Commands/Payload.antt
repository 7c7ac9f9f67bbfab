-- ===== src/Commands/Payload.antt =====
-- normalizePayload and decodePayload of internal/server/commands/service.go, with the payloads of
-- internal/protocol/commands.go. encoding/json is a parameter.
pub mod Normal
use retune.Base.{
  Bool, Option, Text, [], any, bytes, false, if◌then◌else◌, is_blank, is_digit, leb, length, ltb,
  none, not, reverse, some, suc, text_eq, trim_space, true, zero, ℕ, ◌&&◌, ◌==◌, ◌||◌, ◌∷◌,
}
use retune.Release.Version.{negsuc, pos, ℤ}

pub data Kind : Type 0 where
  run_powershell restart refresh_inventory lock collect_logs wipe : Kind
  install_updates rename_computer rotate_admin_password : Kind

-- The types that can be queued; remote_shell is not one.
unfoldable pub kind_of : Text → Option Kind
kind_of s =
    if text_eq s (bytes "run_powershell")
    then some run_powershell
    else if text_eq s (bytes "restart")
    then some restart
    else if text_eq s (bytes "refresh_inventory")
    then some refresh_inventory
    else if text_eq s (bytes "lock")
    then some lock
    else if text_eq s (bytes "collect_logs")
    then some collect_logs
    else if text_eq s (bytes "wipe")
    then some wipe
    else if text_eq s (bytes "install_updates")
    then some install_updates
    else if text_eq s (bytes "rename_computer")
    then some rename_computer
    else if text_eq s (bytes "rotate_local_admin_password")
    then some rotate_admin_password
    else none

-- opsign.Signature
pub record OpSignature : Type 0 where
  pub key_id : Text
  pub signature : Text

pub record RunPowerShell : Type 0 where
  pub script : Text
  pub timeout_seconds : ℤ
  pub signature : Option OpSignature

pub record Restart : Type 0 where
  pub delay_seconds : ℤ
  pub message : Text

pub record CollectLogs : Type 0 where
  pub hours : ℤ

pub record Wipe : Type 0 where
  pub is_protected : Bool
  pub expires : Option ℕ
  pub signature : Option OpSignature

pub record InstallUpdates : Type 0 where
  pub scope : Text
  pub restart : Text

pub record RenameComputer : Type 0 where
  pub name : Text
  pub does_restart : Bool

pub record RotateAdminPassword : Type 0 where
  pub account : Text
  pub length : ℤ

abbrev pub PayloadOf : Kind → Type 0
PayloadOf run_powershell = RunPowerShell
PayloadOf restart = Restart
PayloadOf refresh_inventory = Unit
PayloadOf lock = Unit
PayloadOf collect_logs = CollectLogs
PayloadOf wipe = Wipe
PayloadOf install_updates = InstallUpdates
PayloadOf rename_computer = RenameComputer
PayloadOf rotate_admin_password = RotateAdminPassword

-- What an empty payload is read as.
abbrev pub zero_payload : (k : Kind) → PayloadOf k
zero_payload run_powershell = record { script = []; timeout_seconds = pos 0; signature = none }
zero_payload restart = record { delay_seconds = pos 0; message = [] }
zero_payload refresh_inventory = tt
zero_payload lock = tt
zero_payload collect_logs = record { hours = pos 0 }
zero_payload wipe = record { is_protected = false; expires = none; signature = none }
zero_payload install_updates = record { scope = []; restart = [] }
zero_payload rename_computer = record { name = []; does_restart = false }
zero_payload rotate_admin_password = record { account = []; length = pos 0 }

abbrev pub within : ℕ → ℕ → ℤ → Bool
within lo hi (pos n) = leb lo n && leb n hi
within lo hi (negsuc n) = false

-- `n` unless it is 0.
abbrev pub or_default : ℤ → ℕ → ℤ
or_default (pos zero) d = pos d
or_default (pos (suc n)) d = pos (suc n)
or_default (negsuc n) d = negsuc n

abbrev pub or_text : Text → Text → Text
or_text [] d = d
or_text (c ∷ s) d = c ∷ s

-- The loop of protocol.ValidComputerName over the bytes; `digits` says that all so far were digits.
unfoldable pub name_bytes : Bool → Text → Bool
unfolding is_digit
name_bytes digits [] = not digits
name_bytes digits (c ∷ s) =
    let same_kind = name_bytes digits s in
    let other_kind = name_bytes false s in
    if is_digit c
    then same_kind
    else if (leb b'a' c && leb c b'z') || (leb b'A' c && leb c b'Z') || (c == b'-')
    then other_kind
    else false

abbrev pub starts_with_dash : Text → Bool
starts_with_dash [] = false
starts_with_dash (c ∷ s) = c == b'-'

unfoldable pub valid_computer_name : Text → Bool
unfolding name_bytes
valid_computer_name name =
    if is_blank name
      || ltb 15 (length name)
      || starts_with_dash name
      || starts_with_dash (reverse name)
    then false
    else name_bytes true name

-- strings.ContainsAny
unfoldable pub contains_any : Text → Text → Bool
contains_any s chars = any (λ c. any (λ d. d == c) chars) s

-- What a local account name may not contain.
abbrev pub account_excluded : Text
account_excluded = bytes "\"/\\[]:;|=,+*?<>@"

abbrev pub accept_if : {A : Type 0} → Bool → A → Option A
accept_if true p = some p
accept_if false p = none

unfoldable pub check_run : RunPowerShell → Option RunPowerShell
unfolding trim_space
check_run p =
    let q = record p { timeout_seconds = or_default p.timeout_seconds 600 } in
    accept_if (not (is_blank (trim_space p.script)) && within 1 86400 q.timeout_seconds) q

unfoldable pub check_restart : Restart → Option Restart
check_restart p = accept_if (within 0 86400 p.delay_seconds && leb (length p.message) 512) p

unfoldable pub check_logs : CollectLogs → Option CollectLogs
check_logs p =
    let q = record p { hours = or_default p.hours 24 } in accept_if (within 1 168 q.hours) q

abbrev pub security : Text
security = bytes "security"

abbrev pub never : Text
never = bytes "never"

unfoldable pub check_updates : InstallUpdates → Option InstallUpdates
check_updates p =
    let q = record p { scope = or_text p.scope security; restart = or_text p.restart never } in
    accept_if
      ((text_eq q.scope security || text_eq q.scope (bytes "all"))
        && (text_eq q.restart never || text_eq q.restart (bytes "if_required")))
      q

unfoldable pub check_rename : RenameComputer → Option RenameComputer
unfolding trim_space valid_computer_name
check_rename p =
    let q = record p { name = trim_space p.name } in accept_if (valid_computer_name q.name) q

unfoldable pub check_rotate : RotateAdminPassword → Option RotateAdminPassword
unfolding trim_space contains_any
check_rotate p =
    let q = record p { account = trim_space p.account; length = or_default p.length 24 } in
    accept_if
      (not (ltb 20 (length q.account) || contains_any q.account account_excluded)
        && within 20 64 q.length)
      q

-- The checks of one type, with its defaults filled in. `none` is ErrBadRequest.
abbrev pub check : (k : Kind) → PayloadOf k → Option (PayloadOf k)
check run_powershell p = check_run p
check restart p = check_restart p
check refresh_inventory p = some p
check lock p = some p
check collect_logs p = check_logs p
check wipe p = some p
check install_updates p = check_updates p
check rename_computer p = check_rename p
check rotate_admin_password p = check_rotate p

-- json.Unmarshal and json.Marshal at the payload types.
pub record Json : Type 0 where
  pub unmarshal : (k : Kind) → Text → Option (PayloadOf k)
  pub marshal : (k : Kind) → PayloadOf k → Text

-- These two types have no payload: whatever was sent is replaced.
abbrev pub takes_none : Kind → Bool
takes_none refresh_inventory = true
takes_none lock = true
takes_none _ = false

module _ (json : Json) where
  unfoldable pub decode_payload : (k : Kind) → Text → Option (PayloadOf k)
  decode_payload k raw =
      if is_blank raw || text_eq raw (bytes "null")
      then some (zero_payload k)
      else json.unmarshal k raw

  abbrev pub check_read : (k : Kind) → Option (PayloadOf k) → Option (PayloadOf k)
  check_read k none = none
  check_read k (some p) = check k p

  abbrev pub write : (k : Kind) → Option (PayloadOf k) → Option Text
  write k none = none
  write k (some p) = some (json.marshal k p)

  unfoldable pub normalize : Kind → Text → Option Text
  unfolding decode_payload
  normalize k raw =
      if takes_none k then some (bytes "{}") else write k (check_read k (decode_payload k raw))

  abbrev normalize_kind : Option Kind → Text → Option Text
  normalize_kind none raw = none
  normalize_kind (some k) raw = normalize k raw

  -- `none` is ErrBadRequest.
  unfoldable pub normalize_payload : Text → Text → Option Text
  unfolding kind_of normalize
  normalize_payload kind raw = normalize_kind (kind_of kind) raw
