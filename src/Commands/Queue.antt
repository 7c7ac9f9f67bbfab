-- ===== src/Commands/Queue.antt =====
-- Queue, Check and checkSignature of internal/server/commands/service.go. Times and durations are
-- nanoseconds since Go's zero time. The identifier of the new command is an argument.
pub mod Wipes
pub mod Placed
use retune.Base.{
  Bool, List, Option, Text, [], equal_fold, false, if◌then◌else◌, is_blank, leb, length, ltb, none,
  not, some, suc, trim_space, true, zero, ℕ, ◌&&◌, ◌+◌, ◌-◌, ◌||◌, ◌∷◌,
}
use retune.Release.Version.{negsuc, pos, ℤ}
use retune.Release.Signing.{Crypto, PublicKey}
use retune.Release.TrustList.{Base64}
use retune.Opsign.{Clock, script_manifest, verify_signed, verify_wipe}
use retune.Commands.Rows.{AuditEntry, Command, Db, Device, is_active, of_command, of_wipe, queued}
use retune.Commands.Store.{create_command, find_device}
use retune.Commands.Service.{Error, bad_request, device_not_active, not_found, refused}
use retune.Commands.Payload.{
  Json, Kind, RunPowerShell, Wipe, kind_of, normalize, run_powershell, wipe,
}

pub data Answer (A : Type 0) : Type 0 where
  done : A → Answer A
  fail : Error → Answer A

abbrev pub ◌>>=◌ : {A B : Type 0} → Answer A → (A → Answer B) → Answer B

infixl 20 ◌>>=◌
done a >>= f = f a
fail e >>= f = fail e

abbrev pub found : {A : Type 0} → Error → Option A → Answer A
found e (some a) = done a
found e none = fail e

abbrev pub require : Error → Bool → Answer Unit
require e true = done tt
require e false = fail e

abbrev pub no_error : {A E : Type 0} → Option E → A → Answer A
no_error none a = done a
no_error (some e) a = fail bad_request

-- DefaultTTL, WipeTTL, opsign.MaxWipeValidity and maxWipeReason.
abbrev pub default_ttl : ℕ
default_ttl = 604800000000000

abbrev pub wipe_ttl : ℕ
wipe_ttl = 86400000000000

abbrev pub max_wipe_validity : ℕ
max_wipe_validity = 86400000000000

abbrev pub max_wipe_reason : ℕ
max_wipe_reason = 500

pub record QueueOptions : Type 0 where
  pub device_id : ℕ
  pub kind : Text
  pub payload : Text
  pub created_by : Text
  pub ttl : ℤ
  pub confirm_hostname : Text
  pub reason : Text

-- Service.OperationsKeys, and what the code calls of other packages.
pub record Setting : Type 0 where
  pub operations_keys : List PublicKey
  pub json : Json
  pub crypto : Crypto
  pub base64 : Base64
  pub clock : Clock
  -- A payload after it went through its jsonb column, which writes JSON in a form of its own.
  pub jsonb : Text → Text
  -- uuid.UUID.String
  pub device_text : ℕ → Text

abbrev pub is_wipe : Kind → Bool
is_wipe wipe = true
is_wipe _ = false

abbrev pub asked_ttl : ℤ → ℕ
asked_ttl (pos zero) = default_ttl
asked_ttl (pos (suc n)) = suc n
asked_ttl (negsuc n) = default_ttl

abbrev pub cap_ttl : Kind → ℕ → ℕ
cap_ttl k ttl = if is_wipe k && ltb wipe_ttl ttl then wipe_ttl else ttl

module _ (setting : Setting) where
  abbrev pub script_signed : RunPowerShell → Answer ℕ
  script_signed p =
      no_error
        (verify_signed setting.crypto setting.base64 setting.operations_keys
          (script_manifest setting.crypto p.script []) p.signature)
        0

  abbrev pub order_signed : ℕ → ℕ → Wipe → ℕ → Answer ℕ
  order_signed device now p expires =
      if ltb (now + max_wipe_validity) expires
      then fail bad_request
      else no_error
          (verify_wipe setting.crypto setting.base64 setting.clock setting.operations_keys
            (setting.device_text device) p.is_protected expires now p.signature)
          (expires - now)

  -- How long a signed order has left to run; 0 where there is none.
  unfoldable pub check_signature : Kind → ℕ → Text → ℕ → Answer ℕ
  unfolding verify_signed script_manifest verify_wipe
  check_signature run_powershell device payload now = do
    p ← found refused (setting.json.unmarshal run_powershell payload)
    script_signed p
  check_signature wipe device payload now = do
    p ← found refused (setting.json.unmarshal wipe payload)
    expires ← found bad_request p.expires
    order_signed device now p expires
  check_signature _ device payload now = done 0

  abbrev pub has_keys : List PublicKey → Bool
  has_keys [] = false
  has_keys (k ∷ ks) = true

  abbrev pub shorten : ℕ → ℕ → ℕ
  shorten ttl signed = if ltb 0 signed && ltb signed ttl then signed else ttl

  unfoldable pub signed_ttl : Kind → ℕ → Text → ℕ → ℕ → Answer ℕ
  unfolding check_signature
  signed_ttl k device payload now ttl =
      if has_keys setting.operations_keys
      then (check_signature k device payload now >>= λ signed. done (shorten ttl signed))
      else done ttl

  abbrev pub hostname_confirmed : Kind → QueueOptions → Device → Bool
  hostname_confirmed k o d =
      not (is_wipe k) || equal_fold (trim_space o.confirm_hostname) d.hostname

  abbrev pub protected_of : Option Wipe → Bool
  protected_of none = false
  protected_of (some p) = p.is_protected

  abbrev pub audit_of : Kind → ℕ → Text → QueueOptions → Device → AuditEntry
  audit_of k id payload o d = record {
    actor = o.created_by;
    target_id = id;
    details =
        if is_wipe k
        then of_wipe o.device_id d.hostname (trim_space o.reason)
            (protected_of (setting.json.unmarshal wipe payload))
        else of_command o.device_id o.kind;
  }

  abbrev pub new_command : ℕ → ℕ → Text → ℕ → QueueOptions → Command
  new_command now id payload ttl o = record {
    id = id;
    device_id = o.device_id;
    kind = o.kind;
    payload = payload;
    status = queued;
    created_by = o.created_by;
    created_at = now;
    delivered_at = none;
    started_at = none;
    completed_at = none;
    expires_at = now + ttl;
  }

  abbrev pub insert_audit : AuditEntry → Db → Db
  insert_audit entry db = record db { audit = entry ∷ db.audit }

  abbrev pub place : Bool → Command → AuditEntry → Db → Option (Command × Db)
  place true c entry db = none
  place false c entry db = some (c, insert_audit entry (create_command setting.jsonb c db))

  -- What stands behind the payload: `none` is a dry run that passed every test.
  unfoldable pub admit :
      Kind → Text → ℕ → ℕ → QueueOptions → Bool → Db → Answer (Option (Command × Db))
  unfolding signed_ttl find_device create_command equal_fold trim_space
  admit k payload now id o dry db = do
    _ ← require bad_request (not (is_wipe k) || not (is_blank (trim_space o.reason)))
    _ ← require bad_request (not (is_wipe k) || leb (length (trim_space o.reason)) max_wipe_reason)
    ttl ← signed_ttl k o.device_id payload now (cap_ttl k (asked_ttl o.ttl))
    d ← found not_found (find_device o.device_id db.devices)
    _ ← require device_not_active (is_active d.status)
    _ ← require bad_request (hostname_confirmed k o d)
    done (place dry (new_command now id payload ttl o) (audit_of k id payload o d) db)

  unfoldable pub queue : ℕ → ℕ → QueueOptions → Bool → Db → Answer (Option (Command × Db))
  unfolding kind_of normalize admit
  queue now id o dry db = do
    k ← found bad_request (kind_of o.kind)
    payload ← found bad_request (normalize setting.json k o.payload)
    admit k payload now id o dry db
