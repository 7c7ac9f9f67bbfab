-- ===== src/Opsign.antt =====
-- internal/opsign/opsign.go: what an operations key signs, and the check of it. Sign is left out. Times
-- are numbers, 0 for Go's zero time.
pub mod Sound
use retune.Base.{
  Bool, List, Option, Text, [], bytes, false, if◌then◌else◌, is_blank, ltb, none, not, some,
  text_eq, to_lower, trim_space, true, ℕ, ◌&&◌, ◌++◌, ◌==◌, ◌∷◌,
}
use retune.Release.Signing.{Crypto, PublicKey, key_id}
use retune.Release.TrustList.{Base64, Parsed, failed, parse_trust_list, parsed}
use retune.Commands.Payload.{OpSignature}

-- time.Time.Format with RFC3339, in UTC.
pub record Clock : Type 0 where
  pub format : ℕ → Text

pub data OpError : Type 0 where
  unsigned bad_op_signature untrusted_op_key order_expired no_keys : OpError

-- strings.ReplaceAll(s, "\r\n", "\n")
unfoldable pub unix_lines : Text → Text
unix_lines [] = []
unix_lines (c ∷ []) = c ∷ []
unix_lines (c ∷ d ∷ s) =
    let rest = unix_lines s in
    let later = unix_lines (d ∷ s) in if (c == 13) && (d == 10) then 10 ∷ rest else c ∷ later

abbrev pub digest_of : Crypto → Text → Text
digest_of crypto [] = []
digest_of crypto (c ∷ s) = crypto.digest (unix_lines (c ∷ s))

unfoldable pub script_manifest : Crypto → Text → Text → Text
unfolding unix_lines
script_manifest crypto body detection =
    bytes "retune-script-manifest/v1"
    ++ (10 ∷ bytes "body="
        ++ (digest_of crypto body
            ++ (10 ∷ bytes "detection=" ++ (digest_of crypto detection ++ 10 ∷ []))))

-- strconv.FormatBool
abbrev pub format_bool : Bool → Text
format_bool true = bytes "true"
format_bool false = bytes "false"

unfoldable pub wipe_manifest : Clock → Text → Bool → ℕ → Text
unfolding to_lower
wipe_manifest clock device is_protected expires =
    bytes "retune-command-manifest/v1"
    ++ (10 ∷ bytes "type=wipe"
        ++ (10 ∷ bytes "device="
            ++ (to_lower device
                ++ (10 ∷ bytes "protected="
                    ++ (format_bool is_protected
                        ++ (10 ∷ bytes "expires=" ++ (clock.format expires ++ 10 ∷ [])))))))

-- What an agent was built to require.
pub record OpPolicy : Type 0 where
  pub enforced : Bool
  pub keys : List PublicKey

module _ (crypto : Crypto) (base64 : Base64) where
  -- The first trusted key of that identifier decides.
  unfoldable pub verify_key : List PublicKey → Text → Text → Text → Option OpError
  unfolding key_id
  verify_key [] id manifest raw = some untrusted_op_key
  verify_key (k ∷ ks) id manifest raw =
      let rest = verify_key ks id manifest raw in
      if not (text_eq (key_id crypto k) id)
      then rest
      else if crypto.verify_bytes k.raw manifest raw
      then none
      else some bad_op_signature

  abbrev pub verify_raw : List PublicKey → Text → Text → Option Text → Option OpError
  verify_raw trusted manifest id none = some bad_op_signature
  verify_raw trusted manifest id (some raw) = verify_key trusted id manifest raw

  abbrev pub verify_signature : List PublicKey → Text → Option OpSignature → Option OpError
  verify_signature trusted manifest none = some unsigned
  verify_signature trusted manifest (some sig) =
      if is_blank sig.signature
      then some unsigned
      else verify_raw trusted manifest sig.key_id (base64.decode sig.signature)

  -- `none` is nil.
  unfoldable pub verify_signed : List PublicKey → Text → Option OpSignature → Option OpError
  unfolding verify_key
  verify_signed [] manifest sig = some no_keys
  verify_signed (k ∷ ks) manifest sig = verify_signature (k ∷ ks) manifest sig

  abbrev pub unless_expired : Option OpError → ℕ → ℕ → Option OpError
  unless_expired (some e) expires now = some e
  unless_expired none expires now = if not (ltb now expires) then some order_expired else none

  unfoldable pub verify_wipe :
      Clock → List PublicKey → Text → Bool → ℕ → ℕ → Option OpSignature → Option OpError
  unfolding verify_signed wipe_manifest
  verify_wipe clock trusted device is_protected expires now sig =
      if expires == 0
      then some unsigned
      else unless_expired
          (verify_signed trusted (wipe_manifest clock device is_protected expires) sig) expires now

abbrev pub enforce : Parsed (List PublicKey) → OpPolicy
enforce (parsed keys) = record { enforced = true; keys = keys }
enforce (failed e) = record { enforced = true; keys = [] }

unfoldable pub parse_policy : Base64 → Text → OpPolicy
unfolding trim_space parse_trust_list
parse_policy base64 raw =
    if is_blank (trim_space raw)
    then record { enforced = false; keys = [] }
    else enforce (parse_trust_list base64 raw)
