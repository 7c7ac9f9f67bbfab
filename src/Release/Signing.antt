-- ===== src/Release/Signing.antt =====
-- internal/release/release.go: the bytes that a build's signature covers, and Verify. Keys, hashes and
-- signatures are byte strings.
pub mod Soundness
use retune.Base.{
  Bool, List, Option, Text, [], bytes, equal_fold, false, if◌then◌else◌, none, not, some, take,
  text_eq, to_lower, true, ◌++◌, ◌||◌, ◌∷◌,
}

-- crypto/sha256 and crypto/ed25519: the hash of bytes, and the check of a signature over bytes under a
-- key.
pub record Crypto : Type 0 where
  pub verify_bytes : Text → Text → Text → Bool
  -- SHA-256, in hex.
  pub digest : Text → Text

pub record PublicKey : Type 0 where
  pub raw : Text

-- PublicKey.ID: the first eight bytes of the key's hash, in hex.
unfoldable pub key_id : Crypto → PublicKey → Text
key_id crypto k = take 16 (crypto.digest k.raw)

pub record Manifest : Type 0 where
  pub version : Text
  pub sha256 : Text

pub record Signature : Type 0 where
  pub version : Text
  pub sha256 : Text
  pub key_id : Text
  pub signature : Text

pub data VerifyError : Type 0 where
  no_trusted_keys manifest_mismatch bad_signature untrusted_key : VerifyError

-- A first line, a line for the version and a line for the hash.
unfoldable pub signed_text : Text → Text → Text → Text
signed_text first version sum =
    first ++ (10 ∷ bytes "version=" ++ (version ++ (10 ∷ bytes "sha256=" ++ (sum ++ 10 ∷ []))))

unfoldable pub manifest_bytes : Manifest → Text
unfolding signed_text to_lower
manifest_bytes m = signed_text (bytes "retune-agent-manifest/v1") m.version (to_lower m.sha256)

-- The same for release.json, in internal/release/manifest.go.
unfoldable pub release_manifest_bytes : Text → Text → Text
unfolding signed_text to_lower
release_manifest_bytes version sum =
    signed_text (bytes "retune-release-manifest/v1") version (to_lower sum)

module _ (crypto : Crypto) where
  -- The first trusted key of that identifier decides.
  unfoldable pub verify_with : List PublicKey → Text → Text → Text → Option VerifyError
  unfolding key_id
  verify_with [] id msg sig = some untrusted_key
  verify_with (k ∷ ks) id msg sig =
      let rest = verify_with ks id msg sig in
      if not (text_eq (key_id crypto k) id)
      then rest
      else if crypto.verify_bytes k.raw msg sig
      then none
      else some bad_signature

  abbrev is_empty : List PublicKey → Bool
  is_empty [] = true
  is_empty (k ∷ ks) = false

  -- `none` is nil.
  unfoldable pub verify : List PublicKey → Manifest → Signature → Option VerifyError
  unfolding verify_with
  verify trusted m sig =
      if is_empty trusted
      then some no_trusted_keys
      else if not (text_eq sig.version m.version) || not (equal_fold sig.sha256 m.sha256)
      then some manifest_mismatch
      else verify_with trusted sig.key_id (manifest_bytes m) sig.signature
