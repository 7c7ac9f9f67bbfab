-- ===== src/Release/Manifest.antt =====
-- internal/release/manifest.go: what release.json must be, and VerifyReleaseManifest. Reading the
-- JSON is a parameter. ClassifyAsset is left out.
pub mod Verified
use retune.Base.{
  Bool, List, Option, Text, [], bytes, cut_prefix, equal_fold, false, if◌then◌else◌, is_blank,
  is_digit, leb, length, none, not, some, text_eq, true, ℕ, ◌&&◌, ◌==◌, ◌||◌, ◌∷◌,
}
use retune.Release.Signing.{
  Crypto, PublicKey, Signature, VerifyError, manifest_mismatch, no_trusted_keys,
  release_manifest_bytes, verify_with,
}
use retune.Release.Version.{Version, parse_version}

pub record Asset : Type 0 where
  pub name : Text
  pub kind : Text
  pub os : Text
  pub arch : Text
  pub sha256 : Text
  pub image : Text
  pub digest : Text

pub record ReleaseManifest : Type 0 where
  pub schema : ℕ
  pub version : Text
  pub assets : List Asset

abbrev pub manifest_schema : ℕ
manifest_schema = 1

unfoldable pub find : List Asset → Text → Text → Text → Option Asset
find [] kind os arch = none
find (a ∷ rest) kind os arch =
    if text_eq a.kind kind && text_eq a.os os && text_eq a.arch arch
    then some a
    else find rest kind os arch

unfoldable pub named : List Asset → Text → Option Asset
named [] name = none
named (a ∷ rest) name = if text_eq a.name name then some a else named rest name

unfoldable pub is_hex : ℕ → Bool
is_hex c = is_digit c || (leb b'a' c && leb c b'f') || (leb b'A' c && leb c b'F')

all_hex : Text → Bool
unfolding is_hex is_digit
all_hex [] = true
all_hex (c ∷ s) = is_hex c && all_hex s

-- hex.DecodeString gives 32 bytes.
unfoldable pub is_sha256 : Text → Bool
unfolding all_hex
is_sha256 s = all_hex s && (length s == 64)

pub data ManifestError : Type 0 where
  bad_schema bad_version bad_name bad_image bad_hash : ManifestError

unfoldable pub seen_name : List Text → Text → Bool
seen_name [] name = false
seen_name (s ∷ seen) name = text_eq s name || seen_name seen name

is_image : Asset → Bool
is_image a = text_eq a.kind (bytes "server-image")

has_sha256_prefix : Option Text → Bool
has_sha256_prefix none = false
has_sha256_prefix (some rest) = true

image_ok : Asset → Bool
unfolding has_sha256_prefix cut_prefix
image_ok a = not (is_blank a.image) && has_sha256_prefix (cut_prefix (bytes "sha256:") a.digest)

-- One asset, apart from its name.
unfoldable pub asset_fault : Asset → Option ManifestError
unfolding is_image image_ok is_sha256
asset_fault a =
    if is_image a
    then (if image_ok a then none else some bad_image)
    else if is_sha256 a.sha256
    then none
    else some bad_hash

abbrev or_fault : Option ManifestError → Option ManifestError → Option ManifestError
or_fault none rest = rest
or_fault (some e) rest = some e

-- The loop over the assets; `seen` are the names met so far.
unfoldable pub assets_fault : List Text → List Asset → Option ManifestError
unfolding asset_fault seen_name
assets_fault seen [] = none
assets_fault seen (a ∷ rest) =
    let later = assets_fault (a.name ∷ seen) rest in
    if is_blank a.name || seen_name seen a.name
    then some bad_name
    else or_fault (asset_fault a) later

with_version : Option Version → Option ManifestError → Option ManifestError
with_version none rest = some bad_version
with_version (some v) rest = rest

-- `none` is nil.
unfoldable pub validate : ReleaseManifest → Option ManifestError
unfolding assets_fault parse_version with_version
validate m =
    if not (m.schema == manifest_schema)
    then some bad_schema
    else with_version (parse_version m.version) (assets_fault [] m.assets)

pub data Outcome : Type 0 where
  accepted : ReleaseManifest → Outcome
  unverified : VerifyError → Outcome
  invalid : ManifestError → Outcome
  unreadable : Outcome

abbrev after_fault : Option ManifestError → ReleaseManifest → Outcome
after_fault none m = accepted m
after_fault (some e) m = invalid e

checked : Signature → Option ReleaseManifest → Outcome
unfolding validate
checked sig none = unreadable
checked sig (some m) =
    if not (text_eq m.version sig.version)
    then unverified manifest_mismatch
    else after_fault (validate m) m

abbrev after_signature : Option VerifyError → Outcome → Outcome
after_signature none o = o
after_signature (some e) o = unverified e

module _ (crypto : Crypto) (read_json : Text → Option ReleaseManifest) where
  abbrev is_empty : List PublicKey → Bool
  is_empty [] = true
  is_empty (k ∷ ks) = false

  -- The signature is checked before the bytes are read.
  unfoldable pub verify_release_manifest : List PublicKey → Text → Signature → Outcome
  unfolding verify_with checked
  verify_release_manifest trusted raw sig =
      if is_empty trusted
      then unverified no_trusted_keys
      else if not (equal_fold sig.sha256 (crypto.digest raw))
      then unverified manifest_mismatch
      else after_signature
          (verify_with crypto trusted sig.key_id
            (release_manifest_bytes sig.version (crypto.digest raw)) sig.signature)
          (checked sig (read_json raw))
