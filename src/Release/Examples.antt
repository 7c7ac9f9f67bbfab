-- ===== src/Release/Examples.antt =====
-- Versions, signatures, manifests and trust lists at concrete inputs.
use retune.Base.{
  List, Option, String, Text, [], ap, arith, bytes, equal_fold, false, if◌then◌else◌, inl, none,
  refl, some, split, subst, suc, text_eq, to_lower, true, zero, ℕ, ◌++◌, ◌+◌, ◌==◌, ◌↔◌, ◌∙◌, ◌∷◌,
  ◌≡◌,
}
use retune.Release.Version.{Version, atoi, newer, parse_version, pos}
use retune.Release.Version.Newer.{CanonicalPre, WellWritten, newer_asym, newer_trans}
use retune.Release.Version.Ties.{Tied, newer-Tied}
use retune.Release.Signing.{
  Crypto, Manifest, PublicKey, Signature, manifest_bytes, release_manifest_bytes, verify,
}
use retune.Release.Signing.Soundness.{SignedByFirst, manifest_bytes-injective, verify-none_iff}
use retune.Release.Manifest.{
  Asset, ReleaseManifest, accepted, asset_fault, named, validate, verify_release_manifest,
}
use retune.Release.Manifest.Verified.{validate-named, verify_release_manifest-accepted}
use retune.Release.TrustList.{Base64, encode_trust_list, parse_trust_list, parsed}
use retune.Release.TrustList.RoundTrip.{
  InAlphabet, IsBase64, in_alphabet, parse_trust_list-encode_trust_list,
}

well_written :
    (s : Text) (w : Version) → parse_version s ≡ some w → CanonicalPre w.pre → WellWritten s
well_written s w e c v h =
    let known : w ≡ v = cc (e, h) in subst {A = Version} (λ u. CanonicalPre u.pre) known c

abbrev Parses : String → Version → Type 0
Parses s v = parse_version (bytes s) ≡ some v

abbrev version_1_2 : String → Version
version_1_2 pre = record { major = 1; minor = 2; patch = 0; pre = bytes pre }

Parses-release : Parses "1.2.0" (version_1_2 "")
unfolding parse_version
Parses-release = refl

Parses-rc : Parses "v1.2.0-rc.2" (version_1_2 "rc.2")
unfolding parse_version
Parses-rc = refl

release_written : WellWritten (bytes "1.2.0")
unfolding atoi split
release_written = well_written _ _ Parses-release (λ x h. absurd (cc h), tt)

Parses-rc1 : Parses "1.2.0-rc.1" (version_1_2 "rc.1")
unfolding parse_version
Parses-rc1 = refl

rc_written : WellWritten (bytes "v1.2.0-rc.2")
unfolding atoi split
rc_written = well_written _ _ Parses-rc (λ x h. absurd (cc h), (λ x h. refl, tt))

rc1_written : WellWritten (bytes "1.2.0-rc.1")
unfolding atoi split
rc1_written = well_written _ _ Parses-rc1 (λ x h. absurd (cc h), (λ x h. refl, tt))

newer_asym_example : newer (bytes "v1.2.0-rc.2") (bytes "1.2.0") ≡ false
newer_asym_example =
    newer_asym (bytes "1.2.0") (bytes "v1.2.0-rc.2") release_written rc_written
      (unfold newer in refl)

newer_trans_example : newer (bytes "1.2.0") (bytes "1.2.0-rc.1") ≡ true
newer_trans_example =
    newer_trans (bytes "1.2.0") (bytes "v1.2.0-rc.2") (bytes "1.2.0-rc.1") release_written
      rc_written rc1_written (unfold newer in refl) (unfold newer in refl)

Parses-rc01 : Parses "1.2.0-rc.01" (version_1_2 "rc.01")
unfolding parse_version
Parses-rc01 = refl

tied : Tied (version_1_2 "rc.01") (version_1_2 "rc.1")
unfolding split atoi
tied = record {
  major_eq = refl;
  minor_eq = refl;
  patch_eq = refl;
  common = bytes "rc" ∷ [];
  left = bytes "01";
  right = bytes "1";
  left_rest = [];
  right_rest = [];
  number = pos 1;
  left_is = refl;
  right_is = refl;
  left_number = refl;
  right_number = refl;
  written_apart = λ e. absurd (ground (arith, e));
}

newer-Tied_example :
    (newer (bytes "1.2.0-rc.01") (bytes "1.2.0-rc.1") ≡ true)
    × (newer (bytes "1.2.0-rc.1") (bytes "1.2.0-rc.01") ≡ true)
newer-Tied_example =
    newer-Tied (bytes "1.2.0-rc.01") (bytes "1.2.0-rc.1") (version_1_2 "rc.01") (version_1_2 "rc.1")
      Parses-rc01 Parses-rc1 tied

-- A text is its own hash, and a key signs by standing before the bytes.
abbrev crypto : Crypto
crypto = record { verify_bytes = λ k msg sig. text_eq sig (k ++ msg); digest = λ s. s }

abbrev key_a : Text
key_a = bytes "a"

abbrev key_b : Text
key_b = bytes "b"

abbrev trusted : List PublicKey
trusted = record { raw = key_a } ∷ record { raw = key_b } ∷ []

abbrev build : Manifest
build = record { version = bytes "1.2.0"; sha256 = bytes "0F" }

abbrev by_b : Signature
by_b = record {
  version = bytes "1.2.0";
  sha256 = bytes "0f";
  key_id = key_b;
  signature = key_b ++ manifest_bytes build;
}

verify-none_iff_example : (verify crypto trusted build by_b ≡ none) ↔ (
    (by_b.version ≡ build.version)
    × ((equal_fold by_b.sha256 build.sha256 ≡ true)
        × SignedByFirst crypto trusted by_b.key_id (manifest_bytes build) by_b.signature))
verify-none_iff_example = verify-none_iff crypto trusted build by_b

verified : verify crypto trusted build by_b ≡ none
unfolding verify equal_fold manifest_bytes
verified = refl

manifest_bytes-injective_example :
    (bytes "1.2.0" ≡ bytes "1.2.0") × (to_lower (bytes "0F") ≡ to_lower (bytes "0f"))
unfolding to_lower manifest_bytes
manifest_bytes-injective_example =
    manifest_bytes-injective build (record { version = bytes "1.2.0"; sha256 = bytes "0f" }) refl
      refl

abbrev image : Asset
image = record {
  name = bytes "server";
  kind = bytes "server-image";
  os = [];
  arch = [];
  sha256 = [];
  image = bytes "retune";
  digest = bytes "sha256:00";
}

abbrev release : ReleaseManifest
release = record { schema = 1; version = bytes "1.2.0"; assets = image ∷ [] }

-- Reads every text as that manifest.
abbrev read_json : Text → Option ReleaseManifest
read_json s = some release

abbrev of_release : Signature
of_release = record {
  version = bytes "1.2.0";
  sha256 = bytes "ab";
  key_id = key_a;
  signature = key_a ++ release_manifest_bytes (bytes "1.2.0") (bytes "ab");
}

accepts :
    verify_release_manifest crypto read_json trusted (bytes "ab") of_release ≡ accepted release
unfolding verify_release_manifest equal_fold release_manifest_bytes
accepts = refl

verify_release_manifest-accepted_example :
    SignedByFirst crypto trusted key_a
      (release_manifest_bytes (bytes "1.2.0") (bytes "ab"))
      of_release.signature
    × (read_json (bytes "ab") ≡ some release)
    × (release.version ≡ bytes "1.2.0")
    × (validate release ≡ none)
verify_release_manifest-accepted_example =
    verify_release_manifest-accepted crypto read_json trusted (bytes "ab") of_release release
      accepts

validate-named_example :
    (named (image ∷ []) (bytes "server") ≡ some image) × (asset_fault image ≡ none)
unfolding validate
validate-named_example = validate-named release image refl (inl refl)

-- The byte n as n times "A", then "+".
abbrev run : ℕ → Text → Text
run zero rest = b'+' ∷ rest
run (suc n) rest = b'A' ∷ run n rest

abbrev unary : Text → Text
unary [] = []
unary (n ∷ s) = run n (unary s)

abbrev put : ℕ → Option Text → Option Text
put n none = none
put n (some s) = some (n ∷ s)

abbrev count : ℕ → Text → Option Text
count n [] = some []
count n (c ∷ s) =
    let ended = put n (count 0 s) in
    let more_of_it = count (suc n) s in if c == b'+' then ended else more_of_it

count-run : (k n : ℕ) (rest : Text) → count k (run n rest) ≡ put (k + n) (count 0 rest)
count-run k zero rest =
    let same_count : k ≡ k + 0 = ground arith in ap (λ i. put i (count 0 rest)) same_count
count-run k (suc n) rest =
    count-run (suc k) n rest
    ∙ (let same_count : suc k + n ≡ k + suc n = ground arith in
        ap (λ i. put i (count 0 rest)) same_count)

count-unary : (s : Text) → count 0 (unary s) ≡ some s
count-unary [] = refl
count-unary (n ∷ s) =
    let same_count : 0 + n ≡ n = ground arith in
    count-run 0 n (unary s)
    ∙ ap (λ i. put i (count 0 (unary s))) same_count
    ∙ ap (put n) (count-unary s)

run-InAlphabet : (n : ℕ) (rest : Text) → InAlphabet rest → InAlphabet (run n rest)
unfolding in_alphabet
run-InAlphabet zero rest h = (refl, h)
run-InAlphabet (suc n) rest h = (refl, run-InAlphabet n rest h)

unary-InAlphabet : (s : Text) → InAlphabet (unary s)
unary-InAlphabet [] = tt
unary-InAlphabet (n ∷ s) = run-InAlphabet n (unary s) (unary-InAlphabet s)

abbrev base64 : Base64
base64 = record { encode = unary; decode = count 0 }

base64_laws : IsBase64 base64
base64_laws = record {
  decode-encode = count-unary;
  decode_empty = refl;
  alphabet = unary-InAlphabet;
}

abbrev repeat : ℕ → ℕ → Text
repeat zero c = []
repeat (suc n) c = c ∷ repeat n c

abbrev keys : List PublicKey
keys = record { raw = repeat 32 0 } ∷ record { raw = repeat 32 1 } ∷ []

parse_trust_list-encode_trust_list_example :
    parse_trust_list base64 (encode_trust_list base64 keys) ≡ parsed keys
parse_trust_list-encode_trust_list_example =
    parse_trust_list-encode_trust_list base64 base64_laws keys (refl, (refl, tt))
