-- ===== src/Release/Manifest/Verified.antt =====
-- What an accepted release manifest is.
use retune.Base.{
  Bool, List, Option, Text, [], ap, equal_fold, false, if◌then◌else◌, inl, inr, is_blank, none, not,
  refl, some, subst, text_eq, text_eq_refl, text_eq→eq, true, ◌==◌, ◌||◌, ◌∷◌, ◌≡◌, ◌⊎◌,
}
use retune.Release.Version.{Version, parse_version}
use retune.Release.Signing.{Crypto, PublicKey, Signature, VerifyError, release_manifest_bytes}
use retune.Release.Signing.Soundness.{SignedByFirst, verify_with_iff}
use retune.Release.Manifest.{
  Asset, ManifestError, Outcome, ReleaseManifest, accepted, after_fault, after_signature,
  asset_fault, assets_fault, bad_name, bad_schema, checked, manifest_schema, named, or_fault,
  seen_name, unverified, validate, verify_release_manifest, with_version,
}

after_fault-accepted :
    (v : Option ManifestError) (n m : ReleaseManifest)
    → after_fault v n ≡ accepted m
    → (v ≡ none) × (n ≡ m)
after_fault-accepted none n m h = (refl, cc h)
after_fault-accepted (some e) n m h = absurd (cc h)

if_not-accepted :
    (b : Bool) (e : VerifyError) (o : Outcome) (m : ReleaseManifest)
    → (if not b then unverified e else o) ≡ accepted m
    → (b ≡ true) × (o ≡ accepted m)
if_not-accepted true e o m h = (refl, h)
if_not-accepted false e o m h = absurd (cc h)

after_signature-accepted :
    (v : Option VerifyError) (o : Outcome) (m : ReleaseManifest)
    → after_signature v o ≡ accepted m
    → (v ≡ none) × (o ≡ accepted m)
after_signature-accepted none o m h = (refl, h)
after_signature-accepted (some e) o m h = absurd (cc h)

checked-accepted :
    (sig : Signature) (o : Option ReleaseManifest) (m : ReleaseManifest)
    → checked sig o ≡ accepted m
    → (o ≡ some m) × (m.version ≡ sig.version) × (validate m ≡ none)
unfolding checked
checked-accepted sig none m h = absurd (cc h)
checked-accepted sig (some n) m h =
    let (e, k) = if_not-accepted (text_eq n.version sig.version) _ _ m h in
    let (v, same) = after_fault-accepted (validate n) n m k in
    (
      ap some same,
      subst (λ k. k.version ≡ sig.version) same (text_eq→eq n.version sig.version e),
      subst (λ k. validate k ≡ none) same v,
    )

module _ (crypto : Crypto) (read_json : Text → Option ReleaseManifest) where
  -- A manifest is accepted only if the first trusted key of the identifier that the signature names
  -- verifies the signature's version with the hash of these very bytes, the bytes read as that
  -- manifest, its version is the signature's, and it is valid.
  pub verify_release_manifest-accepted :
      (trusted : List PublicKey) (raw : Text) (sig : Signature) (m : ReleaseManifest)
      → verify_release_manifest crypto read_json trusted raw sig ≡ accepted m
      → SignedByFirst crypto trusted sig.key_id
          (release_manifest_bytes sig.version (crypto.digest raw))
          sig.signature
        × (read_json raw ≡ some m)
        × (m.version ≡ sig.version)
        × (validate m ≡ none)
  unfolding verify_release_manifest
  verify_release_manifest-accepted [] raw sig m h = absurd (cc h)
  verify_release_manifest-accepted (k ∷ ks) raw sig m h =
      let (e, a) = if_not-accepted (equal_fold sig.sha256 (crypto.digest raw)) _ _ m h in
      let (v, c) = after_signature-accepted _ _ m a in
      let (r, s, t) = checked-accepted sig (read_json raw) m c in
      ((verify_with_iff crypto (k ∷ ks) sig.key_id _ sig.signature).0 v, r, s, t)

abbrev pub HasAsset : Asset → List Asset → Type 0
HasAsset a [] = ⊥
HasAsset a (b ∷ rest) = (b ≡ a) ⊎ HasAsset a rest

turn-none :
    (blank seen : Bool) (f later : Option ManifestError)
    → (if blank || seen then some bad_name else or_fault f later) ≡ none
    → (seen ≡ false) × (f ≡ none) × (later ≡ none)
turn-none true seen f later h = absurd (cc h)
turn-none false true f later h = absurd (cc h)
turn-none false false none later h = (refl, refl, h)
turn-none false false (some e) later h = absurd (cc h)

or_false : (x y : Bool) → (x || y) ≡ false → (x ≡ false) × (y ≡ false)
or_false false y h = (refl, h)
or_false true y h = absurd (cc h)

unseen :
    (a : Asset) (seen : List Text) (as' : List Asset)
    → assets_fault seen as' ≡ none
    → HasAsset a as'
    → seen_name seen a.name ≡ false
unfolding assets_fault seen_name
unseen a seen [] h m = absurd m
unseen a seen (b ∷ rest) h m =
    let (s, f, l) =
      turn-none (is_blank b.name) (seen_name seen b.name) (asset_fault b)
        (assets_fault (b.name ∷ seen) rest) h in
    elim m [
      | inl e ↦ subst (λ c. seen_name seen c.name ≡ false) e s
      | inr k ↦
          (or_false (text_eq b.name a.name) (seen_name seen a.name)
            (unseen a (b.name ∷ seen) rest l k)).1
    ]

named-fault :
    (a : Asset) (seen : List Text) (as' : List Asset)
    → assets_fault seen as' ≡ none
    → HasAsset a as'
    → (named as' a.name ≡ some a) × (asset_fault a ≡ none)
unfolding assets_fault named seen_name
named-fault a seen [] h m = absurd m
named-fault a seen (b ∷ rest) h m =
    let (s, f, l) =
      turn-none (is_blank b.name) (seen_name seen b.name) (asset_fault b)
        (assets_fault (b.name ∷ seen) rest) h in
    elim m [
      | inl e ↦
          subst
            (λ c.
              ((if text_eq b.name c.name then some b else named rest c.name) ≡ some c)
              × (asset_fault c ≡ none))
            e (rw (text_eq_refl b.name) (refl, f))
      | inr k ↦
          let other =
            or_false (text_eq b.name a.name) (seen_name seen a.name)
              (unseen a (b.name ∷ seen) rest l k) in
          let ih = named-fault a (b.name ∷ seen) rest l k in (rw other.0 ih.0, ih.1)
    ]

valid_assets :
    (b : Bool) (v : Option Version) (f : Option ManifestError)
    → (if not b then some bad_schema else with_version v f) ≡ none
    → f ≡ none
unfolding with_version
valid_assets false v f h = absurd (cc h)
valid_assets true none f h = absurd (cc h)
valid_assets true (some v) f h = h

-- In a valid manifest every asset is the one that Named finds under its name, and has no fault: a file
-- has a hash of 32 bytes in hex, an image its name and digest.
pub validate-named :
    (m : ReleaseManifest) (a : Asset)
    → validate m ≡ none
    → HasAsset a m.assets
    → (named m.assets a.name ≡ some a) × (asset_fault a ≡ none)
unfolding validate with_version
validate-named m a h k =
    named-fault a [] m.assets
      (valid_assets (m.schema == manifest_schema) (parse_version m.version)
        (assets_fault [] m.assets) h)
      k
