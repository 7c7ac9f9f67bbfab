-- ===== src/Release/Signing/Soundness.antt =====
-- What a signature that verifies says.
use retune.Base.{
  Bool, Bool-cases, Lacks, List, Option, Text, [], ap, arith, bytes, equal_fold, false,
  if◌then◌else◌, inl, inr, length, length-append, none, not, refl, some, suc, sym, text_eq,
  text_eq_iff, text_eq→eq, to_lower, true, ℕ, ◌++◌, ◌||◌, ◌↔◌, ◌∙◌, ◌∷◌, ◌≡◌, ◌≢◌, ◌⊎◌,
}
use retune.Release.Signing.{
  Crypto, Manifest, PublicKey, Signature, VerifyError, bad_signature, key_id, manifest_bytes,
  manifest_mismatch, release_manifest_bytes, signed_text, verify, verify_with,
}

-- One key's turn: the test of its identifier, and of the signature.
pub turn :
    {E : Type 0} (named good : Bool) (bad : E) (o : Option E)
    → ((if not named then o else if good then none else some bad) ≡ none)
      ↔ (((named ≡ true) × (good ≡ true)) ⊎ ((named ≡ false) × (o ≡ none)))
turn true true bad o = (λ h. inl (refl, refl), λ h. refl)
turn true false bad o =
    (λ h. absurd (cc h), λ h. elim h [ inl p ↦ absurd (cc p.1) | inr p ↦ absurd (cc p.0) ])
turn false good bad o = (λ h. inr (refl, h), λ h. elim h [ inl p ↦ absurd (cc p.0) | inr p ↦ p.1 ])

pub text_ne_iff : (s t : Text) → (text_eq s t ≡ false) ↔ (s ≢ t)
text_ne_iff s t = (
  λ e q. absurd (cc ((text_eq_iff s t).1 q, e)),
  λ n. elim (Bool-cases (text_eq s t)) [ inl e ↦ absurd (n (text_eq→eq s t e)) | inr e ↦ e ],
)

module _ (crypto : Crypto) where
  -- The first key of that identifier in the list, and its signature over the bytes holds.
  abbrev pub SignedByFirst : List PublicKey → Text → Text → Text → Type 0
  SignedByFirst [] id msg sig = ⊥
  SignedByFirst (k ∷ ks) id msg sig =
      ((key_id crypto k ≡ id) × (crypto.verify_bytes k.raw msg sig ≡ true))
      ⊎ ((key_id crypto k ≢ id) × SignedByFirst ks id msg sig)

  pub verify_with_iff :
      (ks : List PublicKey) (id msg sig : Text)
      → (verify_with crypto ks id msg sig ≡ none) ↔ SignedByFirst ks id msg sig
  unfolding verify_with
  verify_with_iff [] id msg sig = (λ h. absurd (cc h), λ h. absurd h)
  verify_with_iff (k ∷ ks) id msg sig =
      let ih = verify_with_iff ks id msg sig in
      let t =
        turn (text_eq (key_id crypto k) id) (crypto.verify_bytes k.raw msg sig) bad_signature
          (verify_with crypto ks id msg sig) in
      let eq = text_eq_iff (key_id crypto k) id in
      let ne = text_ne_iff (key_id crypto k) id in
      (
        λ h. elim (t.0 h) [ inl p ↦ inl (eq.0 p.0, p.1) | inr p ↦ inr (ne.0 p.0, ih.0 p.1) ],
        λ h. t.1 (elim h [ inl p ↦ inl (eq.1 p.0, p.1) | inr p ↦ inr (ne.1 p.0, ih.1 p.1) ]),
      )

  -- Two tests before the rest.
  guarded :
      (a b : Bool) (o : Option VerifyError)
      → ((if not a || not b then some manifest_mismatch else o) ≡ none)
        ↔ ((a ≡ true) × ((b ≡ true) × (o ≡ none)))
  guarded true true o = (λ h. (refl, (refl, h)), λ h. h.1.1)
  guarded true false o = (λ h. absurd (cc h), λ h. absurd (cc h.1.0))
  guarded false b o = (λ h. absurd (cc h), λ h. absurd (cc h.0))

  -- Verify returns nil exactly when the signature was made for this version and hash, up to the hash's
  -- letter case, and the first trusted key of the identifier that it names verifies the manifest's
  -- bytes.
  pub verify-none_iff :
      (trusted : List PublicKey) (m : Manifest) (sig : Signature)
      → (verify crypto trusted m sig ≡ none) ↔ (
          (sig.version ≡ m.version)
          × ((equal_fold sig.sha256 m.sha256 ≡ true)
              × SignedByFirst trusted sig.key_id (manifest_bytes m) sig.signature))
  unfolding verify
  verify-none_iff [] m sig = (λ h. absurd (cc h), λ h. absurd h.1.1)
  verify-none_iff (k ∷ ks) m sig =
      let g =
        guarded (text_eq sig.version m.version) (equal_fold sig.sha256 m.sha256)
          (verify_with crypto (k ∷ ks) sig.key_id (manifest_bytes m) sig.signature) in
      let v = verify_with_iff (k ∷ ks) sig.key_id (manifest_bytes m) sig.signature in
      let eq = text_eq_iff sig.version m.version in
      (
        λ h. (eq.0 (g.0 h).0, ((g.0 h).1.0, v.0 (g.0 h).1.1)),
        λ h. g.1 (eq.1 h.0, (h.1.0, v.1 h.1.1)),
      )

-- Without a line break in either, the versions of two equal lines are equal, and so is what follows.
pub line-injective :
    (s t u v : Text) → Lacks 10 s → Lacks 10 t → s ++ 10 ∷ u ≡ t ++ 10 ∷ v → (s ≡ t) × (u ≡ v)
line-injective [] [] u v h k e = (refl, cc e)
line-injective [] (d ∷ t) u v h k e = absurd (ground (arith))
line-injective (c ∷ s) [] u v h k e = absurd (ground (arith))
line-injective (c ∷ s) (d ∷ t) u v h k e =
    let (p, q) = line-injective s t u v h.1 k.1 (cc e) in (cc (e, p), q)

pub cancel : (p u v : Text) → p ++ u ≡ p ++ v → u ≡ v
cancel [] u v h = h
cancel (c ∷ p) u v h = cancel p u v (cc h)

longer : (c : ℕ) (s t u : Text) → length u ≡ length t → u ≢ (c ∷ s) ++ t
longer c s t u h e =
    let one = length-append s t in
    let two = ap {A = Text} (λ x. length x) e in omega (arith, one, two, h)

-- What ends two equal texts is equal if it is of one length, and so is what stands before.
suffix-injective : (s t u v : Text) → length u ≡ length v → s ++ u ≡ t ++ v → (s ≡ t) × (u ≡ v)
suffix-injective [] [] u v h e = (refl, e)
suffix-injective [] (d ∷ t) u v h e = absurd (longer d t v u h e)
suffix-injective (c ∷ s) [] u v h e = absurd (longer c s u v (sym h) (sym e))
suffix-injective (c ∷ s) (d ∷ t) u v h e =
    let (p, q) = suffix-injective s t u v h (cc e) in (cc (e, p), q)

length-to_lower : (s : Text) → length (to_lower s) ≡ length s
unfolding to_lower
length-to_lower [] = refl
length-to_lower (c ∷ s) = ap suc (length-to_lower s)

-- What follows the version.
abbrev hash_line : Text → Text
hash_line sum = 10 ∷ bytes "sha256=" ++ (sum ++ 10 ∷ [])

length-hash_line : (s t : Text) → length s ≡ length t → length (hash_line s) ≡ length (hash_line t)
length-hash_line s t h =
    let one = length-append s (10 ∷ []) in
    let two = length-append t (10 ∷ []) in omega (arith, one, two, h)

signed_text-injective :
    (first v w s t : Text)
    → length s ≡ length t
    → signed_text first v s ≡ signed_text first w t
    → (v ≡ w) × (s ≡ t)
unfolding signed_text
signed_text-injective first v w s t h e =
    let rest = cancel (10 ∷ bytes "version=") (v ++ hash_line s) (w ++ hash_line t) (
      cancel first (10 ∷ bytes "version=" ++ (v ++ hash_line s))
        (10 ∷ bytes "version=" ++ (w ++ hash_line t)) e) in
    let (p, q) = suffix-injective v w (hash_line s) (hash_line t) (length-hash_line s t h) rest in
    (
      p,
      (suffix-injective s t (10 ∷ []) (10 ∷ []) refl
          (cancel (10 ∷ bytes "sha256=") (s ++ 10 ∷ []) (t ++ 10 ∷ []) q)).0,
    )

-- The bytes that are signed for a build determine its version, whatever bytes that holds, and its
-- hash up to letter case, among hashes of one length (as SHA-256 in hex is).
pub manifest_bytes-injective :
    (m n : Manifest)
    → length m.sha256 ≡ length n.sha256
    → manifest_bytes m ≡ manifest_bytes n
    → (m.version ≡ n.version) × (to_lower m.sha256 ≡ to_lower n.sha256)
unfolding manifest_bytes
manifest_bytes-injective m n h e =
    signed_text-injective (bytes "retune-agent-manifest/v1") m.version n.version (to_lower m.sha256)
      (to_lower n.sha256) (length-to_lower m.sha256 ∙ h ∙ sym (length-to_lower n.sha256)) e

-- No bytes are signed both for a build and for release.json.
manifest_bytes-ne-release_manifest_bytes :
    (m : Manifest) (version sum : Text) → manifest_bytes m ≢ release_manifest_bytes version sum
unfolding manifest_bytes release_manifest_bytes signed_text
manifest_bytes-ne-release_manifest_bytes m version sum e = ground (arith, e)
