-- ===== src/Opsign/Sound.antt =====
-- What an operations signature that verifies says.
use retune.Base.{
  Bool, Lacks, List, Option, Text, [], arith, bytes, false, if◌then◌else◌, inl, inr, is_blank, none,
  refl, some, text_eq, text_eq_iff, to_lower, true, ℕ, ◌++◌, ◌<◌, ◌==◌, ◌∷◌, ◌≡◌,
}
use retune.Release.Signing.{Crypto, PublicKey, key_id}
use retune.Release.Signing.Soundness.{SignedByFirst, cancel, line-injective, text_ne_iff, turn}
use retune.Release.TrustList.{Base64}
use retune.Commands.Payload.{OpSignature}
use retune.Opsign.{
  Clock, OpError, bad_op_signature, format_bool, unless_expired, unsigned, verify_key, verify_raw,
  verify_signature, verify_signed, verify_wipe, wipe_manifest,
}

module _ (crypto : Crypto) (base64 : Base64) where
  -- A signature is given, it decodes, and the first key of its identifier verifies it.
  abbrev pub SignedBy : List PublicKey → Text → Option OpSignature → Type 0
  SignedBy trusted manifest none = ⊥
  SignedBy trusted manifest (some sig) =
      (raw : Text) × (base64.decode sig.signature ≡ some raw)
      × SignedByFirst crypto trusted sig.key_id manifest raw

  verify_key-none :
      (ks : List PublicKey) (id manifest raw : Text)
      → verify_key crypto base64 ks id manifest raw ≡ none
      → SignedByFirst crypto ks id manifest raw
  unfolding verify_key
  verify_key-none [] id manifest raw h = absurd (cc h)
  verify_key-none (k ∷ ks) id manifest raw h =
      let t =
        turn (text_eq (key_id crypto k) id) (crypto.verify_bytes k.raw manifest raw)
          bad_op_signature (verify_key crypto base64 ks id manifest raw) in
      elim (t.0 h) [
        | inl p ↦ inl ((text_eq_iff _ _).0 p.0, p.1)
        | inr p ↦ inr ((text_ne_iff _ _).0 p.0, verify_key-none ks id manifest raw p.1)
      ]

  verify_raw-none :
      (trusted : List PublicKey) (manifest id : Text) (o : Option Text)
      → verify_raw crypto base64 trusted manifest id o ≡ none
      → (raw : Text) × (o ≡ some raw) × SignedByFirst crypto trusted id manifest raw
  verify_raw-none trusted manifest id none h = absurd (cc h)
  verify_raw-none trusted manifest id (some raw) h =
      (raw, refl, verify_key-none trusted id manifest raw h)

  verify_signature-none :
      (trusted : List PublicKey) (manifest : Text) (sig : Option OpSignature)
      → verify_signature crypto base64 trusted manifest sig ≡ none
      → SignedBy trusted manifest sig
  verify_signature-none trusted manifest none h = absurd (cc h)
  verify_signature-none trusted manifest (some sig) h =
      verify_raw-none trusted manifest sig.key_id (base64.decode sig.signature)
        (otherwise (is_blank sig.signature) h)
    where
      otherwise :
          {o : Option OpError} (b : Bool) → (if b then some unsigned else o) ≡ none → o ≡ none
      otherwise true h = absurd (cc h)
      otherwise false h = h

  verify_signed-none :
      (trusted : List PublicKey) (manifest : Text) (sig : Option OpSignature)
      → verify_signed crypto base64 trusted manifest sig ≡ none
      → SignedBy trusted manifest sig
  unfolding verify_signed
  verify_signed-none [] manifest sig h = absurd (cc h)
  verify_signed-none (k ∷ ks) manifest sig h = verify_signature-none (k ∷ ks) manifest sig h

  unless_expired-none :
      (v : Option OpError) (expires now : ℕ)
      → unless_expired crypto base64 v expires now ≡ none
      → (v ≡ none) × (now < expires)
  unless_expired-none none expires now h = (refl, ground arith)
  unless_expired-none (some e) expires now h = absurd (cc h)

  -- A wipe order that verifies is signed by the first trusted key that its signature names, for this
  -- device, this choice of protected and this expiry, and has not expired.
  pub verify_wipe-SignedBy :
      (clock : Clock) (trusted : List PublicKey) (device : Text) (is_protected : Bool)
      (expires now : ℕ) (sig : Option OpSignature)
      → verify_wipe crypto base64 clock trusted device is_protected expires now sig ≡ none
      → SignedBy trusted (wipe_manifest clock device is_protected expires) sig × (now < expires)
  unfolding verify_wipe
  verify_wipe-SignedBy clock trusted device is_protected expires now sig h =
      let (v, earlier) =
        unless_expired-none
          (verify_signed crypto base64 trusted (wipe_manifest clock device is_protected expires)
            sig)
          expires now (not_zero (expires == 0) h) in
      (verify_signed-none trusted (wipe_manifest clock device is_protected expires) sig v, earlier)
    where
      not_zero :
          {o : Option OpError} (b : Bool) → (if b then some unsigned else o) ≡ none → o ≡ none
      not_zero true h = absurd (cc h)
      not_zero false h = h

format_bool-injective : (b c : Bool) → format_bool b ≡ format_bool c → b ≡ c
format_bool-injective true true h = refl
format_bool-injective true false h = absurd (ground (arith, h))
format_bool-injective false true h = absurd (ground (arith, h))
format_bool-injective false false h = refl

format_bool-Lacks : (b : Bool) → Lacks 10 (format_bool b)
format_bool-Lacks true = (refl, (refl, (refl, (refl, tt))))
format_bool-Lacks false = (refl, (refl, (refl, (refl, (refl, tt)))))

-- The text that is signed for a wipe determines the device in lower case, the choice of protected and
-- the written expiry, if neither the device nor a written time holds a line break.
wipe_manifest-injective :
    (clock : Clock) (d e : Text) (p q : Bool) (x y : ℕ)
    → Lacks 10 (to_lower d)
    → Lacks 10 (to_lower e)
    → Lacks 10 (clock.format x)
    → Lacks 10 (clock.format y)
    → wipe_manifest clock d p x ≡ wipe_manifest clock e q y
    → (to_lower d ≡ to_lower e) × (p ≡ q) × (clock.format x ≡ clock.format y)
unfolding wipe_manifest
wipe_manifest-injective clock d e p q x y ld le lx ly h =
    let last = λ (u : Text). bytes "expires=" ++ (u ++ 10 ∷ []) in
    let middle = λ (b : Bool) (u : Text). bytes "protected=" ++ (format_bool b ++ (10 ∷ last u)) in
    let front =
      bytes "retune-command-manifest/v1" ++ (10 ∷ bytes "type=wipe" ++ (10 ∷ bytes "device=")) in
    let one =
      line-injective (to_lower d) (to_lower e) (middle p (clock.format x))
        (middle q (clock.format y)) ld le
        (cancel front (to_lower d ++ 10 ∷ middle p (clock.format x))
          (to_lower e ++ 10 ∷ middle q (clock.format y)) h) in
    let two =
      line-injective (format_bool p) (format_bool q) (last (clock.format x)) (last (clock.format y))
        (format_bool-Lacks p) (format_bool-Lacks q)
        (cancel (bytes "protected=") (format_bool p ++ 10 ∷ last (clock.format x))
          (format_bool q ++ 10 ∷ last (clock.format y)) one.1) in
    let three =
      line-injective (clock.format x) (clock.format y) [] [] lx ly
        (cancel (bytes "expires=") (clock.format x ++ 10 ∷ []) (clock.format y ++ 10 ∷ []) two.1) in
    (one.0, format_bool-injective p q two.0, three.0)
