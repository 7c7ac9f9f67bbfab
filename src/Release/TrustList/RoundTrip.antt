-- ===== src/Release/TrustList/RoundTrip.antt =====
-- Reading back a written trust list.
use retune.Base.{
  AllLack, Bool, Lacks, List, Text, [], ap, arith, false, is_digit, is_space, join, leb, length,
  map, refl, reverse, reverse-reverse, reverse_aux, some, split, split-join, sym, trim_left,
  trim_space, true, ℕ, ◌&&◌, ◌==◌, ◌||◌, ◌∙◌, ◌∷◌, ◌≡◌, ◌≢◌,
}
use retune.Release.Signing.{PublicKey}
use retune.Release.TrustList.{
  Base64, Parsed, add_key, decode_public_key, encode_public_key, encode_trust_list, parse_part,
  parse_parts, parse_trust_list, parsed, sized,
}

-- The characters of standard base64, padding included.
unfoldable pub in_alphabet : ℕ → Bool
unfolding is_digit
in_alphabet c =
    is_digit c
    || (leb b'A' c && leb c b'Z')
    || (leb b'a' c && leb c b'z')
    || (c == b'+')
    || (c == b'/')
    || (c == b'=')

abbrev pub InAlphabet : Text → Type 0
InAlphabet [] = Unit
InAlphabet (c ∷ s) = (in_alphabet c ≡ true) × InAlphabet s

-- What encoding/base64 documents.
pub record IsBase64 (base64 : Base64) : Type 0 where
  pub decode-encode : (s : Text) → base64.decode (base64.encode s) ≡ some s
  pub decode_empty : base64.decode [] ≡ some []
  pub alphabet : (s : Text) → InAlphabet (base64.encode s)

in_alphabet-not_comma : (c : ℕ) → in_alphabet c ≡ true → (c == b',') ≡ false
unfolding in_alphabet is_digit
in_alphabet-not_comma c h = ground arith

in_alphabet-not_space : (c : ℕ) → in_alphabet c ≡ true → is_space c ≡ false
unfolding in_alphabet is_digit is_space
in_alphabet-not_space c h = ground arith

InAlphabet-Lacks : (s : Text) → InAlphabet s → Lacks b',' s
InAlphabet-Lacks [] h = tt
InAlphabet-Lacks (c ∷ s) h = (in_alphabet-not_comma c h.0, InAlphabet-Lacks s h.1)

InAlphabet-reverse_aux : (s t : Text) → InAlphabet s → InAlphabet t → InAlphabet (reverse_aux s t)
InAlphabet-reverse_aux [] t h k = k
InAlphabet-reverse_aux (c ∷ s) t h k = InAlphabet-reverse_aux s (c ∷ t) h.1 (h.0, k)

InAlphabet-trim_left : (s : Text) → InAlphabet s → trim_left s ≡ s
unfolding trim_left
InAlphabet-trim_left [] h = refl
InAlphabet-trim_left (c ∷ s) h = rw (in_alphabet-not_space c h.0) refl

InAlphabet-trim_space : (s : Text) → InAlphabet s → trim_space s ≡ s
unfolding trim_space
InAlphabet-trim_space s h =
    ap (λ t. reverse (trim_left (reverse t))) (InAlphabet-trim_left s h)
    ∙ ap reverse (InAlphabet-trim_left (reverse s) (InAlphabet-reverse_aux s [] h tt))
    ∙ reverse-reverse s

abbrev pub AllSized : List PublicKey → Type 0
AllSized [] = Unit
AllSized (k ∷ ks) = (length k.raw ≡ 32) × AllSized ks

module _ (base64 : Base64) (laws : IsBase64 base64) where
  encode-not_empty : (s : Text) → length s ≡ 32 → base64.encode s ≢ []
  encode-not_empty s h e =
      let d : some s ≡ some [] =
        sym (laws.decode-encode s) ∙ ap base64.decode e ∙ laws.decode_empty in
      let e2 : s ≡ [] = cc d in cc (h, ap length e2)

  decode-encode_public_key :
      (k : PublicKey)
      → length k.raw ≡ 32
      → decode_public_key base64 (encode_public_key base64 k) ≡ parsed k
  unfolding decode_public_key encode_public_key
  decode-encode_public_key k h =
      ap (λ t. sized base64 (base64.decode t)) (InAlphabet-trim_space _ (laws.alphabet k.raw))
      ∙ ap (sized base64) (laws.decode-encode k.raw)
      ∙ rw h refl

  parse_part-not_empty :
      (t : Text) (rest : Parsed (List PublicKey))
      → t ≢ []
      → parse_part base64 t rest ≡ add_key base64 (decode_public_key base64 t) rest
  parse_part-not_empty [] rest h = absurd (h refl)
  parse_part-not_empty (c ∷ s) rest h = refl

  encode_public_key-trim :
      (k : PublicKey) → trim_space (encode_public_key base64 k) ≡ encode_public_key base64 k
  unfolding encode_public_key
  encode_public_key-trim k = InAlphabet-trim_space _ (laws.alphabet k.raw)

  parse_part-key :
      (t : Text)
      → trim_space t ≡ t
      → t ≢ []
      → (k : PublicKey) → decode_public_key base64 t ≡ parsed k
      → {rest : Parsed (List PublicKey)} {ks : List PublicKey} → rest ≡ parsed ks
      → parse_part base64 (trim_space t) rest ≡ parsed (k ∷ ks)
  parse_part-key t trimmed some_text k d {rest} e =
      ap (λ u. parse_part base64 u rest) trimmed ∙ parse_part-not_empty t rest some_text ∙ cc (d, e)

  parse_parts-keys :
      (keys : List PublicKey)
      → AllSized keys
      → parse_parts base64 (map (encode_public_key base64) keys) ≡ parsed keys
  unfolding parse_parts encode_public_key
  parse_parts-keys [] h = refl
  parse_parts-keys (k ∷ ks) h =
      parse_part-key (encode_public_key base64 k) (encode_public_key-trim k)
        (encode-not_empty k.raw h.0) k (decode-encode_public_key k h.0) (parse_parts-keys ks h.1)

  AllLack-keys : (keys : List PublicKey) → AllLack b',' (map (encode_public_key base64) keys)
  unfolding encode_public_key
  AllLack-keys [] = tt
  AllLack-keys (k ∷ ks) = (InAlphabet-Lacks _ (laws.alphabet k.raw), AllLack-keys ks)

  -- A written trust list of 32 byte keys reads back as the same keys in the same order.
  pub parse_trust_list-encode_trust_list :
      (keys : List PublicKey)
      → AllSized keys
      → parse_trust_list base64 (encode_trust_list base64 keys) ≡ parsed keys
  unfolding parse_trust_list encode_trust_list parse_parts split join trim_space trim_left
  parse_trust_list-encode_trust_list [] h = refl
  parse_trust_list-encode_trust_list (k ∷ ks) h =
      ap (parse_parts base64) (split-join b',' _ _ (AllLack-keys (k ∷ ks)).0 (AllLack-keys ks))
      ∙ parse_parts-keys (k ∷ ks) h
