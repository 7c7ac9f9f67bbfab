-- ===== src/Release/TrustList.antt =====
-- internal/release/release.go: DecodePublicKey, ParseTrustList and EncodeTrustList.
pub mod RoundTrip
use retune.Base.{
  List, Option, Text, [], if◌then◌else◌, join, length, map, none, some, split, trim_space, ◌==◌,
  ◌∷◌,
}
use retune.Release.Signing.{PublicKey}

-- base64.StdEncoding
pub record Base64 : Type 0 where
  pub encode : Text → Text
  pub decode : Text → Option Text

pub data KeyError : Type 0 where
  not_base64 wrong_size : KeyError

pub data Parsed (A : Type 0) : Type 0 where
  parsed : A → Parsed A
  failed : KeyError → Parsed A

module _ (base64 : Base64) where
  unfoldable pub encode_public_key : PublicKey → Text
  encode_public_key k = base64.encode k.raw

  abbrev pub sized : Option Text → Parsed PublicKey
  sized none = failed not_base64
  sized (some raw) = if length raw == 32 then parsed (record { raw = raw }) else failed wrong_size

  unfoldable pub decode_public_key : Text → Parsed PublicKey
  unfolding trim_space
  decode_public_key s = sized (base64.decode (trim_space s))

  abbrev pub add_key : Parsed PublicKey → Parsed (List PublicKey) → Parsed (List PublicKey)
  add_key (failed e) rest = failed e
  add_key (parsed k) (failed e) = failed e
  add_key (parsed k) (parsed ks) = parsed (k ∷ ks)

  abbrev pub parse_part : Text → Parsed (List PublicKey) → Parsed (List PublicKey)
  parse_part [] rest = rest
  parse_part (c ∷ s) rest = add_key (decode_public_key (c ∷ s)) rest

  unfoldable pub parse_parts : List Text → Parsed (List PublicKey)
  unfolding decode_public_key trim_space
  parse_parts [] = parsed []
  parse_parts (p ∷ ps) = parse_part (trim_space p) (parse_parts ps)

  unfoldable pub parse_trust_list : Text → Parsed (List PublicKey)
  unfolding parse_parts split
  parse_trust_list s = parse_parts (split b',' s)

  unfoldable pub encode_trust_list : List PublicKey → Text
  unfolding encode_public_key join
  encode_trust_list keys = join b',' (map encode_public_key keys)
