-- ===== src/Commands/Output/Size.antt =====
-- How long stored output can be.
use retune.Base.{
  Bool, Bool-cases, Option, Text, [], ap, arith, false, inl, inr, length, ltb, none, refl, some,
  suc, true, zero, ℕ, ◌*◌, ◌∙◌, ◌∷◌, ◌≡◌, ◌≤◌,
}
use retune.Commands.Output.{
  between, clamp, clamp_output, is_tail, max_output_bytes, one_rune, second_ok, tail_of_rune, take,
  to_valid_utf8, valid_from, without_nul,
}

one_rune-length :
    (o : Option ℕ) (c : ℕ) (invalid : Bool) (bad : Text) (good : ℕ → Text) (n : ℕ)
    → length bad ≤ 3 * n
    → ((k : ℕ) → length (good k) ≤ 3 * n)
    → length (one_rune o c invalid bad good) ≤ 3 * suc n
one_rune-length (some k) c invalid bad good n b g = let h = g k in omega (arith, h)
one_rune-length none c true bad good n b g = omega (arith, b)
one_rune-length none c false bad good n b g = omega (arith, b)

valid_from-length :
    (tail : ℕ) (invalid : Bool) (s : Text) → length (valid_from tail invalid s) ≤ 3 * length s
unfolding valid_from
valid_from-length tail invalid [] = omega arith
valid_from-length (suc n) invalid (c ∷ s) = omega (arith, valid_from-length n false s)
valid_from-length zero invalid (c ∷ s) =
    one_rune-length (tail_of_rune (c ∷ s)) c invalid (valid_from zero true s)
      (λ n. valid_from n false s) (length s) (valid_from-length zero true s)
      (λ k. valid_from-length k false s)

length-take : (n : ℕ) (s : Text) → length (take n s) ≤ n
length-take zero s = omega arith
length-take (suc n) [] = omega arith
length-take (suc n) (c ∷ s) = omega (arith, length-take n s)

clamp-length : (cap : ℕ) (s : Text) (truncated : Bool) → length (clamp cap s truncated).0 ≤ 3 * cap
unfolding clamp to_valid_utf8
clamp-length cap s truncated = elim (Bool-cases (ltb cap (length s))) [
  | inl e ↦ rw e (
      let v = valid_from-length 0 false (take cap s) in
      let t = length-take cap s in omega (arith, v, t))
  | inr e ↦ rw e (
      let v = valid_from-length 0 false s in
      let t : length s ≤ cap = ground (arith, e) in omega (arith, v, t))
]

-- Stored output is at most three times as long as the cap on it.
pub clamp_output-length :
    (s : Text) (truncated : Bool) → length (clamp_output s truncated).0 ≤ 3 * max_output_bytes
unfolding clamp_output
clamp_output-length s truncated = clamp-length max_output_bytes (without_nul s) truncated

-- The byte 255, which no rune contains, and "a", in turns.
abbrev pub alternating : ℕ → Text
alternating zero = []
alternating (suc n) = 255 ∷ 97 ∷ alternating n

abbrev pub stored_pairs : ℕ → Text
stored_pairs zero = []
stored_pairs (suc n) = 239 ∷ 191 ∷ 189 ∷ 97 ∷ stored_pairs n

without_nul-alternating : (n : ℕ) → without_nul (alternating n) ≡ alternating n
unfolding without_nul
without_nul-alternating zero = refl
without_nul-alternating (suc n) = ap (λ s. 255 ∷ 97 ∷ s) (without_nul-alternating n)

no_rune : (n : ℕ) → tail_of_rune (255 ∷ 97 ∷ alternating n) ≡ none
unfolding tail_of_rune is_tail between second_ok
no_rune zero = refl
no_rune (suc n) = refl

one_byte : (n : ℕ) → tail_of_rune (97 ∷ alternating n) ≡ some 0
unfolding tail_of_rune
one_byte zero = refl
one_byte (suc zero) = refl
one_byte (suc (suc n)) = refl

valid_from-alternating : (n : ℕ) → valid_from 0 false (alternating n) ≡ stored_pairs n
unfolding valid_from
valid_from-alternating zero = refl
valid_from-alternating (suc n) =
    rw (no_rune n, one_byte n) (ap (λ s. 239 ∷ 191 ∷ 189 ∷ 97 ∷ s) (valid_from-alternating n))

length-alternating : (n : ℕ) → length (alternating n) ≡ 2 * n
length-alternating zero = refl
length-alternating (suc n) = omega (arith, length-alternating n)

length-stored_pairs : (n : ℕ) → length (stored_pairs n) ≡ 4 * n
length-stored_pairs zero = refl
length-stored_pairs (suc n) = omega (arith, length-stored_pairs n)

-- Output of n pairs of an invalid byte and a letter, within the cap, is stored as 4 * n bytes, which is
-- twice its length, and is not marked as truncated.
pub clamp_output-alternating :
    (n : ℕ)
    → 2 * n ≤ max_output_bytes
    → (length (clamp_output (alternating n) false).0 ≡ 4 * n)
      × ((clamp_output (alternating n) false).1 ≡ false)
unfolding clamp_output clamp to_valid_utf8
clamp_output-alternating n h =
    let fits : ltb max_output_bytes (length (alternating n)) ≡ false =
      ground (arith, length-alternating n, h) in
    rw (without_nul-alternating n)
      (rw fits (ap length (valid_from-alternating n) ∙ length-stored_pairs n, refl))
