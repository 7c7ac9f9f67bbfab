-- ===== src/Release/Version/Number.antt =====
-- Numbers without a leading zero are written in one way.
use retune.Base.{
  ==→eq, Bool, Bool-cases, Option, Text, [], ap, arith, false, if◌then◌else◌, inl, inr, is_digit,
  none, not, refl, reverse, reverse-reverse, reverse_aux, some, subst, sym, true, ℕ, ◌&&◌, ◌*◌, ◌+◌,
  ◌-◌, ◌<◌, ◌==◌, ◌∙◌, ◌∷◌, ◌≡◌, ◌≤◌, ◌⊎◌,
}
use retune.Release.Version.{atoi, digits_value, pos, positive, unsigned, ℤ}

-- Of a text that Atoi reads as a number: it starts with a digit, and with "0" only if that is all.
abbrev pub is_plain : Text → Bool
is_plain [] = false
is_plain (c ∷ []) = is_digit c
is_plain (c ∷ d ∷ s) = is_digit c && not (c == b'0')

-- The value of digits in reverse, the last first.
abbrev value : Text → ℕ
value [] = 0
value (c ∷ r) = (c - b'0') + 10 * value r

abbrev Digits : Text → Type 0
Digits [] = Unit
Digits (c ∷ r) = (is_digit c ≡ true) × Digits r

-- The last byte is not "0".
abbrev EndsNonZero : Text → Type 0
EndsNonZero [] = Unit
EndsNonZero (c ∷ []) = (c == b'0') ≡ false
EndsNonZero (c ∷ d ∷ r) = EndsNonZero (d ∷ r)

value_pos : (c : ℕ) (r : Text) → Digits (c ∷ r) → EndsNonZero (c ∷ r) → 0 < value (c ∷ r)
unfolding is_digit
value_pos c [] d e = ground arith
value_pos c (x ∷ r) d e = omega (arith, value_pos x r d.1 e)

EndsNonZero-tail : (c : ℕ) (r : Text) → EndsNonZero (c ∷ r) → EndsNonZero r
EndsNonZero-tail c [] e = tt
EndsNonZero-tail c (x ∷ r) e = e

digit-range : (c : ℕ) → is_digit c ≡ true → (48 ≤ c) × (c ≤ 57)
unfolding is_digit
digit-range c h = ground arith

value-injective :
    (r s : Text) → Digits r → Digits s → EndsNonZero r → EndsNonZero s → value r ≡ value s → r ≡ s
value-injective [] [] d e f g h = refl
value-injective [] (c ∷ s) d e f g h = absurd (omega (arith, value_pos c s e g, h))
value-injective (c ∷ r) [] d e f g h = absurd (omega (arith, value_pos c r d f, h))
value-injective (c ∷ r) (x ∷ s) d e f g h =
    let dc = digit-range c d.0 in
    let dx = digit-range x e.0 in
    let same : c ≡ x = omega (arith, h) in
    let rest : value r ≡ value s = omega (arith, h) in
    cc (same, value-injective r s d.1 e.1 (EndsNonZero-tail c r f) (EndsNonZero-tail x s g) rest)

-- Reading digits on from the value of `r` gives the value of all, in reverse.
digits_value-reverse_aux :
    (r s : Text) (n : ℕ)
    → Digits r
    → digits_value (value r) s ≡ some n
    → Digits (reverse_aux s r) × (value (reverse_aux s r) ≡ n)
unfolding digits_value
digits_value-reverse_aux r [] n d h = (d, cc h)
digits_value-reverse_aux r (c ∷ s) n d h = elim (Bool-cases (is_digit c)) [
  | inl e ↦
      digits_value-reverse_aux (c ∷ r) s n (e, d)
        (subst (λ v. digits_value v s ≡ some n) (omega arith)
          (subst (λ b. (if b then digits_value (value r * 10 + (c - b'0')) s else none) ≡ some n) e
            h))
  | inr e ↦ absurd (
      cc (
        subst (λ b. (if b then digits_value (value r * 10 + (c - b'0')) s else none) ≡ some n) e h))
]

reverse_aux-EndsNonZero :
    (c : ℕ) (r s : Text) → EndsNonZero (c ∷ r) → EndsNonZero (reverse_aux s (c ∷ r))
reverse_aux-EndsNonZero c r [] e = e
reverse_aux-EndsNonZero c r (x ∷ s) e = reverse_aux-EndsNonZero x (c ∷ r) s e

-- The digits of a text in reverse, with their value; only "0" itself ends in "0" in reverse.
record Reads (s : Text) (n : ℕ) : Type 0 where
  digits : Digits (reverse s)
  worth : value (reverse s) ≡ n
  led : ((s ≡ b'0' ∷ []) × (n ≡ 0)) ⊎ ((0 < n) × EndsNonZero (reverse s))

positive_of_led :
    (r : Text) (c : ℕ)
    → Digits (reverse_aux r (c ∷ []))
    → EndsNonZero (reverse_aux r (c ∷ []))
    → 0 < value (reverse_aux r (c ∷ []))
positive_of_led r c = go r (c ∷ []) tt
  where
    NotEmpty : Text → Type 0
    NotEmpty [] = ⊥
    NotEmpty (x ∷ s) = Unit

    go :
        (s r : Text)
        → NotEmpty r
        → Digits (reverse_aux s r)
        → EndsNonZero (reverse_aux s r)
        → 0 < value (reverse_aux s r)
    go [] [] h d e = absurd h
    go [] (c ∷ r) h d e = value_pos c r d e
    go (x ∷ s) r h d e = go s (x ∷ r) tt d e

lead-Reads :
    (c : ℕ) (s : Text) (n : ℕ)
    → is_digit c ≡ true
    → digits_value (value (c ∷ [])) s ≡ some n
    → (c == b'0') ≡ false
    → Reads (c ∷ s) n
lead-Reads c s n d h z =
    let r = digits_value-reverse_aux (c ∷ []) s n (d, tt) h in
    let e = reverse_aux-EndsNonZero c [] s z in
    record {
      digits = r.0;
      worth = r.1;
      led = inr (subst (λ m. 0 < m) r.1 (positive_of_led s c r.0 e), e);
    }

-- Two texts that read as the same number so are the same text.
Reads-injective : (s t : Text) (n : ℕ) → Reads s n → Reads t n → s ≡ t
Reads-injective s t n p q = elim p.led [
  | inl a ↦ elim q.led [ inl b ↦ a.0 ∙ sym b.0 | inr b ↦ absurd (omega (arith, a.1, b.0)) ]
  | inr a ↦ elim q.led [
    | inl b ↦ absurd (omega (arith, b.1, a.0))
    | inr b ↦
        sym (reverse-reverse s)
        ∙ ap reverse (
            value-injective (reverse s) (reverse t) p.digits q.digits a.1 b.1
              (p.worth ∙ sym q.worth))
        ∙ reverse-reverse t
  ]
]

digits_value_lem :
    (c : ℕ) (s : Text)
    → is_digit c ≡ true
    → digits_value 0 (c ∷ s) ≡ digits_value (value (c ∷ [])) s
unfolding digits_value
digits_value_lem c s d = rw d (ap (λ v. digits_value v s) (omega arith))

zero_eq : (c n : ℕ) → c ≡ b'0' → is_digit c ≡ true → digits_value 0 (c ∷ []) ≡ some n → n ≡ 0
unfolding digits_value
zero_eq c n e d h = ground (arith)

plain-Reads : (s : Text) (n : ℕ) → is_plain s ≡ true → unsigned s ≡ some n → Reads s n
unfolding unsigned
plain-Reads [] n p h = cc
plain-Reads (c ∷ []) n p h = elim (Bool-cases (c == b'0')) [
  | inl z ↦
      let c_eq : c ≡ b'0' = ==→eq c b'0' z in
      let n_eq : n ≡ 0 = zero_eq c n c_eq p h in
      record {
        digits = (p, tt);
        worth = omega (arith, c_eq, n_eq);
        led = inl (ap (λ (d : ℕ). d ∷ []) c_eq, n_eq);
      }
  | inr z ↦ lead-Reads c [] n p (sym (digits_value_lem c [] p) ∙ h) z
]
plain-Reads (c ∷ x ∷ s) n p h =
    let d : is_digit c ≡ true = ground arith in
    lead-Reads c (x ∷ s) n d (sym (digits_value_lem c (x ∷ s) d) ∙ h) (ground arith)

atoi-plain : (s : Text) → is_plain s ≡ true → atoi s ≡ positive (unsigned s)
unfolding atoi is_digit
atoi-plain [] p = cc
atoi-plain (c ∷ []) p = ground arith
atoi-plain (c ∷ x ∷ s) p = ground arith

positive-some : (o : Option ℕ) (x : ℤ) → positive o ≡ some x → (n : ℕ) × (o ≡ some n) × (x ≡ pos n)
unfolding positive
positive-some none x h = cc
positive-some (some n) x h = (n, refl, ground arith)

-- Of two texts that Atoi reads as one number, without a sign or a leading zero, there is but one.
pub atoi-injective :
    (s t : Text) (x : ℤ)
    → is_plain s ≡ true
    → is_plain t ≡ true
    → atoi s ≡ some x
    → atoi t ≡ some x
    → s ≡ t
atoi-injective s t x p q h k =
    let (n, e, f) = positive-some (unsigned s) x (sym (atoi-plain s p) ∙ h) in
    let (m, g, l) = positive-some (unsigned t) x (sym (atoi-plain t q) ∙ k) in
    let same : m ≡ n = ground (arith) in
    Reads-injective s t n (plain-Reads s n p e) (plain-Reads t n q (g ∙ ap some same))
