-- ===== src/Release/Version/Ties.antt =====
-- Two prereleases that first differ in how they write one number: each is newer than the other.
use retune.Base.{
  Bool-cases, List, Text, [], ap, arith, false, inl, inr, refl, some, split, sym, text_eq,
  text_eq_refl, text_eq→eq, true, ℕ, ◌++◌, ◌∙◌, ◌∷◌, ◌≡◌, ◌≢◌,
}
use retune.Release.Precedence.{cmp_list, cmp_nat, more, same}
use retune.Release.Version.{
  Version, atoi, by_number, cmp_ident, cmp_pre, compare_version, idents, is_more, less_int, negsuc,
  newer, newer_parsed, parse_version, pos, ℤ,
}

-- Up to `common` the identifiers are equal; then they are two texts that Atoi reads as one number.
pub record Tied (v o : Version) : Type 0 where
  pub major_eq : v.major ≡ o.major
  pub minor_eq : v.minor ≡ o.minor
  pub patch_eq : v.patch ≡ o.patch
  pub common : List Text
  pub left : Text
  pub right : Text
  pub left_rest : List Text
  pub right_rest : List Text
  pub number : ℤ
  pub left_is : idents v.pre ≡ common ++ left ∷ left_rest
  pub right_is : idents o.pre ≡ common ++ right ∷ right_rest
  pub left_number : atoi left ≡ some number
  pub right_number : atoi right ≡ some number
  pub written_apart : left ≢ right

less_int_self : (x : ℤ) → less_int x x ≡ false
less_int_self (pos n) = ground arith
less_int_self (negsuc n) = ground arith

cmp_tied : (s t : Text) (x : ℤ) → s ≢ t → atoi s ≡ some x → atoi t ≡ some x → cmp_ident s t ≡ more
unfolding cmp_ident by_number
cmp_tied s t x n h k = elim (Bool-cases (text_eq s t)) [
  | inl e ↦ absurd (n (text_eq→eq s t e))
  | inr e ↦ rw (e, h, k, less_int_self x) refl
]

cmp_ident_self : (s : Text) → cmp_ident s s ≡ same
unfolding cmp_ident
cmp_ident_self s = rw (text_eq_refl s) refl

cmp_list-tied :
    (p q r : List Text) (s t : Text)
    → cmp_ident s t ≡ more
    → cmp_list cmp_ident (p ++ s ∷ q) (p ++ t ∷ r) ≡ more
cmp_list-tied [] q r s t h = rw h refl
cmp_list-tied (x ∷ p) q r s t h = rw (cmp_ident_self x) (cmp_list-tied p q r s t h)

cmp_pre-more :
    (s t : Text)
    → cmp_list cmp_ident (idents s) (idents t) ≡ more
    → s ≢ []
    → t ≢ []
    → cmp_pre s t ≡ more
unfolding cmp_pre
cmp_pre-more [] t h p q = absurd (p refl)
cmp_pre-more (c ∷ s) [] h p q = absurd (q refl)
cmp_pre-more (c ∷ s) (d ∷ t) h p q = h

no_idents : (p q : List Text) (s : Text) (x : ℤ) → [] ∷ [] ≡ p ++ s ∷ q → atoi s ≢ some x
unfolding atoi
no_idents [] q s x e h = absurd (cc (sym h ∙ ap atoi (sym (head_eq s e))))
  where
    first : List Text → Text
    first [] = []
    first (s ∷ q) = s

    head_eq : (s : Text) → [] ∷ [] ≡ s ∷ q → [] ≡ s
    head_eq s e = ap first e
no_idents (y ∷ []) q s x e h = absurd (cc e)
no_idents (y ∷ z ∷ p) q s x e h = absurd (cc e)

has_pre :
    (t : Text) (p q : List Text) (s : Text) (x : ℤ)
    → idents t ≡ p ++ s ∷ q
    → atoi s ≡ some x
    → t ≢ []
unfolding split
has_pre t p q s x e h z = no_idents p q s x (ap idents (sym z) ∙ e) h

pre-Tied : (v o : Version) → Tied v o → cmp_pre v.pre o.pre ≡ more
pre-Tied v o t =
    cmp_pre-more v.pre o.pre
      (ap (λ s. cmp_list cmp_ident s (idents o.pre)) t.left_is
        ∙ ap (cmp_list cmp_ident (t.common ++ t.left ∷ t.left_rest)) t.right_is
        ∙ cmp_list-tied t.common t.left_rest t.right_rest t.left t.right
            (cmp_tied t.left t.right t.number t.written_apart t.left_number t.right_number))
      (has_pre v.pre t.common t.left_rest t.left t.number t.left_is t.left_number)
      (has_pre o.pre t.common t.right_rest t.right t.number t.right_is t.right_number)

cmp_nat-eq : (a b : ℕ) → a ≡ b → cmp_nat a b ≡ same
cmp_nat-eq a b h = ground arith

compare-Tied : (v o : Version) → Tied v o → compare_version v o ≡ more
unfolding compare_version
compare-Tied v o t =
    rw
      (
        cmp_nat-eq v.major o.major t.major_eq,
        cmp_nat-eq v.minor o.minor t.minor_eq,
        cmp_nat-eq v.patch o.patch t.patch_eq,
      )
      (pre-Tied v o t)

swap : (v o : Version) → Tied v o → Tied o v
swap v o t = record {
  major_eq = sym t.major_eq;
  minor_eq = sym t.minor_eq;
  patch_eq = sym t.patch_eq;
  common = t.common;
  left = t.right;
  right = t.left;
  left_rest = t.right_rest;
  right_rest = t.left_rest;
  number = t.number;
  left_is = t.right_is;
  right_is = t.left_is;
  left_number = t.right_number;
  right_number = t.left_number;
  written_apart = λ e. t.written_apart (sym e);
}

-- Two versions of the same core whose prereleases first differ in two ways of writing one number are
-- each newer than the other.
pub newer-Tied :
    (a b : Text) (v o : Version)
    → parse_version a ≡ some v
    → parse_version b ≡ some o
    → Tied v o
    → (newer a b ≡ true) × (newer b a ≡ true)
unfolding newer newer_parsed
newer-Tied a b v o p q t = (
  ap (λ x. newer_parsed x (parse_version b)) p
      ∙ ap (newer_parsed (some v)) q
      ∙ ap is_more (compare-Tied v o t),
  ap (λ x. newer_parsed x (parse_version a)) q
      ∙ ap (newer_parsed (some o)) p
      ∙ ap is_more (compare-Tied o v (swap v o t)),
)
