-- ===== src/Release/Version/Order.antt =====
-- Compare is a strict order on versions whose prerelease numbers are written in one way, and Newer
-- with it. Where two identifiers write one number, each version is newer than the other.
use retune.Base.{
  All, Bool-cases, Option, Text, [], ap, arith, false, if◌then◌else◌, inl, inr, none, refl, some,
  subst, sym, text_eq, text_eq_refl, text_eq→eq, true, ℕ, ◌∙◌, ◌∷◌, ◌≡◌, ◌≢◌, ◌⊎◌,
}
use retune.Release.Precedence.{
  Any, IsOrder, Precedence, cmp_list-IsOrder, cmp_nat, cmp_nat-IsOrder, less, more, opposite, same,
}
use retune.Release.Version.{atoi, by_number, cmp_ident, cmp_text, less_int, negsuc, pos, ℤ}
use retune.Release.Version.Number.{atoi-injective, is_plain}

-- An identifier that Atoi reads as a number has no sign and no leading zero.
abbrev pub Canonical : Text → Type 0
Canonical s = (x : ℤ) → atoi s ≡ some x → is_plain s ≡ true

anys : (s : Text) → All (Any {A = ℕ}) s
anys [] = tt
anys (c ∷ s) = (tt, anys s)

text-IsOrder : IsOrder (All (Any {A = ℕ})) cmp_text
unfolding cmp_text
text-IsOrder = cmp_list-IsOrder cmp_nat Any cmp_nat-IsOrder

text_eq-ne : (s t : Text) → s ≢ t → text_eq s t ≡ false
text_eq-ne s t n = elim (Bool-cases (text_eq s t)) [
  | inl e ↦ absurd (n (text_eq→eq s t e))
  | inr e ↦ e
]

-- `less` exactly as the comparison says it.
abbrev below : Precedence → Precedence
below less = less
below same = more
below more = more

below-opposite : (x : Precedence) → x ≢ same → below (opposite x) ≡ opposite (below x)
below-opposite less n = refl
below-opposite same n = absurd (n refl)
below-opposite more n = refl

below-less : (x : Precedence) → below x ≡ less → x ≡ less
below-less less h = refl
below-less same h = cc
below-less more h = cc

by_texts : (s t : Text) → by_number none none s t ≡ below (cmp_text s t)
unfolding by_number
by_texts s t = go (cmp_text s t)
  where
    go : (x : Precedence) → (elim x [ less ↦ less | _ ↦ more ]) ≡ below x
    go less = refl
    go same = refl
    go more = refl

less_int-flip :
    (a b : ℤ)
    → a ≢ b
    → (if less_int b a then less else more) ≡ opposite (if less_int a b then less else more)
less_int-flip (pos a) (pos b) n = ground (arith, n)
less_int-flip (pos a) (negsuc b) n = refl
less_int-flip (negsuc a) (pos b) n = refl
less_int-flip (negsuc a) (negsuc b) n = ground (arith, n)

less_int_trans :
    (a b c : ℤ)
    → (if less_int a b then less else more) ≡ less
    → (if less_int b c then less else more) ≡ less
    → (if less_int a c then less else more) ≡ less
less_int_trans (pos a) (pos b) (pos c) h k = ground arith
less_int_trans (pos a) (pos b) (negsuc c) h k = cc
less_int_trans (pos a) (negsuc b) c h k = cc
less_int_trans (negsuc a) (pos b) (pos c) h k = refl
less_int_trans (negsuc a) (pos b) (negsuc c) h k = cc
less_int_trans (negsuc a) (negsuc b) (pos c) h k = refl
less_int_trans (negsuc a) (negsuc b) (negsuc c) h k = ground arith

by_number-flip :
    (a b : Option ℤ) (s t : Text)
    → s ≢ t
    → ((x : ℤ) → a ≡ some x → b ≢ some x)
    → by_number b a t s ≡ opposite (by_number a b s t)
unfolding by_number
by_number-flip none none s t n h =
    by_texts t s
    ∙ ap below (text-IsOrder.flip s t (anys s) (anys t))
    ∙ below-opposite (cmp_text s t) (λ e. n (text-IsOrder.eq_of_same s t (anys s) (anys t) e))
    ∙ ap opposite (sym (by_texts s t))
by_number-flip none (some b) s t n h = refl
by_number-flip (some a) none s t n h = refl
by_number-flip (some a) (some b) s t n h = less_int-flip a b (λ e. h a refl (ap some (sym e)))

by_number_trans :
    (a b c : Option ℤ) (s t u : Text)
    → by_number a b s t ≡ less
    → by_number b c t u ≡ less
    → by_number a c s u ≡ less
unfolding by_number
by_number_trans none none none s t u h k =
    by_texts s u
    ∙ ap below (
        text-IsOrder.trans s t u (anys s) (anys t) (anys u)
          (below-less (cmp_text s t) (sym (by_texts s t) ∙ h))
          (below-less (cmp_text t u) (sym (by_texts t u) ∙ k)))
by_number_trans none none (some c) s t u h k = cc
by_number_trans none (some b) c s t u h k = cc
by_number_trans (some a) none none s t u h k = refl
by_number_trans (some a) none (some c) s t u h k = cc
by_number_trans (some a) (some b) none s t u h k = refl
by_number_trans (some a) (some b) (some c) s t u h k = less_int_trans a b c h k

cmp_ident-ne : (s t : Text) → s ≢ t → cmp_ident s t ≡ by_number (atoi s) (atoi t) s t
unfolding cmp_ident
cmp_ident-ne s t n = rw (text_eq-ne s t n) refl

cmp_ident_self : (s : Text) → cmp_ident s s ≡ same
unfolding cmp_ident
cmp_ident_self s = rw (text_eq_refl s) refl

-- Two different identifiers do not read as one number.
ident_apart :
    (s t : Text) → Canonical s → Canonical t → s ≢ t → (x : ℤ) → atoi s ≡ some x → atoi t ≢ some x
ident_apart s t p q n x h k = n (atoi-injective s t x (p x h) (q x k) h k)

by_number-ne-same : (a b : Option ℤ) (s t : Text) → by_number a b s t ≢ same
unfolding by_number
by_number-ne-same none none s t h = below-ne (cmp_text s t) (sym (by_texts s t) ∙ h)
  where
    below-ne : (x : Precedence) → below x ≢ same
    below-ne less h = absurd (cc h)
    below-ne same h = absurd (cc h)
    below-ne more h = absurd (cc h)
by_number-ne-same none (some b) s t h = cc
by_number-ne-same (some a) none s t h = cc
by_number-ne-same (some a) (some b) s t h = ground (arith)

eq-or-ne : (s t : Text) → (s ≡ t) ⊎ (s ≢ t)
eq-or-ne s t = elim (Bool-cases (text_eq s t)) [
  | inl e ↦ inl (text_eq→eq s t e)
  | inr e ↦ inr λ h. absurd (cc (sym e ∙ ap (text_eq s) (sym h) ∙ text_eq_refl s))
]

ident-eq : (s t : Text) → cmp_ident s t ≡ same → s ≡ t
ident-eq s t h = elim (eq-or-ne s t) [
  | inl e ↦ e
  | inr n ↦ absurd (by_number-ne-same (atoi s) (atoi t) s t (sym (cmp_ident-ne s t n) ∙ h))
]

ident-flip : (s t : Text) → Canonical s → Canonical t → cmp_ident t s ≡ opposite (cmp_ident s t)
ident-flip s t p q = elim (eq-or-ne s t) [
  | inl e ↦
      subst (λ u. cmp_ident u s ≡ opposite (cmp_ident s u)) e
        (cmp_ident_self s ∙ ap opposite (sym (cmp_ident_self s)))
  | inr n ↦
      cmp_ident-ne t s (λ e. n (sym e))
      ∙ by_number-flip (atoi s) (atoi t) s t n (ident_apart s t p q n)
      ∙ ap opposite (sym (cmp_ident-ne s t n))
]

ident-ne : (s t : Text) → cmp_ident s t ≡ less → s ≢ t
ident-ne s t h e = absurd (cc (sym (cmp_ident_self s) ∙ ap (cmp_ident s) e ∙ h))

ident_trans :
    (s t u : Text)
    → Canonical s
    → Canonical t
    → Canonical u
    → cmp_ident s t ≡ less
    → cmp_ident t u ≡ less
    → cmp_ident s u ≡ less
ident_trans s t u p q r h k = elim (eq-or-ne s u) [
  | inl e ↦ absurd (
      cc (
        sym (ap opposite h)
        ∙ sym (ident-flip s t p q)
        ∙ subst (λ v. cmp_ident t v ≡ less) (sym e) k))
  | inr n ↦
      cmp_ident-ne s u n
      ∙ by_number_trans (atoi s) (atoi t) (atoi u) s t u
          (sym (cmp_ident-ne s t (ident-ne s t h)) ∙ h)
          (sym (cmp_ident-ne t u (ident-ne t u k)) ∙ k)
]

pub cmp_ident-IsOrder : IsOrder Canonical cmp_ident
cmp_ident-IsOrder = record {
  same_self = cmp_ident_self;
  eq_of_same = λ s t p q. ident-eq s t;
  flip = ident-flip;
  trans = ident_trans;
}
