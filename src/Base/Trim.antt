-- ===== src/Base/Trim.antt =====
-- strings.TrimSpace leaves what it has trimmed as it is.
use Prim.Native.Nat.{ℕ, ◌≤◌}
use mathlib.Core.Path.{◌≡◌, refl, sym, ap, subst, ◌∙◌}
use mathlib.Core.Logic.{inl, inr}
use mathlib.Core.Bool.{true}
use mathlib.Core.List.{[], ◌∷◌, ◌++◌, reverse, reverse_aux, reverse-reverse}
use native.Mathlib.Omega.{arith}
use retune.Base.Bytes.{Text, is_space, trim_left, trim_space}
use retune.Base.Lists.{length, length-append}
use retune.Base.Tests.{Bool-cases}

trim_left-trim_left : (s : Text) → trim_left (trim_left s) ≡ trim_left s
unfolding trim_left
trim_left-trim_left [] = refl
trim_left-trim_left (c ∷ s) = elim (Bool-cases (is_space c)) [
  | inl e ↦ rw e (trim_left-trim_left s)
  | inr e ↦ rw e (rw e refl)
]

-- What was trimmed.
trim_left-Suffix : (s : Text) → (u : Text) × (s ≡ u ++ trim_left s)
unfolding trim_left
trim_left-Suffix [] = ([], refl)
trim_left-Suffix (c ∷ s) = elim (Bool-cases (is_space c)) [
  | inl e ↦ let (u, h) = trim_left-Suffix s in (c ∷ u, rw e (ap (λ t. c ∷ t) h))
  | inr e ↦ ([], rw e refl)
]

trim_left-shorter : (s : Text) → length (trim_left s) ≤ length s
trim_left-shorter s =
    let (u, h) = trim_left-Suffix s in omega (arith, ap length h, length-append u (trim_left s))

-- A text that TrimSpace leaves as it is at the front.
abbrev Headed : Text → Type 0
Headed s = trim_left s ≡ s

Headed-front : (p w : Text) → Headed (p ++ w) → Headed p
unfolding trim_left
Headed-front [] w h = refl
Headed-front (c ∷ p) w h = elim (Bool-cases (is_space c)) [
  | inl e ↦ absurd (too_long (trim_left-shorter (p ++ w)) (sym (rw-left c (p ++ w) e) ∙ h))
  | inr e ↦ rw e refl
]
  where
    rw-left : (c : ℕ) (s : Text) → is_space c ≡ true → trim_left (c ∷ s) ≡ trim_left s
    rw-left c s e = rw e refl

    too_long : length (trim_left (p ++ w)) ≤ length (p ++ w) → trim_left (p ++ w) ≡ c ∷ (p ++ w) → ⊥
    too_long a b = let n = ap length b in absurd (omega (arith, a, n))

reverse_aux-append : (s t u : Text) → reverse_aux s (t ++ u) ≡ reverse_aux s t ++ u
reverse_aux-append [] t u = refl
reverse_aux-append (c ∷ s) t u = reverse_aux-append s (c ∷ t) u

reverse_aux-append_left : (s t u : Text) → reverse_aux (s ++ t) u ≡ reverse_aux t (reverse_aux s u)
reverse_aux-append_left [] t u = refl
reverse_aux-append_left (c ∷ s) t u = reverse_aux-append_left s t (c ∷ u)

reverse-append : (s t : Text) → reverse (s ++ t) ≡ reverse t ++ reverse s
reverse-append s t = reverse_aux-append_left s t [] ∙ reverse_aux-append t [] (reverse s)

-- Trimming behind leaves the front as it is.
Headed-trim_right : (t : Text) → Headed t → Headed (reverse (trim_left (reverse t)))
Headed-trim_right t h =
    let (u, e) = trim_left-Suffix (reverse t) in
    let whole : t ≡ reverse (trim_left (reverse t)) ++ reverse u =
      sym (reverse-reverse t) ∙ ap reverse e ∙ reverse-append u (trim_left (reverse t)) in
    Headed-front (reverse (trim_left (reverse t))) (reverse u) (subst Headed whole h)

pub trim_space-trim_space : (s : Text) → trim_space (trim_space s) ≡ trim_space s
unfolding trim_space
trim_space-trim_space s =
    let t = trim_left s in
    let r = reverse (trim_left (reverse t)) in
    ap (λ x. reverse (trim_left (reverse x))) (Headed-trim_right t (trim_left-trim_left s))
    ∙ ap (λ x. reverse (trim_left x)) (reverse-reverse (trim_left (reverse t)))
    ∙ ap reverse (trim_left-trim_left (reverse t))
