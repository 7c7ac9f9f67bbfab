-- ===== src/Base/Split.antt =====
-- strings.Cut and strings.Split at one byte, and strings.CutPrefix.
use Prim.Native.Nat.{ℕ}
use mathlib.Core.Path.{◌≡◌, refl, sym, ap, ◌∙◌}
use mathlib.Core.Logic.{inl, inr}
use mathlib.Core.Bool.{Bool, true, false}
use mathlib.Core.List.{List, [], ◌∷◌, ◌++◌}
use mathlib.Core.Option.{Option, none, some}
use retune.Base.Bytes.{Text}
use native.Mathlib.Omega.{arith}
use retune.Base.Tests.{◌==◌, ==→eq, if◌then◌else◌, Bool-cases}

-- What stands before the first separator, what stands behind it, and whether there is one.
unfoldable pub cut : ℕ → Text → Text × Text × Bool
cut sep [] = ([], [], false)
cut sep (c ∷ s) =
    let (before, after, found) = cut sep s in
    if c == sep then ([], s, true) else (c ∷ before, after, found)

abbrev pub onto_first : ℕ → List Text → List Text
onto_first c [] = (c ∷ []) ∷ []
onto_first c (p ∷ ps) = (c ∷ p) ∷ ps

unfoldable pub split : ℕ → Text → List Text
split sep [] = [] ∷ []
split sep (c ∷ s) = let rest = split sep s in if c == sep then [] ∷ rest else onto_first c rest

-- strings.Join
unfoldable pub join : ℕ → List Text → Text
join sep [] = []
join sep (p ∷ []) = p
join sep (p ∷ q ∷ ps) = p ++ sep ∷ join sep (q ∷ ps)

unfoldable pub cut_prefix : Text → Text → Option Text
cut_prefix [] s = some s
cut_prefix (p ∷ ps) [] = none
cut_prefix (p ∷ ps) (c ∷ s) = if p == c then cut_prefix ps s else none

abbrev NonEmpty : List Text → Type 0
NonEmpty [] = ⊥
NonEmpty (p ∷ ps) = Unit

onto_first-NonEmpty : (c : ℕ) (ps : List Text) → NonEmpty (onto_first c ps)
onto_first-NonEmpty c [] = tt
onto_first-NonEmpty c (p ∷ ps) = tt

split-NonEmpty : (sep : ℕ) (s : Text) → NonEmpty (split sep s)
unfolding split
split-NonEmpty sep [] = tt
split-NonEmpty sep (c ∷ s) = elim (Bool-cases (c == sep)) [
  | inl e ↦ rw e tt
  | inr e ↦ rw e (onto_first-NonEmpty c (split sep s))
]

join-onto_first :
    (sep c : ℕ) (ps : List Text) → NonEmpty ps → join sep (onto_first c ps) ≡ c ∷ join sep ps
unfolding join
join-onto_first sep c [] h = absurd h
join-onto_first sep c (p ∷ []) h = refl
join-onto_first sep c (p ∷ q ∷ ps) h = refl

join-empty_first : (sep : ℕ) (ps : List Text) → NonEmpty ps → join sep ([] ∷ ps) ≡ sep ∷ join sep ps
unfolding join
join-empty_first sep [] h = absurd h
join-empty_first sep (p ∷ ps) h = refl

pub join-split : (sep : ℕ) (s : Text) → join sep (split sep s) ≡ s
unfolding split
join-split sep [] = unfold join in refl
join-split sep (c ∷ s) = elim (Bool-cases (c == sep)) [
  | inl e ↦ rw e (
      join-empty_first sep (split sep s) (split-NonEmpty sep s)
      ∙ cc (join-split sep s, ==→eq c sep e))
  | inr e ↦ rw e (
      join-onto_first sep c (split sep s) (split-NonEmpty sep s)
      ∙ ap (λ t. c ∷ t) (join-split sep s))
]

pub split-injective : (sep : ℕ) (s t : Text) → split sep s ≡ split sep t → s ≡ t
split-injective sep s t h = sym (join-split sep s) ∙ ap (join sep) h ∙ join-split sep t

-- The byte stands nowhere in the text.
abbrev pub Lacks : ℕ → Text → Type 0
Lacks sep [] = Unit
Lacks sep (c ∷ s) = ((c == sep) ≡ false) × Lacks sep s

sep_self : (sep : ℕ) → (sep == sep) ≡ true
sep_self sep = ground arith

split-append : (sep : ℕ) (p s : Text) → Lacks sep p → split sep (p ++ sep ∷ s) ≡ p ∷ split sep s
unfolding split
split-append sep [] s h = rw (sep_self sep) refl
split-append sep (c ∷ p) s h = rw h.0 (ap (onto_first c) (split-append sep p s h.1))

split-Lacks : (sep : ℕ) (p : Text) → Lacks sep p → split sep p ≡ p ∷ []
unfolding split
split-Lacks sep [] h = refl
split-Lacks sep (c ∷ p) h = rw h.0 (ap (onto_first c) (split-Lacks sep p h.1))

abbrev pub AllLack : ℕ → List Text → Type 0
AllLack sep [] = Unit
AllLack sep (p ∷ ps) = Lacks sep p × AllLack sep ps

pub split-join :
    (sep : ℕ) (p : Text) (ps : List Text)
    → Lacks sep p
    → AllLack sep ps
    → split sep (join sep (p ∷ ps)) ≡ p ∷ ps
unfolding join
split-join sep p [] h k = split-Lacks sep p h
split-join sep p (q ∷ ps) h k =
    split-append sep p (join sep (q ∷ ps)) h ∙ ap (λ t. p ∷ t) (split-join sep q ps k.0 k.1)
