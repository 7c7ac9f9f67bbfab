-- ===== src/Release/Version/Newer.antt =====
-- Newer is a strict order on versions whose prerelease numbers are written in one way.
use retune.Base.{
  All, Option, Text, [], ap, false, none, refl, some, split-injective, true, ℕ, ◌∙◌, ◌∷◌, ◌≡◌,
}
use retune.Release.Precedence.{
  Any, IsOrder, Precedence, cmp_list, cmp_list-IsOrder, cmp_nat, cmp_nat-IsOrder, cmp_pair,
  cmp_pair-IsOrder, less, more, opposite, same,
}
use retune.Release.Version.{
  Version, cmp_ident, cmp_pre, compare_version, idents, key, newer, newer_parsed, parse_version,
  is_more,
}
use retune.Release.Version.Order.{Canonical, cmp_ident-IsOrder}

-- Every identifier of the prerelease is canonical.
abbrev pub CanonicalPre : Text → Type 0
CanonicalPre s = All Canonical (idents s)

idents-IsOrder : IsOrder (All Canonical) (cmp_list cmp_ident)
idents-IsOrder = cmp_list-IsOrder cmp_ident Canonical cmp_ident-IsOrder

pre_self : (s : Text) → cmp_pre s s ≡ same
unfolding cmp_pre
pre_self [] = refl
pre_self (c ∷ s) = idents-IsOrder.same_self (idents (c ∷ s))

pre-eq : (s t : Text) → CanonicalPre s → CanonicalPre t → cmp_pre s t ≡ same → s ≡ t
unfolding cmp_pre
pre-eq [] [] p q h = refl
pre-eq [] (d ∷ t) p q h = cc
pre-eq (c ∷ s) [] p q h = cc
pre-eq (c ∷ s) (d ∷ t) p q h =
    split-injective b'.' (c ∷ s) (d ∷ t) (idents-IsOrder.eq_of_same _ _ p q h)

pre-flip : (s t : Text) → CanonicalPre s → CanonicalPre t → cmp_pre t s ≡ opposite (cmp_pre s t)
unfolding cmp_pre
pre-flip [] [] p q = refl
pre-flip [] (d ∷ t) p q = refl
pre-flip (c ∷ s) [] p q = refl
pre-flip (c ∷ s) (d ∷ t) p q = idents-IsOrder.flip _ _ p q

pre_trans :
    (s t u : Text)
    → CanonicalPre s
    → CanonicalPre t
    → CanonicalPre u
    → cmp_pre s t ≡ less
    → cmp_pre t u ≡ less
    → cmp_pre s u ≡ less
unfolding cmp_pre
pre_trans [] [] u p q r h k = cc
pre_trans [] (d ∷ t) u p q r h k = cc
pre_trans (c ∷ s) [] [] p q r h k = refl
pre_trans (c ∷ s) [] (e ∷ u) p q r h k = cc
pre_trans (c ∷ s) (d ∷ t) [] p q r h k = refl
pre_trans (c ∷ s) (d ∷ t) (e ∷ u) p q r h k = idents-IsOrder.trans _ _ _ p q r h k

pre-IsOrder : IsOrder CanonicalPre cmp_pre
pre-IsOrder = record {
  same_self = pre_self;
  eq_of_same = pre-eq;
  flip = pre-flip;
  trans = pre_trans;
}

abbrev Keys : ℕ × (ℕ × (ℕ × Text)) → Type 0
Keys (a, (b, (c, pre))) = Any a × (Any b × (Any c × CanonicalPre pre))

abbrev cmp_key : ℕ × (ℕ × (ℕ × Text)) → ℕ × (ℕ × (ℕ × Text)) → Precedence
cmp_key = cmp_pair cmp_nat (cmp_pair cmp_nat (cmp_pair cmp_nat cmp_pre))

key-IsOrder : IsOrder Keys cmp_key
key-IsOrder = cmp_pair-IsOrder _ _ _ _ cmp_nat-IsOrder (
    cmp_pair-IsOrder _ _ _ _ cmp_nat-IsOrder (cmp_pair-IsOrder _ _ _ _ cmp_nat-IsOrder pre-IsOrder))

-- If the text is a version, its prerelease is canonical.
abbrev pub WellWritten : Text → Type 0
WellWritten s = (v : Version) → parse_version s ≡ some v → CanonicalPre v.pre

-- Newer on what was parsed.
abbrev Beats : Option Version → Option Version → Type 0
Beats a b = newer_parsed a b ≡ true

abbrev Fine : Option Version → Type 0
Fine o = (v : Version) → o ≡ some v → CanonicalPre v.pre

is_more-more : (x : Precedence) → is_more x ≡ true → x ≡ more
is_more-more less h = cc
is_more-more same h = cc
is_more-more more h = refl

Beats-more : (v o : Version) → Beats (some v) (some o) → compare_version v o ≡ more
unfolding newer_parsed
Beats-more v o h = is_more-more (compare_version v o) h

more-less :
    (v o : Version)
    → CanonicalPre v.pre
    → CanonicalPre o.pre
    → compare_version v o ≡ more
    → compare_version o v ≡ less
unfolding compare_version
more-less v o p q h =
    key-IsOrder.flip (key v) (key o) (tt, (tt, (tt, p))) (tt, (tt, (tt, q))) ∙ ap opposite h

Beats-asym : (a b : Option Version) → Fine a → Fine b → Beats a b → newer_parsed b a ≡ false
unfolding newer_parsed
Beats-asym none b p q h = cc
Beats-asym (some v) none p q h = refl
Beats-asym (some v) (some o) p q h =
    ap is_more (more-less v o (p v refl) (q o refl) (Beats-more v o h))

Beats-trans :
    (a b c : Option Version) → Fine a → Fine b → Fine c → Beats a b → Beats b c → Beats a c
unfolding newer_parsed compare_version
Beats-trans none b c p q r h k = cc
Beats-trans (some v) none c p q r h k = cc
Beats-trans (some v) (some o) none p q r h k = refl
Beats-trans (some v) (some o) (some w) p q r h k = ap is_more (
    key-IsOrder.flip (key w) (key v) (tt, (tt, (tt, r w refl))) (tt, (tt, (tt, p v refl)))
    ∙ ap opposite (
        key-IsOrder.trans (key w) (key o) (key v) (tt, (tt, (tt, r w refl)))
          (tt, (tt, (tt, q o refl))) (tt, (tt, (tt, p v refl)))
          (more-less o w (q o refl) (r w refl) (Beats-more o w k))
          (more-less v o (p v refl) (q o refl) (Beats-more v o h))))

-- Of two texts whose prereleases are canonical, at most one is newer than the other.
pub newer_asym : (a b : Text) → WellWritten a → WellWritten b → newer a b ≡ true → newer b a ≡ false
unfolding newer
newer_asym a b p q h = Beats-asym (parse_version a) (parse_version b) p q h

-- Newer is transitive on texts whose prereleases are canonical.
pub newer_trans :
    (a b c : Text)
    → WellWritten a
    → WellWritten b
    → WellWritten c
    → newer a b ≡ true
    → newer b c ≡ true
    → newer a c ≡ true
unfolding newer
newer_trans a b c p q r h k =
    Beats-trans (parse_version a) (parse_version b) (parse_version c) p q r h k
