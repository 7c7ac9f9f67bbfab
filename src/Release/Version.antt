-- ===== src/Release/Version.antt =====
-- Versions: ParseVersion, Compare and Newer of internal/release/manifest.go. Texts are byte strings.
pub mod Number
pub mod Order
pub mod Newer
pub mod Ties
use retune.Base.{
  Bool, List, Option, Text, [], cut, false, if◌then◌else◌, is_digit, ltb, none, some, split, suc,
  text_eq, trim_space, true, zero, ℕ, ◌*◌, ◌+◌, ◌-◌, ◌==◌, ◌∷◌,
}
use retune.Release.Precedence.{Precedence, cmp_list, cmp_nat, less, more, or_else, same}

-- Go's int, as strconv.Atoi returns it; `negsuc n` is -(n + 1).
pub data ℤ : Type 0 where
  pos : ℕ → ℤ
  negsuc : ℕ → ℤ

-- Decimal digits after `acc`.
unfoldable pub digits_value : ℕ → Text → Option ℕ
digits_value acc [] = some acc
digits_value acc (c ∷ s) =
    let rest = digits_value (acc * 10 + (c - b'0')) s in if is_digit c then rest else none

unfoldable pub unsigned : Text → Option ℕ
unfolding digits_value
unsigned [] = none
unsigned (c ∷ s) = digits_value 0 (c ∷ s)

-- 2 ^ 63
abbrev pub int_bound : ℕ
int_bound = 9223372036854775808

unfoldable pub positive : Option ℕ → Option ℤ
positive none = none
positive (some n) = if ltb n int_bound then some (pos n) else none

unfoldable pub negative : Option ℕ → Option ℤ
negative none = none
negative (some zero) = some (pos 0)
negative (some (suc n)) = if ltb n int_bound then some (negsuc n) else none

-- strconv.Atoi on a 64-bit platform: an optional sign, then digits, within the range of int64.
unfoldable pub atoi : Text → Option ℤ
unfolding unsigned positive negative is_digit
atoi [] = none
atoi (c ∷ s) =
    if c == b'-'
    then negative (unsigned s)
    else if c == b'+'
    then positive (unsigned s)
    else positive (unsigned (c ∷ s))

-- A parsed version: its numbers are not negative.
pub record Version : Type 0 where
  pub major : ℕ
  pub minor : ℕ
  pub patch : ℕ
  pub pre : Text

-- More than one byte, and the first is "0".
unfoldable pub leading_zero : Text → Bool
leading_zero [] = false
leading_zero (c ∷ []) = false
leading_zero (c ∷ d ∷ s) = c == b'0'

number_of : Bool → Option ℤ → Option ℕ
number_of false (some (pos n)) = some n
number_of _ _ = none

-- One of the three numbers.
unfoldable pub part : Text → Option ℕ
unfolding atoi leading_zero number_of
part p = number_of (leading_zero p) (atoi p)

abbrev numbers : Text → Option ℕ → Option ℕ → Option ℕ → Option Version
numbers pre (some a) (some b) (some c) =
    some (record { major = a; minor = b; patch = c; pre = pre })
numbers pre _ _ _ = none

version_of : Text → List Text → Option Version
unfolding part
version_of pre (a ∷ b ∷ c ∷ []) = numbers pre (part a) (part b) (part c)
version_of pre _ = none

after_v : Text → Text
after_v [] = []
after_v (c ∷ s) = if c == b'v' then s else c ∷ s

parse_core : Text × Text × Bool → Option Version
unfolding version_of split
parse_core (core, pre, found) = version_of pre (split b'.' core)

unfoldable pub parse_version : Text → Option Version
unfolding parse_core cut trim_space after_v
parse_version s = parse_core (cut b'-' (after_v (trim_space s)))

-- Go's < on strings, as a three-way comparison.
unfoldable pub cmp_text : Text → Text → Precedence
cmp_text = cmp_list cmp_nat

abbrev pub less_int : ℤ → ℤ → Bool
less_int (pos a) (pos b) = ltb a b
less_int (pos a) (negsuc b) = false
less_int (negsuc a) (pos b) = true
less_int (negsuc a) (negsuc b) = ltb b a

-- Two different identifiers: numbers come before texts, and by their value.
unfoldable pub by_number : Option ℤ → Option ℤ → Text → Text → Precedence
unfolding cmp_text
by_number (some a) (some b) s t = if less_int a b then less else more
by_number (some a) none s t = less
by_number none (some b) s t = more
by_number none none s t = elim (cmp_text s t) [ less ↦ less | _ ↦ more ]

unfoldable pub cmp_ident : Text → Text → Precedence
unfolding atoi by_number
cmp_ident s t = if text_eq s t then same else by_number (atoi s) (atoi t) s t

abbrev pub idents : Text → List Text
idents = split b'.'

-- A release outranks its own prereleases.
unfoldable pub cmp_pre : Text → Text → Precedence
unfolding cmp_ident split
cmp_pre [] [] = same
cmp_pre [] (d ∷ t) = more
cmp_pre (c ∷ s) [] = less
cmp_pre (c ∷ s) (d ∷ t) = cmp_list cmp_ident (idents (c ∷ s)) (idents (d ∷ t))

abbrev pub key : Version → ℕ × (ℕ × (ℕ × Text))
key v = (v.major, (v.minor, (v.patch, v.pre)))

unfoldable pub compare_version : Version → Version → Precedence
unfolding cmp_pre
compare_version v o =
    or_else (cmp_nat v.major o.major)
      (or_else (cmp_nat v.minor o.minor) (or_else (cmp_nat v.patch o.patch) (cmp_pre v.pre o.pre)))

abbrev pub is_more : Precedence → Bool
is_more more = true
is_more _ = false

newer_parsed : Option Version → Option Version → Bool
unfolding compare_version
newer_parsed none b = false
newer_parsed (some v) none = true
newer_parsed (some v) (some o) = is_more (compare_version v o)

-- A text that does not parse is never newer.
unfoldable pub newer : Text → Text → Bool
unfolding newer_parsed parse_version
newer a b = newer_parsed (parse_version a) (parse_version b)
