-- ===== src/Commands/Output.antt =====
-- clampOutput of internal/server/commands/service.go: agent output made safe to store.
pub mod Size
use retune.Base.{
  Bool, Option, Text, [], false, if◌then◌else◌, leb, length, ltb, none, some, suc, take, true, zero,
  ℕ, ◌&&◌, ◌++◌, ◌==◌, ◌∷◌,
}

-- protocol.MaxOutputBytes
abbrev pub max_output_bytes : ℕ
max_output_bytes = 1048576

unfoldable pub between : ℕ → ℕ → ℕ → Bool
between lo hi c = leb lo c && leb c hi

-- A byte that continues a rune.
unfoldable pub is_tail : ℕ → Bool
unfolding between
is_tail c = between 128 191 c

-- The second byte that may follow the first byte of a rune of three or four bytes.
unfoldable pub second_ok : ℕ → ℕ → Bool
unfolding between
second_ok first c =
    if first == 224
    then between 160 191 c
    else if first == 237
    then between 128 159 c
    else if first == 240
    then between 144 191 c
    else if first == 244
    then between 128 143 c
    else between 128 191 c

-- How many bytes of the rune that stands first follow its first byte; none if no rune does.
unfoldable pub tail_of_rune : Text → Option ℕ
unfolding between is_tail second_ok
tail_of_rune [] = none
tail_of_rune (a ∷ []) = if ltb a 128 then some 0 else none
tail_of_rune (a ∷ b ∷ []) =
    if ltb a 128 then some 0 else if between 194 223 a && is_tail b then some 1 else none
tail_of_rune (a ∷ b ∷ c ∷ []) =
    if ltb a 128
    then some 0
    else if between 194 223 a && is_tail b
    then some 1
    else if between 224 239 a && second_ok a b && is_tail c
    then some 2
    else none
tail_of_rune (a ∷ b ∷ c ∷ d ∷ s) =
    if ltb a 128
    then some 0
    else if between 194 223 a && is_tail b
    then some 1
    else if between 224 239 a && second_ok a b && is_tail c
    then some 2
    else if between 240 244 a && second_ok a b && is_tail c && is_tail d
    then some 3
    else none

-- U+FFFD in UTF-8
abbrev pub replacement : Text
replacement = 239 ∷ 191 ∷ 189 ∷ []

abbrev pub one_rune : Option ℕ → ℕ → Bool → Text → (ℕ → Text) → Text
one_rune (some tail) c invalid bad good = c ∷ good tail
one_rune none c true bad good = bad
one_rune none c false bad good = replacement ++ bad

-- strings.ToValidUTF8: `tail` bytes are still of the rune before, and `invalid` says that the byte
-- before was not of a rune.
unfoldable pub valid_from : ℕ → Bool → Text → Text
unfolding tail_of_rune
valid_from tail invalid [] = []
valid_from (suc n) invalid (c ∷ s) = c ∷ valid_from n false s
valid_from zero invalid (c ∷ s) =
    one_rune (tail_of_rune (c ∷ s)) c invalid (valid_from zero true s) (λ n. valid_from n false s)

unfoldable pub to_valid_utf8 : Text → Text
unfolding valid_from
to_valid_utf8 s = valid_from 0 false s

-- strings.ReplaceAll with an empty replacement.
unfoldable pub without_nul : Text → Text
without_nul [] = []
without_nul (c ∷ s) = let rest = without_nul s in if c == 0 then rest else c ∷ rest

-- At most `cap` bytes, before invalid bytes are replaced.
unfoldable pub clamp : ℕ → Text → Bool → Text × Bool
unfolding to_valid_utf8
clamp cap s truncated =
    if ltb cap (length s) then (to_valid_utf8 (take cap s), true) else (to_valid_utf8 s, truncated)

unfoldable pub clamp_output : Text → Bool → Text × Bool
unfolding clamp without_nul
clamp_output s truncated = clamp max_output_bytes (without_nul s) truncated
