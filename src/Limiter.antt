-- ===== src/Limiter.antt =====
-- internal/server/auth/ratelimit.go: the limiter of failed attempts. Times and the window are numbers.
-- Each reading of the clock is an argument: `sweeps` has one for each key of the table. `victim` is the
-- key that the random iteration over the table meets first.
pub mod Refines
pub mod Runs
mod Examples
use retune.Base.{
  Bool, List, Option, Text, [], false, if◌then◌else◌, leb, length, ltb, none, some, text_eq, true,
  ℕ, ◌&&◌, ◌++◌, ◌+◌, ◌∷◌,
}

-- maxLimiterKeys
abbrev pub max_limiter_keys : ℕ
max_limiter_keys = 100000

pub record Entry : Type 0 where
  pub key : Text
  pub times : List ℕ

unfoldable pub failures_of : Text → List Entry → Option (List ℕ)
failures_of key [] = none
failures_of key (e ∷ t) =
    let rest = failures_of key t in if text_eq e.key key then some e.times else rest

unfoldable pub delete : Text → List Entry → List Entry
delete key [] = []
delete key (e ∷ t) = let rest = delete key t in if text_eq e.key key then rest else e ∷ rest

unfoldable pub put : Text → List ℕ → List Entry → List Entry
put key times [] = record { key = key; times = times } ∷ []
put key times (e ∷ t) =
    let later = put key times t in
    if text_eq e.key key then record { key = key; times = times } ∷ t else e ∷ later

module _ (max window : ℕ) where
  -- The entries after now - window.
  unfoldable pub live : ℕ → List ℕ → List ℕ
  live now [] = []
  live now (at ∷ times) =
      let rest = live now times in if ltb now (at + window) then at ∷ rest else rest

  abbrev pub store : Text → List ℕ → List Entry → List Entry
  store key [] t = delete key t
  store key (at ∷ times) t = put key (at ∷ times) t

  abbrev pub keep_recent : ℕ → Text → Option (List ℕ) → List Entry → List ℕ × List Entry
  keep_recent now key none t = ([], t)
  keep_recent now key (some times) t = (live now times, store key (live now times) t)

  unfoldable pub recent : ℕ → Text → List Entry → List ℕ × List Entry
  unfolding live delete put failures_of
  recent now key t = keep_recent now key (failures_of key t) t

  unfoldable pub allowed : ℕ → Text → List Entry → Bool × List Entry
  unfolding recent
  allowed now key t = let (times, left) = recent now key t in (ltb (length times) max, left)

  -- Forgets every key whose failures have all expired.
  unfoldable pub sweep : (Text → ℕ) → List Entry → List Entry → List Entry
  unfolding recent
  sweep sweeps [] t = t
  sweep sweeps (e ∷ es) t = sweep sweeps es (recent (sweeps e.key) e.key t).1

  unfoldable pub evict : (Text → ℕ) → Text → List Entry → List Entry
  unfolding sweep delete
  evict sweeps victim t =
      let swept = sweep sweeps t t in
      if ltb (length swept) max_limiter_keys then swept else delete victim swept

  abbrev pub is_none : List ℕ → Bool
  is_none [] = true
  is_none (at ∷ times) = false

  -- `now` is what recent reads, `last` the time that is added.
  unfoldable pub fail : ℕ → (Text → ℕ) → ℕ → Text → Text → List Entry → List Entry
  unfolding recent evict put
  fail now sweeps last key victim t =
      let (times, left) = recent now key t in
      put key (times ++ last ∷ []) (
        if is_none times && leb max_limiter_keys (length left)
        then evict sweeps victim left
        else left)

  unfoldable pub reset : Text → List Entry → List Entry
  unfolding delete
  reset key t = delete key t
