-- ===== src/Window.antt =====
-- Maintenance windows: internal/protocol/window.go. A window's texts are byte strings, instants are
-- seconds, and days are counted from day 0, a Thursday (1 January 1970).
pub mod Valid
pub mod Contains
pub mod Opening
mod Examples
use retune.Base.{
  Bool, List, Option, Text, [], bytes, false, if◌then◌else◌, is_digit, ltb, none, not, some, suc,
  text_eq, to_lower, trim_space, true, zero, ℕ, ◌%◌, ◌&&◌, ◌*◌, ◌++◌, ◌+◌, ◌-◌, ◌==◌, ◌||◌, ◌∷◌,
}

-- strings.ToLower, strings.TrimSpace and the digits below are modelled over ASCII.
pub record Window : Type 0 where
  pub days : List Text
  pub start : Text
  -- A negative duration fails every test that 0 fails, and is written 0.
  pub duration_minutes : ℕ

abbrev pub weekdays : List Text
weekdays =
    bytes "sun"
    ∷ bytes "mon"
    ∷ bytes "tue"
    ∷ bytes "wed"
    ∷ bytes "thu"
    ∷ bytes "fri"
    ∷ bytes "sat"
    ∷ []

pub data WindowError : Type 0 where
  bad_start bad_duration : WindowError
  bad_day : Text → WindowError

pub data Result {ℓ} (A : Type ℓ) : Type ℓ where
  ok : A → Result A
  err : WindowError → Result A

-- slices.Contains
unfoldable pub contains : List Text → Text → Bool
contains [] d = false
contains (x ∷ xs) d = text_eq x d || contains xs d

-- The minute and the end of "15:04", which takes two digits.
unfoldable pub parse_minute : ℕ → Text → Option (ℕ × ℕ)
parse_minute hour (a ∷ b ∷ []) =
    let minute = (a - b'0') * 10 + (b - b'0') in
    if (is_digit a && is_digit b) && ltb minute 60 then some (hour, minute) else none
parse_minute hour _ = none

unfoldable pub parse_colon : ℕ → Text → Option (ℕ × ℕ)
unfolding parse_minute
parse_colon hour [] = none
parse_colon hour (c ∷ rest) = if (c == b':') && ltb hour 24 then parse_minute hour rest else none

-- The hour takes one digit or two.
unfoldable pub parse_hour : ℕ → Text → Option (ℕ × ℕ)
unfolding parse_colon
parse_hour a [] = none
parse_hour a (b ∷ rest) =
    if is_digit b
    then parse_colon ((a - b'0') * 10 + (b - b'0')) rest
    else parse_colon (a - b'0') (b ∷ rest)

-- time.Parse("15:04", s), its hour and minute.
unfoldable pub start_clock : Text → Option (ℕ × ℕ)
unfolding parse_hour is_digit
start_clock [] = none
start_clock (a ∷ rest) = if is_digit a then parse_hour a rest else none

-- The loop over the days: `days` is what was kept so far, in order.
unfoldable pub normalize_days : List Text → List Text → Result (List Text)
unfolding contains trim_space to_lower
normalize_days days [] = ok days
normalize_days days (x ∷ xs) =
    let d = to_lower (trim_space x) in
    let rest = normalize_days (if contains days d then days else days ++ d ∷ []) xs in
    if not (contains weekdays d) then err (bad_day d) else rest

abbrev pub with_days : Window → Result (List Text) → Result Window
with_days w (ok days) = ok (record w { days = days })
with_days w (err e) = err e

abbrev pub with_clock : Window → Option (ℕ × ℕ) → Result (List Text) → Result Window
with_clock w none days = err bad_start
with_clock w (some clock) days =
    if ltb w.duration_minutes 1 || ltb 1440 w.duration_minutes
    then err bad_duration
    else with_days w days

unfoldable pub validate : Window → Result Window
unfolding start_clock normalize_days
validate w = with_clock w (start_clock w.start) (normalize_days [] w.days)

-- A device's time zone: the calendar day of an instant there, its second of that day, and the instant
-- that time.Date gives for a day and a second of it, which need not be on that day where the clock was
-- put forward. Day 0 is before every day that is asked about.
pub record Zone : Type 0 where
  pub local_day : ℕ → ℕ
  pub local_clock : ℕ → ℕ
  pub date : ℕ → ℕ → ℕ

-- time.Weekday of a day, Sunday first.
abbrev pub weekday : ℕ → ℕ
weekday day = (day + 4) % 7

unfoldable pub day_name : ℕ → Text
day_name n = go weekdays n
  where
    go : List Text → ℕ → Text
    go [] n = []
    go (d ∷ ds) zero = d
    go (d ∷ ds) (suc n) = go ds n

abbrev pub is_empty : List Text → Bool
is_empty [] = true
is_empty (_ ∷ _) = false

unfoldable pub on_day : Window → ℕ → Bool
unfolding contains day_name
on_day w n = is_empty w.days || contains w.days (day_name n)

module _ (zone : Zone) where
  -- t.AddDate(0, 0, -back)
  unfoldable pub days_back : ℕ → ℕ → ℕ
  days_back t back = zone.date (zone.local_day t - back) (zone.local_clock t)

  -- The opening on the day of the instant `day` covers `t`.
  unfoldable pub opened_on : Window → ℕ × ℕ → ℕ → ℕ → Bool
  unfolding on_day
  opened_on w (hour, minute) t day =
      let start = zone.date (zone.local_day day) (hour * 3600 + minute * 60) in
      on_day w (weekday (zone.local_day start))
      && (not (ltb t start) && ltb t (start + w.duration_minutes * 60))

  -- Today's opening, and yesterday's.
  abbrev pub contains_at : Window → ℕ → Option (ℕ × ℕ) → Bool
  contains_at w t none = false
  contains_at w t (some clock) =
      if ltb w.duration_minutes 1
      then false
      else (opened_on w clock t (days_back t 0) || opened_on w clock t (days_back t 1))

  unfoldable pub window_contains : Window → ℕ → Bool
  unfolding start_clock opened_on days_back
  window_contains w t = contains_at w t (start_clock w.start)

-- What a check-in says. An item is a window that was read, or an item that could not be, or another
-- kind of item: reading its JSON is left out.
pub data Item : Type 0 where
  window_item : Window → Item
  unreadable_window other_item : Item

pub record Windows : Type 0 where
  pub assigned : Bool
  pub valid : List Window

abbrev pub add_valid : Result Window → List Window → List Window
add_valid (ok w) ws = ws ++ w ∷ []
add_valid (err e) ws = ws

unfoldable pub collect : Windows → List Item → Windows
unfolding validate
collect ws [] = ws
collect ws (window_item w ∷ items) =
    collect (record { assigned = true; valid = add_valid (validate w) ws.valid }) items
collect ws (unreadable_window ∷ items) = collect (record ws { assigned = true }) items
collect ws (other_item ∷ items) = collect ws items

unfoldable pub windows_from : List Item → Windows
unfolding collect
windows_from items = collect (record { assigned = false; valid = [] }) items

unfoldable pub any_open : Zone → List Window → ℕ → Bool
unfolding window_contains
any_open zone [] t = false
any_open zone (w ∷ ws) t = if window_contains zone w t then true else any_open zone ws t

unfoldable pub open_at : Zone → Windows → ℕ → Bool
unfolding any_open
open_at zone ws t = if not ws.assigned then true else any_open zone ws.valid t
