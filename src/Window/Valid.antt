-- ===== src/Window/Valid.antt =====
-- What a validated window is.
use retune.Base.{
  Bool, Bool-cases, List, Text, [], ap, arith, false, if◌then◌else◌, inl, inr, is_digit, not, refl,
  some, subst, sym, text_eq, text_eq_refl, text_eq→eq, to_lower, trim_space, true, ℕ, ◌&&◌, ◌*◌,
  ◌++◌, ◌+◌, ◌-◌, ◌<◌, ◌||◌, ◌↔◌, ◌∙◌, ◌∷◌, ◌≡◌,
}
use retune.Window.{
  Result, Window, WindowError, bad_day, contains, day_name, err, is_empty, normalize_days, ok,
  on_day, parse_colon, parse_hour, parse_minute, start_clock, weekdays,
}

abbrev IsDigit : ℕ → Type 0
IsDigit c = is_digit c ≡ true

-- The text is a time of day: an hour of one digit or two, a colon and two digits of minutes.
abbrev pub IsClock : Text → ℕ → ℕ → Type 0
IsClock (a ∷ b ∷ c ∷ d ∷ []) hour minute =
    (IsDigit a × (b ≡ b':') × IsDigit c × IsDigit d)
    × ((a - b'0' ≡ hour) × ((c - b'0') * 10 + (d - b'0') ≡ minute) × (minute < 60))
IsClock (a ∷ b ∷ c ∷ d ∷ e ∷ []) hour minute =
    (IsDigit a × IsDigit b × (c ≡ b':') × IsDigit d × IsDigit e)
    × (((a - b'0') * 10 + (b - b'0') ≡ hour)
        × ((d - b'0') * 10 + (e - b'0') ≡ minute)
        × (hour < 24)
        × (minute < 60))
IsClock _ hour minute = ⊥

pub start_clock-IsClock :
    (s : Text) (hour minute : ℕ) → start_clock s ≡ some (hour, minute) → IsClock s hour minute
unfolding start_clock parse_hour parse_colon parse_minute
start_clock-IsClock [] h m e = absurd (cc e)
start_clock-IsClock (a ∷ []) h m e = ground arith
start_clock-IsClock (a ∷ b ∷ []) h m e = ground arith
start_clock-IsClock (a ∷ b ∷ c ∷ []) h m e = ground arith
start_clock-IsClock (a ∷ b ∷ c ∷ d ∷ []) h m e = ground arith
start_clock-IsClock (a ∷ b ∷ c ∷ d ∷ f ∷ []) h m e = ground arith
start_clock-IsClock (a ∷ b ∷ c ∷ d ∷ f ∷ g ∷ s) h m e = ground arith

pub IsClock-start_clock :
    (s : Text) (hour minute : ℕ) → IsClock s hour minute → start_clock s ≡ some (hour, minute)
unfolding start_clock parse_hour parse_colon parse_minute is_digit
IsClock-start_clock [] h m e = absurd e
IsClock-start_clock (a ∷ []) h m e = absurd e
IsClock-start_clock (a ∷ b ∷ []) h m e = absurd e
IsClock-start_clock (a ∷ b ∷ c ∷ []) h m e = absurd e
IsClock-start_clock (a ∷ b ∷ c ∷ d ∷ []) h m e = ground arith
IsClock-start_clock (a ∷ b ∷ c ∷ d ∷ f ∷ []) h m e = ground arith
IsClock-start_clock (a ∷ b ∷ c ∷ d ∷ f ∷ g ∷ s) h m e = absurd e

-- The name as it is compared: without space around it, in lower case.
abbrev pub plain : Text → Text
plain x = to_lower (trim_space x)

-- One of the names is that day's.
abbrev pub names : Text → List Text → Bool
names d [] = false
names d (x ∷ xs) = text_eq (plain x) d || names d xs

abbrev pub all_days : List Text → Bool
all_days [] = true
all_days (x ∷ xs) = names (plain x) weekdays && all_days xs

-- weekdays are as they are compared.
weekdays-plain : (d : Text) → contains weekdays d ≡ names d weekdays
unfolding contains to_lower trim_space
weekdays-plain d = refl

contains-append :
    (xs : List Text) (x d : Text) → contains (xs ++ x ∷ []) d ≡ (contains xs d || text_eq x d)
unfolding contains
contains-append [] x d = ground arith
contains-append (y ∷ xs) x d = ground (arith, contains-append xs x d)

-- A name is added once.
added :
    (days : List Text) (x d : Text)
    → contains (if contains days x then days else days ++ x ∷ []) d
      ≡ (contains days d || text_eq x d)
added days x d = elim (Bool-cases (contains days x)) [
  | inl e ↦ rw e (known (text_eq x d) refl e)
  | inr e ↦ rw e (contains-append days x d)
]
  where
    known :
        (b : Bool)
        → text_eq x d ≡ b
        → contains days x ≡ true
        → contains days d ≡ (contains days d || b)
    known true k e =
        let same : contains days d ≡ true =
          subst (λ y. contains days y ≡ true) (text_eq→eq x d k) e in
        ground (arith, same)
    known false k e = ground arith

known_day :
    (b : Bool) (e : WindowError) (r : Result (List Text)) (ds : List Text)
    → (if not b then err e else r) ≡ ok ds
    → (b ≡ true) × (r ≡ ok ds)
known_day true e r ds h = (refl, h)
known_day false e r ds h = absurd (cc h)

if_known :
    (b : Bool) (e : WindowError) (r : Result (List Text))
    → b ≡ true
    → (if not b then err e else r) ≡ r
if_known true e r h = refl
if_known false e r h = absurd (cc h)

pub both_true : (a b : Bool) → ((a && b) ≡ true) ↔ ((a ≡ true) × (b ≡ true))
both_true true b = (λ h. (refl, h), λ h. h.1)
both_true false b = (λ h. absurd (cc h), λ h. absurd (cc h.0))

-- The loop over the days, after one of them.
abbrev onto : List Text → Text → List Text
onto days x = if contains days (plain x) then days else days ++ plain x ∷ []

or_assoc : (a b c : Bool) → ((a || b) || c) ≡ (a || (b || c))
or_assoc true b c = refl
or_assoc false b c = refl

-- The loop keeps exactly the days that are named.
pub normalize_days-ok :
    (days xs ds : List Text)
    → normalize_days days xs ≡ ok ds
    → (all_days xs ≡ true) × ((d : Text) → contains ds d ≡ (contains days d || names d xs))
unfolding normalize_days
normalize_days-ok days [] ds h =
    let same : days ≡ ds = cc h in
    (refl, λ d. ap (λ l. contains l d) (sym same) ∙ or_nothing (contains days d))
  where
    or_nothing : (b : Bool) → b ≡ (b || false)
    or_nothing true = refl
    or_nothing false = refl
normalize_days-ok days (x ∷ xs) ds h =
    let (k, rest) =
      known_day (contains weekdays (plain x)) (bad_day (plain x)) (normalize_days (onto days x) xs)
        ds h in
    let (all, kept) = normalize_days-ok (onto days x) xs ds rest in
    (
      (both_true (names (plain x) weekdays) (all_days xs)).1
          (sym (weekdays-plain (plain x)) ∙ k, all),
      λ d.
          kept d
          ∙ ap (λ b. b || names d xs) (added days (plain x) d)
          ∙ or_assoc (contains days d) (text_eq (plain x) d) (names d xs),
    )

pub normalize_days-all :
    (days xs : List Text) → all_days xs ≡ true → (ds : List Text) × (normalize_days days xs ≡ ok ds)
unfolding normalize_days
normalize_days-all days [] h = (days, refl)
normalize_days-all days (x ∷ xs) h =
    let (k, all) = (both_true (names (plain x) weekdays) (all_days xs)).0 h in
    let (ds, rest) = normalize_days-all (onto days x) xs all in
    (
      ds,
      if_known (contains weekdays (plain x)) (bad_day (plain x)) (normalize_days (onto days x) xs)
            (weekdays-plain (plain x) ∙ k)
          ∙ rest,
    )

none_kept : (ds : List Text) → normalize_days [] [] ≡ ok ds → ds ≡ []
unfolding normalize_days
none_kept ds h = cc h

not_nothing :
    (x : Text) (xs : List Text)
    → contains [] (plain x) ≡ (contains [] (plain x) || names (plain x) (x ∷ xs))
    → ⊥
unfolding contains
not_nothing x xs h = cc (h, text_eq_refl (plain x))

-- With no day named, every day is.
pub on_day-names :
    (w : Window) (ds : List Text) (n : ℕ)
    → normalize_days [] w.days ≡ ok ds
    → on_day (record w { days = ds }) n ≡ (is_empty w.days || names (day_name n) w.days)
unfolding on_day
on_day-names w ds n h =
    let (all, kept) = normalize_days-ok [] w.days ds h in
    either w.days ds kept (nothing w.days ds h) (kept (day_name n))
  where
    nothing : (xs ds : List Text) → normalize_days [] xs ≡ ok ds → xs ≡ [] → ds ≡ []
    nothing xs ds h e = none_kept ds (subst (λ l. normalize_days [] l ≡ ok ds) e h)

    either :
        (xs ds : List Text)
        → ((d : Text) → contains ds d ≡ (contains [] d || names d xs))
        → (xs ≡ [] → ds ≡ [])
        → contains ds (day_name n) ≡ (contains [] (day_name n) || names (day_name n) xs)
        → (is_empty ds || contains ds (day_name n)) ≡ (is_empty xs || names (day_name n) xs)
    either [] ds kept e k = ap (λ l. is_empty l || contains l (day_name n)) (e refl)
    either (x ∷ xs) [] kept e k = absurd (not_nothing x xs (kept (plain x)))
    either (x ∷ xs) (d ∷ ds) kept e k = k
