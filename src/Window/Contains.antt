-- ===== src/Window/Contains.antt =====
-- What Contains of a validated window says of the window as it was sent.
use retune.Base.{
  Bool, List, Option, Text, [], ap, arith, false, if◌then◌else◌, inl, inr, ltb, none, not, refl,
  some, subst, sym, true, ℕ, ◌&&◌, ◌*◌, ◌+◌, ◌-◌, ◌<◌, ◌||◌, ◌↔◌, ◌∙◌, ◌∷◌, ◌≡◌, ◌≤◌, ◌⊎◌,
}
use retune.Window.{
  Result, Window, Zone, bad_duration, contains_at, day_name, days_back, err, is_empty,
  normalize_days, ok, on_day, opened_on, start_clock, validate, weekday, window_contains,
  with_clock,
}
use retune.Window.Valid.{
  IsClock, IsClock-start_clock, all_days, both_true, names, normalize_days-all, normalize_days-ok,
  on_day-names, start_clock-IsClock,
}

-- The window as it was sent is well formed, and an opening of it, on the day of `t` or on that of
-- t.AddDate(0, 0, -1), is on one of its days and covers `t`.
pub record Opens (zone : Zone) (t : ℕ) (w : Window) : Type 0 where
  pub hour : ℕ
  pub minute : ℕ
  pub clock : IsClock w.start hour minute
  pub lasts : 1 ≤ w.duration_minutes
  pub within_day : w.duration_minutes ≤ 1440
  pub days_known : all_days w.days ≡ true
  pub day : ℕ
  pub recent_day :
      (day ≡ zone.local_day (zone.date (zone.local_day t) (zone.local_clock t)))
      ⊎ (day ≡ zone.local_day (zone.date (zone.local_day t - 1) (zone.local_clock t)))
  pub on_its_day :
      (w.days ≡ [])
      ⊎ (names
            (day_name (weekday (zone.local_day (zone.date day (hour * 3600 + minute * 60)))))
            w.days
          ≡ true)
  pub begun : zone.date day (hour * 3600 + minute * 60) ≤ t
  pub not_over : t < zone.date day (hour * 3600 + minute * 60) + w.duration_minutes * 60

-- The window is valid, and once normalised it contains `t`.
abbrev pub Admits : Zone → ℕ → Result Window → Type 0
Admits zone t (ok w) = window_contains zone w t ≡ true
Admits zone t (err e) = ⊥

-- One opening.
record Covers (zone : Zone) (t hour minute day : ℕ) (w : Window) : Type 0 where
  its_day :
      (w.days ≡ [])
      ⊎ (names
            (day_name (weekday (zone.local_day (zone.date day (hour * 3600 + minute * 60)))))
            w.days
          ≡ true)
  begun : zone.date day (hour * 3600 + minute * 60) ≤ t
  not_over : t < zone.date day (hour * 3600 + minute * 60) + w.duration_minutes * 60

named_or_any : (xs : List Text) (b : Bool) → ((is_empty xs || b) ≡ true) ↔ ((xs ≡ []) ⊎ (b ≡ true))
named_or_any [] b = (λ h. inl refl, λ h. refl)
named_or_any (x ∷ xs) b = (λ h. inr h, λ h. elim h [ inl e ↦ absurd (cc e) | inr e ↦ e ])

inside_now : (a b t : ℕ) → a ≤ t → t < b → (not (ltb t a) && ltb t b) ≡ true
inside_now a b t h k = ground (arith, h, k)

opened_on_iff :
    (zone : Zone) (w : Window) (ds : List Text) (hour minute t day : ℕ)
    → normalize_days [] w.days ≡ ok ds
    → (opened_on zone (record w { days = ds }) (hour, minute) t day ≡ true)
      ↔ Covers zone t hour minute (zone.local_day day) w
unfolding opened_on
opened_on_iff zone w ds hour minute t day h =
    let start = zone.date (zone.local_day day) (hour * 3600 + minute * 60) in
    let n = weekday (zone.local_day start) in
    let v = record w { days = ds } in
    let inside = not (ltb t start) && ltb t (start + w.duration_minutes * 60) in
    let b = both_true (on_day v n) inside in
    let d = on_day-names w ds n h in
    let a = named_or_any w.days (names (day_name n) w.days) in
    (
      λ k. record {
        its_day = a.0 (sym d ∙ (b.0 k).0);
        begun = ground (arith, (b.0 k).1);
        not_over = ground (arith, (b.0 k).1);
      },
      λ c. b.1 (
        d ∙ a.1 c.its_day,
        inside_now start (start + w.duration_minutes * 60) t c.begun c.not_over,
      ),
    )

either_opened : (a b : Bool) → (a || b) ≡ true → (a ≡ true) ⊎ (b ≡ true)
either_opened true b h = inl refl
either_opened false b h = inr h

opened_either : (a b : Bool) → (a ≡ true) ⊎ (b ≡ true) → (a || b) ≡ true
opened_either true b h = refl
opened_either false b h = elim h [ inl e ↦ absurd (cc e) | inr e ↦ e ]

long_enough : (b x : Bool) → b ≡ false → x ≡ true → (if b then false else x) ≡ true
long_enough true x h k = absurd (cc h)
long_enough false x h k = k

if_else : (b x : Bool) → (if b then false else x) ≡ true → (b ≡ false) × (x ≡ true)
if_else true x h = absurd (cc h)
if_else false x h = (refl, h)

no_days : (n : ℕ) → n - 0 ≡ n
no_days n = omega arith

module _ (zone : Zone) (t : ℕ) where
  timed :
      (b : Bool) (r : Result Window)
      → Admits zone t (if b then err bad_duration else r)
      → (b ≡ false) × Admits zone t r
  timed true r h = absurd h
  timed false r h = (refl, h)

  untimed :
      (b : Bool) (r : Result Window)
      → b ≡ false
      → Admits zone t r
      → Admits zone t (if b then err bad_duration else r)
  untimed true r e h = absurd (cc e)
  untimed false r e h = h

  Covers-Opens :
      (w : Window) (hour minute day : ℕ)
      → IsClock w.start hour minute
      → (ltb w.duration_minutes 1 || ltb 1440 w.duration_minutes) ≡ false
      → all_days w.days ≡ true
      → (day ≡ zone.local_day (zone.date (zone.local_day t) (zone.local_clock t)))
        ⊎ (day ≡ zone.local_day (zone.date (zone.local_day t - 1) (zone.local_clock t)))
      → Covers zone t hour minute day w
      → Opens zone t w
  Covers-Opens w hour minute day is_time lasting all recent c = record {
    hour = hour;
    minute = minute;
    clock = is_time;
    lasts = ground (arith, lasting);
    within_day = ground (arith, lasting);
    days_known = all;
    day = day;
    recent_day = recent;
    on_its_day = c.its_day;
    begun = c.begun;
    not_over = c.not_over;
  }

  Admits-Opens_by :
      (w : Window) (o : Option (ℕ × ℕ)) (r : Result (List Text))
      → start_clock w.start ≡ o
      → normalize_days [] w.days ≡ r
      → Admits zone t (with_clock w o r)
      → Opens zone t w
  unfolding window_contains days_back
  Admits-Opens_by w none r e n h = absurd h
  Admits-Opens_by w (some clock) (err x) e n h =
      absurd (timed (ltb w.duration_minutes 1 || ltb 1440 w.duration_minutes) (err x) h).1
  Admits-Opens_by w (some (hour, minute)) (ok ds) e n h =
      let v = record w { days = ds } in
      let (short, a) = timed (ltb w.duration_minutes 1 || ltb 1440 w.duration_minutes) (ok v) h in
      let today = days_back zone t 0 in
      let yesterday = days_back zone t 1 in
      let found = if_else (ltb w.duration_minutes 1) _ (sym (ap (contains_at zone v t) e) ∙ a) in
      let (all, kept) = normalize_days-ok [] w.days ds n in
      let is_time = start_clock-IsClock w.start hour minute e in
      elim (either_opened (opened_on zone v (hour, minute) t today) _ found.1) [
        | inl k ↦
            Covers-Opens w hour minute (zone.local_day today) is_time short all
              (inl (
                ap (λ d. zone.local_day (zone.date d (zone.local_clock t)))
                  (no_days (zone.local_day t))))
              ((opened_on_iff zone w ds hour minute t today n).0 k)
        | inr k ↦
            Covers-Opens w hour minute (zone.local_day yesterday) is_time short all (inr refl)
              ((opened_on_iff zone w ds hour minute t yesterday n).0 k)
      ]

  pub Opens-Admits : (w : Window) → Opens zone t w → Admits zone t (validate w)
  unfolding validate window_contains days_back
  Opens-Admits w o =
      let e = IsClock-start_clock w.start o.hour o.minute o.clock in
      let (ds, n) = normalize_days-all [] w.days o.days_known in
      let v = record w { days = ds } in
      let clock : ℕ × ℕ = (o.hour, o.minute) in
      let c : Covers zone t o.hour o.minute o.day w = record {
        its_day = o.on_its_day;
        begun = o.begun;
        not_over = o.not_over;
      } in
      let opened : (opened_on zone v clock t (days_back zone t 0)
            || opened_on zone v clock t (days_back zone t 1))
          ≡ true =
        opened_either _ _ (elim o.recent_day [
          | inl k ↦ inl (
              (opened_on_iff zone w ds o.hour o.minute t (days_back zone t 0) n).1 (
                subst (λ d. Covers zone t o.hour o.minute d w)
                  (k
                    ∙ ap (λ d. zone.local_day (zone.date d (zone.local_clock t)))
                        (sym (no_days (zone.local_day t))))
                  c))
          | inr k ↦ inr (
              (opened_on_iff zone w ds o.hour o.minute t (days_back zone t 1) n).1
                (subst (λ d. Covers zone t o.hour o.minute d w) k c))
        ]) in
      let long : ltb w.duration_minutes 1 ≡ false = ground (arith, o.lasts) in
      let lasting : (ltb w.duration_minutes 1 || ltb 1440 w.duration_minutes) ≡ false =
        ground (arith, o.lasts, o.within_day) in
      subst (λ x. Admits zone t (with_clock w x (normalize_days [] w.days))) (sym e)
        (subst (λ x. Admits zone t (with_clock w (some clock) x)) (sym n)
          (untimed (ltb w.duration_minutes 1 || ltb 1440 w.duration_minutes) (ok v) lasting
            (ap (contains_at zone v t) e ∙ long_enough (ltb w.duration_minutes 1) _ long opened)))

  pub Admits-Opens : (w : Window) → Admits zone t (validate w) → Opens zone t w
  unfolding validate
  Admits-Opens w h = Admits-Opens_by w (start_clock w.start) (normalize_days [] w.days) refl refl h
