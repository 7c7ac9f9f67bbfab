-- ===== src/Window/Opening.antt =====
-- When a device with windows is open.
use retune.Base.{
  Bool, Bool-cases, List, [], arith, false, if◌then◌else◌, inl, inr, not, refl, sym, true, ℕ, ◌++◌,
  ◌||◌, ◌↔◌, ◌∙◌, ◌∷◌, ◌≡◌, ◌⊎◌,
}
use retune.Window.{
  Item, Result, Window, Windows, Zone, add_valid, any_open, collect, err, ok, open_at, other_item,
  unreadable_window, validate, window_contains, window_item, windows_from,
}
use retune.Window.Contains.{Admits, Admits-Opens, Opens, Opens-Admits}

-- A window's item, readable or not.
abbrev pub HasWindow : List Item → Type 0
HasWindow [] = ⊥
HasWindow (other_item ∷ items) = HasWindow items
HasWindow (_ ∷ items) = Unit

abbrev pub SomeOpens : Zone → ℕ → List Item → Type 0
SomeOpens zone t [] = ⊥
SomeOpens zone t (window_item w ∷ items) = Opens zone t w ⊎ SomeOpens zone t items
SomeOpens zone t (_ ∷ items) = SomeOpens zone t items

abbrev SomeAdmits : Zone → ℕ → List Item → Type 0
SomeAdmits zone t [] = ⊥
SomeAdmits zone t (window_item w ∷ items) = Admits zone t (validate w) ⊎ SomeAdmits zone t items
SomeAdmits zone t (_ ∷ items) = SomeAdmits zone t items

module _ (zone : Zone) (t : ℕ) where
  any_open-append :
      (ws : List Window) (w : Window)
      → any_open zone (ws ++ w ∷ []) t ≡ (any_open zone ws t || window_contains zone w t)
  unfolding any_open
  any_open-append [] w = ground (arith)
  any_open-append (x ∷ ws) w = elim (Bool-cases (window_contains zone x t)) [
    | inl e ↦ rw e refl
    | inr e ↦ rw e (any_open-append ws w)
  ]

  add-open :
      (r : Result Window) (ws : List Window)
      → (any_open zone (add_valid r ws) t ≡ true) ↔ ((any_open zone ws t ≡ true) ⊎ Admits zone t r)
  add-open (err e) ws = (λ h. inl h, λ h. elim h [ inl k ↦ k | inr k ↦ absurd k ])
  add-open (ok w) ws =
      (λ h. ground (arith, any_open-append ws w), λ h. ground (arith, any_open-append ws w))

  collect-open :
      (items : List Item) (ws : Windows)
      → (any_open zone (collect ws items).valid t ≡ true)
        ↔ ((any_open zone ws.valid t ≡ true) ⊎ SomeAdmits zone t items)
  unfolding collect
  collect-open [] ws = (λ h. inl h, λ h. elim h [ inl k ↦ k | inr k ↦ absurd k ])
  collect-open (other_item ∷ items) ws = collect-open items ws
  collect-open (unreadable_window ∷ items) ws = collect-open items _
  collect-open (window_item w ∷ items) ws =
      let rest =
        collect-open items (record { assigned = true; valid = add_valid (validate w) ws.valid }) in
      let here = add-open (validate w) ws.valid in
      (
        λ h. elim (rest.0 h) [
          | inl k ↦ elim (here.0 k) [ inl m ↦ inl m | inr m ↦ inr (inl m) ]
          | inr k ↦ inr (inr k)
        ],
        λ h. elim h [
          | inl k ↦ rest.1 (inl (here.1 (inl k)))
          | inr k ↦ elim k [ inl m ↦ rest.1 (inl (here.1 (inr m))) | inr m ↦ rest.1 (inr m) ]
        ],
      )

  collect-assigned :
      (items : List Item) (ws : Windows) → ws.assigned ≡ true → (collect ws items).assigned ≡ true
  unfolding collect
  collect-assigned [] ws h = h
  collect-assigned (other_item ∷ items) ws h = collect-assigned items ws h
  collect-assigned (unreadable_window ∷ items) ws h = collect-assigned items _ refl
  collect-assigned (window_item w ∷ items) ws h = collect-assigned items _ refl

  assigned-HasWindow :
      (items : List Item) (ws : Windows) → HasWindow items → (collect ws items).assigned ≡ true
  unfolding collect
  assigned-HasWindow [] ws h = absurd h
  assigned-HasWindow (other_item ∷ items) ws h = assigned-HasWindow items ws h
  assigned-HasWindow (unreadable_window ∷ items) ws h = collect-assigned items _ refl
  assigned-HasWindow (window_item w ∷ items) ws h = collect-assigned items _ refl

  SomeAdmits-Opens_iff : (items : List Item) → SomeAdmits zone t items ↔ SomeOpens zone t items
  SomeAdmits-Opens_iff [] = (λ h. h, λ h. h)
  SomeAdmits-Opens_iff (other_item ∷ items) = SomeAdmits-Opens_iff items
  SomeAdmits-Opens_iff (unreadable_window ∷ items) = SomeAdmits-Opens_iff items
  SomeAdmits-Opens_iff (window_item w ∷ items) =
      let rest = SomeAdmits-Opens_iff items in
      (
        λ h. elim h [ inl k ↦ inl (Admits-Opens zone t w k) | inr k ↦ inr (rest.0 k) ],
        λ h. elim h [ inl k ↦ inl (Opens-Admits zone t w k) | inr k ↦ inr (rest.1 k) ],
      )

  unassigned :
      (items : List Item) (ws : Windows)
      → ¬ HasWindow items
      → ws.assigned ≡ false
      → (collect ws items).assigned ≡ false
  unfolding collect
  unassigned [] ws h e = e
  unassigned (other_item ∷ items) ws h e = unassigned items ws h e
  unassigned (unreadable_window ∷ items) ws h e = absurd (h tt)
  unassigned (window_item w ∷ items) ws h e = absurd (h tt)

  HasWindow-cases : (items : List Item) → HasWindow items ⊎ (¬ HasWindow items)
  HasWindow-cases [] = inr (λ h. h)
  HasWindow-cases (other_item ∷ items) = HasWindow-cases items
  HasWindow-cases (unreadable_window ∷ items) = inl tt
  HasWindow-cases (window_item w ∷ items) = inl tt

  -- With windows assigned, one of them has to be open.
  assigned_open :
      (assigned some_open : Bool)
      → assigned ≡ true
      → (if not assigned then true else some_open) ≡ some_open
  assigned_open true b h = refl
  assigned_open false b h = absurd (cc h)

  -- Without, the device is open.
  unassigned_open :
      (assigned some_open : Bool)
      → assigned ≡ false
      → (if not assigned then true else some_open) ≡ true
  unassigned_open true b h = absurd (cc h)
  unassigned_open false b h = refl

  -- A device is open at an instant exactly when it has been given no window, readable or not, or when
  -- one of its readable windows is well formed, with a time of day, 1 to 1440 minutes and known days,
  -- and an opening of it covers the instant: one that starts at that time of the day of the instant, or
  -- of the day before as AddDate gives it, on one of the window's days or on any day if it names none.
  pub open_at_iff :
      (items : List Item)
      → (open_at zone (windows_from items) t ≡ true)
        ↔ ((¬ HasWindow items) ⊎ SomeOpens zone t items)
  unfolding open_at windows_from
  open_at_iff items =
      let nothing : Windows = record { assigned = false; valid = [] } in
      let ws = collect nothing items in
      let c = collect-open items nothing in
      let each = SomeAdmits-Opens_iff items in
      elim (HasWindow-cases items) [
        | inl h ↦
            let e = assigned_open ws.assigned _ (assigned-HasWindow items nothing h) in
            (
              λ k. elim (c.0 (sym e ∙ k)) [ inl m ↦ absurd (cc m) | inr m ↦ inr (each.0 m) ],
              λ k. elim k [ inl n ↦ absurd (n h) | inr m ↦ e ∙ c.1 (inr (each.1 m)) ],
            )
        | inr n ↦ (λ k. inl n, λ k. unassigned_open ws.assigned _ (unassigned items nothing n refl))
      ]
