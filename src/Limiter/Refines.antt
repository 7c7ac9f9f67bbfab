-- ===== src/Limiter/Refines.antt =====
-- The limiter against a full record of the failures of every key.
use retune.Base.{
  Bool, Bool-cases, List, Option, Text, [], ap, arith, false, inl, inr, ltb, none, refl, some,
  subst, sym, text_eq, text_eq_refl, text_eq→eq, true, ℕ, ◌++◌, ◌+◌, ◌∙◌, ◌∷◌, ◌≡◌, ◌≤◌,
}
use retune.Limiter.{Entry, delete, failures_of, keep_recent, live, put, recent, store, sweep}

abbrev or_none : Option (List ℕ) → List ℕ
or_none none = []
or_none (some times) = times

abbrev times_of : Text → List Entry → List ℕ
times_of key t = or_none (failures_of key t)

abbrev choose : Bool → List ℕ → List ℕ → List ℕ
choose true a b = a
choose false a b = b

-- Two texts that are both the third are one.
two_same : (k key j : Text) → text_eq k j ≡ true → text_eq key j ≡ true → text_eq k key ≡ true
two_same k key j a b =
    let same : k ≡ key = text_eq→eq k j a ∙ sym (text_eq→eq key j b) in
    subst (λ x. text_eq k x ≡ true) same (text_eq_refl k)

swapped : (k key j : Text) (t : Bool) → text_eq k key ≡ true → text_eq key j ≡ t → text_eq k j ≡ t
swapped k key j t a b = subst (λ x. text_eq x j ≡ t) (sym (text_eq→eq k key a)) b

times-put :
    (key j : Text) (times : List ℕ) (t : List Entry)
    → times_of j (put key times t) ≡ choose (text_eq key j) times (times_of j t)
unfolding put failures_of
times-put key j times [] = elim (Bool-cases (text_eq key j)) [
  | inl a ↦ rw a refl
  | inr a ↦ rw a refl
]
times-put key j times (e ∷ t) = elim (Bool-cases (text_eq e.key key)) [
  | inl a ↦ elim (Bool-cases (text_eq key j)) [
    | inl b ↦ rw (a, b) refl
    | inr b ↦ rw (a, b, swapped e.key key j false a b) refl
  ]
  | inr a ↦ elim (Bool-cases (text_eq e.key j)) [
    | inl b ↦ elim (Bool-cases (text_eq key j)) [
      | inl c ↦ absurd (cc (two_same e.key key j b c, a))
      | inr c ↦ rw (a, b, c) refl
    ]
    | inr b ↦ rw (a, b) (times-put key j times t)
  ]
]

times-delete :
    (key j : Text) (t : List Entry)
    → times_of j (delete key t) ≡ choose (text_eq key j) [] (times_of j t)
unfolding delete failures_of
times-delete key j [] = elim (Bool-cases (text_eq key j)) [ inl a ↦ rw a refl | inr a ↦ rw a refl ]
times-delete key j (e ∷ t) = elim (Bool-cases (text_eq e.key key)) [
  | inl a ↦ elim (Bool-cases (text_eq key j)) [
    | inl b ↦ rw (a, b) (times-delete key j t ∙ ap (λ x. choose x [] (times_of j t)) b)
    | inr b ↦
        rw (a, b, swapped e.key key j false a b)
          (times-delete key j t ∙ ap (λ x. choose x [] (times_of j t)) b)
  ]
  | inr a ↦ elim (Bool-cases (text_eq e.key j)) [
    | inl b ↦ elim (Bool-cases (text_eq key j)) [
      | inl c ↦ absurd (cc (two_same e.key key j b c, a))
      | inr c ↦ rw (a, b, c) refl
    ]
    | inr b ↦ rw (a, b) (times-delete key j t)
  ]
]

-- The failures of every key since its last success.
abbrev pub History : Type 0
History = Text → List ℕ

abbrev pub spec_fail : Text → ℕ → History → History
spec_fail key now h j = choose (text_eq key j) (h j ++ now ∷ []) (h j)

abbrev pub spec_reset : Text → History → History
spec_reset key h j = choose (text_eq key j) [] (h j)

module _ (max window : ℕ) where
  live-live :
      (now : ℕ) (s : List ℕ) → live max window now (live max window now s) ≡ live max window now s
  unfolding live
  live-live now [] = refl
  live-live now (at ∷ s) = elim (Bool-cases (ltb now (at + window))) [
    | inl a ↦ rw a (rw a (ap (λ x. at ∷ x) (live-live now s)))
    | inr a ↦ rw a (live-live now s)
  ]

  pub live_later :
      (now later : ℕ) (s : List ℕ)
      → now ≤ later
      → live max window later (live max window now s) ≡ live max window later s
  unfolding live
  live_later now later [] h = refl
  live_later now later (at ∷ s) h = elim (Bool-cases (ltb now (at + window))) [
    | inl a ↦ elim (Bool-cases (ltb later (at + window))) [
      | inl b ↦ rw a (rw b (ap (λ x. at ∷ x) (live_later now later s h)))
      | inr b ↦ rw a (rw b (live_later now later s h))
    ]
    | inr a ↦
        let b : ltb later (at + window) ≡ false = ground (arith, a, h) in
        rw (a, b) (live_later now later s h)
  ]

  live-append :
      (now : ℕ) (s t : List ℕ)
      → live max window now (s ++ t) ≡ live max window now s ++ live max window now t
  unfolding live
  live-append now [] t = refl
  live-append now (at ∷ s) t = elim (Bool-cases (ltb now (at + window))) [
    | inl a ↦ rw a (ap (λ x. at ∷ x) (live-append now s t))
    | inr a ↦ rw a (live-append now s t)
  ]

  -- At this time every key's remembered failures are those of the history that have not expired.
  abbrev pub Agrees : ℕ → List Entry → History → Type 0
  Agrees now t h = (j : Text) → live max window now (times_of j t) ≡ live max window now (h j)

  times-store :
      (key j : Text) (s : List ℕ) (t : List Entry)
      → times_of j (store max window key s t) ≡ choose (text_eq key j) s (times_of j t)
  times-store key j [] t = times-delete key j t
  times-store key j (at ∷ s) t = times-put key j (at ∷ s) t

  kept-times :
      (now : ℕ) (key : Text) (o : Option (List ℕ)) (t : List Entry)
      → (keep_recent max window now key o t).0 ≡ live max window now (or_none o)
  kept-times now key none t = unfold live in refl
  kept-times now key (some s) t = refl

  pub recent-times :
      (now : ℕ) (key : Text) (t : List Entry)
      → (recent max window now key t).0 ≡ live max window now (times_of key t)
  unfolding recent
  recent-times now key t = kept-times now key (failures_of key t) t

  -- Dropping what has expired changes nothing of what is live.
  kept-live :
      (now : ℕ) (key j : Text) (o : Option (List ℕ)) (t : List Entry)
      → failures_of key t ≡ o
      → live max window now (times_of j (keep_recent max window now key o t).1)
        ≡ live max window now (times_of j t)
  kept-live now key j none t e = refl
  kept-live now key j (some s) t e =
      ap (live max window now) (times-store key j (live max window now s) t)
      ∙ by_key (text_eq key j) refl
    where
      by_key :
          (b : Bool)
          → text_eq key j ≡ b
          → live max window now (choose b (live max window now s) (times_of j t))
            ≡ live max window now (times_of j t)
      by_key false h = refl
      by_key true h =
          let at_key : times_of key t ≡ s = ap or_none e in
          let moved_to : times_of j t ≡ s =
            subst (λ x. times_of x t ≡ s) (text_eq→eq key j h) at_key in
          live-live now s ∙ ap (live max window now) (sym moved_to)

  pub recent-Agrees :
      (now : ℕ) (key : Text) (t : List Entry) (h : History)
      → Agrees now t h
      → Agrees now (recent max window now key t).1 h
  unfolding recent
  recent-Agrees now key t h a j = kept-live now key j (failures_of key t) t refl ∙ a j

  pub later-Agrees :
      (now later : ℕ) (t : List Entry) (h : History)
      → now ≤ later
      → Agrees now t h
      → Agrees later t h
  later-Agrees now later t h n a j =
      sym (live_later now later (times_of j t) n)
      ∙ ap (live max window later) (a j)
      ∙ live_later now later (h j) n

  -- A key's failures are dropped no later than at that time.
  pub recent-later :
      (now later : ℕ) (key : Text) (t : List Entry) (h : History)
      → now ≤ later
      → Agrees later t h
      → Agrees later (recent max window now key t).1 h
  unfolding recent
  recent-later now later key t h n a j =
      sym (live_later now later (times_of j (recent max window now key t).1) n)
      ∙ ap (live max window later) (kept-live now key j (failures_of key t) t refl)
      ∙ live_later now later (times_of j t) n
      ∙ a j

  pub sweep-Agrees :
      (sweeps : Text → ℕ) (later : ℕ) (es t : List Entry) (h : History)
      → ((key : Text) → sweeps key ≤ later)
      → Agrees later t h
      → Agrees later (sweep max window sweeps es t) h
  unfolding sweep
  sweep-Agrees sweeps later [] t h n a = a
  sweep-Agrees sweeps later (e ∷ es) t h n a =
      sweep-Agrees sweeps later es (recent max window (sweeps e.key) e.key t).1 h n
        (recent-later (sweeps e.key) later e.key t h (n e.key) a)

  pub put-Agrees :
      (now : ℕ) (key : Text) (s : List ℕ) (t : List Entry) (h : History)
      → Agrees now t h
      → live max window now s ≡ live max window now (h key)
      → Agrees now (put key (s ++ now ∷ []) t) (spec_fail key now h)
  put-Agrees now key s t h a e j =
      ap (live max window now) (times-put key j (s ++ now ∷ []) t) ∙ by_key (text_eq key j) refl
    where
      by_key :
          (b : Bool)
          → text_eq key j ≡ b
          → live max window now (choose b (s ++ now ∷ []) (times_of j t))
            ≡ live max window now (choose b (h j ++ now ∷ []) (h j))
      by_key false k = a j
      by_key true k =
          let own : live max window now s ≡ live max window now (h j) =
            subst (λ x. live max window now s ≡ live max window now (h x)) (text_eq→eq key j k) e in
          live-append now s (now ∷ [])
          ∙ ap (λ x. x ++ live max window now (now ∷ [])) own
          ∙ sym (live-append now (h j) (now ∷ []))

  pub delete-Agrees :
      (now : ℕ) (key : Text) (t : List Entry) (h : History)
      → Agrees now t h
      → Agrees now (delete key t) (spec_reset key h)
  delete-Agrees now key t h a j =
      ap (live max window now) (times-delete key j t) ∙ by_key (text_eq key j)
    where
      by_key :
          (b : Bool)
          → live max window now (choose b [] (times_of j t))
            ≡ live max window now (choose b [] (h j))
      by_key false = a j
      by_key true = refl
