-- ===== src/Release/Precedence.antt =====
-- Three-way comparisons: what makes one an order, and how orders are put together.
use retune.Base.{
  All, List, [], arith, if◌then◌else◌, inl, inr, ltb, refl, subst, sym, ℕ, ◌==◌, ◌∷◌, ◌≡◌, ◌⊎◌,
}

-- -1, 0 and 1.
pub data Precedence : Type 0 where
  less same more : Precedence

abbrev pub opposite : Precedence → Precedence
opposite less = more
opposite same = same
opposite more = less

-- On the values with `P`, the comparison is a strict total order.
pub record IsOrder {A : Type 0} (P : A → Type 0) (cmp : A → A → Precedence) : Type 0 where
  pub same_self : (a : A) → cmp a a ≡ same
  pub eq_of_same : (a b : A) → P a → P b → cmp a b ≡ same → a ≡ b
  pub flip : (a b : A) → P a → P b → cmp b a ≡ opposite (cmp a b)
  pub trans : (a b c : A) → P a → P b → P c → cmp a b ≡ less → cmp b c ≡ less → cmp a c ≡ less

abbrev pub cmp_nat : ℕ → ℕ → Precedence
cmp_nat a b = if a == b then same else if ltb a b then less else more

-- The second comparison decides where the first does not.
abbrev pub or_else : Precedence → Precedence → Precedence
or_else same y = y
or_else less y = less
or_else more y = more

abbrev pub Any : {A : Type 0} → A → Type 0
Any a = Unit

pub cmp_nat-IsOrder : IsOrder {A = ℕ} Any cmp_nat
cmp_nat-IsOrder = record {
  same_self = λ a. ground arith;
  eq_of_same = λ a b p q h. ground arith;
  flip = λ a b p q. ground arith;
  trans = λ a b c p q r h k. ground arith;
}

Precedence-cases : (x : Precedence) → (x ≡ less) ⊎ ((x ≡ same) ⊎ (x ≡ more))
Precedence-cases less = inl refl
Precedence-cases same = inr (inl refl)
Precedence-cases more = inr (inr refl)

or_else-same : (x y : Precedence) → or_else x y ≡ same → (x ≡ same) × (y ≡ same)
or_else-same same y h = (refl, h)
or_else-same less y h = cc
or_else-same more y h = cc

or_else-less : (x y : Precedence) → or_else x y ≡ less → (x ≡ less) ⊎ ((x ≡ same) × (y ≡ less))
or_else-less same y h = inr (refl, h)
or_else-less less y h = inl refl
or_else-less more y h = cc

or_else-opposite : (x y : Precedence) → or_else (opposite x) (opposite y) ≡ opposite (or_else x y)
or_else-opposite same y = refl
or_else-opposite less y = refl
or_else-opposite more y = refl

module _ {A B : Type 0} (cmp_a : A → A → Precedence) (cmp_b : B → B → Precedence) where
  abbrev pub cmp_pair : A × B → A × B → Precedence
  cmp_pair (a, b) (c, d) = or_else (cmp_a a c) (cmp_b b d)

  module _ (P : A → Type 0) (Q : B → Type 0) where
    abbrev pub Both : A × B → Type 0
    Both (a, b) = P a × Q b

    module _ (x : IsOrder P cmp_a) (y : IsOrder Q cmp_b) where
      pair_trans :
          (p q r : A × B)
          → Both p
          → Both q
          → Both r
          → cmp_pair p q ≡ less
          → cmp_pair q r ≡ less
          → cmp_pair p r ≡ less
      pair_trans (a, b) (c, d) (e, f) p q r h k = elim (or_else-less (cmp_a a c) (cmp_b b d) h) [
        | inl l ↦ elim (or_else-less (cmp_a c e) (cmp_b d f) k) [
          | inl m ↦ rw (x.trans a c e p.0 q.0 r.0 l m) refl
          | inr m ↦ rw (subst (λ z. cmp_a a z ≡ less) (x.eq_of_same c e q.0 r.0 m.0) l) refl
        ]
        | inr l ↦ elim (or_else-less (cmp_a c e) (cmp_b d f) k) [
          | inl m ↦ rw (subst (λ z. cmp_a z e ≡ less) (sym (x.eq_of_same a c p.0 q.0 l.0)) m) refl
          | inr m ↦
              rw (subst (λ z. cmp_a z e ≡ same) (sym (x.eq_of_same a c p.0 q.0 l.0)) m.0)
                (y.trans b d f p.1 q.1 r.1 l.1 m.1)
        ]
      ]

      pub cmp_pair-IsOrder : IsOrder Both cmp_pair
      cmp_pair-IsOrder = record {
        same_self = λ (a, b). rw (x.same_self a) (y.same_self b);
        eq_of_same = λ (a, b) (c, d) p q h.
            let s = or_else-same (cmp_a a c) (cmp_b b d) h in
            cc (x.eq_of_same a c p.0 q.0 s.0, y.eq_of_same b d p.1 q.1 s.1);
        flip = λ (a, b) (c, d) p q.
            rw (x.flip a c p.0 q.0, y.flip b d p.1 q.1) (or_else-opposite (cmp_a a c) (cmp_b b d));
        trans = pair_trans;
      }

module _ {A : Type 0} (cmp : A → A → Precedence) where
  -- Element by element; where one list runs out, the shorter comes first.
  abbrev pub cmp_list : List A → List A → Precedence
  cmp_list [] [] = same
  cmp_list [] (b ∷ bs) = less
  cmp_list (a ∷ as') [] = more
  cmp_list (a ∷ as') (b ∷ bs) = or_else (cmp a b) (cmp_list as' bs)

  module _ (P : A → Type 0) (x : IsOrder P cmp) where
    list_self : (s : List A) → cmp_list s s ≡ same
    list_self [] = refl
    list_self (a ∷ s) = rw (x.same_self a) (list_self s)

    list-eq : (s t : List A) → All P s → All P t → cmp_list s t ≡ same → s ≡ t
    list-eq [] [] p q h = refl
    list-eq [] (b ∷ t) p q h = cc
    list-eq (a ∷ s) [] p q h = cc
    list-eq (a ∷ s) (b ∷ t) p q h =
        let e = or_else-same (cmp a b) (cmp_list s t) h in
        cc (x.eq_of_same a b p.0 q.0 e.0, list-eq s t p.1 q.1 e.1)

    list-flip : (s t : List A) → All P s → All P t → cmp_list t s ≡ opposite (cmp_list s t)
    list-flip [] [] p q = refl
    list-flip [] (b ∷ t) p q = refl
    list-flip (a ∷ s) [] p q = refl
    list-flip (a ∷ s) (b ∷ t) p q =
        rw (x.flip a b p.0 q.0, list-flip s t p.1 q.1) (or_else-opposite (cmp a b) (cmp_list s t))

    list_trans :
        (s t u : List A)
        → All P s
        → All P t
        → All P u
        → cmp_list s t ≡ less
        → cmp_list t u ≡ less
        → cmp_list s u ≡ less
    list_trans s [] [] p q r h k = cc
    list_trans [] t (c ∷ u) p q r h k = refl
    list_trans (a ∷ s) [] u p q r h k = cc
    list_trans [] (b ∷ t) [] p q r h k = cc
    list_trans (a ∷ s) (b ∷ t) [] p q r h k = cc
    list_trans (a ∷ s) (b ∷ t) (c ∷ u) p q r h k = elim (or_else-less (cmp a b) (cmp_list s t) h) [
      | inl l ↦ elim (or_else-less (cmp b c) (cmp_list t u) k) [
        | inl m ↦ rw (x.trans a b c p.0 q.0 r.0 l m) refl
        | inr m ↦ rw (subst (λ z. cmp a z ≡ less) (x.eq_of_same b c q.0 r.0 m.0) l) refl
      ]
      | inr l ↦ elim (or_else-less (cmp b c) (cmp_list t u) k) [
        | inl m ↦ rw (subst (λ z. cmp z c ≡ less) (sym (x.eq_of_same a b p.0 q.0 l.0)) m) refl
        | inr m ↦
            rw (subst (λ z. cmp z c ≡ same) (sym (x.eq_of_same a b p.0 q.0 l.0)) m.0)
              (list_trans s t u p.1 q.1 r.1 l.1 m.1)
      ]
    ]

    pub cmp_list-IsOrder : IsOrder (All P) cmp_list
    cmp_list-IsOrder = record {
      same_self = list_self;
      eq_of_same = list-eq;
      flip = list-flip;
      trans = list_trans;
    }
