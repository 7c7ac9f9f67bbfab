-- ===== src/Groups/Parse/Safe.antt =====
-- Rules for the parser: a safe one does not index past the tokens, does not run out of fuel, leaves no
-- more tokens than it found, and keeps the end last.
use retune.Base.{
  Bool, List, [], ap, arith, false, if◌then◌else◌, length, refl, suc, true, ℕ, ◌∷◌, ◌≡◌, ◌≤◌, Text,
}
use retune.Groups.Lex.{Message, Tok, Token, eof}
use retune.Groups.Lex.Progress.{EndsInEof}
use retune.Groups.Parse.{
  Parsed, Parser, after, bind, fail, failed, next, ok, out_of_fuel, panicked, peek, pure, ◌>>=◌,
  ◌>>◌, is_keyword, keyword_is,
}

module _ {F : Type 0} where
  abbrev pub Good : {A : Type 0} → ℕ → (A → Type 0) → Parsed (A × List (Token F)) → Type 0
  Good n R (ok (a, rest)) = R a × (EndsInEof rest × (length rest ≤ n))
  Good n R (failed e) = Unit
  Good n R panicked = ⊥
  Good n R out_of_fuel = ⊥

  -- On at most `n` tokens of which the last is the end, the parser fails, or its result has `R`.
  pub record Safe {A : Type 0} (n : ℕ) (R : A → Type 0) (p : Parser F A) : Type 0 where
    pub run : (ts : List (Token F)) → EndsInEof ts → length ts ≤ n → Good n R (p ts)

  after-EndsInEof :
      (k : Tok F) (t : Token F) (ts : List (Token F))
      → t.tok ≡ k
      → EndsInEof (t ∷ ts)
      → EndsInEof (after k t ts) × (length (after k t ts) ≤ suc (length ts))
  after-EndsInEof eof t ts e h = (h, omega arith)
  after-EndsInEof k t [] e h = absurd (cc (e, h))
  after-EndsInEof k t (u ∷ ts) e h = (h, omega arith)

  module _ {A B : Type 0} {n : ℕ} {R : A → Type 0} {Q : B → Type 0} where
    bound :
        (r : Parsed (A × List (Token F))) (f : A → Parser F B)
        → Good n R r
        → ((a : A) → R a → Safe n Q (f a))
        → Good n Q (bind r λ (a, rest). f a rest)
    bound (ok (a, rest)) f h k = (k a h.0).run rest h.1.0 h.1.1
    bound (failed e) f h k = tt
    bound panicked f h k = absurd h
    bound out_of_fuel f h k = absurd h

  module _ {A B : Type 0} {n : ℕ} {Q : B → Type 0} where
    pub Safe-bind :
        (R : A → Type 0) (p : Parser F A) (f : A → Parser F B)
        → Safe n R p
        → ((a : A) → R a → Safe n Q (f a))
        → Safe n Q (p >>= f)
    unfolding ◌>>=◌
    Safe-bind R p f h k = record { run = λ ts e l. bound (p ts) f (h.run ts e l) k }

  module _ {A : Type 0} {n : ℕ} {R : A → Type 0} where
    pub Safe-pure : (a : A) → R a → Safe n R (pure a)
    Safe-pure a r = record { run = λ ts e l. (r, (e, l)) }

    pub Safe-fail : (offset : ℕ) (m : Message) → Safe {A = A} n R (fail offset m)
    Safe-fail offset m = record { run = λ ts e l. tt }

    pub Safe-if :
        (b : Bool) (p q : Parser F A)
        → (b ≡ true → Safe n R p)
        → (b ≡ false → Safe n R q)
        → Safe n R (if b then p else q)
    Safe-if true p q h k = h refl
    Safe-if false p q h k = k refl

  peek-Good :
      (n : ℕ) (ts : List (Token F)) → EndsInEof ts → length ts ≤ n → Good n (λ _. Unit) (peek ts)
  unfolding peek
  peek-Good n [] e l = absurd e
  peek-Good n (t ∷ ts) e l = (tt, (e, l))

  next-Good :
      (n : ℕ) (ts : List (Token F)) → EndsInEof ts → length ts ≤ n → Good n (λ _. Unit) (next ts)
  unfolding next
  next-Good n [] e l = absurd e
  next-Good n (t ∷ ts) e l =
      let a = after-EndsInEof t.tok t ts refl e in (tt, (a.0, omega (arith, a.1, l)))

  pub Safe-peek : (n : ℕ) → Safe n (λ _. Unit) peek
  Safe-peek n = record { run = peek-Good n }

  pub Safe-next : (n : ℕ) → Safe n (λ _. Unit) next
  Safe-next n = record { run = next-Good n }

  weaken :
      {A : Type 0} (R : A → Type 0) (m n : ℕ) (r : Parsed (A × List (Token F)))
      → m ≤ n
      → Good m R r
      → Good n R r
  weaken R m n (ok (a, rest)) l h = (h.0, (h.1.0, omega (arith, h.1.1, l)))
  weaken R m n (failed e) l h = tt
  weaken R m n panicked l h = absurd h
  weaken R m n out_of_fuel l h = absurd h

  -- A test that the end of the rule does not pass.
  abbrev pub Consumes : (Tok F → Bool) → Type 0
  Consumes p = p eof ≡ false

  consumed :
      (p : Tok F → Bool)
      → Consumes p
      → (k : Tok F) (t : Token F) (ts : List (Token F)) → p k ≡ true
      → after k t ts ≡ ts
  consumed p c eof t ts h = absurd (cc (c, h))
  consumed p c k t ts h = refl

  module _ {A : Type 0} {n : ℕ} {R : A → Type 0} where
    passed :
        (p : Tok F → Bool)
        → Consumes p
        → (t : Token F) (ts : List (Token F)) (q : Parser F A) → p t.tok ≡ true
        → EndsInEof (t ∷ ts)
        → suc (length ts) ≤ n
        → ((m : ℕ) → suc m ≤ n → Safe m R q)
        → Good n R ((next >> q) (t ∷ ts))
    unfolding ◌>>=◌ next
    passed p c t ts q h e l k =
        let a = after-EndsInEof t.tok t ts refl e in
        let same = consumed p c t.tok t ts h in
        weaken R (length ts) n _ (omega (arith, l))
          ((k (length ts) l).run (after t.tok t ts) a.0 (omega (arith, ap length same)))

    taken_or :
        (p : Tok F → Bool)
        → Consumes p
        → (t : Token F) (ts : List (Token F)) (q r : Parser F A) (b : Bool) → p t.tok ≡ b
        → EndsInEof (t ∷ ts)
        → suc (length ts) ≤ n
        → ((m : ℕ) → suc m ≤ n → Safe m R q)
        → Safe n R r
        → Good n R ((if b then next >> q else r) (t ∷ ts))
    taken_or p c t ts q r true h e l k u = passed p c t ts q h e l k
    taken_or p c t ts q r false h e l k u = u.run (t ∷ ts) e l

    peek_if-Good :
        (p : Tok F → Bool) (q : Parser F A) (r : Token F → Parser F A)
        → Consumes p
        → ((m : ℕ) → suc m ≤ n → Safe m R q)
        → ((t : Token F) → Safe n R (r t))
        → (ts : List (Token F)) → EndsInEof ts
        → length ts ≤ n
        → Good n R ((peek >>= λ t. if p t.tok then next >> q else r t) ts)
    unfolding ◌>>=◌ peek
    peek_if-Good p q r c h k [] e l = absurd e
    peek_if-Good p q r c h k (t ∷ ts) e l = taken_or p c t ts q (r t) (p t.tok) refl e l h (k t)

    -- A branch on the token that stands next, which is taken in the first.
    pub Safe-peek_if :
        (p : Tok F → Bool) (q : Parser F A) (r : Token F → Parser F A)
        → Consumes p
        → ((m : ℕ) → suc m ≤ n → Safe m R q)
        → ((t : Token F) → Safe n R (r t))
        → Safe n R (peek >>= λ t. if p t.tok then next >> q else r t)
    Safe-peek_if p q r c h k = record { run = peek_if-Good p q r c h k }

    keyword_if-Good :
        (word : Text) (q r : Parser F A)
        → ((m : ℕ) → suc m ≤ n → Safe m R q)
        → Safe n R r
        → (ts : List (Token F)) → EndsInEof ts
        → length ts ≤ n
        → Good n R ((keyword_is word >>= λ more. if more then next >> q else r) ts)
    unfolding ◌>>=◌ peek is_keyword
    keyword_if-Good word q r h k [] e l = absurd e
    keyword_if-Good word q r h k (t ∷ ts) e l =
        taken_or (is_keyword word) refl t ts q r (is_keyword word t.tok) refl e l h k

    -- The same for a keyword.
    pub Safe-keyword_if :
        (word : Text) (q r : Parser F A)
        → ((m : ℕ) → suc m ≤ n → Safe m R q)
        → Safe n R r
        → Safe n R (keyword_is word >>= λ more. if more then next >> q else r)
    Safe-keyword_if word q r h k = record { run = keyword_if-Good word q r h k }
