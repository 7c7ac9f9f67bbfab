-- ===== src/Groups/Lex/Progress.antt =====
-- The lexer ends: every round takes at least a byte, and what it returns ends in the token of the end.
use retune.Base.{
  Bool, Bool-cases, Option, Option-cases, Text, [], arith, inl, inr, length, none, not, some, suc,
  true, ℕ, ◌&&◌, ◌++◌, ◌==◌, ◌∷◌, ◌≡◌, ◌≤◌, List, false, if◌then◌else◌, refl, zero, ◌-◌, ◌<◌,
}
use retune.Groups.Lex.{
  Round, digits_round, lex_number, lex_operator, lex_string, number_round, prepend, reject, skip,
  span, string_round, take, Lexed, Token, emit, eof, ident_round, is_ident_part, is_ident_start,
  is_number_part, lex, lex_failed, lex_loop, lex_out_of_fuel, round, tokens, comma, lparen, rparen,
  Message, Tok,
}

span-le : (p : ℕ → Bool) (s : Text) → length (span p s).1 ≤ length s
unfolding span
span-le p [] = omega arith
span-le p (c ∷ s) = ground (arith, span-le p s)

span_taken : (p : ℕ → Bool) (c : ℕ) (s : Text) → p c ≡ true → length (span p (c ∷ s)).1 ≤ length s
unfolding span
span_taken p c s h = ground (arith, span-le p s)

abbrev Within : ℕ → Option (Text × Text) → Type 0
Within n none = Unit
Within n (some (s, rest)) = length rest ≤ n

prepend-Within : (n c : ℕ) (o : Option (Text × Text)) → Within n o → Within n (prepend c o)
unfolding prepend
prepend-Within n c none h = tt
prepend-Within n c (some (s, rest)) h = h

Within-suc : (n : ℕ) (o : Option (Text × Text)) → Within n o → Within (suc n) o
Within-suc n none h = tt
Within-suc n (some (s, rest)) h = omega arith

lex_string-Within : (s : Text) → Within (length s) (lex_string s)
unfolding lex_string
lex_string-Within [] = tt
lex_string-Within (c ∷ []) = elim (Bool-cases (c == 39)) [
  | inl e ↦ rw e (omega arith)
  | inr e ↦ rw e (tt)
]
lex_string-Within (c ∷ d ∷ rest) = elim (Bool-cases (c == 39)) [
  | inl e ↦ elim (Bool-cases (d == 39)) [
    | inl e' ↦
        rw (e, e')
          (prepend-Within _ 39 _ (Within-suc _ _ (Within-suc _ _ (lex_string-Within rest))))
    | inr e' ↦ rw (e, e') (omega arith)
  ]
  | inr e ↦ rw e (prepend-Within _ c _ (Within-suc _ _ (lex_string-Within (d ∷ rest))))
]

module _ {F : Type 0} where
  -- What a round leaves is at most `n` bytes.
  unfoldable pub Leaves : ℕ → Round F → Type 0
  Leaves n (skip rest) = length rest ≤ n
  Leaves n (take t rest) = length rest ≤ n
  Leaves n (reject m) = Unit

nothing : (F : Type 0) (n : ℕ) (m : Message) → Leaves {F = F} n (reject m)
unfolding Leaves
nothing F n m = tt

skipped : (F : Type 0) (s : Text) → Leaves {F = F} (length s) (skip s)
unfolding Leaves
skipped F s = omega arith

string_round-Leaves :
    (F : Type 0) (n : ℕ) (o : Option (Text × Text)) → Within n o → Leaves n (string_round {F = F} o)
unfolding string_round Leaves
string_round-Leaves F n none h = tt
string_round-Leaves F n (some (s, rest)) h = h

lex_operator-Leaves :
    (F : Type 0) (c : ℕ) (rest : Text) → Leaves (length rest) (lex_operator {F = F} c rest)
unfolding lex_operator Leaves
lex_operator-Leaves F c [] = elim (Bool-cases (c == b'!')) [
  | inl e ↦ rw e (tt)
  | inr e ↦ rw e (omega arith)
]
lex_operator-Leaves F c (d ∷ rest) = elim (Bool-cases ((d == b'=') && not (c == b'='))) [
  | inl e ↦ rw e (omega arith)
  | inr e ↦ elim (Bool-cases (c == b'!')) [
    | inl e' ↦ rw (e, e') (tt)
    | inr e' ↦ rw (e, e') (omega arith)
  ]
]

ident_taken :
    (F : Type 0) (c : ℕ) (rest : Text)
    → is_ident_start c ≡ true
    → Leaves {F = F} (length rest) (ident_round (span is_ident_part (c ∷ rest)))
unfolding ident_round Leaves
ident_taken F c rest h = span_taken is_ident_part c rest (unfold is_ident_part in rw h)

module _ {F : Type 0} where
  digits_round-Leaves :
      (pf : Text → Option F) (sign ds rest : Text) (n : ℕ)
      → length rest ≤ n
      → Leaves n (digits_round pf sign (ds, rest))
  unfolding digits_round number_round Leaves
  digits_round-Leaves pf sign [] rest n h = tt
  digits_round-Leaves pf sign (d ∷ ds) rest n h = elim (Option-cases (pf (sign ++ d ∷ ds))) [
    | inl e ↦ rw e (tt)
    | inr (x, e) ↦ rw e h
  ]

  span_round-Leaves :
      (pf : Text → Option F) (p : ℕ → Bool) (c : ℕ) (rest : Text)
      → Leaves (length rest) (digits_round pf [] (span p (c ∷ rest)))
  unfolding digits_round span Leaves
  span_round-Leaves pf p c rest = elim (Bool-cases (p c)) [
    | inl e ↦
        rw e (digits_round-Leaves pf [] (c ∷ (span p rest).0) (span p rest).1 _ (span-le p rest))
    | inr e ↦ rw e (tt)
  ]

  lex_number-Leaves :
      (pf : Text → Option F) (c : ℕ) (rest : Text) → Leaves (length rest) (lex_number pf c rest)
  unfolding lex_number
  lex_number-Leaves pf c rest = elim (Bool-cases (c == b'-')) [
    | inl e ↦ rw e (
        digits_round-Leaves pf (b'-' ∷ []) (span is_number_part rest).0 (span is_number_part rest).1
          _ (span-le is_number_part rest))
    | inr e ↦ rw e (span_round-Leaves pf is_number_part c rest)
  ]

  Leaves-if :
      (b : Bool) (n : ℕ) (x y : Round F)
      → (b ≡ true → Leaves n x)
      → Leaves n y
      → Leaves n (if b then x else y)
  Leaves-if true n x y h k = h refl
  Leaves-if false n x y h k = k

  at_most : (t : Tok F) (s : Text) → Leaves (length s) (take t s)
  unfolding Leaves
  at_most t s = omega arith

  -- A round at a byte leaves no more than what stands behind it.
  pub round-Leaves :
      (pf : Text → Option F) (c : ℕ) (rest : Text) → Leaves (length rest) (round pf c rest)
  unfolding round
  round-Leaves pf c rest =
      Leaves-if _ _ _ _ (λ e. skipped F rest)
        (Leaves-if _ _ _ _ (λ e. at_most lparen rest)
          (Leaves-if _ _ _ _ (λ e. at_most rparen rest)
            (Leaves-if _ _ _ _ (λ e. at_most comma rest)
              (Leaves-if _ _ _ _ (λ e. string_round-Leaves F _ _ (lex_string-Within rest))
                (Leaves-if _ _ _ _ (λ e. lex_operator-Leaves F c rest)
                  (Leaves-if _ _ _ _ (λ e. lex_number-Leaves pf c rest)
                    (Leaves-if _ _ _ _ (λ e. ident_taken F c rest e) (nothing F _ _))))))))

  -- The last token, and no other need be, is the end of the rule.
  abbrev pub EndsInEof : List (Token F) → Type 0
  EndsInEof [] = ⊥
  EndsInEof (t ∷ []) = t.tok ≡ eof
  EndsInEof (t ∷ u ∷ ts) = EndsInEof (u ∷ ts)

  abbrev pub LexedWell : Lexed F → Type 0
  LexedWell (tokens ts) = EndsInEof ts
  LexedWell (lex_failed e) = Unit
  LexedWell lex_out_of_fuel = ⊥

  emit-LexedWell : (t : Token F) (r : Lexed F) → LexedWell r → LexedWell (emit t r)
  unfolding emit
  emit-LexedWell t (tokens []) h = absurd h
  emit-LexedWell t (tokens (u ∷ ts)) h = h
  emit-LexedWell t (lex_failed e) h = tt
  emit-LexedWell t lex_out_of_fuel h = absurd h

  lex_loop-LexedWell :
      (pf : Text → Option F) (total f : ℕ) (text : Text)
      → length text < f
      → LexedWell (lex_loop pf total f text)
  unfolding lex_loop Leaves
  lex_loop-LexedWell pf total zero text h = absurd (omega arith)
  lex_loop-LexedWell pf total (suc f) [] h = refl
  lex_loop-LexedWell pf total (suc f) (c ∷ rest) h =
      go (round pf c rest) (round-Leaves pf c rest) (lex_loop-LexedWell pf total f)
    where
      go :
          (r : Round F)
          → Leaves (length rest) r
          → ((text : Text) → length text < f → LexedWell (lex_loop pf total f text))
          → LexedWell (elim r [
            | skip rest' ↦ lex_loop pf total f rest'
            | take t rest' ↦
                emit
                  (record { tok = t; offset = total - length (c ∷ rest) })
                  (lex_loop pf total f rest')
            | reject m ↦ lex_failed (record { offset = total - length (c ∷ rest); message = m })
          ])
      go (skip rest') l ih = ih rest' (omega arith)
      go (take t rest') l ih = emit-LexedWell _ _ (ih rest' (omega arith))
      go (reject m) l ih = tt

  -- Lexing ends within its fuel, and fails or returns tokens of which the last is the end.
  pub lex-LexedWell : (pf : Text → Option F) (rule : Text) → LexedWell (lex pf rule)
  unfolding lex
  lex-LexedWell pf rule = lex_loop-LexedWell pf (length rule) (suc (length rule)) rule (omega arith)
