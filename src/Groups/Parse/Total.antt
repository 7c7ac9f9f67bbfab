-- ===== src/Groups/Parse/Total.antt =====
-- The parser ends within its fuel, and what it returns compiles.
use retune.Base.{
  Option, Text, [], bytes, inl, inr, refl, ℕ, ◌∷◌, Bool-cases, List, arith, length, ltb, suc,
  trim_space, zero, ◌*◌, ◌+◌, ◌≤◌,
}
use retune.Groups.Ast.{Node, and, negation, or}
use retune.Groups.Lex.{Token, Lexed, expected_close, lex_failed, lex_out_of_fuel, tokens, too_deep}
use retune.Groups.Parse.{
  expect, peek, condition, fail, is_lparen, is_rparen, pure, ◌>>=◌, ◌>>◌, Parsed, and_loop, bind,
  failed, finish, is_blank, is_eof, max_rule_depth, max_rule_length, of_lexed, ok, or_loop,
  out_of_fuel, panicked, parse, parse_and, parse_not, parse_or, parse_primary, parse_tokens,
}
use retune.Groups.Parse.Safe.{
  Safe, Safe-bind, Safe-fail, Safe-if, Safe-peek, Safe-pure, Safe-peek_if, Good, Safe-keyword_if,
}
use retune.Groups.Compile.Total.{
  Compiles, IsSome, and-Compiles, compile-IsSome, negation-Compiles, or-Compiles,
}
use retune.Groups.Compile.{compile}
use retune.Groups.Lex.Progress.{LexedWell, lex-LexedWell}
use retune.Groups.Parse.Conditions.{condition-Safe, expect-Safe}

-- Each routine with enough fuel for `n` tokens.
record AllSafe (F : Type 0) (f : ℕ) : Type 0 where
  or_safe : (n depth : ℕ) → 4 * n + 4 ≤ f → Safe {F = F} n (Compiles {F = F}) (parse_or f depth)
  and_safe : (n depth : ℕ) → 4 * n + 3 ≤ f → Safe {F = F} n (Compiles {F = F}) (parse_and f depth)
  not_safe : (n depth : ℕ) → 4 * n + 2 ≤ f → Safe {F = F} n (Compiles {F = F}) (parse_not f depth)
  primary_safe :
      (n depth : ℕ) → 4 * n + 1 ≤ f → Safe {F = F} n (Compiles {F = F}) (parse_primary f depth)
  or_loop_safe :
      (n depth : ℕ) (left : Node F)
      → 4 * n + 1 ≤ f
      → Compiles left
      → Safe {F = F} n (Compiles {F = F}) (or_loop f depth left)
  and_loop_safe :
      (n depth : ℕ) (left : Node F)
      → 4 * n + 1 ≤ f
      → Compiles left
      → Safe {F = F} n (Compiles {F = F}) (and_loop f depth left)

module _ {F : Type 0} where
  module _ (f : ℕ) (all : AllSafe F f) (n depth : ℕ) where
    or-step : 4 * n + 4 ≤ suc f → Safe {F = F} n Compiles (parse_or (suc f) depth)
    unfolding parse_or
    or-step h = record {
      run =
          (Safe-if (ltb max_rule_depth depth) (peek >>= λ t. fail t.offset too_deep)
            (parse_and f depth >>= λ left. or_loop f depth left)
            (λ _. Safe-bind _ peek _ (Safe-peek n) λ t _. Safe-fail _ _)
            (λ _.
              Safe-bind _ (parse_and f depth) _ (all.and_safe n depth (omega (arith, h)))
                λ left k. all.or_loop_safe n depth left (omega (arith, h)) k)).run;
    }

    and-step : 4 * n + 3 ≤ suc f → Safe {F = F} n Compiles (parse_and (suc f) depth)
    unfolding parse_and
    and-step h = record {
      run =
          (Safe-bind _ (parse_not f depth) (and_loop f depth)
            (all.not_safe n depth (omega (arith, h)))
            λ left k. all.and_loop_safe n depth left (omega (arith, h)) k).run;
    }

    or_loop-step :
        (left : Node F)
        → 4 * n + 1 ≤ suc f
        → Compiles left
        → Safe n Compiles (or_loop (suc f) depth left)
    unfolding or_loop
    or_loop-step left h k = record {
      run =
          (Safe-keyword_if (bytes "OR")
            (parse_and f depth >>= λ right. or_loop f depth (or left right)) (pure left)
            (λ m l.
              Safe-bind _ (parse_and f depth) _ (all.and_safe m depth (omega (arith, h, l)))
                λ right r.
                  all.or_loop_safe m depth (or left right) (omega (arith, h, l))
                    (or-Compiles left right k r))
            (Safe-pure left k)).run;
    }

    and_loop-step :
        (left : Node F)
        → 4 * n + 1 ≤ suc f
        → Compiles left
        → Safe n Compiles (and_loop (suc f) depth left)
    unfolding and_loop
    and_loop-step left h k = record {
      run =
          (Safe-keyword_if (bytes "AND")
            (parse_not f depth >>= λ right. and_loop f depth (and left right)) (pure left)
            (λ m l.
              Safe-bind _ (parse_not f depth) _ (all.not_safe m depth (omega (arith, h, l)))
                λ right r.
                  all.and_loop_safe m depth (and left right) (omega (arith, h, l))
                    (and-Compiles left right k r))
            (Safe-pure left k)).run;
    }

    not-step : 4 * n + 2 ≤ suc f → Safe {F = F} n Compiles (parse_not (suc f) depth)
    unfolding parse_not
    not-step h = record {
      run =
          (Safe-keyword_if (bytes "NOT")
            (parse_not f (depth + 1) >>= λ operand. pure (negation operand)) (parse_primary f depth)
            (λ m l.
              Safe-bind _ (parse_not f (depth + 1)) _
                (all.not_safe m (depth + 1) (omega (arith, h, l)))
                λ operand r. Safe-pure (negation operand) (negation-Compiles operand r))
            (all.primary_safe n depth (omega (arith, h)))).run;
    }

    primary-step : 4 * n + 1 ≤ suc f → Safe {F = F} n Compiles (parse_primary (suc f) depth)
    unfolding parse_primary
    primary-step h = record {
      run =
          (Safe-peek_if is_lparen
            (parse_or f (depth + 1) >>= λ inner. expect is_rparen expected_close >> pure inner)
            (λ t. condition t.offset t.tok) (unfold is_lparen in refl)
            (λ m l.
              Safe-bind _ (parse_or f (depth + 1)) _
                (all.or_safe m (depth + 1) (omega (arith, h, l)))
                λ inner r.
                  Safe-bind _ (expect is_rparen expected_close) _
                    (expect-Safe m is_rparen expected_close) λ _ _. Safe-pure inner r)
            (λ t. condition-Safe n t.offset t.tok)).run;
    }

  all_safe : (f : ℕ) → AllSafe F f
  all_safe zero = record {
    or_safe = λ n depth h. absurd (omega (arith, h));
    and_safe = λ n depth h. absurd (omega (arith, h));
    not_safe = λ n depth h. absurd (omega (arith, h));
    primary_safe = λ n depth h. absurd (omega (arith, h));
    or_loop_safe = λ n depth left h k. absurd (omega (arith, h));
    and_loop_safe = λ n depth left h k. absurd (omega (arith, h));
  }
  all_safe (suc f) = record {
    or_safe = or-step f (all_safe f);
    and_safe = and-step f (all_safe f);
    not_safe = not-step f (all_safe f);
    primary_safe = primary-step f (all_safe f);
    or_loop_safe = or_loop-step f (all_safe f);
    and_loop_safe = and_loop-step f (all_safe f);
  }

  -- A parse ends in a tree that compiles, or in an error for the author of the rule.
  abbrev pub ParsedWell : Parsed (Node F) → Type 0
  ParsedWell (ok n) = IsSome (compile n)
  ParsedWell (failed e) = Unit
  ParsedWell panicked = ⊥
  ParsedWell out_of_fuel = ⊥

  finish-ParsedWell :
      (n : ℕ) (r : Parsed (Node F × List (Token F)))
      → Good n Compiles r
      → ParsedWell (bind r finish)
  unfolding finish
  finish-ParsedWell n (ok (a, [])) h = absurd h.1.0
  finish-ParsedWell n (ok (a, t ∷ ts)) h = elim (Bool-cases (is_eof t.tok)) [
    | inl e ↦ rw e (compile-IsSome a h.0)
    | inr e ↦ rw e tt
  ]
  finish-ParsedWell n (failed e) h = tt
  finish-ParsedWell n panicked h = absurd h
  finish-ParsedWell n out_of_fuel h = absurd h

  of_lexed-ParsedWell : (r : Lexed F) → LexedWell r → ParsedWell (of_lexed r)
  unfolding of_lexed parse_tokens
  of_lexed-ParsedWell (tokens ts) h =
      finish-ParsedWell (length ts) _ (
        ((all_safe (4 * length ts + 5)).or_safe (length ts) 0 (omega arith)).run ts h (omega arith))
  of_lexed-ParsedWell (lex_failed e) h = tt
  of_lexed-ParsedWell lex_out_of_fuel h = absurd h

  -- Whatever the rule's bytes and the number parser, parsing ends within its fuel and never indexes
  -- past the tokens, and a tree that it returns is one that compiles.
  pub parse-compile :
      (parse_float : Text → Option F) (rule : Text) → ParsedWell (parse parse_float rule)
  unfolding parse
  parse-compile pf rule = elim (Bool-cases (ltb max_rule_length (length rule))) [
    | inl e ↦ rw e tt
    | inr e ↦ elim (Bool-cases (is_blank (trim_space rule))) [
      | inl e' ↦ rw (e, e') tt
      | inr e' ↦ rw (e, e') (of_lexed-ParsedWell _ (lex-LexedWell pf rule))
    ]
  ]
