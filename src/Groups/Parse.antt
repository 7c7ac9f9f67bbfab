-- ===== src/Groups/Parse.antt =====
-- internal/server/groups/parse.go: tokens to a tree, by recursive descent.
pub mod Safe
pub mod Conditions
pub mod Total
use retune.Base.{
  Bool, List, Option, Text, [], bytes, equal_fold, false, if◌then◌else◌, length, ltb, none, some,
  suc, text_eq, to_lower, to_upper, trim_space, true, zero, ℕ, ◌*◌, ◌+◌, ◌∷◌,
}
use retune.Groups.Ast.{
  FieldDef, FieldKind, Node, and, compare_number, compare_text, field_def, has_software,
  is_ordering, negation, number_field, or, sql_operator, string_field,
}
use retune.Groups.Lex.{
  Lexed, Message, ParseError, Tok, Token, comma, empty_rule, eof, expected_close,
  expected_close_software, expected_comparison, expected_condition, ident, lex, lex_failed,
  lex_out_of_fuel, lparen, needs_number, needs_package_name, needs_parens, needs_quoted_value,
  needs_version, not_version_operator, number, number_not_like, quote_version,
  quote_version_operator, rparen, str, text_not_ordered, tokens, too_deep, too_long, unexpected,
  unknown_field, unknown_operator, oper,
}

abbrev pub max_rule_length : ℕ
max_rule_length = 2000

abbrev pub max_rule_depth : ℕ
max_rule_depth = 20

-- `panicked` is an index out of the token list, and `out_of_fuel` has no counterpart in the source.
pub data Parsed {ℓ} (A : Type ℓ) : Type ℓ where
  ok : A → Parsed A
  failed : ParseError → Parsed A
  panicked out_of_fuel : Parsed A

abbrev pub bind {ℓ κ} : {A : Type ℓ} {B : Type κ} → Parsed A → (A → Parsed B) → Parsed B
bind (ok a) f = f a
bind (failed e) f = failed e
bind panicked f = panicked
bind out_of_fuel f = out_of_fuel

-- The parser's state is the list of tokens from its position on.
abbrev pub Parser {ℓ} : Type 0 → Type ℓ → Type ℓ
Parser F A = List (Token F) → Parsed (A × List (Token F))

is_blank : Text → Bool
is_blank [] = true
is_blank (_ ∷ _) = false

module _ {F : Type 0} where
  infixl 1 ◌>>=◌ ◌>>◌
  unfoldable pub ◌>>=◌ {ℓ κ} :
      {A : Type ℓ} {B : Type κ} → Parser F A → (A → Parser F B) → Parser F B
  ◌>>=◌ p f ts = bind (p ts) λ (a, rest). f a rest

  abbrev pub ◌>>◌ {ℓ κ} : {A : Type ℓ} {B : Type κ} → Parser F A → Parser F B → Parser F B
  p >> q = p >>= λ _. q

  abbrev pub pure {ℓ} : {A : Type ℓ} → A → Parser F A
  pure a ts = ok (a, ts)

  abbrev pub fail {ℓ} : {A : Type ℓ} → ℕ → Message → Parser F A
  fail offset m ts = failed (record { offset = offset; message = m })

  unfoldable pub peek : Parser F (Token F)
  peek [] = panicked
  peek (t ∷ ts) = ok (t, t ∷ ts)

  abbrev pub after : Tok F → Token F → List (Token F) → List (Token F)
  after eof t ts = t ∷ ts
  after _ t ts = ts

  -- The end of the rule is never passed.
  unfoldable pub next : Parser F (Token F)
  next [] = panicked
  next (t ∷ ts) = ok (t, after t.tok t ts)

  unfoldable pub is_keyword : Text → Tok F → Bool
  is_keyword word (ident name) = equal_fold name word
  is_keyword word _ = false

  abbrev pub keyword_is : Text → Parser F Bool
  keyword_is word = peek >>= λ t. pure (is_keyword word t.tok)

  is_lparen : Tok F → Bool
  is_lparen lparen = true
  is_lparen _ = false

  is_rparen : Tok F → Bool
  is_rparen rparen = true
  is_rparen _ = false

  is_comma : Tok F → Bool
  is_comma comma = true
  is_comma _ = false

  is_eof : Tok F → Bool
  is_eof eof = true
  is_eof _ = false

  -- Take a token that passes the test, or fail at its offset.
  pub expect : (Tok F → Bool) → Message → Parser F (Unit {0})
  expect p m = peek >>= λ t. if p t.tok then next >> pure tt else fail t.offset m

  known_operator : Text → ℕ → Option Text → Parser F (Text × ℕ)
  known_operator name offset none = fail offset (unknown_operator name)
  known_operator name offset (some sql) = pure (name, offset)

  operator_of : ℕ → Tok F → Parser F (Text × ℕ)
  unfolding known_operator
  operator_of offset (ident name) =
      if equal_fold name (bytes "LIKE")
      then next >> pure (bytes "LIKE", offset)
      else fail offset expected_comparison
  operator_of offset (oper name) = next >> known_operator name offset (sql_operator name)
  operator_of offset _ = fail offset expected_comparison

  -- parseOperator: the operator, and the offset of its token.
  pub parse_operator : Parser F (Text × ℕ)
  unfolding operator_of
  parse_operator = peek >>= λ t. operator_of t.offset t.tok

  text_literal : Text → Text → ℕ → Tok F → Parser F (Node F)
  text_literal name op offset (str s) = pure (compare_text name op s)
  text_literal name op offset _ = fail offset (needs_quoted_value name)

  number_literal : Text → Text → ℕ → Tok F → Parser F (Node F)
  number_literal name op offset (number s n) = pure (compare_number name op n)
  number_literal name op offset _ = fail offset (needs_number name)

  compare_field : Text → FieldKind → Text → ℕ → Parser F (Node F)
  unfolding text_literal number_literal
  compare_field name string_field op offset =
      if is_ordering op
      then fail offset (text_not_ordered name)
      else (next >>= λ lit. text_literal name op lit.offset lit.tok)
  compare_field name number_field op offset =
      if text_eq op (bytes "LIKE")
      then fail offset (number_not_like name)
      else (next >>= λ lit. number_literal name op lit.offset lit.tok)

  named_field : Text → Text → ℕ → Option FieldDef → Parser F (Node F)
  unfolding compare_field
  named_field text name offset none = fail offset (unknown_field text)
  named_field text name offset (some def) =
      parse_operator >>= λ (op, op_offset). compare_field name def.kind op op_offset

  ident_text : Tok F → Text
  ident_text (ident name) = name
  ident_text _ = []

  pub parse_comparison : Parser F (Node F)
  unfolding named_field ident_text
  parse_comparison = next >>= λ t.
      let name = to_lower (ident_text t.tok) in
      named_field (ident_text t.tok) name t.offset (field_def name)

  string_or : Message → ℕ → Tok F → Parser F Text
  string_or m offset (str s) = pure s
  string_or m offset _ = fail offset m

  -- A quoted text, or a failure at the token that stands there instead.
  pub expect_string : Message → Parser F Text
  unfolding string_or
  expect_string m = next >>= λ t. string_or m t.offset t.tok

  version_operator : Text → ℕ → Option Text → Parser F Text
  version_operator text offset none = fail offset (not_version_operator text)
  version_operator text offset (some sql) =
      if text_eq (to_upper text) (bytes "LIKE")
      then fail offset (not_version_operator text)
      else pure (to_upper text)

  -- The operator and version of has_software, if a comma announces them.
  pub parse_version : Parser F (Text × Text)
  unfolding version_operator expect expect_string
  parse_version = peek >>= λ t.
      if is_comma t.tok
      then (next
          >> (peek >>= λ o. expect_string quote_version_operator >>= λ text.
              version_operator text o.offset (sql_operator (to_upper text)) >>= λ op.
              expect is_comma needs_version
              >> (expect_string quote_version >>= λ version. pure (op, version))))
      else pure ([], [])

  pub parse_has_software : Parser F (Node F)
  unfolding expect expect_string parse_version
  parse_has_software =
      next
      >> expect is_lparen needs_parens
      >> (expect_string needs_package_name >>= λ name. parse_version >>= λ (op, version).
          expect is_rparen expected_close_software >> pure (has_software name op version))

  -- The condition that starts at an identifier, or none.
  pub condition : ℕ → Tok F → Parser F (Node F)
  condition offset (ident name) =
      if equal_fold name (bytes "has_software") then parse_has_software else parse_comparison
  condition offset _ = fail offset expected_condition

  -- Each call costs a unit of fuel.
  unfoldable mutual
    unfolding condition expect is_lparen is_rparen

    pub parse_or : ℕ → ℕ → Parser F (Node F)
    parse_or zero depth ts = out_of_fuel
    parse_or (suc f) depth ts =
        (if ltb max_rule_depth depth
            then (peek >>= λ t. fail t.offset too_deep)
            else (parse_and f depth >>= λ left. or_loop f depth left))
          ts

    pub or_loop : ℕ → ℕ → Node F → Parser F (Node F)
    or_loop zero depth left ts = out_of_fuel
    or_loop (suc f) depth left ts =
        (keyword_is (bytes "OR") >>= λ more.
        if more
        then (next >> (parse_and f depth >>= λ right. or_loop f depth (or left right)))
        else pure left)
          ts

    pub parse_and : ℕ → ℕ → Parser F (Node F)
    parse_and zero depth ts = out_of_fuel
    parse_and (suc f) depth ts = (parse_not f depth >>= λ left. and_loop f depth left) ts

    pub and_loop : ℕ → ℕ → Node F → Parser F (Node F)
    and_loop zero depth left ts = out_of_fuel
    and_loop (suc f) depth left ts =
        (keyword_is (bytes "AND") >>= λ more.
        if more
        then (next >> (parse_not f depth >>= λ right. and_loop f depth (and left right)))
        else pure left)
          ts

    pub parse_not : ℕ → ℕ → Parser F (Node F)
    parse_not zero depth ts = out_of_fuel
    parse_not (suc f) depth ts =
        (keyword_is (bytes "NOT") >>= λ negated.
        if negated
        then (next >> (parse_not f (depth + 1) >>= λ operand. pure (negation operand)))
        else parse_primary f depth)
          ts

    pub parse_primary : ℕ → ℕ → Parser F (Node F)
    parse_primary zero depth ts = out_of_fuel
    parse_primary (suc f) depth ts =
        (peek >>= λ t.
        if is_lparen t.tok
        then (next
            >> (parse_or f (depth + 1) >>= λ inner. expect is_rparen expected_close >> pure inner))
        else condition t.offset t.tok)
          ts

  finish : Node F × List (Token F) → Parsed (Node F)
  unfolding is_eof
  finish (n, []) = panicked
  finish (n, t ∷ ts) =
      if is_eof t.tok then ok n else failed (record { offset = t.offset; message = unexpected })

  -- Four calls for each token, and five more.
  pub parse_tokens : List (Token F) → Parsed (Node F)
  unfolding finish
  parse_tokens ts = bind (parse_or (4 * length ts + 5) 0 ts) finish

  of_lexed : Lexed F → Parsed (Node F)
  unfolding parse_tokens
  of_lexed (tokens ts) = parse_tokens ts
  of_lexed (lex_failed e) = failed e
  of_lexed lex_out_of_fuel = out_of_fuel

  pub parse : (Text → Option F) → Text → Parsed (Node F)
  unfolding of_lexed is_blank
  parse parse_float rule =
      if ltb max_rule_length (length rule)
      then failed (record { offset = max_rule_length; message = too_long })
      else if is_blank (trim_space rule)
      then failed (record { offset = 0; message = empty_rule })
      else of_lexed (lex parse_float rule)
