-- ===== src/Groups/Parse/Conditions.antt =====
-- The parser's comparisons and has_software are safe, and what they return compiles.
use retune.Base.{
  Bool, Option, Text, [], bytes, inl, inr, none, refl, some, ℕ, ◌≡◌, ◌⊎◌, equal_fold, text_eq,
  to_upper,
}
use retune.Groups.Ast.{
  FieldDef, FieldKind, field_def, number_field, sql_operator, string_field, is_ordering,
}
use retune.Groups.Lex.{
  Message, Tok, ident, number, oper, str, expected_close_software, expected_comparison,
  needs_package_name, needs_parens, not_version_operator, number_not_like, text_not_ordered,
  needs_version, quote_version, quote_version_operator,
}
use retune.Groups.Parse.{
  compare_field, expect, expect_string, known_operator, named_field, next, number_literal,
  operator_of, parse_comparison, parse_operator, peek, string_or, text_literal, condition, fail,
  is_comma, is_lparen, is_rparen, parse_has_software, parse_version, pure, version_operator, ◌>>=◌,
  ◌>>◌,
}
use retune.Groups.Parse.Safe.{
  Safe, Safe-bind, Safe-fail, Safe-if, Safe-next, Safe-peek, Safe-pure, Safe-peek_if,
}
use retune.Groups.Compile.Total.{Compiles, KnownOperator, compare-IsSome, software-Compiles}
use retune.Groups.Compile.{compile_node, number_arg, text_arg}

abbrev OfOperator : Text × ℕ → Type 0
OfOperator (o, offset) = KnownOperator o

abbrev OfVersion : Text × Text → Type 0
OfVersion (o, version) = (o ≡ []) ⊎ KnownOperator o

module _ {F : Type 0} where
  module _ (n : ℕ) where
    pub expect-Safe : (p : Tok F → Bool) (m : Message) → Safe n (λ _. Unit) (expect p m)
    unfolding expect
    expect-Safe p m = Safe-bind _ peek _ (Safe-peek n) λ t u.
        Safe-if (p t.tok) (next >> pure tt) (fail t.offset m)
          (λ e. Safe-bind _ next _ (Safe-next n) λ _ _. Safe-pure tt tt) (λ e. Safe-fail _ _)

    string_or-Safe :
        (m : Message) (offset : ℕ) (k : Tok F) → Safe n (λ _. Unit) (string_or m offset k)
    unfolding string_or
    string_or-Safe m offset (str s) = Safe-pure s tt
    string_or-Safe m offset k = Safe-fail _ _

    expect_string-Safe : (m : Message) → Safe n (λ _. Unit) (expect_string {F = F} m)
    unfolding expect_string
    expect_string-Safe m = Safe-bind _ next _ (Safe-next n) λ t u. string_or-Safe m t.offset t.tok

    known_operator-Safe :
        (name : Text) (offset : ℕ) (o : Option Text)
        → sql_operator name ≡ o
        → Safe n OfOperator (known_operator {F = F} name offset o)
    unfolding known_operator
    known_operator-Safe name offset none e = Safe-fail _ _
    known_operator-Safe name offset (some s) e = Safe-pure _ (s, e)

    operator_of-Safe : (offset : ℕ) (k : Tok F) → Safe n OfOperator (operator_of offset k)
    unfolding operator_of sql_operator
    operator_of-Safe offset (ident name) =
        Safe-if (equal_fold name (bytes "LIKE")) (next >> pure (bytes "LIKE", offset))
          (fail offset expected_comparison)
          (λ e. Safe-bind _ next _ (Safe-next n) λ _ _. Safe-pure _ (bytes "LIKE", refl))
          (λ e. Safe-fail _ _)
    operator_of-Safe offset (oper name) =
        Safe-bind _ next _ (Safe-next n) λ _ _. known_operator-Safe name offset _ refl
    operator_of-Safe offset k = Safe-fail _ _

    parse_operator-Safe : Safe n OfOperator (parse_operator {F = F})
    unfolding parse_operator
    parse_operator-Safe = Safe-bind _ peek _ (Safe-peek n) λ t u. operator_of-Safe t.offset t.tok

    module _ (name : Text) (def : FieldDef) (h : field_def name ≡ some def) where
      text_literal-Safe :
          (o : Text)
          → KnownOperator o
          → (offset : ℕ) (k : Tok F) → Safe n Compiles (text_literal name o offset k)
      unfolding text_literal compile_node
      text_literal-Safe o known offset (str s) =
          Safe-pure _ λ c. compare-IsSome name o def h known (text_arg s) c
      text_literal-Safe o known offset k = Safe-fail _ _

      number_literal-Safe :
          (o : Text)
          → KnownOperator o
          → (offset : ℕ) (k : Tok F) → Safe n Compiles (number_literal name o offset k)
      unfolding number_literal compile_node
      number_literal-Safe o known offset (number s x) =
          Safe-pure _ λ c. compare-IsSome name o def h known (number_arg x) c
      number_literal-Safe o known offset k = Safe-fail _ _

      compare_field-Safe :
          (kind : FieldKind) (o : Text)
          → KnownOperator o
          → (offset : ℕ) → Safe n Compiles (compare_field {F = F} name kind o offset)
      unfolding compare_field
      compare_field-Safe string_field o known offset =
          Safe-if (is_ordering o) (fail offset (text_not_ordered name))
            (next >>= λ lit. text_literal name o lit.offset lit.tok) (λ e. Safe-fail _ _)
            (λ e. Safe-bind _ next _ (Safe-next n) λ t u. text_literal-Safe o known t.offset t.tok)
      compare_field-Safe number_field o known offset =
          Safe-if (text_eq o (bytes "LIKE")) (fail offset (number_not_like name))
            (next >>= λ lit. number_literal name o lit.offset lit.tok) (λ e. Safe-fail _ _)
            (λ e.
              Safe-bind _ next _ (Safe-next n) λ t u. number_literal-Safe o known t.offset t.tok)

    named_field-Safe :
        (text name : Text) (offset : ℕ) (o : Option FieldDef)
        → field_def name ≡ o
        → Safe n Compiles (named_field {F = F} text name offset o)
    unfolding named_field
    named_field-Safe text name offset none e = Safe-fail _ _
    named_field-Safe text name offset (some def) e =
        Safe-bind _ parse_operator _ parse_operator-Safe
          λ o known. compare_field-Safe name def e def.kind o.0 known o.1

    parse_comparison-Safe : Safe n Compiles (parse_comparison {F = F})
    unfolding parse_comparison
    parse_comparison-Safe =
        Safe-bind _ next _ (Safe-next n) λ t u. named_field-Safe _ _ t.offset _ refl

    version_operator-Safe :
        (text : Text) (offset : ℕ) (o : Option Text)
        → sql_operator (to_upper text) ≡ o
        → Safe n KnownOperator (version_operator {F = F} text offset o)
    unfolding version_operator
    version_operator-Safe text offset none e = Safe-fail _ _
    version_operator-Safe text offset (some s) e =
        Safe-if (text_eq (to_upper text) (bytes "LIKE")) (fail offset (not_version_operator text))
          (pure (to_upper text)) (λ _. Safe-fail _ _) (λ _. Safe-pure _ (s, e))

    version-Safe : Safe n OfVersion (
        peek {F = F} >>= λ o. expect_string quote_version_operator >>= λ text.
        version_operator text o.offset (sql_operator (to_upper text)) >>= λ op.
        expect is_comma needs_version
        >> (expect_string quote_version >>= λ version. pure (op, version)))
    version-Safe = Safe-bind _ peek _ (Safe-peek n) λ o _.
        Safe-bind _ _ _ (expect_string-Safe quote_version_operator) λ text _.
          Safe-bind _ _ _ (version_operator-Safe text o.offset _ refl) λ name known.
            Safe-bind _ _ _ (expect-Safe is_comma needs_version) λ _ _.
              Safe-bind _ _ _ (expect_string-Safe quote_version)
                λ version _. Safe-pure _ (inr known)

  module _ (n : ℕ) where
    parse_version-Safe : Safe n OfVersion (parse_version {F = F})
    unfolding parse_version
    parse_version-Safe =
        Safe-peek_if is_comma _ (λ _. pure ([], [])) (unfold is_comma in refl)
          (λ m l. version-Safe m) (λ t. Safe-pure _ (inl refl))

    parse_has_software-Safe : Safe n Compiles (parse_has_software {F = F})
    unfolding parse_has_software
    parse_has_software-Safe =
        Safe-bind _ (next >> expect is_lparen needs_parens) _
          (Safe-bind _ next _ (Safe-next n) λ _ _. expect-Safe n is_lparen needs_parens)
          λ _ _. Safe-bind _ _ _ (expect_string-Safe n needs_package_name) λ name _.
            Safe-bind _ _ _ parse_version-Safe λ v known.
              Safe-bind _ _ _ (expect-Safe n is_rparen expected_close_software)
                λ _ _. Safe-pure _ (software-Compiles name v.0 v.1 known)

    pub condition-Safe : (offset : ℕ) (k : Tok F) → Safe n Compiles (condition offset k)
    unfolding condition
    condition-Safe offset (ident name) =
        Safe-if (equal_fold name (bytes "has_software")) parse_has_software parse_comparison
          (λ _. parse_has_software-Safe) (λ _. parse_comparison-Safe n)
    condition-Safe offset k = Safe-fail _ _
