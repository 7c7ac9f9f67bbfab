-- ===== src/Groups/Lex.antt =====
-- internal/server/groups/lex.go: a rule's bytes to tokens.
pub mod Progress
use retune.Base.{
  Bool, List, Option, Text, [], if◌then◌else◌, is_digit, is_space, leb, length, none, not, some,
  suc, zero, ℕ, ◌&&◌, ◌++◌, ◌-◌, ◌==◌, ◌||◌, ◌∷◌,
}

pub data Tok (F : Type 0) : Type 0 where
  eof lparen rparen comma : Tok F
  ident str oper : Text → Tok F
  number : Text → F → Tok F

pub record Token (F : Type 0) : Type 0 where
  pub tok : Tok F
  pub offset : ℕ

-- What a ParseError says, one constructor for each message of lex.go and parse.go.
pub data Message : Type 0 where
  unexpected_character : ℕ → Message
  unterminated_string expected_number too_long empty_rule too_deep : Message
  expected_operator : ℕ → Message
  not_a_number : Text → Message
  unexpected expected_condition expected_comparison : Message
  unknown_field unknown_operator : Text → Message
  text_not_ordered number_not_like needs_quoted_value needs_number : Text → Message
  expected_close needs_parens needs_package_name quote_version_operator : Message
  not_version_operator : Text → Message
  needs_version quote_version expected_close_software : Message

pub record ParseError : Type 0 where
  pub offset : ℕ
  pub message : Message

pub data Lexed (F : Type 0) : Type 0 where
  tokens : List (Token F) → Lexed F
  lex_failed : ParseError → Lexed F
  lex_out_of_fuel : Lexed F

-- unicode.IsSpace of one byte read as a rune.
is_space_byte : ℕ → Bool
unfolding is_space
is_space_byte c = is_space c || (c == 0x85) || (c == 0xA0)

unfoldable pub is_ident_start : ℕ → Bool
is_ident_start c = (leb b'a' c && leb c b'z') || (leb b'A' c && leb c b'Z') || (c == b'_')

unfoldable pub is_ident_part : ℕ → Bool
unfolding is_ident_start is_digit
is_ident_part c = is_ident_start c || is_digit c

is_number_part : ℕ → Bool
unfolding is_digit
is_number_part c = is_digit c || (c == b'.')

-- The longest prefix whose bytes pass the test, and the rest.
span : (ℕ → Bool) → Text → Text × Text
span p [] = ([], [])
span p (c ∷ s) = let (taken, rest) = span p s in if p c then (c ∷ taken, rest) else ([], c ∷ s)

prepend : ℕ → Option (Text × Text) → Option (Text × Text)
prepend c none = none
prepend c (some (s, rest)) = some (c ∷ s, rest)

-- lexString from behind the opening quote, in which two quotes stand for one.
lex_string : Text → Option (Text × Text)
unfolding prepend
lex_string [] = none
lex_string (c ∷ []) = if c == 39 then some ([], []) else none
lex_string (c ∷ d ∷ rest) =
    let more = lex_string (d ∷ rest) in
    let doubled = lex_string rest in
    if not (c == 39)
    then prepend c more
    else if d == 39
    then prepend 39 doubled
    else some ([], d ∷ rest)

-- One round of the loop: skip a byte, take a token, or fail.
pub data Round (F : Type 0) : Type 0 where
  skip : Text → Round F
  take : Tok F → Text → Round F
  reject : Message → Round F

module _ {F : Type 0} where
  string_round : Option (Text × Text) → Round F
  string_round none = reject unterminated_string
  string_round (some (s, rest)) = take (str s) rest

  -- lexOperator at `c`, with `rest` behind it.
  lex_operator : ℕ → Text → Round F
  lex_operator c [] =
      if not (c == b'!') then take (oper (c ∷ [])) [] else reject (expected_operator c)
  lex_operator c (d ∷ rest) =
      if (d == b'=') && not (c == b'=')
      then take (oper (c ∷ d ∷ [])) rest
      else if not (c == b'!')
      then take (oper (c ∷ [])) (d ∷ rest)
      else reject (expected_operator c)

  number_round : Text → Text → Option F → Round F
  number_round text rest none = reject (not_a_number text)
  number_round text rest (some n) = take (number text n) rest

  -- `parse_float` is strconv.ParseFloat on 64 bits.
  digits_round : (Text → Option F) → Text → Text × Text → Round F
  unfolding number_round
  digits_round parse_float sign ([], rest) = reject expected_number
  digits_round parse_float sign (d ∷ ds, rest) =
      number_round (sign ++ d ∷ ds) rest (parse_float (sign ++ d ∷ ds))

  lex_number : (Text → Option F) → ℕ → Text → Round F
  unfolding span digits_round is_number_part
  lex_number parse_float c rest =
      if c == b'-'
      then digits_round parse_float (b'-' ∷ []) (span is_number_part rest)
      else digits_round parse_float [] (span is_number_part (c ∷ rest))

  ident_round : Text × Text → Round F
  ident_round (name, rest) = take (ident name) rest

  pub round : (Text → Option F) → ℕ → Text → Round F
  unfolding is_space_byte lex_string string_round lex_operator lex_number ident_round span
      is_ident_part is_digit
  round parse_float c rest =
      if is_space_byte c
      then skip rest
      else if c == b'('
      then take lparen rest
      else if c == b')'
      then take rparen rest
      else if c == b','
      then take comma rest
      else if c == 39
      then string_round (lex_string rest)
      else if (c == b'=') || (c == b'<') || (c == b'>') || (c == b'!')
      then lex_operator c rest
      else if is_digit c || (c == b'-') || (c == b'.')
      then lex_number parse_float c rest
      else if is_ident_start c
      then ident_round (span is_ident_part (c ∷ rest))
      else reject (unexpected_character c)

  emit : Token F → Lexed F → Lexed F
  emit t (tokens ts) = tokens (t ∷ ts)
  emit t (lex_failed e) = lex_failed e
  emit t lex_out_of_fuel = lex_out_of_fuel

  -- The loop. A token's offset is the length of what stands before it in a rule of `total` bytes.
  lex_loop : (Text → Option F) → ℕ → ℕ → Text → Lexed F
  lex_loop parse_float total zero text = lex_out_of_fuel
  lex_loop parse_float total (suc f) [] = tokens (record { tok = eof; offset = total } ∷ [])
  lex_loop parse_float total (suc f) (c ∷ rest) =
      let offset : ℕ = total - length (c ∷ rest) in
      elim (round parse_float c rest) [
        | skip rest' ↦ lex_loop parse_float total f rest'
        | take t rest' ↦
            emit (record { tok = t; offset = offset }) (lex_loop parse_float total f rest')
        | reject m ↦ lex_failed (record { offset = offset; message = m })
      ]

  -- A unit of fuel for each byte and one more.
  unfoldable pub lex : (Text → Option F) → Text → Lexed F
  unfolding lex_loop round emit
  lex parse_float rule = lex_loop parse_float (length rule) (suc (length rule)) rule
