-- ===== src/Groups/Examples.antt =====
-- Rules lexed, parsed and compiled.
use retune.Base.{
  Option, Text, [], bytes, if◌then◌else◌, is_digit, none, refl, some, ℕ, ◌*◌, ◌+◌, ◌-◌, ◌∷◌, ◌≡◌,
}
use retune.Groups.Ast.{Node, and, compare_number, compare_text, has_software, negation, or}
use retune.Groups.Lex.{lex}
use retune.Groups.Lex.Progress.{LexedWell, lex-LexedWell}
use retune.Groups.Parse.{parse}
use retune.Groups.Parse.Total.{ParsedWell, parse-compile}
use retune.Groups.Compile.{compile}
use retune.Groups.Compile.Erase.{compile-text, text_of}

-- strconv.ParseFloat for the numbers of the examples: digits only.
abbrev parse_decimal : Text → Option ℕ
parse_decimal s = go 0 s
  where
    go : ℕ → Text → Option ℕ
    go n [] = some n
    go n (c ∷ s) = if is_digit c then go (n * 10 + (c - b'0')) s else none

abbrev rule : Text
rule = bytes "hostname LIKE 'a%' and not (ram_gb >= 8 OR has_software('x', '>=', '1.2'))"

abbrev rule_tree : Text → ℕ → Node ℕ
rule_tree name gigabytes = and (compare_text (bytes "hostname") (bytes "LIKE") name) (
    negation (
      or (compare_number (bytes "ram_gb") (bytes ">=") gigabytes)
        (has_software (bytes "x") (bytes ">=") (bytes "1.2"))))

lex-LexedWell_example : LexedWell (lex parse_decimal rule)
lex-LexedWell_example = lex-LexedWell parse_decimal rule

parse-compile_example : ParsedWell (parse parse_decimal rule)
parse-compile_example = parse-compile parse_decimal rule

compile-text_example :
    text_of (compile (rule_tree (bytes "a%") 8))
    ≡ text_of (compile (rule_tree (bytes "') OR 1=1 --") 16))
compile-text_example =
    compile-text (rule_tree (bytes "a%") 8) (rule_tree (bytes "') OR 1=1 --") 16)
      ((refl, refl), ((refl, refl), refl))
