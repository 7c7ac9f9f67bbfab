-- ===== src/Groups/Compile.antt =====
-- internal/server/groups/compile.go: a tree to SQL with placeholders and the values bound to them.
-- A text of the query is a list of pieces: `sql` is literal text, `placeholder n` is "$" and n.
pub mod Erase
pub mod Total
use retune.Base.{
  List, Option, String, Text, [], bytes, if◌then◌else◌, length, none, some, ℕ, ◌++◌, ◌+◌, ◌∷◌,
}
use retune.Groups.Ast.{
  ColumnPiece, FieldDef, Node, and, clock, column, compare_number, compare_text, field_def,
  has_software, is_ordering, negation, or, sql_operator,
}

pub data Piece : Type 0 where
  sql : Text → Piece
  placeholder : ℕ → Piece

abbrev pub Query : Type 0
Query = List Piece

-- A bound value: the tenant, the evaluation time, or a literal of the rule.
pub data Arg (F : Type 0) : Type 0 where
  tenant now : Arg F
  text_arg : Text → Arg F
  number_arg : F → Arg F

-- The compiler's state; `clock_at` is the placeholder that holds the time, if a field asked for it.
pub record Compiler (F : Type 0) : Type 0 where
  pub args : List (Arg F)
  pub clock_at : Option ℕ

abbrev pub lit : String → Query
lit s = sql (bytes s) ∷ []

-- The version as an array of numbers, or NULL.
dotted_array : Query → Query
dotted_array e =
    lit "(CASE WHEN "
    ++ e
    ++ lit " ~ '^[0-9]+(\\.[0-9]+)*$' THEN string_to_array("
    ++ e
    ++ lit ", '.')::numeric[] END)"

version_test : Text → Option Text → ℕ → Option Query
unfolding dotted_array
version_test op none n = none
version_test op (some sql_op) n = some (
    if is_ordering op
    then lit " AND "
      ++ dotted_array (lit "s.version")
      ++ lit " "
      ++ sql sql_op ∷ (lit " " ++ dotted_array (placeholder n ∷ []))
    else lit " AND s.version " ++ sql sql_op ∷ (lit " " ++ placeholder n ∷ []))

software_head : ℕ → Query
software_head n =
    lit
      "EXISTS (SELECT 1 FROM device_software s WHERE s.device_id = d.id AND lower(s.name) = lower("
    ++ placeholder n ∷ lit ")"

module _ {F : Type 0} where
  unfoldable pub bind : Arg F → Compiler F → ℕ × Compiler F
  bind v c = (length c.args + 1, record c { args = c.args ++ v ∷ [] })

  clock_placeholder_of : Option ℕ → Compiler F → ℕ × Compiler F
  unfolding bind
  clock_placeholder_of (some n) c = (n, c)
  clock_placeholder_of none c = let (n, c') = bind now c in (n, record c' { clock_at = some n })

  -- The time is bound on first use.
  unfoldable pub clock_placeholder : Compiler F → ℕ × Compiler F
  unfolding clock_placeholder_of
  clock_placeholder c = clock_placeholder_of c.clock_at c

  -- A field's SQL with its clock filled in.
  unfoldable pub column_query : List ColumnPiece → Compiler F → Query × Compiler F
  unfolding clock_placeholder
  column_query [] c = ([], c)
  column_query (column s ∷ rest) c = let (q, c') = column_query rest c in (sql s ∷ q, c')
  column_query (clock ∷ rest) c =
      let (n, c') = clock_placeholder c in
      let (q, c'') = column_query rest c' in (placeholder n ∷ q, c'')

  -- "(" + column + " " + operator + " " + placeholder + ")"
  comparison : FieldDef → Text → Arg F → Compiler F → Query × Compiler F
  unfolding column_query bind
  comparison def op v c =
      let (col, c') = column_query def.sql c in
      let (n, c'') = bind v c' in
      (lit "(" ++ col ++ lit " " ++ sql op ∷ (lit " " ++ placeholder n ∷ lit ")"), c'')

  compare_with : Option FieldDef → Option Text → Arg F → Compiler F → Option (Query × Compiler F)
  unfolding comparison
  compare_with none op v c = none
  compare_with (some def) none v c = none
  compare_with (some def) (some op) v c = some (comparison def op v c)

  unfoldable pub compare : Text → Text → Arg F → Compiler F → Option (Query × Compiler F)
  unfolding compare_with
  compare field op v c = compare_with (field_def field) (sql_operator op) v c

  with_version : ℕ → Option Query → Compiler F → Option (Query × Compiler F)
  unfolding software_head
  with_version n none c = none
  with_version n (some test) c = some (software_head n ++ test ++ lit ")", c)

  unfoldable pub software : Text → Text → Text → Compiler F → Option (Query × Compiler F)
  unfolding bind with_version version_test software_head
  software name [] version c =
      let (n, c') = bind (text_arg name) c in some (software_head n ++ lit ")", c')
  software name (o ∷ op) version c =
      let (n, c') = bind (text_arg name) c in
      let (v, c'') = bind (text_arg version) c' in
      with_version n (version_test (o ∷ op) (sql_operator (o ∷ op)) v) c''

  join : String → Query × Compiler F → Option (Query × Compiler F) → Option (Query × Compiler F)
  join op (l, c) none = none
  join op (l, c) (some (r, c')) =
      some (lit "(" ++ l ++ lit " " ++ lit op ++ lit " " ++ r ++ lit ")", c')

  negate : Option (Query × Compiler F) → Option (Query × Compiler F)
  negate none = none
  negate (some (q, c)) = some (lit "(NOT COALESCE(" ++ q ++ lit ", false))", c)

  -- The left side is compiled first, and the right side goes on from its state.
  both :
      String
      → (Compiler F → Option (Query × Compiler F))
      → Option (Query × Compiler F)
      → Option (Query × Compiler F)
  unfolding join
  both op right none = none
  both op right (some (l, c)) = join op (l, c) (right c)

  unfoldable pub compile_node : Node F → Compiler F → Option (Query × Compiler F)
  unfolding both negate compare software
  compile_node (and l r) c = both "AND" (compile_node r) (compile_node l c)
  compile_node (or l r) c = both "OR" (compile_node r) (compile_node l c)
  compile_node (negation n) c = negate (compile_node n c)
  compile_node (compare_text field op s) c = compare field op (text_arg s) c
  compile_node (compare_number field op x) c = compare field op (number_arg x) c
  compile_node (has_software name op version) c = software name op version c

  framed : Option (Query × Compiler F) → Option (Query × List (Arg F))
  framed none = none
  framed (some (q, c)) = some (
    lit
          "SELECT d.id FROM devices d LEFT JOIN device_inventory i ON i.device_id = d.id WHERE d.tenant_id = $1 AND d.status = 'active' AND ("
        ++ q
        ++ lit ")",
    c.args,
  )

  pub compile : Node F → Option (Query × List (Arg F))
  unfolding compile_node framed
  compile n = framed (compile_node n (record { args = tenant ∷ []; clock_at = none }))
