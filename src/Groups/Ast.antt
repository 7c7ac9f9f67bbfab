-- ===== src/Groups/Ast.antt =====
-- internal/server/groups/ast.go: the tree of a rule, and the tables that decide what a rule may name.
-- `F` is the type of the numbers that strconv.ParseFloat reads.
use retune.Base.{
  Bool, List, Option, String, Text, [], bytes, if◌then◌else◌, none, some, text_eq, ◌||◌, ◌∷◌,
}

pub data Node (F : Type 0) : Type 0 where
  and or : Node F → Node F → Node F
  negation : Node F → Node F
  -- The field's kind says which of the two literals a comparison has.
  compare_text : Text → Text → Text → Node F
  compare_number : Text → Text → F → Node F
  -- Name, operator and version; the operator is empty when only the name matters.
  has_software : Text → Text → Text → Node F

pub data FieldKind : Type 0 where
  string_field number_field : FieldKind

-- A field's SQL, in which `clock` stands where the source writes $CLOCK.
pub data ColumnPiece : Type 0 where
  column : Text → ColumnPiece
  clock : ColumnPiece

pub record FieldDef : Type 0 where
  pub kind : FieldKind
  pub sql : List ColumnPiece

abbrev pub Table {ℓ} : Type ℓ → Type ℓ
Table A = List (Text × A)

-- A Go map with text keys.
unfoldable pub find {ℓ} : {A : Type ℓ} → Table A → Text → Option A
find [] key = none
find ((k, a) ∷ rows) key = if text_eq k key then some a else find rows key

abbrev text_field : String → String → Text × FieldDef
text_field name sql = (bytes name, record { kind = string_field; sql = column (bytes sql) ∷ [] })

abbrev pub fields : Table FieldDef
fields =
    text_field "hostname" "d.hostname"
    ∷ text_field "os_version" "d.os_version"
    ∷ text_field "os_build" "d.os_build"
    ∷ text_field "manufacturer" "d.manufacturer"
    ∷ text_field "model" "d.model"
    ∷ text_field "serial" "d.serial"
    ∷ text_field "agent_version" "d.agent_version"
    ∷ (
      bytes "ram_gb",
      record { kind = number_field; sql = column (bytes "coalesce(i.ram_gb, 0)") ∷ [] },
    )
    ∷ (
      bytes "last_seen_days",
      record {
        kind = number_field;
        sql =
            column (bytes "floor(extract(epoch from (")
            ∷ clock
            ∷ column (bytes "::timestamptz - d.last_seen_at)) / 86400)")
            ∷ [];
      },
    )
    ∷ []

abbrev operator : String → String → Text × Text
operator name sql = (bytes name, bytes sql)

abbrev pub operators : Table Text
operators =
    operator "=" "="
    ∷ operator "!=" "<>"
    ∷ operator "<" "<"
    ∷ operator "<=" "<="
    ∷ operator ">" ">"
    ∷ operator ">=" ">="
    ∷ operator "LIKE" "LIKE"
    ∷ []

-- The operators that imply an ordering.
unfoldable pub is_ordering : Text → Bool
is_ordering op =
    text_eq op (bytes "<")
    || text_eq op (bytes "<=")
    || text_eq op (bytes ">")
    || text_eq op (bytes ">=")

unfoldable pub field_def : Text → Option FieldDef
unfolding find
field_def = find fields

unfoldable pub sql_operator : Text → Option Text
unfolding find
sql_operator = find operators
