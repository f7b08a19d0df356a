-- ===== src/Insert/Values.antt =====
-- The row that `insert_command` of src/table.c makes of its literals.
use database_in_c.Prelude.{
  ℕ, ◌-◌, ◌≤◌, ◌≡◌, ◌≢◌, refl, true, false, List, [], ◌∷◌, ◌++◌, some, arith, length, replicate,
  length-append, length-replicate, ltb, All, map, ap, ap₂, take-append,
}
use database_in_c.Ast.{
  ColumnType, column_integer, column_text, column_boolean, Expr, literal_int, literal_string,
  literal_boolean, column, equals,
}
use database_in_c.Row.{Value, Row, value_text_max_len, integer, text, boolean, strlen}
use database_in_c.Catalog.{c_string}
use database_in_c.Row.Strlen.{strlen-append, strlen-replicate}
use database_in_c.Row.Int64.{IsInt64}
use database_in_c.Row.RoundTrip.{HasType, HasTypes}
use database_in_c.Insert.{value_matches_type, values_match, row_value, row_values}

-- A literal that a column of the type may take: an `int64_t`, or a text without a NUL that fits.
abbrev pub IsLiteral : ColumnType → Expr → Type 0
IsLiteral column_integer (literal_int n) = IsInt64 n
IsLiteral column_text (literal_string s) = (length s ≤ value_text_max_len) × All (λ c. c ≢ 0) s
IsLiteral column_boolean (literal_boolean b) = Unit
IsLiteral _ _ = ⊥

abbrev pub AreLiterals : List ColumnType → List Expr → Type 0
AreLiterals [] [] = Unit
AreLiterals (type ∷ types) (value ∷ values) = IsLiteral type value × AreLiterals types values
AreLiterals _ _ = ⊥

-- The literal that a value stands for; a text ends at its first NUL.
abbrev pub literal_of : Value → Expr
literal_of (integer n) = literal_int n
literal_of (text t n) = literal_string (c_string t)
literal_of (boolean b) = literal_boolean b

row_value-HasType :
    (type : ColumnType) (value : Expr)
    → IsLiteral type value
    → (v : Value) × (row_value value ≡ some v) × HasType type v × (literal_of v ≡ value)
unfolding row_value c_string
row_value-HasType column_integer (literal_int n) h = (integer n, refl, h, refl)
row_value-HasType column_text (literal_string s) (fits, clean) =
    let test : ltb value_text_max_len (length s) ≡ false = ground arith in
    let pad = value_text_max_len - length s in
    (
      text (s ++ replicate pad 0) (length s),
      rw test,
      (
        omega (arith, length-append {0} s (replicate pad 0), length-replicate {0} {A = ℕ} pad 0),
        omega (arith, strlen-append s (replicate pad 0) clean, strlen-replicate pad),
      ),
      ap literal_string (
          take-append s (replicate pad 0) (strlen (s ++ replicate pad 0))
            (omega (arith, strlen-append s (replicate pad 0) clean, strlen-replicate pad))),
    )
row_value-HasType column_boolean (literal_boolean b) h = (boolean b, refl, tt, refl)
row_value-HasType column_integer (literal_string s) h = absurd h
row_value-HasType column_integer (literal_boolean b) h = absurd h
row_value-HasType column_integer (column name) h = absurd h
row_value-HasType column_integer (equals l r) h = absurd h
row_value-HasType column_text (literal_int n) h = absurd h
row_value-HasType column_text (literal_boolean b) h = absurd h
row_value-HasType column_text (column name) h = absurd h
row_value-HasType column_text (equals l r) h = absurd h
row_value-HasType column_boolean (literal_int n) h = absurd h
row_value-HasType column_boolean (literal_string s) h = absurd h
row_value-HasType column_boolean (column name) h = absurd h
row_value-HasType column_boolean (equals l r) h = absurd h

-- Literals of the columns' types, with texts that fit and have no NUL, make a row of the types whose
-- values stand for the literals, in their order.
pub row_values-HasTypes :
    (types : List ColumnType) (values : List Expr)
    → AreLiterals types values
    → (row : Row) × (row_values values ≡ some row)
      × HasTypes types row
      × (map literal_of row ≡ values)
unfolding row_values
row_values-HasTypes [] [] h = ([], refl, tt, refl)
row_values-HasTypes [] (value ∷ values) h = absurd h
row_values-HasTypes (type ∷ types) [] h = absurd h
row_values-HasTypes (type ∷ types) (value ∷ values) (h, hs) =
    let (v, e, typed, same) = row_value-HasType type value h in
    let (row, es, all, rest) = row_values-HasTypes types values hs in
    (v ∷ row, rw (e, row_values, es) refl, (typed, all), ap₂ (λ x xs. x ∷ xs) same rest)

value_matches_type-IsLiteral :
    (type : ColumnType) (value : Expr) → IsLiteral type value → value_matches_type type value ≡ true
unfolding value_matches_type
value_matches_type-IsLiteral column_integer (literal_int n) h = refl
value_matches_type-IsLiteral column_integer (literal_string s) h = absurd h
value_matches_type-IsLiteral column_integer (literal_boolean b) h = absurd h
value_matches_type-IsLiteral column_integer (column name) h = absurd h
value_matches_type-IsLiteral column_integer (equals l r) h = absurd h
value_matches_type-IsLiteral column_text (literal_int n) h = absurd h
value_matches_type-IsLiteral column_text (literal_string s) h = refl
value_matches_type-IsLiteral column_text (literal_boolean b) h = absurd h
value_matches_type-IsLiteral column_text (column name) h = absurd h
value_matches_type-IsLiteral column_text (equals l r) h = absurd h
value_matches_type-IsLiteral column_boolean (literal_int n) h = absurd h
value_matches_type-IsLiteral column_boolean (literal_string s) h = absurd h
value_matches_type-IsLiteral column_boolean (literal_boolean b) h = refl
value_matches_type-IsLiteral column_boolean (column name) h = absurd h
value_matches_type-IsLiteral column_boolean (equals l r) h = absurd h

-- They pass the tests of their number and of their types.
pub values_match-AreLiterals :
    (types : List ColumnType) (values : List Expr)
    → AreLiterals types values
    → (values_match types values ≡ true) × (length types ≡ length values)
unfolding values_match
values_match-AreLiterals [] [] h = (refl, refl)
values_match-AreLiterals [] (value ∷ values) h = absurd h
values_match-AreLiterals (type ∷ types) [] h = absurd h
values_match-AreLiterals (type ∷ types) (value ∷ values) (h, hs) =
    let (all, size) = values_match-AreLiterals types values hs in
    (rw (value_matches_type-IsLiteral type value h, all), omega (arith, size))
