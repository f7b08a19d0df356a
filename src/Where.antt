-- ===== src/Where.antt =====
-- `column_name_is`, `literal_string_equals` and `row_matches_where` of src/table.c.
use database_in_c.Prelude.{
  ℕ, ◌+◌, Bool, true, false, ◌&&◌, not, [], ◌∷◌, Option, none, some, ◌==◌, if◌then◌else◌, eqb_ℤ,
  take,
}
use database_in_c.Chars.{Bytes}
use database_in_c.Ast.{
  Expr, as_equals, as_column, as_literal_int, as_literal_string, as_literal_boolean,
}
use database_in_c.Row.{Value, Row, integer, text, boolean, strlen}
use database_in_c.Page.{TableEntry}
use database_in_c.Catalog.{name_is}

-- `column_name_is` on the name of an EXPR_COLUMN node.
abbrev pub column_name_is : Bytes → Bytes → Bool
column_name_is = name_is

unfoldable pub eq_bytes : Bytes → Bytes → Bool
eq_bytes [] [] = true
eq_bytes (a ∷ s) (b ∷ t) = a == b && eq_bytes s t
eq_bytes _ _ = false

-- The literal against a `char text[255]`, read up to its NUL; a text without one, which has 255
-- bytes, is read up to its end.
unfoldable pub literal_string_equals : Bytes → Bytes → Bool
unfolding eq_bytes strlen
literal_string_equals literal str = eq_bytes literal (take (strlen str) str)

-- The switch on the type of the row's value. A literal of another type is read through the wrong
-- member of its union, which is undefined.
unfoldable pub value_matches : Expr → Value → Option Bool
value_matches value (integer n) = elim (as_literal_int value) [
  | none ↦ none
  | some m ↦ some (eqb_ℤ m n)
]
value_matches value (text t n) = elim (as_literal_string value) [
  | none ↦ none
  | some s ↦ some (literal_string_equals s t)
]
value_matches value (boolean b) = elim (as_literal_boolean value) [
  | none ↦ none
  | some c ↦ some (if c then b else not b)
]

-- The loop over the row, from column `i` on.
unfoldable pub match_columns : TableEntry → Bytes → Expr → ℕ → Row → Option Bool
match_columns entry name value i [] = some false
match_columns entry name value i (v ∷ row) =
    let rest = match_columns entry name value (i + 1) row in
    if column_name_is name (entry.columns i).name then value_matches value v else rest

-- `none` is undefined behaviour: a condition that is no equation, or whose left side is no column.
-- The column is read only if the row has a value.
unfoldable pub row_matches_where : Option Expr → Row → TableEntry → Option Bool
unfolding match_columns
row_matches_where none row entry = some true
row_matches_where (some condition) row entry = elim (as_equals condition) [
  | none ↦ none
  | some (left, right) ↦ elim (as_column left) [
    | none ↦ none
    | some name ↦ match_columns entry name right 0 row
  ]
]
