-- ===== src/Tests/Rows.antt =====
-- The row codec of src/table.c and the leaf loop of `delete_command` on concrete rows.
use database_in_c.Prelude.{
  ◌≤◌, ◌≡◌, refl, true, List, [], ◌∷◌, ◌++◌, length, negsuc, arith, replicate,
}
use database_in_c.Chars.{Bytes, codes}
use database_in_c.Ast.{ColumnType, column_integer, column_text, column_boolean}
use database_in_c.Row.{
  Row, strlen, integer, text, boolean, serialize_row, deserialize_row, row_size,
}
use database_in_c.Row.RoundTrip.{HasTypes, deserialize_row-serialize_row, length-serialize_row}

abbrev user_types : List ColumnType
user_types = column_integer ∷ column_text ∷ column_boolean ∷ []

abbrev user_row : Row
user_row = integer (negsuc 41) ∷ text (codes "bob" ++ replicate 252 0) 3 ∷ boolean true ∷ []

user_row-HasTypes : HasTypes user_types user_row
unfolding strlen
user_row-HasTypes = (omega arith, ((refl, refl), (tt, tt)))

abbrev old_bytes : Bytes
old_bytes = replicate 264 7

old_bytes-fit : length old_bytes ≤ row_size user_types
unfolding row_size
old_bytes-fit = omega arith

nil-fit : 0 ≤ row_size user_types
nil-fit = omega arith

deserialize_row-serialize_row_example :
    deserialize_row user_types (serialize_row user_row old_bytes) ≡ user_row
deserialize_row-serialize_row_example =
    deserialize_row-serialize_row user_types user_row old_bytes user_row-HasTypes

length-serialize_row_example : length (serialize_row user_row old_bytes) ≡ row_size user_types
length-serialize_row_example =
    length-serialize_row user_types user_row old_bytes user_row-HasTypes old_bytes-fit
