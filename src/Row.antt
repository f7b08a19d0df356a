-- ===== src/Row.antt =====
-- The rows of include/table.h, and `serialize_row` and `deserialize_row` of src/table.c, byte by
-- byte. An `int64_t` is an integer, stored as 8 bytes of two's complement, least byte first.
pub mod Int64
pub mod RoundTrip
pub mod Strlen
use database_in_c.Prelude.{
  ℕ, zero, suc, ◌+◌, ◌-◌, ◌/◌, ◌%◌, ◌*◌, ◌^◌, Bool, true, false, List, [], ◌∷◌, ◌++◌, length, take,
  drop, ◌==◌, ltb, if◌then◌else◌, ℤ, pos, negsuc,
}
use database_in_c.Chars.{Bytes}
use database_in_c.Ast.{ColumnType, column_integer, column_text, column_boolean}

abbrev pub value_text_max_len : ℕ
value_text_max_len = 255

-- `text` is the array `char text[VALUE_TEXT_MAX_LEN]` beside its `length`.
pub data Value : Type 0 where
  integer : ℤ → Value
  text : Bytes → ℕ → Value
  boolean : Bool → Value

-- The first `value_count` entries of `values`.
abbrev pub Row : Type 0
Row = List Value

-- `memcpy(destination, source, length of source)`
abbrev pub overlay : Bytes → Bytes → Bytes
overlay source destination = source ++ drop (length source) destination

-- The `n` low bytes of a number, least first, and the number that bytes stand for.
unfoldable pub to_bytes : ℕ → ℕ → Bytes
to_bytes zero w = []
to_bytes (suc n) w = (w % 256) ∷ to_bytes n (w / 256)

unfoldable pub of_bytes : Bytes → ℕ
of_bytes [] = 0
of_bytes (b ∷ bs) = b + 256 * of_bytes bs

-- The 64-bit pattern of an `int64_t`, and back.
unfoldable pub pattern_of : ℤ → ℕ
pattern_of (pos n) = n % 2 ^ 64
pattern_of (negsuc n) = 2 ^ 64 - 1 - n

unfoldable pub int64_of : ℕ → ℤ
int64_of w = if ltb w (2 ^ 63) then pos w else negsuc (2 ^ 64 - 1 - w)

-- `strnlen(s, length of s)`, which is `strlen(s)` where a NUL stands in `s`.
unfoldable pub strlen : Bytes → ℕ
strlen [] = 0
strlen (c ∷ s) = let n = strlen s in if c == 0 then 0 else suc n

-- The bytes that one value contributes.
unfoldable pub value_bytes : Value → Bytes
unfolding to_bytes pattern_of
value_bytes (integer n) = to_bytes 8 (pattern_of n)
value_bytes (text t n) = take value_text_max_len t
value_bytes (boolean b) = (if b then 1 else 0) ∷ []

-- The loop over the values, on the bytes still to be written.
unfoldable pub serialize_row : Row → Bytes → Bytes
unfolding value_bytes
serialize_row [] destination = destination
serialize_row (v ∷ row) destination =
    value_bytes v ++ serialize_row row (drop (length (value_bytes v)) destination)

-- One case of the switch on a stored type, on the bytes at the offset.
unfoldable pub read_value : ColumnType → Bytes → Value
unfolding of_bytes int64_of strlen
read_value column_integer source = integer (int64_of (of_bytes (take 8 source)))
read_value column_text source = let t = take value_text_max_len source in text t (strlen t)
read_value column_boolean source = boolean (if of_bytes (take 1 source) == 0 then false else true)

-- The bytes that a column takes in a row.
abbrev pub column_width : ColumnType → ℕ
column_width column_integer = 8
column_width column_text = value_text_max_len
column_width column_boolean = 1

-- `deserialize_row` on the stored column types of the table.
unfoldable pub deserialize_row : List ColumnType → Bytes → Row
unfolding read_value
deserialize_row [] source = []
deserialize_row (type ∷ types) source =
    read_value type source ∷ deserialize_row types (drop (column_width type) source)

-- The sum of `catalog_node_row_size`, on the stored column types of the table.
unfoldable pub row_size : List ColumnType → ℕ
row_size [] = 0
row_size (type ∷ types) = column_width type + row_size types
