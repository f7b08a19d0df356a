-- ===== src/Catalog.antt =====
-- The catalog functions of src/btree.c, on the catalog page. A name is a `char[32]` buffer and is
-- read up to its NUL; a buffer without one is read up to its end.
use database_in_c.Prelude.{ℕ, zero, suc, ◌+◌, ◌-◌, ◌^◌, Bool, List, map, take, range, if◌then◌else◌}
use database_in_c.Chars.{Bytes, eq_ignoring_case}
use database_in_c.Ast.{ColumnType}
use database_in_c.Row.{strlen, row_size}
use database_in_c.Page.{ColumnSlot, TableEntry, Catalog}

abbrev pub uint32_max : ℕ
uint32_max = 2 ^ 32 - 1

-- The C string in a buffer.
unfoldable pub c_string : Bytes → Bytes
unfolding strlen
c_string buffer = take (strlen buffer) buffer

-- `length == strlen(name) && strncasecmp(text, name, length) == 0`
unfoldable pub name_is : Bytes → Bytes → Bool
unfolding c_string eq_ignoring_case
name_is text buffer = eq_ignoring_case text (c_string buffer)

-- A loop over the indices from `i` on, to the first that passes the test.
unfoldable pub first_index : (ℕ → Bool) → ℕ → ℕ → ℕ
first_index test i zero = uint32_max
first_index test i (suc n) = let rest = first_index test (i + 1) n in if test i then i else rest

unfoldable pub catalog_node_find_table : Catalog → Bytes → ℕ
unfolding first_index name_is
catalog_node_find_table catalog table =
    first_index (λ i. name_is table (catalog.tables i).name) 0 catalog.num_tables

unfoldable pub catalog_node_find_column : Catalog → ℕ → Bytes → ℕ
unfolding first_index name_is
catalog_node_find_column catalog table_num name =
    let entry = catalog.tables table_num in
    first_index (λ i. name_is name (entry.columns i).name) 0 entry.column_count

-- The stored types of the columns of a table.
abbrev pub column_types : TableEntry → List ColumnType
column_types entry =
    map (λ (slot : ColumnSlot). slot.type) (range entry.columns 0 entry.column_count)

unfoldable pub catalog_node_row_size : Catalog → ℕ → ℕ
unfolding row_size
catalog_node_row_size catalog table_num = row_size (column_types (catalog.tables table_num))

unfoldable pub is_primary_key : Catalog → ℕ → Bytes → Bool
unfolding name_is
is_primary_key catalog table_num name =
    let entry = catalog.tables table_num in
    name_is name (entry.columns entry.primary_key_column).name
