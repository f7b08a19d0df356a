-- ===== src/Tests/Users.antt =====
-- A table of users with two rows, in the cache of src/pager.c.
use database_in_c.Prelude.{
  ℕ, zero, suc, ◌-◌, ◌≡◌, refl, true, false, Bool, some, none, List, [], ◌∷◌, ◌++◌, length, pos,
  arith, replicate, ◌==◌, if◌then◌else◌, ap, ap₂, ◌∙◌, map,
}
use database_in_c.Chars.{Bytes, codes}
use database_in_c.Ast.{ColumnType, column_integer, column_text, column_boolean}
use database_in_c.Row.{Row, strlen, integer, text, boolean, serialize_row, deserialize_row}
use database_in_c.Row.RoundTrip.{HasTypes, deserialize_row-serialize_row}
use database_in_c.Page.{Page, LeafCell, TableEntry, ColumnSlot, zero_page, node_leaf}
use database_in_c.Pager.{Pager}
use database_in_c.Catalog.{catalog_node_find_table, c_string}
use database_in_c.Table.{Table, deref, table_types}
use database_in_c.Btree.Search.Bound.{IsSorted, leaf_key}
use database_in_c.Btree.Leaf.Insert.{leaf_cell, cells_of}
use database_in_c.Cursor.Scan.{IsCached, IsChain, last_leaf}

abbrev pub padded : Bytes → ℕ → Bytes
padded s n = s ++ replicate (n - length s) 0

abbrev pub user_types : List ColumnType
user_types = column_integer ∷ column_text ∷ column_boolean ∷ []

abbrev pub user_slot : ℕ → ColumnSlot
user_slot zero = record { name = padded (codes "id") 32; type = column_integer }
user_slot (suc zero) = record { name = padded (codes "name") 32; type = column_text }
user_slot (suc (suc i)) = record { name = padded (codes "active") 32; type = column_boolean }

abbrev pub users_entry : TableEntry
users_entry = record {
  name = padded (codes "users") 32;
  root_page = 1;
  column_count = 3;
  primary_key_column = 0;
  columns = user_slot;
}

abbrev pub catalog_page : Page
catalog_page = record zero_page { catalog = record { num_tables = 1; tables = λ _. users_entry } }

abbrev pub user_row : ℕ → Bytes → Bool → Row
user_row id name active =
    integer (pos id) ∷ text (padded name 255) (length name) ∷ boolean active ∷ []

abbrev pub ann : Row
ann = user_row 1 (codes "ann") true

abbrev pub bob : Row
bob = user_row 2 (codes "bob") false

pub ann-HasTypes : HasTypes user_types ann
unfolding strlen
ann-HasTypes = (omega arith, ((refl, refl), (tt, tt)))

pub bob-HasTypes : HasTypes user_types bob
unfolding strlen
bob-HasTypes = (omega arith, ((refl, refl), (tt, tt)))

abbrev pub user_cell : ℕ → LeafCell
user_cell zero = leaf_cell (pos 1) (serialize_row ann [])
user_cell (suc n) = leaf_cell (pos 2) (serialize_row bob [])

-- A leaf of the users, and the number of the next leaf.
abbrev pub users_page : ℕ → ℕ → Page
users_page n link = record zero_page {
  node_type = node_leaf;
  is_root = true;
  num_cells = n;
  link = link;
  leaf_cells = user_cell;
}

abbrev pub users_pager : Pager
users_pager = record {
  file = record { content = λ _. zero_page; bytes_read = λ _. 0 };
  file_length = 0;
  pages = λ m. if m == 0 then some catalog_page else if m == 1 then some (users_page 2 0) else none;
  page_dirty = λ _. true;
  num_pages = 2;
}

abbrev pub users : Table
users = record { root_page_num = 1; table_name = codes "Users" }

pub users-IsCached : IsCached users_pager 1
unfolding deref
users-IsCached = (omega arith, refl)

pub users-types : table_types users_pager users ≡ user_types
unfolding deref catalog_node_find_table c_string
users-types = refl

pub users-leaf : (deref users_pager 1).node_type ≡ node_leaf
unfolding deref
users-leaf = refl

pub users-last : (deref users_pager 1).link ≡ 0
unfolding deref
users-last = refl

pub users-IsChain : IsChain users_pager 1 []
users-IsChain = last_leaf users-IsCached users-leaf users-last

pub users-IsSorted : IsSorted (leaf_key (deref users_pager 1)) (deref users_pager 1).num_cells
unfolding deref
users-IsSorted zero (suc j) o p = omega arith
users-IsSorted zero zero o p = absurd (omega arith)
users-IsSorted (suc i) j o p = absurd (omega arith)

abbrev pub stored_rows : List Row
stored_rows =
    map (λ (cell : LeafCell). deserialize_row (table_types users_pager users) cell.value)
      (cells_of (deref users_pager 1) ++ [])

pub stored_rows-users : stored_rows ≡ ann ∷ bob ∷ []
unfolding deref
stored_rows-users =
    ap
      (λ types.
        map (λ (cell : LeafCell). deserialize_row types cell.value)
          (user_cell 0 ∷ user_cell 1 ∷ []))
      users-types
    ∙ ap₂ (λ x y. x ∷ y ∷ []) (deserialize_row-serialize_row user_types ann [] ann-HasTypes)
        (deserialize_row-serialize_row user_types bob [] bob-HasTypes)
