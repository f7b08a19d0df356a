-- ===== src/Tests/Trees.antt =====
-- The tree of src/btree.c on a table whose rows are long, so that a leaf holds two of them.
use database_in_c.Prelude.{
  ◌++◌, length, ◌-◌, ℕ, zero, suc, ◌+◌, ◌^◌, ◌<◌, ◌≤◌, ◌≡◌, ◌≢◌, refl, true, Bool, some, none, List,
  [], ◌∷◌, pos, arith, replicate, ◌==◌, if◌then◌else◌, ◌*◌, eqb_ℤ,
}
use database_in_c.Chars.{Bytes, codes}
use database_in_c.Ast.{ColumnType, column_integer, column_text}
use database_in_c.Row.{Row, strlen, integer, text, serialize_row, row_size}
use database_in_c.Row.RoundTrip.{HasTypes, IsStored, IsStored-serialize_row}
use database_in_c.Page.{Page, LeafCell, leaf_node_max_cells, zero_page, node_leaf, node_internal}
use database_in_c.Pager.{Pager, File}
use database_in_c.Pager.Fresh.{IsFresh}
use database_in_c.Table.{deref, command_success}
use database_in_c.Btree.Search.{leaf_node_find, internal_node_find}
use database_in_c.Btree.Search.Bound.{
  IsSorted, Splits, leaf_key, internal_key, leaf_node_find-Splits, internal_node_find-Splits,
}
use database_in_c.Btree.Leaf.{leaf_node_insert}
use database_in_c.Btree.Leaf.Insert.{
  IsLeaf, IsAbsent, leaf_cell, cells_of, insert_cell, leaf_node_insert-insert_cell,
}
use database_in_c.Btree.Split.{split_leaf_node}
use database_in_c.Btree.Split.Root.{IsRootOver, split_leaf_node-IsRootOver}
use database_in_c.Delete.{delete_in_page}
use database_in_c.Delete.Cells.{reject, any_of, delete_in_page-reject}

abbrev pub long_types : List ColumnType
long_types =
    column_integer ∷ column_text ∷ column_text ∷ column_text ∷ column_text ∷ column_text
    ∷ column_text ∷ column_text ∷ []

abbrev pub long_row : ℕ → Row
long_row n =
    let blank = text (replicate 255 0) 0 in
    integer (pos n) ∷ blank ∷ blank ∷ blank ∷ blank ∷ blank ∷ blank ∷ blank ∷ []

pub long_row-HasTypes : (n : ℕ) → n < 2 ^ 63 → HasTypes long_types (long_row n)
unfolding strlen
long_row-HasTypes n h = (
  h,
  (
    (refl, refl),
    (
      (refl, refl),
      ((refl, refl), ((refl, refl), ((refl, refl), ((refl, refl), ((refl, refl), tt))))),
    ),
  ),
)

abbrev pub long_cell : ℕ → LeafCell
long_cell zero = leaf_cell (pos 10) (serialize_row (long_row 10) [])
long_cell (suc n) = leaf_cell (pos 30) (serialize_row (long_row 30) [])

long_cell-IsStored : (i : ℕ) → IsStored long_types (long_cell i).value
long_cell-IsStored zero =
    IsStored-serialize_row long_types (long_row 10) (long_row-HasTypes 10 (omega arith))
long_cell-IsStored (suc n) =
    IsStored-serialize_row long_types (long_row 30) (long_row-HasTypes 30 (omega arith))

-- A root leaf with `n` of these cells.
abbrev pub leaf_page : ℕ → Page
leaf_page n = record zero_page {
  node_type = node_leaf;
  is_root = true;
  num_cells = n;
  leaf_cells = long_cell;
}

pub max_cells_two : leaf_node_max_cells (row_size long_types) ≡ 2
unfolding leaf_node_max_cells row_size
max_cells_two = refl

leaf_page-IsSorted : (n : ℕ) → n ≤ 2 → IsSorted (leaf_key (leaf_page n)) n
leaf_page-IsSorted n small zero (suc j) o p = omega arith
leaf_page-IsSorted n small zero zero o p = absurd (omega arith)
leaf_page-IsSorted n small (suc i) j o p = absurd (omega arith)

leaf_page-IsLeaf : (n : ℕ) → n ≤ 2 → IsLeaf long_types (leaf_page n)
leaf_page-IsLeaf n small = record {
  sorted = leaf_page-IsSorted n small;
  fits = omega (arith, max_cells_two);
  stored = λ i p. long_cell-IsStored i;
  sized = λ i. omega (arith, (long_cell-IsStored i).0);
}

leaf_page-IsAbsent : (n : ℕ) → IsAbsent (pos 20) (leaf_page n)
leaf_page-IsAbsent n zero p e = ground arith
leaf_page-IsAbsent n (suc i) p e = ground arith

abbrev new_file : File
new_file = record { content = λ _. zero_page; bytes_read = λ _. 0 }

abbrev pub padded_name : Bytes → Bytes
padded_name s = s ++ replicate (32 - length s) 0

-- The catalog with one table `t`, whose primary key is its first column.
abbrev pub long_catalog : Page
long_catalog = record zero_page {
  catalog = record {
    num_tables = 1;
    tables = λ _. record {
      name = padded_name (codes "t");
      root_page = 1;
      column_count = 8;
      primary_key_column = 0;
      columns = λ i. record {
        name = padded_name (codes "c");
        type = if i == 0 then column_integer else column_text;
      };
    };
  };
}

-- A new database with the catalog on page 0 and the root leaf on page 1.
abbrev pub pager_with : ℕ → Pager
pager_with n = record {
  file = new_file;
  file_length = 0;
  pages = λ m. if m == 0 then some long_catalog else if m == 1 then some (leaf_page n) else none;
  page_dirty = λ _. true;
  num_pages = 2;
}

pub pager_with-IsFresh : (n : ℕ) → IsFresh (pager_with n)
pager_with-IsFresh n = record { uncached = λ m h. ground arith; beyond = omega arith }

module _ (n : ℕ) (small : n ≤ 2) where
  pub pager_with-IsLeaf : IsLeaf long_types (deref (pager_with n) 1)
  unfolding deref
  pager_with-IsLeaf = leaf_page-IsLeaf n small

  pub pager_with-IsAbsent : IsAbsent (pos 20) (deref (pager_with n) 1)
  unfolding deref
  pager_with-IsAbsent = leaf_page-IsAbsent n

pub full_num_cells : (deref (pager_with 2) 1).num_cells ≡ leaf_node_max_cells (row_size long_types)
unfolding deref leaf_node_max_cells row_size
full_num_cells = refl

pub half_num_cells : (deref (pager_with 1) 1).num_cells < leaf_node_max_cells (row_size long_types)
unfolding deref leaf_node_max_cells row_size
half_num_cells = omega arith

pub full_is_root : (deref (pager_with 2) 1).is_root ≡ true
unfolding deref
full_is_root = refl

abbrev pub new_cell : LeafCell
new_cell = leaf_cell (pos 20) (serialize_row (long_row 20) [])

-- The row with key 20 goes between the rows with the keys 10 and 30, and splits the full root.
split_leaf_node-IsRootOver_example :
    (pager' : Pager) × (split_leaf_node 0 long_types
        (pager_with 2)
        1
        (pos 20)
        (long_row 20)
        (row_size long_types)
      ≡ some (pager', command_success))
    × IsRootOver long_types (insert_cell new_cell (cells_of (deref (pager_with 2) 1))) pager' 1 3 2
split_leaf_node-IsRootOver_example =
    split_leaf_node-IsRootOver 0 long_types (pager_with 2) 1 (pos 20) (long_row 20)
      (pager_with-IsFresh 2) (omega arith) (omega arith) (pager_with-IsLeaf 2 (omega arith))
      (long_row-HasTypes 20 (omega arith)) (pager_with-IsAbsent 2 (omega arith)) full_num_cells
      (omega (arith, max_cells_two)) full_is_root

leaf_node_insert-insert_cell_example :
    let pager = pager_with 1 in
    let page = deref pager 1 in
    let r =
      leaf_node_insert pager 1
        (leaf_node_find page (pos 20))
        (pos 20)
        (long_row 20)
        (row_size long_types) in
    (r.1 ≡ command_success)
    × (cells_of (deref r.0 1) ≡ insert_cell new_cell (cells_of page))
    × IsLeaf long_types (deref r.0 1)
    × (r.0.page_dirty 1 ≡ true)
    × ((m : ℕ) → m ≢ 1 → deref r.0 m ≡ deref pager m)
leaf_node_insert-insert_cell_example =
    leaf_node_insert-insert_cell long_types (pager_with 1) 1 (pos 20) (long_row 20)
      (pager_with-IsLeaf 1 (omega arith)) (long_row-HasTypes 20 (omega arith))
      (pager_with-IsAbsent 1 (omega arith)) half_num_cells

leaf_node_find-Splits_example :
    Splits (leaf_key (leaf_page 2)) (pos 20) 2 (leaf_node_find (leaf_page 2) (pos 20))
leaf_node_find-Splits_example =
    leaf_node_find-Splits (leaf_page 2) (pos 20) (leaf_page-IsSorted 2 (omega arith))

-- A node over children that end below the keys 0, 10, 20 and so on.
abbrev node_page : Page
node_page = record zero_page {
  node_type = node_internal;
  num_cells = 5;
  internal_cells = λ i. record { key = pos (10 * i); child = i + 1 };
}

node_page-IsSorted : IsSorted (internal_key node_page) 5
node_page-IsSorted i j o p = omega arith

internal_node_find-Splits_example :
    Splits (internal_key node_page) (pos 25) 5 (internal_node_find node_page (pos 25))
internal_node_find-Splits_example = internal_node_find-Splits node_page (pos 25) node_page-IsSorted

-- A condition that holds on the key 10 alone.
abbrev key_test : LeafCell → Bool
key_test cell = eqb_ℤ cell.key (pos 10)

delete_in_page-reject_example :
    (out : Page) × (delete_in_page (λ c. some (key_test c)) (leaf_page 2)
      ≡ some (out, any_of key_test (cells_of (leaf_page 2))))
    × (cells_of out ≡ reject key_test (cells_of (leaf_page 2)))
    × (out.link ≡ (leaf_page 2).link)
delete_in_page-reject_example =
    delete_in_page-reject (λ c. some (key_test c)) key_test (λ c. refl) (leaf_page 2)
