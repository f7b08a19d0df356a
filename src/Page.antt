-- ===== src/Page.antt =====
-- The 4096 bytes of a page, as the accessors of src/btree.c see them (include/btree.h): the node
-- header, the cells of a leaf, the cells of an internal node, and on page 0 the catalog. Two
-- header fields share an offset and are one field here: `link` is a leaf's NEXT_LEAF and an
-- internal node's RIGHT_CHILD. The key cells are arrays, so what stands behind `num_cells` stays
-- readable.
use database_in_c.Prelude.{ℕ, ◌+◌, ◌/◌, ◌-◌, Bool, true, false, [], replicate, ℤ, pos}
use database_in_c.Chars.{Bytes}
use database_in_c.Ast.{ColumnType, column_integer}

abbrev pub page_size : ℕ
page_size = 4096

abbrev pub leaf_node_header_size : ℕ
leaf_node_header_size = 14

abbrev pub leaf_node_space_for_cells : ℕ
leaf_node_space_for_cells = page_size - leaf_node_header_size

-- INTERNAL_NODE_SPACE_FOR_CELLS / INTERNAL_NODE_CELL_SIZE
abbrev pub internal_node_max_keys : ℕ
internal_node_max_keys = (page_size - 14) / (4 + 8)

abbrev pub max_catalog_tables : ℕ
max_catalog_tables = 13

abbrev pub column_name_size : ℕ
column_name_size = 32

pub data NodeType : Type 0 where
  node_leaf node_internal : NodeType

-- A key and the bytes of a row.
pub record LeafCell : Type 0 where
  pub key : ℤ
  pub value : Bytes

-- A separator key and the page number of the child in front of it.
pub record InternalCell : Type 0 where
  pub key : ℤ
  pub child : ℕ

pub record ColumnSlot : Type 0 where
  pub name : Bytes
  pub type : ColumnType

pub record TableEntry : Type 0 where
  pub name : Bytes
  pub root_page : ℕ
  pub column_count : ℕ
  pub primary_key_column : ℕ
  pub columns : ℕ → ColumnSlot

pub record Catalog : Type 0 where
  pub num_tables : ℕ
  pub tables : ℕ → TableEntry

pub record Page : Type 0 where
  pub node_type : NodeType
  pub is_root : Bool
  pub parent : ℕ
  pub num_cells : ℕ
  pub link : ℕ
  pub leaf_cells : ℕ → LeafCell
  pub internal_cells : ℕ → InternalCell
  pub catalog : Catalog

abbrev pub zero_leaf_cell : LeafCell
zero_leaf_cell = record { key = pos 0; value = [] }

abbrev pub zero_internal_cell : InternalCell
zero_internal_cell = record { key = pos 0; child = 0 }

abbrev pub zero_slot : ColumnSlot
zero_slot = record { name = replicate 32 0; type = column_integer }

abbrev pub zero_entry : TableEntry
zero_entry = record {
  name = replicate 32 0;
  root_page = 0;
  column_count = 0;
  primary_key_column = 0;
  columns = λ _. zero_slot;
}

-- `catalog_node_init`, and the catalog of a page from `calloc`.
abbrev pub zero_catalog : Catalog
zero_catalog = record { num_tables = 0; tables = λ _. zero_entry }

-- A page from `calloc(1, PAGE_SIZE)`.
unfoldable pub zero_page : Page
zero_page = record {
  node_type = node_leaf;
  is_root = false;
  parent = 0;
  num_cells = 0;
  link = 0;
  leaf_cells = λ _. zero_leaf_cell;
  internal_cells = λ _. zero_internal_cell;
  catalog = zero_catalog;
}

unfoldable pub leaf_node_init : Page → Page
leaf_node_init page = record page { node_type = node_leaf; is_root = true; num_cells = 0; link = 0 }

unfoldable pub internal_node_init : Page → Bool → Page
internal_node_init page is_root = record page {
  node_type = node_internal;
  is_root = is_root;
  num_cells = 0;
  link = 0;
}

-- `memset` of the cell space to 0, whichever cells the node has.
unfoldable pub clear_cells : Page → Page
clear_cells page = record page {
  leaf_cells = λ _. zero_leaf_cell;
  internal_cells = λ _. zero_internal_cell;
}

unfoldable pub leaf_node_cell_size : ℕ → ℕ
leaf_node_cell_size row_size = 8 + row_size

unfoldable pub leaf_node_max_cells : ℕ → ℕ
unfolding leaf_node_cell_size
leaf_node_max_cells row_size = leaf_node_space_for_cells / leaf_node_cell_size row_size
