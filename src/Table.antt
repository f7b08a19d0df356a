-- ===== src/Table.antt =====
-- The table handle of include/table.h, and the results of include/command_result.h.
pub mod Deref
use database_in_c.Prelude.{ℕ, List, Option, none, some}
use database_in_c.Chars.{Bytes}
use database_in_c.Ast.{ColumnType}
use database_in_c.Page.{Page, Catalog, zero_page}
use database_in_c.Pager.{Pager, set_page}
use database_in_c.Catalog.{catalog_node_find_table, column_types}

-- `failure` is the -1 that the code returns in place of a member of the enumeration.
pub data CommandResult : Type 0 where
  command_success unrecognized_command id_duplicate_error leaf_full_error : CommandResult
  debug_btree_success internal_node_full_error debugs_tokens_success debug_ast_success :
      CommandResult
  failure : CommandResult

-- The pager is passed beside it.
pub record Table : Type 0 where
  pub root_page_num : ℕ
  pub table_name : Bytes

-- A page behind a pointer that `pager_get_page` gave, so a cached one.
unfoldable pub deref : Pager → ℕ → Page
deref pager page_num = elim (pager.pages page_num) [ none ↦ zero_page | some page ↦ page ]

-- The catalog, which `open_database_and_initialize_catalog` has cached.
abbrev pub catalog_of : Pager → Catalog
catalog_of pager = (deref pager 0).catalog

-- The column types by which `deserialize_row` reads a row of the table.
abbrev pub table_types : Pager → Table → List ColumnType
table_types pager table =
    let catalog = catalog_of pager in
    column_types (catalog.tables (catalog_node_find_table catalog table.table_name))
