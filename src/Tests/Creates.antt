-- ===== src/Tests/Creates.antt =====
-- `create_table` of src/table.c on a new database.
use database_in_c.Prelude.{
  ◌+◌, ◌≡◌, refl, true, false, some, none, List, [], ◌∷◌, arith, replicate, ◌==◌, if◌then◌else◌,
}
use database_in_c.Chars.{codes}
use database_in_c.Ast.{ColumnDefinition, column_integer}
use database_in_c.Page.{zero_page}
use database_in_c.Pager.{Pager, pager_allocate_page, pager_get_page, load_page, cache_page}
use database_in_c.Catalog.{catalog_node_find_table}
use database_in_c.Table.{command_success, deref, catalog_of}
use database_in_c.Delete.{done}
use database_in_c.Create.{create_table}
use database_in_c.Create.Find.{create_table-catalog_node_find_table}

abbrev empty_pager : Pager
empty_pager = record {
  file = record { content = λ _. zero_page; bytes_read = λ _. 0 };
  file_length = 0;
  pages = λ m. if m == 0 then some zero_page else none;
  page_dirty = λ _. false;
  num_pages = 1;
}

abbrev id_column : List ColumnDefinition
id_column = record { name = codes "id"; column_type = column_integer; is_primary = true } ∷ []

abbrev allocated : Pager
allocated = (pager_allocate_page empty_pager).0

empty-tables : (catalog_of empty_pager).num_tables ≡ 0
unfolding deref zero_page
empty-tables = refl

empty-name :
    ((catalog_of empty_pager).tables (catalog_of empty_pager).num_tables).name ≡ replicate 32 0
unfolding deref zero_page
empty-name = refl

empty-loads :
    pager_get_page (pager_allocate_page empty_pager).0 (pager_allocate_page empty_pager).1
    ≡ some (cache_page allocated 1 zero_page, zero_page)
unfolding pager_get_page load_page pager_allocate_page
empty-loads = refl

create_table-catalog_node_find_table_example :
    (pager' : Pager) × (create_table empty_pager (codes "ab") id_column
      ≡ done (pager', command_success))
    × ((catalog_of pager').num_tables ≡ (catalog_of empty_pager).num_tables + 1)
    × (catalog_node_find_table (catalog_of pager') (codes "ab")
        ≡ (catalog_of empty_pager).num_tables)
create_table-catalog_node_find_table_example =
    create_table-catalog_node_find_table empty_pager (cache_page allocated 1 zero_page) zero_page
      (codes "ab") id_column (omega (arith, empty-tables)) empty-loads
      ((λ e. ground arith), ((λ e. ground arith), tt)) (omega arith) (omega arith, tt) empty-name
      (λ i p. absurd (omega (arith, empty-tables)))
