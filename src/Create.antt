-- ===== src/Create.antt =====
-- `create_table` of src/table.c.
pub mod Find
use database_in_c.Prelude.{
  ℕ, zero, suc, ◌+◌, ◌-◌, Bool, true, false, List, [], ◌∷◌, ◌++◌, Option, none, some, ltb, leb,
  if◌then◌else◌, length, replicate, update,
}
use database_in_c.Chars.{Bytes}
use database_in_c.Ast.{ColumnDefinition}
use database_in_c.Row.{overlay}
use database_in_c.Page.{
  Page, TableEntry, Catalog, ColumnSlot, column_name_size, max_catalog_tables, leaf_node_init,
}
use database_in_c.Pager.{Pager, pager_allocate_page, pager_get_page, set_page, pager_mark_dirty}
use database_in_c.Table.{CommandResult, command_success, deref, catalog_of}
use database_in_c.Delete.{Outcome, done, undefined}

-- The loop over the column definitions, from slot `i` on: the entry, and whether the loop ran to
-- its end.
unfoldable pub write_columns : ℕ → List ColumnDefinition → TableEntry → TableEntry × Bool
write_columns i [] entry = (entry, true)
write_columns i (definition ∷ columns) entry =
    let slot : ColumnSlot = record {
      name = definition.name ++ replicate (column_name_size - length definition.name) 0;
      type = definition.column_type;
    } in
    let written = record entry {
      columns = update entry.columns i slot;
      primary_key_column = if definition.is_primary then i else entry.primary_key_column;
    } in
    let rest = write_columns (i + 1) columns written in
    if ltb column_name_size (length definition.name) then (entry, false) else rest

-- The entry with the name, the root page and the number of columns, before the loop.
unfoldable pub named_entry : TableEntry → Bytes → ℕ → ℕ → TableEntry
named_entry entry name page_num column_count = record entry {
  name = overlay name entry.name;
  root_page = page_num;
  column_count = column_count;
}

abbrev pub set_catalog : Pager → Catalog → Pager
set_catalog pager catalog = set_page pager 0 (record (deref pager 0) { catalog = catalog })

-- `undefined` is a page that does not load, or a table name that is longer than its field and so
-- runs over the fields behind it.
unfoldable pub create_table :
    Pager → Bytes → List ColumnDefinition → Outcome (Pager × CommandResult)
unfolding write_columns named_entry
create_table pager name columns =
    let catalog = catalog_of pager in
    let number_of_tables = catalog.num_tables in
    let (pager₁, page_num) = pager_allocate_page pager in
    if leb max_catalog_tables number_of_tables
    then done (pager, command_success)
    else elim (pager_get_page pager₁ page_num) [
      | none ↦ undefined
      | some (pager₂, page) ↦
          let pager₃ = set_page pager₂ page_num (leaf_node_init page) in
          let named =
            named_entry (catalog.tables number_of_tables) name page_num (length columns) in
          let (entry, whole) = write_columns 0 columns named in
          let tables = update catalog.tables number_of_tables entry in
          let partial : Catalog = record { num_tables = number_of_tables; tables = tables } in
          let complete : Catalog = record { num_tables = number_of_tables + 1; tables = tables } in
          if ltb column_name_size (length name)
          then undefined
          else (if whole
              then done (
                pager_mark_dirty (pager_mark_dirty (set_catalog pager₃ complete) 0) page_num,
                command_success,
              )
              else done (set_catalog pager₃ partial, command_success))
    ]
