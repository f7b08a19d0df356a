-- ===== src/Session/Durable.antt =====
-- Sessions of src/main.c that end with `.exit`: what they leave in the file.
use database_in_c.Prelude.{
  ℕ, ◌+◌, ◌*◌, ◌%◌, ◌^◌, ◌<◌, ◌≤◌, ◌≡◌, refl, ap, sym, subst, ◌∙◌, length, arith, false, List, [],
  ◌∷◌, some, get_elem?, ◌==◌, ℤ,
}
use database_in_c.Chars.{Bytes, codes}
use database_in_c.Ast.{
  ColumnType, Expr, literal_int, Statement, insert, select, create_table, update_table,
  delete_table,
}
use database_in_c.Row.{Row, serialize_row, row_size}
use database_in_c.Page.{Page, page_size, node_leaf, leaf_node_max_cells}
use database_in_c.Pager.{Pager, File, pager_open, pager_get_page, pager_close, cache_page}
use database_in_c.Pager.Close.{pager_get_page-pager_close}
use database_in_c.Catalog.{catalog_node_find_table, uint32_max}
use database_in_c.Table.{Table, CommandResult, command_success, deref, catalog_of, table_types}
use database_in_c.Btree.Leaf.Insert.{IsLeaf, IsAbsent, leaf_cell, cells_of, insert_cell}
use database_in_c.Delete.{done}
use database_in_c.Cursor.{entry_of}
use database_in_c.Cursor.Scan.{IsCached, pager_get_page-cached}
use database_in_c.Insert.{row_values, insert_command}
use database_in_c.Insert.Values.{AreLiterals}
use database_in_c.Insert.LeafRoot.{insert_command-insert_cell}
use database_in_c.Lexer.Spell.{spell}
use database_in_c.Parser.Print.{HasText, statement_lexemes, print}
use database_in_c.Command.{
  found_table, Output, no_message, execute, on_catalog, find_and_run, run_on_table, process_command,
}
use database_in_c.Command.Text.{process_command-print}
use database_in_c.Command.Meta.{MetaReply, silent, do_meta_command}
use database_in_c.Session.{Report, command_report, meta_report, main_loop}

-- The text of a statement starts with a blank, and so is neither empty nor a meta command.
print-blank : (s : Statement) → (text : Bytes) × (print s ≡ b' ' ∷ text)
unfolding statement_lexemes spell
print-blank (insert name values) = (_, refl)
print-blank (select name is_star columns c) = (_, refl)
print-blank (create_table name columns) = (_, refl)
print-blank (update_table name columns values c) = (_, refl)
print-blank (delete_table name c) = (_, refl)

exit_loop :
    (debug_btree : Pager → MetaReply) (fuel : ℕ) (lines : List Bytes) (pager : Pager)
    → main_loop debug_btree fuel (codes ".exit" ∷ lines) pager
      ≡ done (pager_close pager, meta_report silent command_success ∷ [])
unfolding main_loop do_meta_command
exit_loop debug_btree fuel lines pager = refl

line_loop :
    (debug_btree : Pager → MetaReply) (fuel : ℕ) (text : Bytes) (lines : List Bytes)
    (pager pager' : Pager) (output : Output) (result : CommandResult) (file : File)
    (reports : List Report)
    → process_command fuel (b' ' ∷ text) pager ≡ done (pager', output, result)
    → main_loop debug_btree fuel lines pager' ≡ done (file, reports)
    → main_loop debug_btree fuel ((b' ' ∷ text) ∷ lines) pager
      ≡ done (file, command_report output result ∷ reports)
unfolding main_loop
line_loop debug_btree fuel text lines pager pager' output result file reports e rest =
    let more : (length (b' ' ∷ text) == 0) ≡ false = ground arith in
    rw (more, main_loop, e, rest) refl

-- A statement that is typed in, and `.exit` behind it.
statement_loop :
    (debug_btree : Pager → MetaReply) (fuel : ℕ) (s : Statement) (lines : List Bytes)
    (pager pager' : Pager) (output : Output) (result : CommandResult)
    → HasText s
    → execute fuel s pager ≡ done (pager', output, result)
    → main_loop debug_btree fuel (print s ∷ codes ".exit" ∷ lines) pager
      ≡ done (
        pager_close pager',
        command_report output result ∷ meta_report silent command_success ∷ [],
      )
statement_loop debug_btree fuel s lines pager pager' output result h e =
    let (text, blank) = print-blank s in
    subst
      (λ line.
        main_loop debug_btree fuel (line ∷ codes ".exit" ∷ lines) pager
        ≡ done (
          pager_close pager',
          command_report output result ∷ meta_report silent command_success ∷ [],
        ))
      (sym blank)
      (line_loop debug_btree fuel text (codes ".exit" ∷ lines) pager pager' output result
        (pager_close pager') _
        (ap (λ line. process_command fuel line pager) (sym blank)
          ∙ process_command-print fuel s pager h
          ∙ e)
        (exit_loop debug_btree fuel lines pager'))

execute-insert :
    (fuel : ℕ) (name : Bytes) (values : List Expr) (pager pager' : Pager)
    → IsCached pager 0
    → (catalog_node_find_table (catalog_of pager) name == uint32_max) ≡ false
    → insert_command fuel (found_table (catalog_of pager) name) name values pager
      ≡ done (pager', command_success)
    → execute fuel (insert name values) pager ≡ done (pager', no_message, command_success)
unfolding execute on_catalog find_and_run run_on_table
execute-insert fuel name values pager pager' cached known e =
    rw (execute, pager_get_page-cached pager 0 cached, execute, known, e) refl

module _ (debug_btree : Pager → MetaReply) (fuel : ℕ) (name : Bytes) (values : List Expr) (key : ℤ)
    (pager : Pager) (lines : List Bytes) (file_length : ℕ) where
  abbrev table : Table
  table = found_table (catalog_of pager) name

  abbrev root : ℕ
  root = table.root_page_num

  abbrev types : List ColumnType
  types = table_types pager table

  -- An INSERT that is typed in and followed by `.exit`, whatever lines come behind, ends the
  -- session, and a pager opened on the file it leaves gives for the table's root a leaf of the table
  -- whose cells are the old ones with the row of the literals inserted in order of the keys. The
  -- statement has a text, the table is in the catalog of the cached page 0, its tree is one cached
  -- leaf that has room and does not have the key, the values are literals of the columns' types with
  -- an integer for the primary key, and the length of the file, as a `uint32_t`, covers the leaf.
  pub insert-durable :
      HasText (insert name values)
      → IsCached pager 0
      → (catalog_node_find_table (catalog_of pager) name == uint32_max) ≡ false
      → 0 < fuel
      → IsCached pager root
      → (deref pager root).node_type ≡ node_leaf
      → AreLiterals types values
      → get_elem? values (entry_of pager table).primary_key_column ≡ some (literal_int key)
      → IsLeaf types (deref pager root)
      → IsAbsent key (deref pager root)
      → (deref pager root).num_cells < leaf_node_max_cells (row_size types)
      → page_size * (root + 1) ≤ file_length % 2 ^ 32
      → (row : Row) × (file : File) × (reports : List Report) × (leaf : Page) × (row_values values
          ≡ some row)
        × (main_loop debug_btree fuel (print (insert name values) ∷ codes ".exit" ∷ lines) pager
            ≡ done (file, reports))
        × (pager_get_page (pager_open file file_length) root
            ≡ some (cache_page (pager_open file file_length) root leaf, leaf))
        × (cells_of leaf
            ≡ insert_cell (leaf_cell key (serialize_row row [])) (cells_of (deref pager root)))
        × IsLeaf types leaf
  insert-durable text catalog known enough cached is_leaf literals keyed leaf absent room covered =
      let (row, pager', made, inserted, contents, leaf', dirty, stored) =
        insert_command-insert_cell fuel table values key pager enough cached is_leaf literals keyed
          leaf absent room in
      let run = execute-insert fuel name values pager pager' catalog known inserted in
      (
        row,
        pager_close pager',
        _,
        deref pager' root,
        made,
        statement_loop debug_btree fuel (insert name values) lines pager pager' no_message
            command_success text run,
        pager_get_page-pager_close pager' root (deref pager' root) file_length stored.0 dirty
            stored.1 covered,
        contents,
        leaf',
      )
