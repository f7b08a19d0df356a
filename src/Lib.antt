-- ===== src/Lib.antt =====
-- A model of a small SQL database in C: a tokenizer, a B+ tree of rows over a page cache, and the
-- commands that create tables and insert, select, update and delete rows. The parts and the files
-- that model them:
--
--   Prelude      names, tests, lists, integers and arrays that the modules share
--   Chars        the C library's tests of characters, strncasecmp, strtol and number formats
--   Lexer        src/lexer.c: get_next_token, token_type_name and the loop of debug_tokens
--   Ast          include/ast.h: expressions and statements; Print has ast_print of src/ast.c
--   Parser       src/parser.c: all statements; Print and RoundTrip say SQL text and read it back
--   Row          include/table.h and serialize_row, deserialize_row of src/table.c
--   Page         include/btree.h: the layout of a page, and the initialisers of src/btree.c
--   Pager        src/pager.c: the cache of pages over the file
--   Catalog      the lookups in the catalog of page 0, src/btree.c
--   Table        include/table.h, include/command_result.h, and reads through page pointers
--   Btree        src/btree.c: Search, Leaf, Internal, Descent and Split
--   Where        row_matches_where of src/table.c
--   Delete       delete_command of src/table.c
--   Insert       insert_command of src/table.c
--   Create       create_table of src/table.c
--   Update       update_command of src/table.c
--   Cursor       the cursors of src/table.c and the loop over their rows in src/command.c
--   Plan         build_plan, build_cursor, plan_print of src/ast.c, validate_columns of src/btree.c,
--                and the SELECT branch of process_command in src/command.c
--   Command      process_command and do_meta_command of src/command.c, with debug_ast of src/lexer.c
--                and print_table_schema of src/ast.c
--   Session      the loop of main in src/main.c
--   Tests        concrete inputs
--
-- A command reads its table from the catalog, goes down the tree through the page cache to a leaf,
-- and changes or reads cells; a SELECT is planned, validated and pulled row by row through cursors.
-- The pager is passed from call to call. A function that the C code writes with a pointer to a page
-- takes the page number, since a page in the cache is never evicted or moved; `deref` reads the page
-- and `set_page` writes it. A page is a record of the fields that the accessors name. Fields that
-- share an offset are one field (`link`), but leaf cells, internal cells and the catalog, which share
-- bytes too, are kept apart, since a page keeps its kind except where `split_leaf_node` and
-- `split_internal_node` clear it. The array of cells goes on behind `num_cells`, so that stale cells
-- can be read. A cell never written holds no bytes, which stands for zeros.
--
-- An `int64_t` is an integer of Prelude, stored as eight bytes of two's complement; sizes, indices and
-- page numbers are natural numbers, which stay below 2 ^ 32 for at most 20000 pages of 4096 bytes. A
-- `char[]` read as a C string ends at its first NUL, or at its end if it has none, where the code
-- reads on; the theorem on the name of a new table asks for a name that leaves room for the NUL. The
-- length of the file is taken modulo 2 ^ 32, as the code stores it. A token's line and column do not
-- overflow.
--
-- Loops that the code bounds by the tree or by the text run on fuel, one unit a round. The fuel of
-- `debug_tokens` and `print_table_schema` is the length of the text and one more, and that of the
-- searches the number of cells; the walks over pages take the fuel as an argument, and the theorems on
-- them ask for more than the levels of the tree and the rows. Undefined behaviour that the code can
-- reach, such as a read of a union's other member, is a result of its own (`undefined`, or `none`).
--
-- A parser's loop has ten units of fuel more than the bytes in front of the cursor: a round takes a
-- comma from the text or adds one of at most eight elements. A session is a list of lines, without
-- the newline, that ends where the input ends; its result is the file that `pager_close` leaves and
-- what was shown for each line.
--
-- The file is what the operating system returns for a read, a write behind its end fills the gap with
-- zeros, and calls of the system and allocation do not fail. The terminal and the release of memory
-- are not modelled. What is printed is the data that the lines are made of; for the meta commands
-- `lines_of` gives the lines. What `create_table`, `insert_command`, `update_command` and
-- `delete_command` print is left out. The walk of `.btree`, which reads the bytes of the catalog page
-- as a node of a tree, is a parameter, since the catalog and the cells of a page are kept apart.
pub mod Prelude
pub mod Chars
pub mod Lexer
pub mod Ast
pub mod Row
pub mod Page
pub mod Pager
pub mod Parser
pub mod Catalog
pub mod Table
pub mod Btree
pub mod Where
pub mod Delete
pub mod Insert
pub mod Update
pub mod Create
pub mod Cursor
pub mod Plan
pub mod Command
pub mod Session
mod Tests
