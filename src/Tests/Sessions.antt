-- ===== src/Tests/Sessions.antt =====
-- The parser of src/parser.c and `process_command` of src/command.c on concrete texts, and a session
-- of src/main.c on the table of long rows.
use database_in_c.Prelude.{true, ◌≡◌, refl, false, some, List, [], ◌∷◌, pos, arith}
use database_in_c.Chars.{Bytes, codes, is_alnum, is_digit, eq_ignoring_case, to_lower}
use database_in_c.Ast.{literal_string, Expr, literal_int, column, equals, Statement, insert, select}
use database_in_c.Lexer.{
  tokenizer_init, no_token, get_next_token, keyword, is_digits, classify, token_update, punctuation,
}
use database_in_c.Lexer.Spell.{
  Lexeme, mark, word, quoted, spell, ReadsAs, word_type, get_next_token-spell,
}
use database_in_c.Row.{Row, serialize_row}
use database_in_c.Page.{Page}
use database_in_c.Pager.{Pager, File, pager_open, pager_get_page, cache_page}
use database_in_c.Catalog.{catalog_node_find_table, c_string}
use database_in_c.Table.{deref, table_types}
use database_in_c.Btree.Leaf.Insert.{IsLeaf, leaf_cell, cells_of, insert_cell}
use database_in_c.Delete.{done, undefined}
use database_in_c.Cursor.Scan.{IsCached}
use database_in_c.Insert.{row_values}
use database_in_c.Parser.{Parser, parsed, parser_init, sees}
use database_in_c.Parser.Print.{HasText, IsName, print}
use database_in_c.Command.{parse_statement, process_command}
use database_in_c.Command.Statements.{PostOption, parse_statement-IsStatement}
use database_in_c.Command.Text.{parse_statement-print}
use database_in_c.Command.Undefined.{
  head_lexemes, process_command-unset_where, process_command-no_equation,
}
use database_in_c.Command.Meta.{MetaReply}
use database_in_c.Session.{Report, main_loop}
use database_in_c.Session.Durable.{insert-durable}
use database_in_c.Tests.Trees.{pager_with, pager_with-IsAbsent, half_num_cells}
use database_in_c.Tests.Inserts.{
  long_table, long_values, long_table-IsCached, long_table-leaf, long_table-literals,
  long_table-key, long_table-IsLeaf, long_table-max,
}

abbrev ids : Expr
ids = column (codes "id")

-- SELECT id , name FROM users WHERE id = 7
abbrev query : Statement
query =
    select (codes "users") false (ids ∷ column (codes "name") ∷ [])
      (some (equals ids (literal_int (pos 7))))

users-IsName : IsName (codes "users")
unfolding word_type classify keyword is_digits eq_ignoring_case to_lower is_alnum is_digit
users-IsName = ((refl, (refl, (refl, (refl, (refl, tt))))), refl)

id-IsName : IsName (codes "id")
unfolding word_type classify keyword is_digits eq_ignoring_case to_lower is_alnum is_digit
id-IsName = ((refl, (refl, tt)), refl)

second-IsName : IsName (codes "name")
unfolding word_type classify keyword is_digits eq_ignoring_case to_lower is_alnum is_digit
second-IsName = ((refl, (refl, (refl, (refl, tt)))), refl)

t-IsName : IsName (codes "T")
unfolding word_type classify keyword is_digits eq_ignoring_case to_lower is_alnum is_digit
t-IsName = ((refl, tt), refl)

query-HasText : HasText query
query-HasText = (
  users-IsName,
  (((tt, id-IsName), ((tt, second-IsName), tt)), omega arith),
  λ star. absurd (ground arith),
  (id-IsName, omega arith),
)

parse_statement-print_example :
    (p : Parser) × (parse_statement (parser_init (print query)) ≡ some (parsed query p))
parse_statement-print_example = parse_statement-print query query-HasText

-- UPDATE without a WHERE.
abbrev unset_update : Bytes
unset_update = codes "update users set name = 'bo'"

parse_statement-IsStatement_example :
    PostOption
      (sees (parser_init unset_update) token_update)
      (parse_statement (parser_init unset_update))
parse_statement-IsStatement_example = parse_statement-IsStatement (parser_init unset_update)

pager_with-IsCached : IsCached (pager_with 1) 0
unfolding deref
pager_with-IsCached = (omega arith, refl)

abbrev comma_lexemes : List Lexeme
comma_lexemes = word (codes "id") ∷ mark b',' ∷ quoted (codes "x y") ∷ []

get_next_token-spell_example :
    ReadsAs comma_lexemes (get_next_token (tokenizer_init (spell comma_lexemes)) no_token)
unfolding tokenizer_init punctuation
get_next_token-spell_example =
    get_next_token-spell comma_lexemes (tokenizer_init (spell comma_lexemes)) no_token refl
      (id-IsName.0, (refl, ((refl, (refl, (refl, tt))), tt)))

long_values-HasText : HasText (insert (codes "T") (long_values 20))
long_values-HasText =
    (t-IsName, (omega arith, (tt, (tt, (tt, (tt, (tt, (tt, (tt, tt)))))))), omega arith)

abbrev no_btree : Pager → MetaReply
no_btree pager = undefined

insert-durable_example :
    (row : Row) × (file : File) × (reports : List Report) × (leaf : Page) × (row_values
        (long_values 20)
      ≡ some row)
    × (main_loop no_btree 5
          (print (insert (codes "T") (long_values 20)) ∷ codes ".exit" ∷ codes "x" ∷ [])
          (pager_with 1)
        ≡ done (file, reports))
    × (pager_get_page (pager_open file 8192) 1
        ≡ some (cache_page (pager_open file 8192) 1 leaf, leaf))
    × (cells_of leaf
        ≡ insert_cell
            (leaf_cell (pos 20) (serialize_row row []))
            (cells_of (deref (pager_with 1) 1)))
    × IsLeaf (table_types (pager_with 1) long_table) leaf
unfolding deref catalog_node_find_table c_string
insert-durable_example =
    insert-durable no_btree 5 (codes "T") (long_values 20) (pos 20) (pager_with 1) (codes "x" ∷ [])
      8192 long_values-HasText pager_with-IsCached refl (omega arith) (long_table-IsCached 1)
      (long_table-leaf 1) (long_table-literals 1 20 (omega arith)) (long_table-key 1 20)
      (long_table-IsLeaf 1 (omega arith)) (pager_with-IsAbsent 1 (omega arith))
      (omega (arith, half_num_cells, long_table-max 1)) (omega arith)

-- UPDATE users SET name = 'bo'
process_command-unset_where_example :
    process_command 5
      (spell (
        head_lexemes
          (codes "users")
          (column (codes "name") ∷ [])
          (literal_string (codes "bo") ∷ [])))
      (pager_with 1)
    ≡ undefined
process_command-unset_where_example =
    process_command-unset_where (codes "users") (column (codes "name") ∷ [])
      (literal_string (codes "bo") ∷ []) users-IsName (((tt, second-IsName), tt), omega arith)
      ((refl, (refl, tt)), tt) refl 5 (pager_with 1)

-- SELECT * FROM T WHERE id
process_command-no_equation_example :
    process_command 5 (print (select (codes "T") true [] (some ids))) (pager_with 1) ≡ undefined
unfolding deref catalog_node_find_table c_string
process_command-no_equation_example =
    process_command-no_equation 5 (codes "T") true [] ids (pager_with 1)
      (t-IsName, (tt, omega arith), λ star. refl, id-IsName) (λ h. h) pager_with-IsCached refl
