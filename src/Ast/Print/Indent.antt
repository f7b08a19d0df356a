-- ===== src/Ast/Print/Indent.antt =====
-- The indentation of what `ast_print_node` of src/ast.c prints.
use mathlib.Core.List.{map-append}
use database_in_c.Prelude.{ℕ, suc, List, [], ◌∷◌, ◌++◌, none, some, map, ◌≡◌, refl}
use database_in_c.Chars.{Bytes, codes}
use database_in_c.Ast.{
  Expr, literal_int, literal_string, literal_boolean, column, equals, ColumnDefinition, Statement,
  insert, select, create_table, update_table, delete_table,
}
use database_in_c.Ast.Print.{
  ast_print_indent, ast_print_node, print_column_definition, print_all, print_statement, line,
}

-- The lines with two more blanks in front.
abbrev pub deeper : List Bytes → List Bytes
deeper lines = map (λ l. codes "  " ++ l) lines

-- One level deeper, every line of the node has two more blanks.
pub ast_print_node-suc :
    (depth : ℕ) (e : Expr) → ast_print_node (suc depth) e ≡ deeper (ast_print_node depth e)
unfolding ast_print_node ast_print_indent
ast_print_node-suc depth (literal_int n) = refl
ast_print_node-suc depth (literal_string text) = refl
ast_print_node-suc depth (literal_boolean b) = refl
ast_print_node-suc depth (column name) = refl
ast_print_node-suc depth (equals left right) = rw (
  map-append,
  ast_print_node-suc (suc (suc depth)) left,
  ast_print_node-suc (suc (suc depth)) right,
)

pub print_all-suc :
    {A : Type 0} (print print' : A → List Bytes)
    → ((x : A) → print' x ≡ deeper (print x))
    → (nodes : List A) → print_all print' nodes ≡ deeper (print_all print nodes)
unfolding print_all
print_all-suc print print' h [] = refl
print_all-suc print print' h (x ∷ nodes) = rw (map-append, h x, print_all-suc print print' h nodes)

-- The same for a loop over expressions.
pub expressions-suc :
    (depth : ℕ) (es : List Expr)
    → print_all (ast_print_node (suc depth)) es ≡ deeper (print_all (ast_print_node depth) es)
expressions-suc depth es =
    print_all-suc (ast_print_node depth) (ast_print_node (suc depth)) (ast_print_node-suc depth) es

print_column_definition-suc :
    (depth : ℕ) (c : ColumnDefinition)
    → print_column_definition (suc depth) c ≡ deeper (print_column_definition depth c)
unfolding print_column_definition ast_print_indent
print_column_definition-suc depth c = refl

pub print_statement-suc :
    (depth : ℕ) (s : Statement) → print_statement (suc depth) s ≡ deeper (print_statement depth s)
unfolding print_statement ast_print_indent
print_statement-suc depth (insert table values) =
    rw (map-append, expressions-suc (suc (suc depth)) values)
print_statement-suc depth (select table is_star columns none) =
    rw (map-append, expressions-suc (suc (suc depth)) columns)
print_statement-suc depth (select table is_star columns (some e)) =
    let split =
      map-append (λ l. codes "  " ++ l) (ast_print_node (suc (suc depth)) e)
        (line (suc depth) (codes "columns: [")
          ∷ print_all (ast_print_node (suc (suc depth))) columns) in
    rw (
      map-append,
      split,
      ast_print_node-suc (suc (suc depth)) e,
      expressions-suc (suc (suc depth)) columns,
    )
print_statement-suc depth (create_table table columns) = rw (
  map-append,
  print_all-suc (print_column_definition (suc (suc depth)))
      (print_column_definition (suc (suc (suc depth))))
      (print_column_definition-suc (suc (suc depth))) columns,
)
print_statement-suc depth (update_table table columns values condition) = refl
print_statement-suc depth (delete_table table condition) = refl
