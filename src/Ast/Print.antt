-- ===== src/Ast/Print.antt =====
-- `ast_node_type_by_name`, `column_type_name` and `ast_print_node` of src/ast.c. What is printed is
-- a list of lines, each without its newline. `%.*s` of a name prints the bytes of the name, since no
-- name of a parsed text holds a NUL.
pub mod Indent
use database_in_c.Prelude.{
  ℕ, zero, suc, ◌+◌, Bool, true, false, List, [], ◌∷◌, ◌++◌, Option, none, some, map, if◌then◌else◌,
  ◌≡◌, refl, ap, ap₂, sym, ◌∙◌, append_assoc,
}
use database_in_c.Chars.{Bytes, codes, signed_digits}
use database_in_c.Ast.{
  Expr, literal_int, literal_string, literal_boolean, column, equals, ColumnType, column_integer,
  column_text, column_boolean, ColumnDefinition, Statement, insert, select, create_table,
  update_table, delete_table,
}

pub data AstNodeType : Type 0 where
  ast_insert ast_select ast_create_table ast_update ast_set : AstNodeType
  expr_literal_int expr_literal_string expr_literal_boolean expr_column : AstNodeType
  expr_equals expr_column_definition ast_delete : AstNodeType

-- The switch has no case for the other three types.
abbrev pub ast_node_type_by_name : AstNodeType → Bytes
ast_node_type_by_name ast_insert = codes "AST_INSERT"
ast_node_type_by_name ast_select = codes "AST_SELECT"
ast_node_type_by_name ast_create_table = codes "AST_CREATE_TABLE"
ast_node_type_by_name expr_literal_int = codes "EXPR_LITERAL_INT"
ast_node_type_by_name expr_literal_string = codes "EXPR_LITERAL_STRING"
ast_node_type_by_name expr_literal_boolean = codes "EXPR_LITERAL_BOOLEAN"
ast_node_type_by_name expr_column = codes "EXPR_COLUMN"
ast_node_type_by_name expr_equals = codes "EXPR_EQUALS"
ast_node_type_by_name expr_column_definition = codes "EXPR_COLUMN_DEFINITION"
ast_node_type_by_name ast_update = codes "AST_UNKNOWN"
ast_node_type_by_name ast_set = codes "AST_UNKNOWN"
ast_node_type_by_name ast_delete = codes "AST_UNKNOWN"

abbrev pub column_type_name : ColumnType → Bytes
column_type_name column_integer = codes "INTEGER"
column_type_name column_text = codes "TEXT"
column_type_name column_boolean = codes "BOOLEAN"

unfoldable pub ast_print_indent : ℕ → Bytes
ast_print_indent zero = []
ast_print_indent (suc depth) = codes "  " ++ ast_print_indent depth

-- A line that starts with `ast_print_indent depth`.
abbrev pub line : ℕ → Bytes → Bytes
line depth text = ast_print_indent depth ++ text

-- The first line of a node.
abbrev pub type_line : ℕ → AstNodeType → Bytes
type_line depth type =
    line depth (codes "AstNode { type: " ++ ast_node_type_by_name type ++ codes " }")

abbrev pub bool_text : Bool → Bytes
bool_text b = if b then codes "true" else codes "false"

-- The cases of the expressions.
unfoldable pub ast_print_node : ℕ → Expr → List Bytes
ast_print_node depth (literal_int n) =
    type_line depth expr_literal_int ∷ line (suc depth) (codes "value: " ++ signed_digits n) ∷ []
ast_print_node depth (literal_string text) =
    type_line depth expr_literal_string ∷ line (suc depth) (codes "value: " ++ text) ∷ []
ast_print_node depth (literal_boolean b) =
    type_line depth expr_literal_boolean ∷ line (suc depth) (codes "value: " ++ bool_text b) ∷ []
ast_print_node depth (column name) =
    type_line depth expr_column ∷ line (suc depth) (codes "name: " ++ name) ∷ []
ast_print_node depth (equals left right) =
    type_line depth expr_equals
      ∷ line (suc depth) (codes "left:")
      ∷ ast_print_node (suc (suc depth)) left
    ++ line (suc depth) (codes "right:") ∷ ast_print_node (suc (suc depth)) right

-- The case of a column definition.
unfoldable pub print_column_definition : ℕ → ColumnDefinition → List Bytes
print_column_definition depth c =
    type_line depth expr_column_definition
    ∷ line (suc depth) (codes "name: " ++ c.name)
    ∷ line (suc depth) (codes "type: " ++ column_type_name c.column_type)
    ∷ line (suc depth) (codes "is_primary: " ++ bool_text c.is_primary)
    ∷ []

-- The loop over a list of nodes.
unfoldable pub print_all : {A : Type 0} → (A → List Bytes) → List A → List Bytes
print_all print [] = []
print_all print (x ∷ nodes) = print x ++ print_all print nodes

-- A node that may be null.
unfoldable pub print_optional : ℕ → Option Expr → List Bytes
unfolding ast_print_node
print_optional depth none = line depth (codes "NULL") ∷ []
print_optional depth (some e) = ast_print_node depth e

-- The cases of the statements. The switch has none for UPDATE and DELETE.
unfoldable pub print_statement : ℕ → Statement → List Bytes
unfolding print_all print_optional print_column_definition
print_statement depth (insert table values) =
    type_line depth ast_insert
      ∷ line (suc depth) (codes "table: " ++ table)
      ∷ line (suc depth) (codes "values: [")
      ∷ print_all (ast_print_node (suc (suc depth))) values
    ++ line (suc depth) (codes "]") ∷ []
print_statement depth (select table is_star columns condition) =
    type_line depth ast_select
      ∷ line (suc depth) (codes "table: " ++ table)
      ∷ line (suc depth) (codes "is_star: " ++ bool_text is_star)
      ∷ line (suc depth) (codes "where:")
      ∷ print_optional (suc (suc depth)) condition
    ++ line (suc depth) (codes "columns: [") ∷ print_all (ast_print_node (suc (suc depth))) columns
    ++ line (suc depth) (codes "]") ∷ []
print_statement depth (create_table table columns) =
    type_line depth ast_create_table
      ∷ line (suc depth) (codes "table: " ++ table)
      ∷ line (suc depth) (codes "columns: [")
      ∷ print_all (print_column_definition (suc (suc depth))) columns
    ++ line (suc depth) (codes "]") ∷ []
print_statement depth (update_table table columns values condition) =
    type_line depth ast_update ∷ []
print_statement depth (delete_table table condition) = type_line depth ast_delete ∷ []

abbrev pub ast_print : Statement → List Bytes
ast_print s = print_statement 0 s
