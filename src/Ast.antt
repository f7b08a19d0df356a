-- ===== src/Ast.antt =====
-- The syntax tree of include/ast.h. Its one node type is two here: the expressions, which nest,
-- and the statements, which hold expressions. A name or text with its length is its bytes.
pub mod Print
use database_in_c.Prelude.{Bool, List, Option, none, some, ℤ}
use database_in_c.Chars.{Bytes}

pub data ColumnType : Type 0 where
  column_integer column_text column_boolean : ColumnType

-- EXPR_LITERAL_INT, EXPR_LITERAL_STRING, EXPR_LITERAL_BOOLEAN, EXPR_COLUMN and EXPR_EQUALS.
pub data Expr : Type 0 where
  literal_int : ℤ → Expr
  literal_string : Bytes → Expr
  literal_boolean : Bool → Expr
  column : Bytes → Expr
  equals : Expr → Expr → Expr

-- EXPR_COLUMN_DEFINITION.
pub record ColumnDefinition : Type 0 where
  pub name : Bytes
  pub column_type : ColumnType
  pub is_primary : Bool

-- AST_INSERT, AST_SELECT, AST_CREATE_TABLE, AST_UPDATE and AST_DELETE. A null `where` is `none`.
pub data Statement : Type 0 where
  insert : (table : Bytes) → (values : List Expr) → Statement
  select :
      (table : Bytes)
      → (is_star : Bool) → (columns : List Expr) → (where_clause : Option Expr) → Statement
  create_table : (table : Bytes) → (columns : List ColumnDefinition) → Statement
  update_table :
      (table : Bytes) → (columns values : List Expr) → (where_clause : Option Expr) → Statement
  delete_table : (table : Bytes) → (where_clause : Option Expr) → Statement

-- Reads of one member of the union `as`. Where another member was written the behaviour is
-- undefined, which is `none`.
abbrev pub as_equals : Expr → Option (Expr × Expr)
as_equals (equals left right) = some (left, right)
as_equals _ = none

abbrev pub as_column : Expr → Option Bytes
as_column (column name) = some name
as_column _ = none

abbrev pub as_literal_int : Expr → Option ℤ
as_literal_int (literal_int n) = some n
as_literal_int _ = none

abbrev pub as_literal_string : Expr → Option Bytes
as_literal_string (literal_string text) = some text
as_literal_string _ = none

abbrev pub as_literal_boolean : Expr → Option Bool
as_literal_boolean (literal_boolean b) = some b
as_literal_boolean _ = none
