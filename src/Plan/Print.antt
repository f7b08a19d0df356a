-- ===== src/Plan/Print.antt =====
-- `plan_node_type_name` and `plan_print_node` of src/ast.c. What is printed is a list of lines.
use mathlib.Core.List.{map-append}
use database_in_c.Prelude.{ℕ, suc, List, [], ◌∷◌, ◌++◌, ◌≡◌, refl}
use database_in_c.Chars.{Bytes, codes, digits, signed_digits}
use database_in_c.Ast.Print.{ast_print_indent, ast_print_node, print_all, line}
use database_in_c.Ast.Print.Indent.{deeper, ast_print_node-suc, expressions-suc}
use database_in_c.Plan.{
  PlanNode, plan_table_scan, plan_pk_lookup, plan_filter, plan_projection, plan_insert,
}

abbrev pub plan_node_type_name : PlanNode → Bytes
plan_node_type_name (plan_table_scan root row_size) = codes "PLAN_TABLE_SCAN"
plan_node_type_name (plan_pk_lookup root key row_size) = codes "PLAN_PK_LOOKUP"
plan_node_type_name (plan_filter child condition) = codes "PLAN_FILTER"
plan_node_type_name (plan_projection child columns) = codes "PLAN_PROJECTION"
plan_node_type_name (plan_insert root values) = codes "PLAN_INSERT"

-- The first line of a node.
abbrev pub plan_line : ℕ → PlanNode → Bytes
plan_line depth node =
    line depth (codes "PlanNode { type: " ++ plan_node_type_name node ++ codes " }")

unfoldable pub plan_print_node : ℕ → PlanNode → List Bytes
unfolding ast_print_node print_all
plan_print_node depth (plan_table_scan root row_size) =
    plan_line depth (plan_table_scan root row_size)
    ∷ line (suc depth) (codes "root_page_num: " ++ digits root)
    ∷ line (suc depth) (codes "row_size: " ++ digits row_size)
    ∷ []
plan_print_node depth (plan_pk_lookup root key row_size) =
    plan_line depth (plan_pk_lookup root key row_size)
    ∷ line (suc depth) (codes "root_page_num: " ++ digits root)
    ∷ line (suc depth) (codes "key: " ++ signed_digits key)
    ∷ line (suc depth) (codes "row_size: " ++ digits row_size)
    ∷ []
plan_print_node depth (plan_filter child condition) =
    plan_line depth (plan_filter child condition)
      ∷ line (suc depth) (codes "condition:")
      ∷ ast_print_node (suc (suc depth)) condition
    ++ line (suc depth) (codes "child:") ∷ plan_print_node (suc (suc depth)) child
plan_print_node depth (plan_projection child columns) =
    plan_line depth (plan_projection child columns)
      ∷ line (suc depth) (codes "columns: [")
      ∷ print_all (ast_print_node (suc (suc depth))) columns
    ++ line (suc depth) (codes "]")
      ∷ line (suc depth) (codes "child:")
      ∷ plan_print_node (suc (suc depth)) child
plan_print_node depth (plan_insert root values) =
    plan_line depth (plan_insert root values)
      ∷ line (suc depth) (codes "root_page_num: " ++ digits root)
      ∷ line (suc depth) (codes "values: [")
      ∷ print_all (ast_print_node (suc (suc depth))) values
    ++ line (suc depth) (codes "]") ∷ []

abbrev pub plan_print : PlanNode → List Bytes
plan_print node = plan_print_node 0 node

-- One level deeper, every line of the plan has two more blanks.
plan_print_node-suc :
    (depth : ℕ) (node : PlanNode)
    → plan_print_node (suc depth) node ≡ deeper (plan_print_node depth node)
unfolding plan_print_node ast_print_indent
plan_print_node-suc depth (plan_table_scan root row_size) = refl
plan_print_node-suc depth (plan_pk_lookup root key row_size) = refl
plan_print_node-suc depth (plan_filter child condition) = rw (
  map-append,
  ast_print_node-suc (suc (suc depth)) condition,
  plan_print_node-suc (suc (suc depth)) child,
)
plan_print_node-suc depth (plan_projection child columns) = rw (
  map-append,
  expressions-suc (suc (suc depth)) columns,
  plan_print_node-suc (suc (suc depth)) child,
)
plan_print_node-suc depth (plan_insert root values) =
    rw (map-append, expressions-suc (suc (suc depth)) values)
