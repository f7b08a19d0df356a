-- ===== src/Tests/Printed.antt =====
-- The lines that the meta commands print.
use database_in_c.Prelude.{◌≡◌, refl, [], ◌∷◌, pos}
use database_in_c.Chars.{codes, digits_loop}
use database_in_c.Ast.Print.{ast_print_indent}
use database_in_c.Ast.{column, equals, literal_int, column_integer, column_text}
use database_in_c.Plan.{PlanNode, plan_table_scan, plan_filter, plan_projection}
use database_in_c.Plan.Print.{plan_print, plan_print_node}
use database_in_c.Command.Meta.{lines_of, schema}

abbrev named_plan : PlanNode
named_plan =
    plan_projection
      (plan_filter (plan_table_scan 1 264) (equals (column (codes "id")) (literal_int (pos 42))))
      (column (codes "name") ∷ [])

plan_print_example :
    plan_print named_plan
    ≡ codes "PlanNode { type: PLAN_PROJECTION }"
      ∷ codes "  columns: ["
      ∷ codes "    AstNode { type: EXPR_COLUMN }"
      ∷ codes "      name: name"
      ∷ codes "  ]"
      ∷ codes "  child:"
      ∷ codes "    PlanNode { type: PLAN_FILTER }"
      ∷ codes "      condition:"
      ∷ codes "        AstNode { type: EXPR_EQUALS }"
      ∷ codes "          left:"
      ∷ codes "            AstNode { type: EXPR_COLUMN }"
      ∷ codes "              name: id"
      ∷ codes "          right:"
      ∷ codes "            AstNode { type: EXPR_LITERAL_INT }"
      ∷ codes "              value: 42"
      ∷ codes "      child:"
      ∷ codes "        PlanNode { type: PLAN_TABLE_SCAN }"
      ∷ codes "          root_page_num: 1"
      ∷ codes "          row_size: 264"
      ∷ []
unfolding plan_print_node ast_print_indent digits_loop
plan_print_example = refl

schema_example :
    lines_of (schema ((codes "id", column_integer) ∷ (codes "name", column_text) ∷ []))
    ≡ codes "Column Name id, its type is INTEGER" ∷ codes "Column Name name, its type is TEXT" ∷ []
unfolding lines_of
schema_example = refl
