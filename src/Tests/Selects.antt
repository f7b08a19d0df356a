-- ===== src/Tests/Selects.antt =====
-- The text of a SELECT on the table of users, through `process_command` of src/command.c.
use database_in_c.Prelude.{◌≡◌, refl, arith, map, [], some, true, false, ◌==◌}
use database_in_c.Chars.{codes, is_alnum, is_digit, eq_ignoring_case, to_lower}
use database_in_c.Ast.{select, column, literal_boolean}
use database_in_c.Lexer.{keyword, is_digits, classify}
use database_in_c.Lexer.Spell.{word_type}
use database_in_c.Catalog.{catalog_node_find_table, c_string, uint32_max}
use database_in_c.Table.{command_success, deref, catalog_of}
use database_in_c.Delete.{done}
use database_in_c.Cursor.Filter.{keep_rows}
use database_in_c.Cursor.Scan.{IsCached, at_leaf}
use database_in_c.Parser.Print.{HasText, IsName, print}
use database_in_c.Command.{rows, process_command}
use database_in_c.Command.Select.{process_command-select}
use database_in_c.Tests.Users.{users_pager, users-IsCached, users-leaf, users-IsChain, stored_rows}
use database_in_c.Tests.Queries.{
  name_column, active_condition, is_active, second_value, active-other, active-valid,
  stored_rows-decided, stored_rows-projected, stored_rows-short,
}

users-IsName : IsName (codes "Users")
unfolding word_type classify keyword is_digits eq_ignoring_case to_lower is_alnum is_digit
users-IsName = ((refl, (refl, (refl, (refl, (refl, tt))))), refl)

first-IsName : IsName (codes "Name")
unfolding word_type classify keyword is_digits eq_ignoring_case to_lower is_alnum is_digit
first-IsName = ((refl, (refl, (refl, (refl, tt)))), refl)

active-IsName : IsName (codes "ACTIVE")
unfolding word_type classify keyword is_digits eq_ignoring_case to_lower is_alnum is_digit
active-IsName = ((refl, (refl, (refl, (refl, (refl, (refl, tt)))))), refl)

catalog-IsCached : IsCached users_pager 0
unfolding deref
catalog-IsCached = (omega arith, refl)

users-known :
    (catalog_node_find_table (catalog_of users_pager) (codes "Users") == uint32_max) ≡ false
unfolding deref catalog_node_find_table c_string
users-known = refl

select-HasText : HasText (select (codes "Users") false name_column (some active_condition))
select-HasText = (
  users-IsName,
  (((tt, first-IsName), tt), omega arith),
  λ star. absurd (ground (arith, star)),
  (active-IsName, tt),
)

-- SELECT Name FROM Users WHERE ACTIVE = TRUE
process_command-select_example :
    process_command 5
      (print (select (codes "Users") false name_column (some active_condition)))
      users_pager
    ≡ done (users_pager, rows (map second_value (keep_rows is_active stored_rows)), command_success)
unfolding deref catalog_node_find_table c_string
process_command-select_example =
    process_command-select 5 users_pager (codes "Users") 1 0 [] (codes "ACTIVE") false
      (literal_boolean true) (column (codes "Name")) [] is_active second_value catalog-IsCached
      users-known users-IsCached (at_leaf refl users-leaf) users-IsChain select-HasText
      (omega arith) stored_rows-short active-other active-valid stored_rows-decided
      stored_rows-projected
