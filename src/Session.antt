-- ===== src/Session.antt =====
-- The loop of `main` in src/main.c over the lines that `read_input` of src/repl.c gives, from the
-- pager on that `open_database_and_initialize_catalog` leaves to `pager_close`.
pub mod Durable
use database_in_c.Prelude.{
  ℕ, Bool, true, false, List, [], ◌∷◌, Option, none, some, ◌==◌, if◌then◌else◌, length,
}
use database_in_c.Chars.{Bytes}
use database_in_c.Page.{Page, zero_page}
use database_in_c.Pager.{Pager, File, pager_open, pager_get_page, pager_close, set_page}
use database_in_c.Table.{
  CommandResult, command_success, unrecognized_command, id_duplicate_error, leaf_full_error,
  debug_btree_success, internal_node_full_error, debugs_tokens_success, debug_ast_success, failure,
}
use database_in_c.Delete.{Outcome, done, undefined, out_of_fuel, and_then}
use database_in_c.Command.{Output, Reply, process_command}
use database_in_c.Command.Meta.{MetaOutput, MetaReply, do_meta_command}

-- What the session shows of a line.
pub data Report : Type 0 where
  command_report : Output → CommandResult → Report
  meta_report : MetaOutput → CommandResult → Report

-- The bytes of the page are set to zero.
unfoldable pub catalog_node_init : Page → Page
catalog_node_init page = zero_page

-- `undefined` is a page 0 that does not load: the pager is closed there, and `main` goes on with it.
unfoldable pub open_database_and_initialize_catalog : Pager → Outcome Pager
unfolding catalog_node_init
open_database_and_initialize_catalog pager = elim (pager_get_page pager 0) [
  | none ↦ undefined
  | some (pager', page) ↦
      done (if pager.file_length == 0 then set_page pager' 0 (catalog_node_init page) else pager')
]

-- Whether the switch over the result of a meta command ends the session, goes on with the next
-- line, or falls through to `process_command`.
pub data Next : Type 0 where
  leave next_line fall_through : Next

abbrev pub after_meta : CommandResult → Next
after_meta command_success = leave
after_meta unrecognized_command = next_line
after_meta debug_btree_success = next_line
after_meta debugs_tokens_success = next_line
after_meta debug_ast_success = next_line
after_meta id_duplicate_error = fall_through
after_meta leaf_full_error = fall_through
after_meta internal_node_full_error = fall_through
after_meta failure = fall_through

abbrev pub is_meta : Bytes → Bool
is_meta [] = false
is_meta (c ∷ line) = c == b'.'

-- The loop, to the end of the input or to `.exit`: the file, and what was shown for each line. The fuel
-- is for the walks over pages, and `debug_btree` is the walk that `.btree` makes.
unfoldable pub main_loop :
    (Pager → MetaReply) → ℕ → List Bytes → Pager → Outcome (File × List Report)
main_loop debug_btree fuel [] pager = done (pager_close pager, [])
main_loop debug_btree fuel (line ∷ lines) pager =
    let rest = main_loop debug_btree fuel lines in
    let show : Report → Pager → Outcome (File × List Report) =
      λ report pager'. and_then (rest pager') λ (file, reports). done (file, report ∷ reports) in
    let process : Pager → Outcome (File × List Report) = λ pager'.
      and_then (process_command fuel line pager')
        λ (pager'', output, result). show (command_report output result) pager'' in
    if length line == 0
    then rest pager
    else if is_meta line
    then and_then (do_meta_command debug_btree line pager) (λ (pager', output, result).
      elim (after_meta result) [
        | leave ↦ done (pager_close pager', meta_report output result ∷ [])
        | next_line ↦ show (meta_report output result) pager'
        | fall_through ↦ process pager'
      ])
    else process pager

-- A session on a file that opens.
unfoldable pub main_session :
    (Pager → MetaReply) → ℕ → File → ℕ → List Bytes → Outcome (File × List Report)
unfolding main_loop open_database_and_initialize_catalog
main_session debug_btree fuel file file_length lines =
    and_then (open_database_and_initialize_catalog (pager_open file file_length))
      (main_loop debug_btree fuel lines)
