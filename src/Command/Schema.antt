-- ===== src/Command/Schema.antt =====
-- `print_table_schema` of src/ast.c, called by `do_meta_command` of src/command.c, on a text whose
-- bytes the tokenizer knows.
use database_in_c.Prelude.{
  ℕ, zero, suc, ◌+◌, ◌<◌, ◌≡◌, refl, ◌||◌, Bool-cases, inl, inr, some, length, arith, ◌==◌,
}
use database_in_c.Chars.{Bytes}
use database_in_c.Pager.{Pager}
use database_in_c.Catalog.{catalog_node_find_table, uint32_max}
use database_in_c.Table.{catalog_of}
use database_in_c.Lexer.{
  Token, Tokenizer, token_identifier, token_eof, type_is, tokenizer_init, get_next_token, no_token,
}
use database_in_c.Lexer.Loop.{IsKnown, get_next_token-cases}
use database_in_c.Delete.{done}
use database_in_c.Command.Meta.{MetaOutput, name_loop, print_table_schema}

name_loop_total :
    (fuel : ℕ) (t : Tokenizer) (out : Token)
    → IsKnown t.cursor
    → length t.cursor < fuel
    → (token : Token) × (name_loop fuel t out ≡ some token)
unfolding name_loop
name_loop_total zero t out known h = absurd (omega arith)
name_loop_total (suc fuel) t out known h =
    let t' = (get_next_token t out).0 in
    let out' = (get_next_token t out).1 in
    let (cases, known') = get_next_token-cases t out known in
    elim (Bool-cases (type_is out'.type token_identifier || type_is out'.type token_eof)) [
      | inl last ↦ rw last (out', refl)
      | inr more ↦
          let short : length t'.cursor < length t.cursor = ground arith in
          let (token, e) = name_loop_total fuel t' out' known' (omega arith) in
          rw (more, e) (token, refl)
    ]

-- On a text of blanks, words, quotes and the six punctuation marks, the loop to the name ends
-- within its fuel, and `print_table_schema` prints something.
print_table_schema_total :
    (pager : Pager) (text : Bytes)
    → IsKnown text
    → (output : MetaOutput) × (print_table_schema pager text ≡ done output)
unfolding print_table_schema tokenizer_init
print_table_schema_total pager text known =
    let (token, e) =
      name_loop_total (length text + 1) (tokenizer_init text) no_token known (omega arith) in
    rw (e, print_table_schema)
      (elim (Bool-cases (type_is token.type token_identifier)) [
        | inr other ↦ rw other (_, refl)
        | inl name ↦
            elim (Bool-cases
              (catalog_node_find_table (catalog_of pager) token.text == uint32_max)) [
                | inl missing ↦ rw (name, missing) (_, refl)
                | inr found ↦ rw (name, found) (_, refl)
              ]
      ])
