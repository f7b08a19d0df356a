-- ===== src/Lexer/Weight.antt =====
-- What a token that `get_next_token` of src/lexer.c gives takes at least off the text.
use database_in_c.Prelude.{◌+◌, ◌≤◌, ◌≡◌, refl, false, [], ◌∷◌, arith, length, if◌then◌else◌, ℤ}
use database_in_c.Chars.{Bytes}
use database_in_c.Lexer.{
  Token, Tokenizer, token_comma, keyword, classify, lex_string, lex_word, lex_at, skip, stamp,
  get_next_token, type_is, span_word,
}
use database_in_c.Lexer.Progress.{length-until_quote, length-span_word, length-skip_blanks}

classify-comma : (w : Bytes) (n : ℤ) → type_is (classify w n).0 token_comma ≡ false
unfolding classify keyword
classify-comma w n = ground arith

-- A token is at most the text, and a comma is a byte of it.
lex_at-weight :
    (s : Bytes) (t : Tokenizer) (out : Token)
    → t.cursor ≡ s
    → length (lex_at s t out).0.cursor
        + (if type_is (lex_at s t out).1.type token_comma then 1 else 0)
      ≤ length s
unfolding lex_at lex_string lex_word
lex_at-weight [] t out e = rw e (omega arith)
lex_at-weight (c ∷ s) t out e = rw e (
    ground (
      arith,
      length-until_quote s,
      length-span_word (c ∷ s),
      classify-comma (span_word (c ∷ s)).0 out.int_value,
    ))

-- The text never grows, and a comma is a byte of it.
pub get_next_token-weight :
    (t : Tokenizer) (out : Token)
    → let (t', out') = get_next_token t out in
      length t'.cursor + (if type_is out'.type token_comma then 1 else 0) ≤ length t.cursor
unfolding get_next_token
get_next_token-weight t out = omega (
  arith,
  lex_at-weight (skip t).cursor (skip t) (stamp (skip t) out) refl,
  length-skip_blanks t.cursor t.line t.column,
)
