-- ===== src/Lexer/Loop.antt =====
-- The loop of `debug_tokens` in src/lexer.c ends on a text whose bytes the tokenizer knows.
use database_in_c.Prelude.{
  ℕ, suc, zero, ◌+◌, ◌<◌, ◌≡◌, refl, true, [], ◌∷◌, ◌++◌, arith, length, All, inl, inr, some, ◌⊎◌,
  List, Bool-cases, subst,
}
use database_in_c.Chars.{Bytes}
use database_in_c.Lexer.{
  Token, Tokenizer, token_eof, lex_at, skip, stamp, get_next_token, type_is, tokens_loop,
  debug_tokens, tokenizer_init, no_token,
}
use database_in_c.Lexer.Splits.{StartsToken, skip_blanks-split, lexeme, get_next_token-split}
use database_in_c.Lexer.Progress.{is_known, length-skip_blanks, lex_at-advances}

abbrev pub IsKnown : Bytes → Type 0
IsKnown s = All (λ c. is_known c ≡ true) s

IsKnown-suffix : (s t : Bytes) → IsKnown (s ++ t) → IsKnown t
IsKnown-suffix [] t h = h
IsKnown-suffix (c ∷ s) t h = IsKnown-suffix s t h.1

eof-lex_at : (t : Tokenizer) (out : Token) → (lex_at [] t out).1.type ≡ token_eof
unfolding lex_at
eof-lex_at t out = refl

lex_at-cases :
    (s : Bytes) (t : Tokenizer) (out : Token)
    → t.cursor ≡ s
    → StartsToken s
    → IsKnown s
    → (type_is (lex_at s t out).1.type token_eof ≡ true)
      ⊎ (length (lex_at s t out).0.cursor < length s)
lex_at-cases [] t out e n k = inl (rw (eof-lex_at t out))
lex_at-cases (c ∷ s) t out e n k = inr (lex_at-advances c s t out e (ground arith))

-- On known bytes `get_next_token` ends or shortens the text, and leaves known bytes.
pub get_next_token-cases :
    (t : Tokenizer) (out : Token)
    → IsKnown t.cursor
    → ((type_is (get_next_token t out).1.type token_eof ≡ true)
        ⊎ (length (get_next_token t out).0.cursor < length t.cursor))
      × IsKnown (get_next_token t out).0.cursor
unfolding get_next_token
get_next_token-cases t out known =
    let (blanks, all, eq, next) = skip_blanks-split t.cursor t.line t.column in
    let known' : IsKnown (skip t).cursor = IsKnown-suffix blanks _ (subst IsKnown eq known) in
    let (blanks', all', next', eq', same, offset) = get_next_token-split t out in
    let left = IsKnown-suffix blanks' _ (subst IsKnown eq' known) in
    (
      elim (lex_at-cases (skip t).cursor (skip t) (stamp (skip t) out) refl next known') [
        | inl end ↦ inl end
        | inr short ↦ inr (omega (arith, short, length-skip_blanks t.cursor t.line t.column))
      ],
      IsKnown-suffix (lexeme (get_next_token t out).1) _ left,
    )

tokens_loop_total :
    (fuel : ℕ) (t : Tokenizer) (out : Token)
    → IsKnown t.cursor
    → length t.cursor < fuel
    → (ts : List Token) × (tokens_loop fuel t out ≡ some ts)
unfolding tokens_loop
tokens_loop_total zero t out known h = absurd (omega arith)
tokens_loop_total (suc fuel) t out known h =
    let t' = (get_next_token t out).0 in
    let out' = (get_next_token t out).1 in
    let (cases, known') = get_next_token-cases t out known in
    elim (Bool-cases (type_is out'.type token_eof)) [
      | inl end ↦ rw end (out' ∷ [], refl)
      | inr more ↦
          let short : length t'.cursor < length t.cursor = ground arith in
          let (ts, e) = tokens_loop_total fuel t' out' known' (omega arith) in
          rw (more, e) (out' ∷ ts, refl)
    ]

-- The fuel of `debug_tokens`, one token a byte and the end, is enough for every text of blanks,
-- words, quotes and the six punctuation marks.
pub debug_tokens_total :
    (sql : Bytes) → IsKnown sql → (ts : List Token) × (debug_tokens sql ≡ some ts)
unfolding debug_tokens tokenizer_init
debug_tokens_total sql known = tokens_loop_total (length sql + 1) _ no_token known (omega arith)
