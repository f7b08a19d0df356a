-- ===== src/Tests/Text.antt =====
-- The tokenizer of src/lexer.c on concrete texts.
use database_in_c.Prelude.{◌-◌, ◌≡◌, refl, some, none, List, ◌∷◌, ◌++◌, length}
use database_in_c.Chars.{Bytes, codes, is_alnum}
use database_in_c.Lexer.{Token, tokenizer_init, get_next_token, no_token, tokens_loop, debug_tokens}
use database_in_c.Lexer.Splits.{IsBlanks, StartsToken, lexeme, get_next_token-split}
use database_in_c.Lexer.Progress.{tokens_loop-stuck}
use database_in_c.Lexer.Loop.{IsKnown, debug_tokens_total}

abbrev condition_text : Bytes
condition_text = codes "  id = 7;"

abbrev minus_text : Bytes
minus_text = codes " -5"

condition-IsKnown : IsKnown condition_text
unfolding is_alnum
condition-IsKnown = (refl, (refl, (refl, (refl, (refl, (refl, (refl, (refl, (refl, tt)))))))))

minus_cursor : (tokenizer_init minus_text).cursor ≡ codes " " ++ b'-' ∷ codes "5"
unfolding tokenizer_init
minus_cursor = refl

get_next_token-split_example :
    let r = get_next_token (tokenizer_init condition_text) no_token in
    (blanks : Bytes) × IsBlanks blanks
    × StartsToken (lexeme r.1 ++ r.0.cursor)
    × ((tokenizer_init condition_text).cursor ≡ blanks ++ (lexeme r.1 ++ r.0.cursor))
    × (r.0.text ≡ (tokenizer_init condition_text).text)
    × (r.1.byte_offset
        ≡ length (tokenizer_init condition_text).text - length (lexeme r.1 ++ r.0.cursor))
get_next_token-split_example = get_next_token-split (tokenizer_init condition_text) no_token

debug_tokens_total_example : (ts : List Token) × (debug_tokens condition_text ≡ some ts)
debug_tokens_total_example = debug_tokens_total condition_text condition-IsKnown

tokens_loop-stuck_example : tokens_loop 100 (tokenizer_init minus_text) no_token ≡ none
unfolding is_alnum
tokens_loop-stuck_example =
    tokens_loop-stuck 100 (codes " ") b'-' (codes "5") (tokenizer_init minus_text) no_token
      minus_cursor (refl, tt) refl
