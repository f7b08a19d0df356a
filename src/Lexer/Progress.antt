-- ===== src/Lexer/Progress.antt =====
-- When `get_next_token` of src/lexer.c moves its cursor, when it ends, and when it is stuck.
use database_in_c.Prelude.{
  ℕ, suc, zero, ◌+◌, ◌<◌, ◌≤◌, ◌≡◌, refl, Bool, true, false, ◌||◌, [], ◌∷◌, ◌++◌, arith, length,
  ◌==◌, pos, none, if◌then◌else◌, ℤ,
}
use database_in_c.Chars.{Bytes, eq_ignoring_case}
use database_in_c.Lexer.{
  Token, Tokenizer, token_none, token_integer, is_blank, is_word, skip_blanks, punctuation,
  until_quote, span_word, keyword, classify, lex_string, lex_word, lex_at, skip, stamp,
  get_next_token, tokens_loop,
}
use database_in_c.Lexer.Splits.{IsBlanks, StartsToken}

-- The bytes with which a token can start.
abbrev pub is_lexable : ℕ → Bool
is_lexable c =
    is_word c
    || c == b'\''
    || c == b','
    || c == b';'
    || c == b'('
    || c == b')'
    || c == b'='
    || c == b'*'

-- The bytes that the tokenizer knows outside a string.
abbrev pub is_known : ℕ → Bool
is_known c = is_blank c || is_lexable c

pub length-until_quote : (s : Bytes) → length (until_quote s).1 ≤ length s
unfolding until_quote
length-until_quote [] = omega arith
length-until_quote (c ∷ s) = ground (arith, length-until_quote s)

pub length-span_word : (s : Bytes) → length (span_word s).1 ≤ length s
unfolding span_word
length-span_word [] = omega arith
length-span_word (c ∷ s) = ground (arith, length-span_word s)

pub length-skip_blanks : (s : Bytes) (l c : ℕ) → length (skip_blanks s l c).0 ≤ length s
unfolding skip_blanks
length-skip_blanks [] l c = omega arith
length-skip_blanks (x ∷ s) l c = ground (
  arith,
  length-skip_blanks s (if x == b'\n' then l + 1 else l) (if x == b'\n' then 1 else c + 1),
)

pub lex_at-advances :
    (c : ℕ) (s : Bytes) (t : Tokenizer) (out : Token)
    → t.cursor ≡ c ∷ s
    → is_lexable c ≡ true
    → length (lex_at (c ∷ s) t out).0.cursor < length (c ∷ s)
unfolding lex_at punctuation lex_string lex_word span_word
lex_at-advances c s t out e h = rw e (ground (arith, length-until_quote s, length-span_word s))

-- The outcome at a byte with which no token can start.
abbrev pub IsStuck : ℕ → Bytes → Tokenizer × Token → Type 0
IsStuck c s r =
    (r.0.cursor ≡ c ∷ s) × (r.1.type ≡ token_integer) × (r.1.text ≡ []) × (r.1.int_value ≡ pos 0)

classify-nil : (n : ℤ) → classify [] n ≡ (token_integer, pos 0)
unfolding classify keyword eq_ignoring_case
classify-nil n = refl

span_word-stuck : (c : ℕ) (s : Bytes) → is_word c ≡ false → span_word (c ∷ s) ≡ ([], c ∷ s)
unfolding span_word
span_word-stuck c s h = rw h

punctuation-none : (c : ℕ) → is_lexable c ≡ false → punctuation c ≡ token_none
unfolding punctuation
punctuation-none c h = ground arith

lex_at-IsStuck :
    (c : ℕ) (s s' : Bytes) (t : Tokenizer) (out : Token)
    → t.cursor ≡ s'
    → s' ≡ c ∷ s
    → is_lexable c ≡ false
    → IsStuck c s (lex_at s' t out)
unfolding lex_at lex_word
lex_at-IsStuck c s s' t out e e' h =
    let word : is_word c ≡ false = ground arith in
    let quote : (c == b'\'') ≡ false = ground arith in
    rw e' (
      rw (punctuation-none c h, quote, e, e', span_word-stuck c s word, classify-nil)
        (refl, refl, refl, refl))

pub skip_blanks-blanks :
    (blanks s : Bytes) (l c : ℕ)
    → IsBlanks blanks
    → StartsToken s
    → (skip_blanks (blanks ++ s) l c).0 ≡ s
unfolding skip_blanks
skip_blanks-blanks [] [] l c b h = refl
skip_blanks-blanks [] (x ∷ s) l c b h = rw h
skip_blanks-blanks (x ∷ blanks) s l c (b, bs) h = rw b (skip_blanks-blanks blanks s _ _ bs h)

-- Behind blanks, a byte that is neither blank nor the start of a token is read as the integer 0
-- with an empty text, and the cursor stays in front of it.
pub get_next_token-IsStuck :
    (blanks : Bytes) (c : ℕ) (s : Bytes) (t : Tokenizer) (out : Token)
    → t.cursor ≡ blanks ++ c ∷ s
    → IsBlanks blanks
    → is_known c ≡ false
    → IsStuck c s (get_next_token t out)
unfolding get_next_token
get_next_token-IsStuck blanks c s t out e b h =
    lex_at-IsStuck c s (skip t).cursor (skip t) (stamp (skip t) out) refl
      (rw e (skip_blanks-blanks blanks (c ∷ s) t.line t.column b (ground arith))) (ground arith)

-- Behind blanks, in front of a byte that is neither blank nor the start of a token, the loop of
-- `debug_tokens` never ends: no amount of fuel is enough.
pub tokens_loop-stuck :
    (fuel : ℕ) (blanks : Bytes) (c : ℕ) (s : Bytes) (t : Tokenizer) (out : Token)
    → t.cursor ≡ blanks ++ c ∷ s
    → IsBlanks blanks
    → is_known c ≡ false
    → tokens_loop fuel t out ≡ none
unfolding tokens_loop
tokens_loop-stuck zero blanks c s t out e b h = refl
tokens_loop-stuck (suc fuel) blanks c s t out e b h =
    let stuck = get_next_token-IsStuck blanks c s t out e b h in
    rw stuck.1 (
      rw (
        tokens_loop-stuck fuel [] c s (get_next_token t out).0 (get_next_token t out).1 stuck.0 tt
          h))
