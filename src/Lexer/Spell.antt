-- ===== src/Lexer/Spell.antt =====
-- Texts that spell a list of lexemes, one blank in front of each, and what `get_next_token` of
-- src/lexer.c reads from them.
use database_in_c.Prelude.{
  ℕ, ◌≡◌, refl, ap, true, false, List, [], ◌∷◌, ◌++◌, arith, All, ◌==◌, ℤ, pos, append_assoc,
  append-nil, ◌∙◌,
}
use database_in_c.Chars.{Bytes, strtol, is_alnum, is_digit}
use database_in_c.Lexer.{
  TokenType, Token, Tokenizer, token_none, token_eof, token_string, token_integer, type_is,
  is_blank, is_word, skip_blanks, punctuation, until_quote, span_word, keyword, is_digits, classify,
  lex_string, lex_word, lex_at, skip, stamp, get_next_token,
}
use database_in_c.Lexer.Splits.{StartsToken}
use database_in_c.Lexer.Progress.{skip_blanks-blanks}

-- A one-character token, a keyword, name or number, and a quoted string.
pub data Lexeme : Type 0 where
  mark : ℕ → Lexeme
  word quoted : Bytes → Lexeme

abbrev pub lexeme_text : Lexeme → Bytes
lexeme_text (mark c) = c ∷ []
lexeme_text (word w) = w
lexeme_text (quoted s) = b'\'' ∷ (s ++ b'\'' ∷ [])

unfoldable pub spell : List Lexeme → Bytes
spell [] = []
spell (l ∷ ls) = b' ' ∷ (lexeme_text l ++ spell ls)

unfoldable pub word_type : Bytes → TokenType
unfolding classify keyword is_digits
word_type w = (classify w (pos 0)).0

abbrev pub lexeme_type : Lexeme → TokenType
lexeme_type (mark c) = punctuation c
lexeme_type (word w) = word_type w
lexeme_type (quoted s) = token_string

abbrev pub IsWord : Bytes → Type 0
IsWord [] = ⊥
IsWord (c ∷ w) = All (λ d. is_word d ≡ true) (c ∷ w)

abbrev pub IsSpelled : Lexeme → Type 0
IsSpelled (mark c) = type_is (punctuation c) token_none ≡ false
IsSpelled (word w) = IsWord w
IsSpelled (quoted s) = All (λ c. (c == b'\'') ≡ false) s

-- The number of an integer is the one of its digits.
abbrev pub HasValue : Lexeme → Token → Type 0
HasValue (mark c) token = Unit
HasValue (word w) token =
    (token.text ≡ w) × (word_type w ≡ token_integer → token.int_value ≡ pos (strtol w))
HasValue (quoted s) token = token.text ≡ s

abbrev pub Is : Lexeme → Token → Type 0
Is l token = (token.type ≡ lexeme_type l) × HasValue l token

span_word-word :
    (w s : Bytes)
    → All (λ c. is_word c ≡ true) w
    → span_word (w ++ s) ≡ (w ++ (span_word s).0, (span_word s).1)
unfolding span_word
span_word-word [] s h = refl
span_word-word (c ∷ w) s h = rw (h.0, span_word, span_word-word w s h.1) refl

until_quote-quoted :
    (s rest : Bytes)
    → All (λ c. (c == b'\'') ≡ false) s
    → until_quote (s ++ b'\'' ∷ rest) ≡ (s, b'\'' ∷ rest)
unfolding until_quote
until_quote-quoted [] rest h = refl
until_quote-quoted (c ∷ s) rest h = rw (h.0, until_quote, until_quote-quoted s rest h.1) refl

span_word-spell : (ls : List Lexeme) → span_word (spell ls) ≡ ([], spell ls)
unfolding span_word spell
span_word-spell [] = refl
span_word-spell (l ∷ ls) = unfold is_alnum in refl

classify-word_type : (w : Bytes) (n : ℤ) → (classify w n).0 ≡ word_type w
unfolding classify word_type
classify-word_type w n = ground arith

classify-value :
    (w : Bytes) (n : ℤ) → word_type w ≡ token_integer → (classify w n).1 ≡ pos (strtol w)
unfolding classify word_type keyword
classify-value w n h = ground arith

-- What the call leaves, and the end of the text as the end of the lexemes.
abbrev pub ReadsAs : List Lexeme → Tokenizer × Token → Type 0
ReadsAs [] r = (r.1.type ≡ token_eof) × (r.0.cursor ≡ [])
ReadsAs (l ∷ ls) r = Is l r.1 × (r.0.cursor ≡ spell ls)

word_start : (c : ℕ) → is_word c ≡ true → (punctuation c ≡ token_none) × ((c == b'\'') ≡ false)
unfolding punctuation is_alnum is_digit
word_start c h = ground arith

append-after_quote : (s rest : Bytes) → (s ++ b'\'' ∷ []) ++ rest ≡ s ++ b'\'' ∷ rest
append-after_quote s rest = append_assoc s (b'\'' ∷ []) rest

lex_at-mark :
    (c : ℕ) (ls : List Lexeme) (t : Tokenizer) (out : Token)
    → type_is (punctuation c) token_none ≡ false
    → ReadsAs (mark c ∷ ls) (lex_at (c ∷ spell ls) t out)
unfolding lex_at
lex_at-mark c ls t out h = rw (h, lex_at) ((refl, tt), refl)

lex_at-quoted :
    (s : Bytes) (ls : List Lexeme) (t : Tokenizer) (out : Token)
    → All (λ c. (c == b'\'') ≡ false) s
    → ReadsAs (quoted s ∷ ls) (lex_at (b'\'' ∷ ((s ++ b'\'' ∷ []) ++ spell ls)) t out)
unfolding lex_at lex_string punctuation
lex_at-quoted s ls t out h =
    let q : until_quote ((s ++ b'\'' ∷ []) ++ spell ls) ≡ (s, b'\'' ∷ spell ls) =
      rw (append-after_quote s (spell ls)) (until_quote-quoted s (spell ls) h) in
    rw (q, lex_string) ((refl, ap (λ (r : Bytes × Bytes). r.0) q), refl)

lex_at-word :
    (c : ℕ) (w : Bytes) (ls : List Lexeme) (t : Tokenizer) (out : Token)
    → t.cursor ≡ c ∷ (w ++ spell ls)
    → IsWord (c ∷ w)
    → ReadsAs (word (c ∷ w) ∷ ls) (lex_at (c ∷ (w ++ spell ls)) t out)
unfolding lex_at lex_word
lex_at-word c w ls t out e h =
    let (none_c, quote_c) = word_start c h.0 in
    let span : span_word (c ∷ (w ++ spell ls)) ≡ (c ∷ w, spell ls) =
      span_word-word (c ∷ w) (spell ls) h ∙ rw (span_word-spell ls, append-nil w) refl in
    rw (none_c, quote_c, lex_at, e, span, lex_word)
      ((classify-word_type _ _, (refl, classify-value _ _)), refl)

lex_at-spell :
    (l : Lexeme) (ls : List Lexeme) (s : Bytes) (t : Tokenizer) (out : Token)
    → t.cursor ≡ s
    → s ≡ lexeme_text l ++ spell ls
    → IsSpelled l
    → ReadsAs (l ∷ ls) (lex_at s t out)
lex_at-spell (mark c) ls s t out e e' h = rw e' (lex_at-mark c ls t out h)
lex_at-spell (word []) ls s t out e e' h = absurd h
lex_at-spell (word (c ∷ w)) ls s t out e e' h = rw e' (lex_at-word c w ls t out (e ∙ e') h)
lex_at-spell (quoted s') ls s t out e e' h = rw e' (lex_at-quoted s' ls t out h)

mark_start : (c : ℕ) → type_is (punctuation c) token_none ≡ false → is_blank c ≡ false
unfolding punctuation
mark_start c h = ground arith

word_blank : (c : ℕ) → is_word c ≡ true → is_blank c ≡ false
unfolding is_alnum is_digit
word_blank c h = ground arith

text-StartsToken : (l : Lexeme) (s : Bytes) → IsSpelled l → StartsToken (lexeme_text l ++ s)
text-StartsToken (mark c) s h = mark_start c h
text-StartsToken (word []) s h = absurd h
text-StartsToken (word (c ∷ w)) s h = word_blank c h.0
text-StartsToken (quoted s') s h = refl

skip-nil : (t : Tokenizer) → t.cursor ≡ spell [] → (skip t).cursor ≡ []
unfolding spell skip_blanks
skip-nil t e = rw e refl

-- On a text that spells lexemes `get_next_token` reads the first of them, whatever token memory it
-- is given, and stands in front of the blank behind it.
pub get_next_token-spell :
    (ls : List Lexeme) (t : Tokenizer) (out : Token)
    → t.cursor ≡ spell ls
    → All IsSpelled ls
    → ReadsAs ls (get_next_token t out)
unfolding get_next_token spell
get_next_token-spell [] t out e h = rw (skip-nil t e) (refl, refl)
get_next_token-spell (l ∷ ls) t out e h =
    lex_at-spell l ls (skip t).cursor (skip t) (stamp (skip t) out) refl
      (rw (e, spell)
        (skip_blanks-blanks (b' ' ∷ []) (lexeme_text l ++ spell ls) t.line t.column (refl, tt)
          (text-StartsToken l (spell ls) h.0)))
      h.0
