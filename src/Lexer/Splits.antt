-- ===== src/Lexer/Splits.antt =====
-- What `get_next_token` of src/lexer.c takes off the text: blanks and one lexeme.
use database_in_c.Prelude.{
  ℕ, ◌+◌, ◌-◌, ◌≡◌, refl, ap, true, false, [], ◌∷◌, ◌++◌, arith, length, ◌==◌, All, append_assoc,
  Bool-cases, inl, inr, ℤ, if◌then◌else◌, ◌⊎◌,
}
use database_in_c.Chars.{Bytes}
use database_in_c.Lexer.{
  TokenType, Token, Tokenizer, token_string, token_invalid, is_blank, skip_blanks, punctuation,
  until_quote, span_word, keyword, classify, lex_string, lex_word, lex_at, skip, stamp,
  get_next_token,
}

abbrev pub IsBlanks : Bytes → Type 0
IsBlanks s = All (λ c. is_blank c ≡ true) s

-- The end of the text, or a byte that is no blank.
abbrev pub StartsToken : Bytes → Type 0
StartsToken [] = Unit
StartsToken (c ∷ s) = is_blank c ≡ false

-- The bytes of the source that a token stands for.
pub lexeme_of : TokenType → Bytes → Bytes
lexeme_of token_string text = b'\'' ∷ (text ++ b'\'' ∷ [])
lexeme_of token_invalid text = b'\'' ∷ text
lexeme_of _ text = text

abbrev pub lexeme : Token → Bytes
lexeme t = lexeme_of t.type t.text

pub skip_blanks-split :
    (s : Bytes) (line column : ℕ)
    → (blanks : Bytes) × IsBlanks blanks
      × (s ≡ blanks ++ (skip_blanks s line column).0)
      × StartsToken (skip_blanks s line column).0
unfolding skip_blanks
skip_blanks-split [] line column = ([], tt, refl, tt)
skip_blanks-split (c ∷ s) line column = elim (Bool-cases (is_blank c)) [
  | inl blank ↦
      let (blanks, all, eq, next) =
        skip_blanks-split s (if c == b'\n' then line + 1 else line)
          (if c == b'\n' then 1 else column + 1) in
      rw blank (c ∷ blanks, (blank, all), ap (λ (l : Bytes). c ∷ l) eq, next)
  | inr other ↦ rw other ([], tt, refl, other)
]

pub until_quote-split : (s : Bytes) → s ≡ (until_quote s).0 ++ (until_quote s).1
unfolding until_quote
until_quote-split [] = refl
until_quote-split (c ∷ s) = ground (arith, until_quote-split s)

-- What follows the body of a string is its closing quote, if the text does not end.
pub until_quote-stop :
    (s : Bytes) → ((until_quote s).1 ≡ []) ⊎ ((r : Bytes) × ((until_quote s).1 ≡ b'\'' ∷ r))
unfolding until_quote
until_quote-stop [] = inl refl
until_quote-stop (c ∷ s) = elim (Bool-cases (c == b'\'')) [
  | inl quote ↦ rw quote (inr (s, ground arith))
  | inr other ↦ rw other (until_quote-stop s)
]

pub span_word-split : (s : Bytes) → s ≡ (span_word s).0 ++ (span_word s).1
unfolding span_word
span_word-split [] = refl
span_word-split (c ∷ s) = ground (arith, span_word-split s)

classify-plain : (w : Bytes) (n : ℤ) (text : Bytes) → lexeme_of (classify w n).0 text ≡ text
unfolding classify keyword lexeme_of
classify-plain w n text = ground arith

lex_string-split :
    (s : Bytes) (t : Tokenizer) (out : Token)
    → lexeme (lex_string s t out).1 ++ (lex_string s t out).0.cursor ≡ b'\'' ∷ s
unfolding lex_string lexeme_of
lex_string-split s t out = elim (until_quote-stop s) [
  | inl end ↦ ground (arith, until_quote-split s)
  | inr (r, quote) ↦
      ground (arith, until_quote-split s, append_assoc (until_quote s).0 (b'\'' ∷ []) r)
]

punctuation-plain : (c : ℕ) (text : Bytes) → lexeme_of (punctuation c) text ≡ text
unfolding punctuation lexeme_of
punctuation-plain c text = ground arith

lex_at-split :
    (s : Bytes) (t : Tokenizer) (out : Token)
    → t.cursor ≡ s
    → lexeme (lex_at s t out).1 ++ (lex_at s t out).0.cursor ≡ s
unfolding lex_at lex_word
lex_at-split [] t out e = unfold lexeme_of in e
lex_at-split (c ∷ s) t out e = ground (
  arith,
  punctuation-plain c (c ∷ []),
  lex_string-split s t out,
  classify-plain (span_word t.cursor).0 out.int_value (span_word t.cursor).0,
  span_word-split t.cursor,
)

text-lex_at : (s : Bytes) (t : Tokenizer) (out : Token) → (lex_at s t out).0.text ≡ t.text
unfolding lex_at lex_string lex_word
text-lex_at [] t out = refl
text-lex_at (c ∷ s) t out = ground arith

byte_offset-lex_at :
    (s : Bytes) (t : Tokenizer) (out : Token) → (lex_at s t out).1.byte_offset ≡ out.byte_offset
unfolding lex_at lex_string lex_word
byte_offset-lex_at [] t out = refl
byte_offset-lex_at (c ∷ s) t out = ground arith

-- The text that `get_next_token` leaves is the old one without some blanks and the lexeme of the
-- token, a string's quotes included; a token starts at the first byte that is no blank, and its
-- byte offset is where that lexeme starts in the text.
pub get_next_token-split :
    (t : Tokenizer) (out : Token)
    → let r = get_next_token t out in
      (blanks : Bytes) × IsBlanks blanks
      × StartsToken (lexeme r.1 ++ r.0.cursor)
      × (t.cursor ≡ blanks ++ (lexeme r.1 ++ r.0.cursor))
      × (r.0.text ≡ t.text)
      × (r.1.byte_offset ≡ length t.text - length (lexeme r.1 ++ r.0.cursor))
unfolding get_next_token
get_next_token-split t out =
    let (blanks, all, eq, next) = skip_blanks-split t.cursor t.line t.column in
    let t' = skip t in
    let out' = stamp t' out in
    rw (lex_at-split t'.cursor t' out' refl)
      (blanks, all, next, eq, text-lex_at t'.cursor t' out', byte_offset-lex_at t'.cursor t' out')
