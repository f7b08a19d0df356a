-- ===== src/Parser/Reads.antt =====
-- Steps of src/parser.c on a text that spells lexemes: what they return, and which lexemes are left.
use database_in_c.Prelude.{
  ap, ℕ, ◌<◌, ◌≡◌, refl, sym, Bool, true, false, List, ◌∷◌, arith, All, if◌then◌else◌, leb, subst,
}
use database_in_c.Chars.{Bytes}
use database_in_c.Lexer.{TokenType, token_none, type_is, tokenizer_init, no_token}
use database_in_c.Lexer.Spell.{Lexeme, spell, lexeme_type, IsSpelled, ReadsAs, get_next_token-spell}
use database_in_c.Parser.{
  parser_set_error, Parser, Parsed, Parse, parsed, failed, parse_undefined, parse_out_of_fuel,
  ◌>>=◌, ◌>>◌, parser_init, parser_advance, sees, fail, require, below_limit, max_table_columns,
}
use database_in_c.Parser.Post.{Post}

-- The parser's token is the first of the lexemes, and the text behind it spells the others.
abbrev pub At : List Lexeme → Parser → Type 0
At ls p = ReadsAs ls (p.tokenizer, p.current) × All IsSpelled ls

-- The step returns `a` in front of the lexemes `rest`, if it does not run out of fuel.
abbrev pub Returns : {A : Type 0} → A → List Lexeme → Parsed A → Type 0
Returns a rest (parsed a' p) = (a' ≡ a) × At rest p
Returns a rest (failed e) = ⊥
Returns a rest parse_undefined = ⊥
Returns a rest parse_out_of_fuel = Unit

pub record Reads {A : Type 0} (a : A) (rest : List Lexeme) (r : Parsed A) : Type 0 where
  pub returns : Returns a rest r

pub parser_advance-At :
    (l : Lexeme) (ls : List Lexeme) (p : Parser) → At (l ∷ ls) p → At ls (parser_advance p)
unfolding parser_advance
parser_advance-At l ls p h = (
  get_next_token-spell ls p.tokenizer (record p.current { type = token_none }) h.0.1 h.1.1,
  h.1.1,
)

pub parser_init-At : (ls : List Lexeme) → All IsSpelled ls → At ls (parser_init (spell ls))
unfolding parser_init tokenizer_init
parser_init-At ls h = (get_next_token-spell ls (tokenizer_init (spell ls)) no_token refl h, h)

-- The type that the parser sees.
pub At-type :
    (l : Lexeme) (ls : List Lexeme) (p : Parser) → At (l ∷ ls) p → p.current.type ≡ lexeme_type l
At-type l ls p h = h.0.0.0

module _ {A : Type 0} {a : A} {rest : List Lexeme} where
  pub parsed-Reads : {p : Parser} → At rest p → Reads a rest (parsed a p)
  parsed-Reads h = record { returns = (refl, h) }

  -- The tests `parser->current.type == type` on a type that is known.
  pub seen-Reads :
      (x y : Parsed A) (b : Bool) → b ≡ true → Reads a rest x → Reads a rest (if b then x else y)
  seen-Reads x y true e h = h
  seen-Reads x y false e h = absurd (ground (arith, e))

  pub unseen-Reads :
      (x y : Parsed A) (b : Bool) → b ≡ false → Reads a rest y → Reads a rest (if b then x else y)
  unseen-Reads x y true e h = absurd (ground (arith, e))
  unseen-Reads x y false e h = h

module _ {A B : Type 0} {a : A} {b : B} {middle rest : List Lexeme} where
  bind_lem :
      (f : A → Parse B) (p : Parser) (r : Parsed A)
      → Reads a middle r
      → ((p' : Parser) → At middle p' → Reads b rest (f a p'))
      → Reads b rest (((λ _. r) >>= f) p)
  bind_lem f p (parsed a' p') h k =
      subst (λ x. Reads b rest (f x p')) (sym h.returns.0) (k p' h.returns.1)
  bind_lem f p (failed e) h k = absurd h.returns
  bind_lem f p parse_undefined h k = absurd h.returns
  bind_lem f p parse_out_of_fuel h k = record { returns = tt }

  pub >>=-Reads :
      (m : Parse A) (f : A → Parse B) (p : Parser)
      → Reads a middle (m p)
      → ((p' : Parser) → At middle p' → Reads b rest (f a p'))
      → Reads b rest ((m >>= f) p)
  >>=-Reads m f p h k = bind_lem f p (m p) h k

module _ {B : Type 0} {b : B} {rest : List Lexeme} (expected : Bytes) (k : Parse B)
    (p : Parser) where
  if_pass :
      (c : Bool)
      → c ≡ true
      → Reads b rest (k p)
      → Reads b rest (((λ q. if c then parsed tt q else fail expected q) >> k) p)
  if_pass true e r = r
  if_pass false e r = absurd (ground (arith, e))

  if_skip :
      (c : Bool)
      → c ≡ false
      → Reads b rest (k p)
      → Reads b rest (((λ q. if c then fail expected q else parsed tt q) >> k) p)
  if_skip true e r = absurd (ground (arith, e))
  if_skip false e r = r

  pub require-Reads :
      (type : TokenType) (l : Lexeme) (ls : List Lexeme)
      → At (l ∷ ls) p
      → type_is (lexeme_type l) type ≡ true
      → Reads b rest (k p)
      → Reads b rest ((require type expected >> k) p)
  unfolding require
  require-Reads type l ls h e r = if_pass (sees p type) (rw (At-type l ls p h) e) r

  pub below_limit-Reads :
      (count : ℕ)
      → count < max_table_columns
      → Reads b rest (k p)
      → Reads b rest ((below_limit count expected >> k) p)
  unfolding below_limit
  below_limit-Reads count h r = if_skip (leb max_table_columns count) (ground arith) r

-- Equations for the steps whose outcome is known.
module _ {B : Type 0} (expected : Bytes) (k : Parse B) (p : Parser) where
  if_then_lem :
      (c : Bool) → c ≡ true → ((λ q. if c then parsed tt q else fail expected q) >> k) p ≡ k p
  if_then_lem true h = refl
  if_then_lem false h = absurd (ground (arith, h))

  if_else_lem :
      (c : Bool)
      → c ≡ false
      → ((λ q. if c then parsed tt q else fail expected q) >> k) p
        ≡ failed (parser_set_error p expected)
  if_else_lem true h = absurd (ground (arith, h))
  if_else_lem false h = refl

  pub require_then : (type : TokenType) → sees p type ≡ true → (require type expected >> k) p ≡ k p
  unfolding require
  require_then type h = if_then_lem (sees p type) h

  pub require_else :
      (type : TokenType)
      → sees p type ≡ false
      → (require type expected >> k) p ≡ failed (parser_set_error p expected)
  unfolding require
  require_else type h = if_else_lem (sees p type) h

pub bind_parsed :
    {A B : Type 0} (m : Parse A) (f : A → Parse B) (p : Parser) (a : A) (p' : Parser)
    → m p ≡ parsed a p'
    → (m >>= f) p ≡ f a p'
bind_parsed m f p a p' e = ap (λ r. ((λ _. r) >>= f) p) e

pub bind_undefined :
    {A B : Type 0} (m : Parse A) (f : A → Parse B) (p : Parser)
    → m p ≡ parse_undefined
    → (m >>= f) p ≡ parse_undefined
bind_undefined m f p e = ap (λ r. ((λ _. r) >>= f) p) e

-- A step that ends in full and reads a value returns it.
pub Reads-Post :
    {A : Type 0} {P : A → Parser → Type 0} (unset : Bool) (a : A) (rest : List Lexeme)
    (r : Parsed A)
    → Reads a rest r
    → Post unset P r
    → (p : Parser) × (r ≡ parsed a p) × At rest p
Reads-Post unset a rest (parsed a' p) h g = (p, rw h.returns.0 refl, h.returns.1)
Reads-Post unset a rest (failed e) h g = absurd h.returns
Reads-Post unset a rest parse_undefined h g = absurd h.returns
Reads-Post unset a rest parse_out_of_fuel h g = absurd g.holds
