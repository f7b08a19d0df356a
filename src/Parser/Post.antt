-- ===== src/Parser/Post.antt =====
-- Postconditions of the steps of src/parser.c: a step that ends leaves a parser that has not gone
-- back, and what a step promises holds of every tree that it returns.
use database_in_c.Prelude.{
  ℕ, ◌+◌, ◌≤◌, ◌<◌, ◌≡◌, refl, Bool, true, false, arith, length, leb, if◌then◌else◌,
}
use database_in_c.Chars.{Bytes}
use database_in_c.Lexer.{TokenType, token_none, token_comma}
use database_in_c.Lexer.Weight.{get_next_token-weight}
use database_in_c.Parser.{
  Parser, Parsed, Parse, parsed, failed, parse_undefined, parse_out_of_fuel, ◌>>=◌, ◌>>◌,
  parser_advance, sees, fail, require, below_limit, max_table_columns, loop_fuel,
}

-- A tree satisfies `P`, an error is an error, and undefined behaviour needs a node that is `unset`.
abbrev pub Holds {ℓ} : {A : Type ℓ} → Bool → (A → Parser → Type 0) → Parsed A → Type 0
Holds unset P (parsed a p) = P a p
Holds unset P (failed e) = Unit
Holds unset P parse_undefined = unset ≡ true
Holds unset P parse_out_of_fuel = ⊥

pub record Post {ℓ} {A : Type ℓ} (unset : Bool) (P : A → Parser → Type 0) (r : Parsed A)
    : Type 0 where
  pub holds : Holds unset P r

-- The bytes in front of the cursor, with a comma that is still to be read.
abbrev pub comma_weight : Parser → ℕ
comma_weight p = if sees p token_comma then 1 else 0

abbrev pub weight : Parser → ℕ
weight p = length p.tokenizer.cursor + comma_weight p

module _ {ℓ} {A : Type ℓ} {unset : Bool} {P : A → Parser → Type 0} where
  pub parsed-Post : {a : A} {p : Parser} → P a p → Post unset P (parsed a p)
  parsed-Post h = record { holds = h }

  pub fail-Post : (expected : Bytes) (p : Parser) → Post unset P (fail expected p)
  fail-Post expected p = record { holds = tt }

  pub if-Post :
      {x y : Parsed A} (b : Bool)
      → (b ≡ true → Post unset P x)
      → (b ≡ false → Post unset P y)
      → Post unset P (if b then x else y)
  if-Post true h k = h refl
  if-Post false h k = k refl

module _ {ℓ κ} {A : Type ℓ} {B : Type κ} {unset : Bool} {P : A → Parser → Type 0}
    {Q : B → Parser → Type 0} where
  bind_lem :
      (f : A → Parse B) (p : Parser) (r : Parsed A)
      → Post unset P r
      → ((a : A) (p' : Parser) → P a p' → Post unset Q (f a p'))
      → Post unset Q (((λ _. r) >>= f) p)
  bind_lem f p (parsed a p') h k = k a p' h.holds
  bind_lem f p (failed e) h k = record { holds = tt }
  bind_lem f p parse_undefined h k = record { holds = h.holds }
  bind_lem f p parse_out_of_fuel h k = absurd h.holds

  pub >>=-Post :
      (m : Parse A) (f : A → Parse B) (p : Parser)
      → Post unset P (m p)
      → ((a : A) (p' : Parser) → P a p' → Post unset Q (f a p'))
      → Post unset Q ((m >>= f) p)
  >>=-Post m f p h k = bind_lem f p (m p) h k

module _ {ℓ} {B : Type ℓ} {unset : Bool} {Q : B → Parser → Type 0} (expected : Bytes) (k : Parse B)
    (p : Parser) where
  if_fail-Post :
      (b : Bool)
      → (b ≡ true → Post unset Q (k p))
      → Post unset Q (((λ q. if b then parsed tt q else fail expected q) >> k) p)
  if_fail-Post true h = h refl
  if_fail-Post false h = record { holds = tt }

  if_ok-Post :
      (b : Bool)
      → (b ≡ false → Post unset Q (k p))
      → Post unset Q (((λ q. if b then fail expected q else parsed tt q) >> k) p)
  if_ok-Post true h = record { holds = tt }
  if_ok-Post false h = h refl

  pub require-Post :
      (type : TokenType)
      → (sees p type ≡ true → Post unset Q (k p))
      → Post unset Q ((require type expected >> k) p)
  unfolding require
  require-Post type h = if_fail-Post (sees p type) h

  pub below_limit-Post :
      (count : ℕ)
      → (count < max_table_columns → Post unset Q (k p))
      → Post unset Q ((below_limit count expected >> k) p)
  unfolding below_limit
  below_limit-Post count h = if_ok-Post (leb max_table_columns count) λ room. h (ground arith)

pub weight-parser_advance : (p : Parser) → weight (parser_advance p) ≤ length p.tokenizer.cursor
unfolding parser_advance
weight-parser_advance p = get_next_token-weight p.tokenizer (record p.current { type = token_none })

-- A comma that is read is a byte less.
pub weight_comma : (p : Parser) → sees p token_comma ≡ true → weight (parser_advance p) < weight p
weight_comma p h = rw h (omega (arith, weight-parser_advance p))

-- The fuel of a loop is enough for the bytes and for the elements that it may add.
pub weight_fuel : (p : Parser) → weight p + max_table_columns < loop_fuel p
weight_fuel p = ground arith
