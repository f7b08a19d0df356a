-- ===== src/Parser/Shape/Columns.antt =====
-- What `parse_insert_statement` and `parse_create_statement` of src/parser.c make of any text.
use database_in_c.Prelude.{
  ℕ, zero, suc, ◌+◌, ◌-◌, ◌≤◌, ◌<◌, ◌≡◌, refl, Bool, true, false, not, ◌||◌, ◌&&◌, List, [], ◌∷◌,
  arith, length, All, inl, inr, Bool-cases, if◌then◌else◌, ltb, ◌==◌,
}
use database_in_c.Lexer.{
  token_eof, token_comma, token_identifier, token_insert, token_into, token_value, token_lparen,
  token_rparen, token_create, token_table, token_primary, token_key, token_type_text,
  token_type_integer, token_type_boolean,
}
use database_in_c.Ast.{
  Statement, select, update_table, delete_table, insert, create_table, ColumnDefinition, ColumnType,
  column_integer, column_text, column_boolean,
}
use database_in_c.Parser.{
  Parser, parser_advance, sees, advance, parse_primary_expression, max_table_columns, loop_fuel,
}
use database_in_c.Parser.Post.{
  Post, weight, parsed-Post, fail-Post, if-Post, >>=-Post, require-Post, below_limit-Post,
  weight_comma, weight_fuel,
}
use database_in_c.Parser.Shape.{IsPrimary, parse_primary_expression-Post}
use database_in_c.Parser.Define.{
  insert_values, parse_insert_statement, column_separator, definition_type, definition_key,
  column_definition, create_columns, count_primary, check_primary, parse_create_statement,
  is_integer,
}

insert_values-Post :
    (fuel i : ℕ) (p : Parser)
    → i ≤ max_table_columns
    → weight p + (max_table_columns - i) < fuel
    → Post false
        (λ es _. All IsPrimary es × (i + length es ≤ max_table_columns))
        (insert_values fuel i p)
unfolding insert_values
insert_values-Post zero i p small long = absurd (omega arith)
insert_values-Post (suc fuel) i p small long =
    if-Post (sees p token_eof || sees p token_rparen) (λ _. parsed-Post (tt, omega arith))
      λ _.
        if-Post (sees p token_comma)
          (λ comma.
            insert_values-Post fuel i (parser_advance p) small
              (omega (arith, weight_comma p comma)))
          λ _. below_limit-Post _ _ p i λ room.
            >>=-Post parse_primary_expression _ p (parse_primary_expression-Post false p) λ e p₁ h₁.
              >>=-Post (insert_values fuel (i + 1)) _ p₁
                (insert_values-Post fuel (i + 1) p₁ (omega arith) (omega (arith, h₁.1)))
                λ es p₂ h₂. parsed-Post ((h₁.0.0, h₂.0), omega (arith, h₂.1))

abbrev pub IsInsert : Statement → Type 0
IsInsert (insert table values) = All IsPrimary values × (length values ≤ max_table_columns)
IsInsert (create_table table columns) = ⊥
IsInsert (update_table table columns values condition) = ⊥
IsInsert (delete_table table condition) = ⊥
IsInsert (select table is_star columns condition) = ⊥

-- On any text `parse_insert_statement` ends, with an error or with an INSERT of at most eight
-- values, each a literal or a name.
pub parse_insert_statement-IsInsert :
    (p : Parser) → Post false (λ s _. IsInsert s) (parse_insert_statement p)
unfolding parse_insert_statement
parse_insert_statement-IsInsert p = require-Post _ _ p token_insert λ _.
    let p₁ = parser_advance p in
    require-Post _ _ p₁ token_into λ _.
      let p₂ = parser_advance p₁ in
      require-Post _ _ p₂ token_identifier λ _.
        let p₃ = parser_advance p₂ in
        require-Post _ _ p₃ token_value λ _.
          let p₄ = parser_advance p₃ in
          require-Post _ _ p₄ token_lparen λ _.
            let p₅ = parser_advance p₄ in
            >>=-Post (λ q. insert_values (loop_fuel q) 0 q) _ p₅
              (insert_values-Post (loop_fuel p₅) 0 p₅ (omega arith) (weight_fuel p₅))
              λ values p₆ h.
                require-Post _ _ p₆ token_rparen λ _. parsed-Post (h.0, omega (arith, h.1))

-- Every step over a column ends, and leaves room for the column.
column_separator-Post :
    (count : ℕ) (p : Parser) → Post false (λ _ _. Unit) (column_separator count p)
unfolding column_separator
column_separator-Post count p =
    if-Post (ltb 0 count) (λ _. require-Post _ advance p token_comma λ _. parsed-Post tt)
      λ _. parsed-Post tt

definition_type-Post : (p : Parser) → Post false (λ _ _. Unit) (definition_type p)
unfolding definition_type
definition_type-Post p =
    if-Post
      (not (sees p token_type_text)
        && not (sees p token_type_integer)
        && not (sees p token_type_boolean))
      (λ _. fail-Post _ p) λ _. parsed-Post tt

definition_key-Post : (p : Parser) → Post false (λ _ _. Unit) (definition_key p)
unfolding definition_key
definition_key-Post p =
    if-Post (sees p token_primary)
      (λ _. require-Post _ _ (parser_advance p) token_key λ _. parsed-Post tt) λ _. parsed-Post tt

column_definition-Post :
    (count : ℕ) (p : Parser)
    → Post false (λ _ _. count < max_table_columns) (column_definition count p)
unfolding column_definition
column_definition-Post count p =
    >>=-Post (column_separator count) _ p (column_separator-Post count p) λ _ p₁ _.
      below_limit-Post _ _ p₁ count λ room. require-Post _ _ p₁ token_identifier λ _.
        let p₂ = parser_advance p₁ in
        >>=-Post definition_type _ p₂ (definition_type-Post p₂) λ type p₃ _.
          >>=-Post definition_key _ p₃ (definition_key-Post p₃) λ is_primary p₄ _. parsed-Post room

create_columns-Post :
    (fuel count : ℕ) (p : Parser)
    → count ≤ max_table_columns
    → max_table_columns - count < fuel
    → Post false
        (λ columns _. count + length columns ≤ max_table_columns)
        (create_columns fuel count p)
unfolding create_columns
create_columns-Post zero count p small long = absurd (omega arith)
create_columns-Post (suc fuel) count p small long =
    if-Post (sees p token_eof || sees p token_rparen) (λ _. parsed-Post (omega arith))
      λ _. >>=-Post (column_definition count) _ p (column_definition-Post count p) λ c p₁ room.
        >>=-Post (create_columns fuel (count + 1)) _ p₁
          (create_columns-Post fuel (count + 1) p₁ (omega arith) (omega arith))
          λ columns p₂ h. parsed-Post (omega (arith, h))

-- The columns with a primary key, in order.
abbrev pub primary_columns : List ColumnDefinition → List ColumnDefinition
primary_columns [] = []
primary_columns (c ∷ columns) =
    let rest = primary_columns columns in if c.is_primary then c ∷ rest else rest

abbrev pub HasIntegerKey : List ColumnDefinition → Type 0
HasIntegerKey columns =
    (c : ColumnDefinition) × (primary_columns columns ≡ c ∷ []) × (c.column_type ≡ column_integer)

count_primary-nil :
    (columns : List ColumnDefinition) (n : ℕ) (b : Bool)
    → primary_columns columns ≡ []
    → count_primary columns n b ≡ (n, b)
unfolding count_primary
count_primary-nil [] n b h = refl
count_primary-nil (c ∷ columns) n b h = elim (Bool-cases c.is_primary) [
  | inl primary ↦ absurd (ground arith)
  | inr other ↦ rw other (count_primary-nil columns n b (ground arith))
]

pub count_primary-one :
    (columns : List ColumnDefinition) (n : ℕ) (b : Bool) (k : ColumnDefinition)
    → primary_columns columns ≡ k ∷ []
    → count_primary columns n b ≡ (n + 1, is_integer k.column_type)
unfolding count_primary
count_primary-one [] n b k h = absurd (ground arith)
count_primary-one (c ∷ columns) n b k h = elim (Bool-cases c.is_primary) [
  | inl primary ↦
      let same : (c ≡ k) × (primary_columns columns ≡ []) = ground arith in
      rw (primary, count_primary-nil columns (n + 1) (is_integer c.column_type) same.1, same.0) refl
  | inr other ↦ rw other (count_primary-one columns n b k (ground arith))
]

length-primary_columns :
    (columns : List ColumnDefinition) (n : ℕ) (b : Bool)
    → (count_primary columns n b).0 ≡ n + length (primary_columns columns)
unfolding count_primary
length-primary_columns [] n b = omega arith
length-primary_columns (c ∷ columns) n b = ground (
  arith,
  length-primary_columns columns (n + 1) (is_integer c.column_type),
  length-primary_columns columns n b,
)

is_integer_eq : (t : ColumnType) → is_integer t ≡ true → t ≡ column_integer
is_integer_eq column_integer h = refl
is_integer_eq column_text h = absurd (ground arith)
is_integer_eq column_boolean h = absurd (ground arith)

one_of_length :
    (columns : List ColumnDefinition)
    → length columns ≡ 1
    → (k : ColumnDefinition) × (columns ≡ k ∷ [])
one_of_length [] h = absurd (omega arith)
one_of_length (k ∷ []) h = (k, refl)
one_of_length (k ∷ l ∷ columns) h = absurd (omega arith)

check_primary-Post :
    (columns : List ColumnDefinition) (p : Parser)
    → Post false (λ _ _. HasIntegerKey columns) (check_primary columns p)
unfolding check_primary
check_primary-Post columns p =
    let r = count_primary columns 0 true in
    if-Post (not (r.0 == 1)) (λ _. fail-Post _ p)
      λ one.
        if-Post (not r.1) (λ _. fail-Post _ p)
          λ integer.
            let count : length (primary_columns columns) ≡ 1 =
              ground (arith, length-primary_columns columns 0 true) in
            let (k, e) = one_of_length (primary_columns columns) count in
            let key : is_integer k.column_type ≡ true =
              ground (arith, count_primary-one columns 0 true k e) in
            parsed-Post (k, e, is_integer_eq k.column_type key)

abbrev pub IsCreate : Statement → Type 0
IsCreate (create_table table columns) = HasIntegerKey columns × (length columns ≤ max_table_columns)
IsCreate (insert table values) = ⊥
IsCreate (update_table table columns values condition) = ⊥
IsCreate (delete_table table condition) = ⊥
IsCreate (select table is_star columns condition) = ⊥

-- On any text `parse_create_statement` ends, with an error or with a CREATE TABLE of at most eight
-- columns, of which exactly one is a primary key, and that one is an INTEGER.
pub parse_create_statement-IsCreate :
    (p : Parser) → Post false (λ s _. IsCreate s) (parse_create_statement p)
unfolding parse_create_statement
parse_create_statement-IsCreate p = require-Post _ _ p token_create λ _.
    let p₁ = parser_advance p in
    require-Post _ _ p₁ token_table λ _.
      let p₂ = parser_advance p₁ in
      require-Post _ _ p₂ token_identifier λ _.
        let p₃ = parser_advance p₂ in
        require-Post _ _ p₃ token_lparen λ _.
          let p₄ = parser_advance p₃ in
          >>=-Post (λ q. create_columns (loop_fuel q) 0 q) _ p₄
            (create_columns-Post (loop_fuel p₄) 0 p₄ (omega arith) (omega arith))
            λ columns p₅ h. require-Post _ _ p₅ token_rparen λ _.
              let p₆ = parser_advance p₅ in
              >>=-Post (check_primary columns) _ p₆ (check_primary-Post columns p₆)
                λ _ p₇ key. parsed-Post (key, omega (arith, h))
