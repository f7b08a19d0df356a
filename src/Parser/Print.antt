-- ===== src/Parser/Print.antt =====
-- SQL text for a syntax tree, by which the parser of src/parser.c is judged: the lexemes of a
-- statement, with a comma between the elements of a list, and the trees that have a text.
pub mod Numbers
pub mod Spelled
use database_in_c.Prelude.{
  ℕ, zero, suc, ◌+◌, ◌-◌, ◌*◌, ◌/◌, ◌%◌, ◌≤◌, ◌<◌, ◌≡◌, refl, ap, Bool, true, false, ◌&&◌, List, [],
  ◌∷◌, ◌++◌, Option, none, some, arith, length, All, if◌then◌else◌, ◌==◌, ltb, ℤ, pos, negsuc,
  Bool-cases, inl, inr,
}
use database_in_c.Chars.{
  digits_loop, digits, Bytes, codes, decimal, strtol, long_max, is_digit, is_alnum, to_lower,
}
use database_in_c.Ast.{
  Expr, literal_int, literal_string, literal_boolean, column, equals, ColumnType, column_integer,
  column_text, column_boolean, ColumnDefinition, Statement, select, insert, create_table,
  update_table, delete_table,
}
use database_in_c.Lexer.{token_identifier, is_word}
use database_in_c.Lexer.Spell.{Lexeme, mark, word, quoted, spell, word_type, IsWord}
use database_in_c.Parser.{max_table_columns}
use database_in_c.Parser.Shape.{IsColumn}
use database_in_c.Parser.Shape.Columns.{HasIntegerKey}

-- A negative number has no text, since the tokenizer has no minus sign.
abbrev pub expr_lexeme : Expr → Lexeme
expr_lexeme (literal_int (pos n)) = word (digits n)
expr_lexeme (literal_int (negsuc n)) = word []
expr_lexeme (literal_string text) = quoted text
expr_lexeme (literal_boolean true) = word (codes "TRUE")
expr_lexeme (literal_boolean false) = word (codes "FALSE")
expr_lexeme (column name) = word name
expr_lexeme (equals l r) = word []

abbrev pub comma : Lexeme
comma = mark b','

-- The elements of a list from here on, `later` if some stand in front.
unfoldable pub items : {A : Type 0} → (A → List Lexeme) → Bool → List A → List Lexeme
items f later [] = []
items f true (x ∷ xs) = comma ∷ (f x ++ items f true xs)
items f false (x ∷ xs) = f x ++ items f true xs

abbrev pub expr_items : Bool → List Expr → List Lexeme
expr_items = items λ e. expr_lexeme e ∷ []

-- `column = value`, for columns and values that are as many.
unfoldable pub pair_items : Bool → List Expr → List Expr → List Lexeme
pair_items later (c ∷ columns) (v ∷ values) =
    let pair = expr_lexeme c ∷ mark b'=' ∷ expr_lexeme v ∷ pair_items true columns values in
    if later then comma ∷ pair else pair
pair_items later [] values = []
pair_items later (c ∷ columns) [] = []

abbrev pub condition_lexemes : Expr → List Lexeme
condition_lexemes (equals l r) = expr_lexeme l ∷ mark b'=' ∷ expr_lexeme r ∷ []
condition_lexemes (literal_int n) = expr_lexeme (literal_int n) ∷ []
condition_lexemes (literal_string text) = expr_lexeme (literal_string text) ∷ []
condition_lexemes (literal_boolean b) = expr_lexeme (literal_boolean b) ∷ []
condition_lexemes (column name) = expr_lexeme (column name) ∷ []

abbrev pub where_lexemes : Option Expr → List Lexeme
where_lexemes none = []
where_lexemes (some e) = word (codes "WHERE") ∷ condition_lexemes e

abbrev pub type_name : ColumnType → Bytes
type_name column_integer = codes "INTEGER"
type_name column_text = codes "TEXT"
type_name column_boolean = codes "BOOLEAN"

abbrev pub definition_lexemes : ColumnDefinition → List Lexeme
definition_lexemes c =
    word c.name
    ∷ word (type_name c.column_type)
    ∷ (if c.is_primary then word (codes "PRIMARY") ∷ word (codes "KEY") ∷ [] else [])

abbrev pub select_lexemes : Bool → List Expr → List Lexeme
select_lexemes true columns = mark b'*' ∷ []
select_lexemes false columns = expr_items false columns

unfoldable pub statement_lexemes : Statement → List Lexeme
unfolding items pair_items
statement_lexemes (select table is_star columns condition) =
    word (codes "SELECT")
    ∷ (select_lexemes is_star columns ++ word (codes "FROM") ∷ word table ∷ where_lexemes condition)
statement_lexemes (insert table values) =
    word (codes "INSERT")
    ∷ word (codes "INTO")
    ∷ word table
    ∷ word (codes "VALUES")
    ∷ mark b'('
    ∷ (expr_items false values ++ mark b')' ∷ [])
statement_lexemes (create_table table columns) =
    word (codes "CREATE")
    ∷ word (codes "TABLE")
    ∷ word table
    ∷ mark b'('
    ∷ (items definition_lexemes false columns ++ mark b')' ∷ [])
statement_lexemes (update_table table columns values condition) =
    word (codes "UPDATE")
    ∷ word table
    ∷ word (codes "SET")
    ∷ (pair_items false columns values ++ where_lexemes condition)
statement_lexemes (delete_table table condition) =
    word (codes "DELETE") ∷ word (codes "FROM") ∷ word table ∷ where_lexemes condition

-- Letters, digits and underscores that are neither a keyword nor a number.
abbrev pub IsName : Bytes → Type 0
IsName w = IsWord w × (word_type w ≡ token_identifier)

-- A literal or a name that SQL text can say.
abbrev pub IsSayable : Expr → Type 0
IsSayable (literal_int (pos n)) = n ≤ long_max
IsSayable (literal_int (negsuc n)) = ⊥
IsSayable (literal_string text) = All (λ c. (c == b'\'') ≡ false) text
IsSayable (literal_boolean b) = Unit
IsSayable (column name) = IsName name
IsSayable (equals l r) = ⊥

abbrev pub IsSayableCondition : Expr → Type 0
IsSayableCondition (equals l r) = IsSayable l × IsSayable r
IsSayableCondition (literal_int n) = IsSayable (literal_int n)
IsSayableCondition (literal_string text) = IsSayable (literal_string text)
IsSayableCondition (literal_boolean b) = Unit
IsSayableCondition (column name) = IsName name

abbrev pub IsSayableOption : Option Expr → Type 0
IsSayableOption none = Unit
IsSayableOption (some e) = IsSayableCondition e

abbrev pub AreNames : List Expr → Type 0
AreNames columns =
    All (λ e. IsColumn e × IsSayable e) columns × (length columns ≤ max_table_columns)

-- A statement that the parser can make of a text.
abbrev pub HasText : Statement → Type 0
HasText (select table is_star columns condition) =
    IsName table × AreNames columns × (is_star ≡ true → columns ≡ []) × IsSayableOption condition
HasText (insert table values) =
    IsName table × All IsSayable values × (length values ≤ max_table_columns)
HasText (create_table table columns) =
    IsName table
    × All (λ c. IsName c.name) columns
    × (length columns ≤ max_table_columns)
    × HasIntegerKey columns
HasText (update_table table columns values condition) =
    IsName table
    × AreNames columns
    × All IsSayable values
    × (length values ≡ length columns)
    × (e : Expr) × (condition ≡ some e)
    × IsSayableCondition e
HasText (delete_table table condition) = IsName table × IsSayableOption condition

abbrev pub print : Statement → Bytes
print s = spell (statement_lexemes s)
