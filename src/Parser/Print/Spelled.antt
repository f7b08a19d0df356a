-- ===== src/Parser/Print/Spelled.antt =====
-- The lexemes of a statement that has a text are words, marks and quoted strings.
use database_in_c.Prelude.{
  ◌&&◌, arith, ◌≡◌, refl, sym, subst, Bool, true, false, List, [], ◌∷◌, ◌++◌, Option, none, some,
  All, pos, negsuc, if◌then◌else◌,
}
use database_in_c.Chars.{Bytes, codes, is_alnum}
use database_in_c.Ast.{
  Expr, literal_int, literal_string, literal_boolean, column, equals, ColumnType, column_integer,
  column_text, column_boolean, ColumnDefinition, Statement, select, insert, create_table,
  update_table, delete_table,
}
use database_in_c.Lexer.{punctuation, is_word}
use database_in_c.Lexer.Spell.{Lexeme, word, IsSpelled}
use database_in_c.Parser.Shape.{IsColumn}
use database_in_c.Parser.Print.{
  expr_lexeme, items, pair_items, condition_lexemes, where_lexemes, type_name, definition_lexemes,
  select_lexemes, statement_lexemes, IsName, IsSayable, IsSayableCondition, IsSayableOption,
  HasText, expr_items, AreNames,
}
use database_in_c.Parser.Print.Numbers.{digits-number}

abbrev AreSpelled : List Lexeme → Type 0
AreSpelled ls = All IsSpelled ls

abbrev every_word : Bytes → Bool
every_word [] = true
every_word (c ∷ w) = is_word c && every_word w

abbrev some_word : Bytes → Bool
some_word [] = false
some_word (c ∷ w) = every_word (c ∷ w)

every_word_lem : (w : Bytes) → every_word w ≡ true → All (λ c. is_word c ≡ true) w
every_word_lem [] h = tt
every_word_lem (c ∷ w) h = (ground arith, every_word_lem w (ground arith))

-- For a constant, by computation.
word-IsSpelled : (w : Bytes) → some_word w ≡ true → IsSpelled (word w)
word-IsSpelled [] h = absurd (ground arith)
word-IsSpelled (c ∷ w) h = every_word_lem (c ∷ w) h

append-AreSpelled : (ls ms : List Lexeme) → AreSpelled ls → AreSpelled ms → AreSpelled (ls ++ ms)
append-AreSpelled [] ms h g = g
append-AreSpelled (l ∷ ls) ms h g = (h.0, append-AreSpelled ls ms h.1 g)

expr_lexeme-IsSpelled : (e : Expr) → IsSayable e → IsSpelled (expr_lexeme e)
unfolding is_alnum
expr_lexeme-IsSpelled (literal_int (pos n)) h = (digits-number n).0
expr_lexeme-IsSpelled (literal_int (negsuc n)) h = absurd h
expr_lexeme-IsSpelled (literal_string text) h = h
expr_lexeme-IsSpelled (literal_boolean true) h = (word-IsSpelled (codes "TRUE") refl)
expr_lexeme-IsSpelled (literal_boolean false) h = (word-IsSpelled (codes "FALSE") refl)
expr_lexeme-IsSpelled (column name) h = h.0
expr_lexeme-IsSpelled (equals l r) h = absurd h

items-AreSpelled :
    {A : Type 0} (f : A → List Lexeme) (later : Bool) (xs : List A)
    → All (λ x. AreSpelled (f x)) xs
    → AreSpelled (items f later xs)
unfolding items punctuation
items-AreSpelled f true [] h = tt
items-AreSpelled f false [] h = tt
items-AreSpelled f true (x ∷ xs) h =
    (refl, append-AreSpelled (f x) (items f true xs) h.0 (items-AreSpelled f true xs h.1))
items-AreSpelled f false (x ∷ xs) h =
    append-AreSpelled (f x) (items f true xs) h.0 (items-AreSpelled f true xs h.1)

sayable_items : (es : List Expr) → All IsSayable es → All (λ e. AreSpelled (expr_lexeme e ∷ [])) es
sayable_items [] h = tt
sayable_items (e ∷ es) h = ((expr_lexeme-IsSpelled e h.0, tt), sayable_items es h.1)

column_items : (es : List Expr) → All (λ e. IsColumn e × IsSayable e) es → All IsSayable es
column_items [] h = tt
column_items (e ∷ es) h = (h.0.1, column_items es h.1)

pair_items-AreSpelled :
    (later : Bool) (columns values : List Expr)
    → All IsSayable columns
    → All IsSayable values
    → AreSpelled (pair_items later columns values)
unfolding pair_items punctuation
pair_items-AreSpelled later [] values h g = tt
pair_items-AreSpelled later (c ∷ columns) [] h g = tt
pair_items-AreSpelled true (c ∷ columns) (v ∷ values) h g =
    let rest = pair_items-AreSpelled true columns values h.1 g.1 in
    (refl, (expr_lexeme-IsSpelled c h.0, (refl, (expr_lexeme-IsSpelled v g.0, rest))))
pair_items-AreSpelled false (c ∷ columns) (v ∷ values) h g =
    let rest = pair_items-AreSpelled true columns values h.1 g.1 in
    (expr_lexeme-IsSpelled c h.0, (refl, (expr_lexeme-IsSpelled v g.0, rest)))

condition-AreSpelled : (e : Expr) → IsSayableCondition e → AreSpelled (condition_lexemes e)
unfolding punctuation
condition-AreSpelled (equals l r) h =
    (expr_lexeme-IsSpelled l h.0, (refl, (expr_lexeme-IsSpelled r h.1, tt)))
condition-AreSpelled (literal_int n) h = (expr_lexeme-IsSpelled (literal_int n) h, tt)
condition-AreSpelled (literal_string t) h = (expr_lexeme-IsSpelled (literal_string t) h, tt)
condition-AreSpelled (literal_boolean b) h = (expr_lexeme-IsSpelled (literal_boolean b) h, tt)
condition-AreSpelled (column name) h = (expr_lexeme-IsSpelled (column name) h, tt)

where-AreSpelled : (c : Option Expr) → IsSayableOption c → AreSpelled (where_lexemes c)
unfolding is_alnum
where-AreSpelled none h = tt
where-AreSpelled (some e) h = ((word-IsSpelled (codes "WHERE") refl), condition-AreSpelled e h)

type_name-IsSpelled : (t : ColumnType) → IsSpelled (word (type_name t))
unfolding is_alnum
type_name-IsSpelled column_integer = (word-IsSpelled (codes "INTEGER") refl)
type_name-IsSpelled column_text = (word-IsSpelled (codes "TEXT") refl)
type_name-IsSpelled column_boolean = (word-IsSpelled (codes "BOOLEAN") refl)

key-AreSpelled :
    (b : Bool) → AreSpelled (if b then word (codes "PRIMARY") ∷ word (codes "KEY") ∷ [] else [])
unfolding is_alnum
key-AreSpelled true =
    (word-IsSpelled (codes "PRIMARY") refl, (word-IsSpelled (codes "KEY") refl, tt))
key-AreSpelled false = tt

definition_items :
    (columns : List ColumnDefinition)
    → All (λ c. IsName c.name) columns
    → All (λ c. AreSpelled (definition_lexemes c)) columns
definition_items [] h = tt
definition_items (c ∷ columns) h = (
  (h.0.0, (type_name-IsSpelled c.column_type, key-AreSpelled c.is_primary)),
  definition_items columns h.1,
)

select-AreSpelled :
    (is_star : Bool) (columns : List Expr)
    → All (λ e. IsColumn e × IsSayable e) columns
    → AreSpelled (select_lexemes is_star columns)
unfolding punctuation
select-AreSpelled true columns h = (refl, tt)
select-AreSpelled false columns h =
    items-AreSpelled (λ e. expr_lexeme e ∷ []) false columns
      (sayable_items columns (column_items columns h))

pub statement_lexemes-IsSpelled : (s : Statement) → HasText s → AreSpelled (statement_lexemes s)
unfolding statement_lexemes is_alnum punctuation
statement_lexemes-IsSpelled (select table is_star columns condition) h = (
  word-IsSpelled (codes "SELECT") refl,
  append-AreSpelled (select_lexemes is_star columns) _ (select-AreSpelled is_star columns h.1.0)
      (word-IsSpelled (codes "FROM") refl, (h.0.0, where-AreSpelled condition h.3)),
)
statement_lexemes-IsSpelled (insert table values) h = (
  word-IsSpelled (codes "INSERT") refl,
  (
    word-IsSpelled (codes "INTO") refl,
    (
      h.0.0,
      (
        word-IsSpelled (codes "VALUES") refl,
        (
          refl,
          append-AreSpelled (expr_items false values) _
              (items-AreSpelled (λ e. expr_lexeme e ∷ []) false values (sayable_items values h.1))
              (refl, tt),
        ),
      ),
    ),
  ),
)
statement_lexemes-IsSpelled (create_table table columns) h = (
  word-IsSpelled (codes "CREATE") refl,
  (
    word-IsSpelled (codes "TABLE") refl,
    (
      h.0.0,
      (
        refl,
        append-AreSpelled (items definition_lexemes false columns) _
            (items-AreSpelled definition_lexemes false columns (definition_items columns h.1))
            (refl, tt),
      ),
    ),
  ),
)
statement_lexemes-IsSpelled (update_table table columns values condition) h = (
  word-IsSpelled (codes "UPDATE") refl,
  (
    h.0.0,
    (
      word-IsSpelled (codes "SET") refl,
      append-AreSpelled (pair_items false columns values) _
          (pair_items-AreSpelled false columns values (column_items columns h.1.0) h.2)
          (where-AreSpelled condition (subst IsSayableOption (sym h.5) h.6)),
    ),
  ),
)
statement_lexemes-IsSpelled (delete_table table condition) h = (
  word-IsSpelled (codes "DELETE") refl,
  (word-IsSpelled (codes "FROM") refl, (h.0.0, where-AreSpelled condition h.1)),
)

-- The part of an UPDATE in front of its WHERE.
pub head-AreSpelled :
    (table : Bytes) (columns values : List Expr)
    → IsName table
    → AreNames columns
    → All IsSayable values
    → AreSpelled (
        word (codes "UPDATE")
        ∷ word table
        ∷ word (codes "SET")
        ∷ (pair_items false columns values ++ []))
unfolding is_alnum
head-AreSpelled table columns values name names sayable = (
  word-IsSpelled (codes "UPDATE") refl,
  (
    name.0,
    (
      word-IsSpelled (codes "SET") refl,
      append-AreSpelled (pair_items false columns values) []
          (pair_items-AreSpelled false columns values (column_items columns names.0) sayable) tt,
    ),
  ),
)
