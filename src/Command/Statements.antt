-- ===== src/Command/Statements.antt =====
-- What the switch of `process_command` in src/command.c parses from any text.
use database_in_c.Prelude.{
  arith, ◌≡◌, refl, Bool, true, false, Option, none, some, ◌⊎◌, inl, inr, if◌then◌else◌,
}
use database_in_c.Ast.{Statement}
use database_in_c.Lexer.{token_select, token_create, token_insert, token_update, token_delete}
use database_in_c.Parser.{Parser, Parsed, parsed, failed, parse_undefined, parse_out_of_fuel, sees}
use database_in_c.Parser.Post.{Post}
use database_in_c.Parser.Shape.Lists.{
  IsSelect, IsDelete, IsUpdate, parse_select_statement-IsSelect, parse_update_statement-IsUpdate,
  parse_delete_statement-IsDelete,
}
use database_in_c.Parser.Shape.Columns.{
  IsInsert, IsCreate, parse_insert_statement-IsInsert, parse_create_statement-IsCreate,
}
use database_in_c.Command.{parse_statement}

-- Of a kind, with the shape that the parser of the kind promises.
abbrev pub IsStatement : Statement → Type 0
IsStatement s = IsSelect s ⊎ (IsCreate s ⊎ (IsInsert s ⊎ (IsUpdate s ⊎ IsDelete s)))

-- A weaker promise on the tree, and undefined behaviour permitted.
weaken-Post :
    {P Q : Statement → Type 0} (a b : Bool) (r : Parsed Statement)
    → ((s : Statement) → P s → Q s)
    → (a ≡ true → b ≡ true)
    → Post a (λ s _. P s) r
    → Post b (λ s _. Q s) r
weaken-Post a b (parsed s p) f i h = record { holds = f s h.holds }
weaken-Post a b (failed e) f i h = record { holds = tt }
weaken-Post a b parse_undefined f i h = record { holds = i h.holds }
weaken-Post a b parse_out_of_fuel f i h = absurd h.holds

-- What an optional result promises.
abbrev pub PostOption : Bool → Option (Parsed Statement) → Type 0
PostOption unset none = Unit
PostOption unset (some r) = Post unset (λ s _. IsStatement s) r

if-PostOption :
    (unset : Bool) (x y : Option (Parsed Statement)) (b : Bool)
    → (b ≡ true → PostOption unset x)
    → (b ≡ false → PostOption unset y)
    → PostOption unset (if b then x else y)
if-PostOption unset x y true h k = h refl
if-PostOption unset x y false h k = k refl

-- On any text the switch ends: it refuses the first token, or its parser ends with an error, with
-- a statement that has the shape its parser promises, or, if the first token is UPDATE, with the
-- destruction of a node whose `where` was never written; so an INSERT has at most eight literals or
-- names, a CREATE TABLE at most eight columns and exactly one primary key, which is an INTEGER,
-- and an UPDATE as many values as columns.
pub parse_statement-IsStatement :
    (p : Parser) → PostOption (sees p token_update) (parse_statement p)
unfolding parse_statement
parse_statement-IsStatement p =
    let unset = sees p token_update in
    let never : false ≡ true → unset ≡ true = λ h. absurd (ground (arith, h)) in
    if-PostOption unset _ _ (sees p token_select)
      (λ _. weaken-Post false unset _ (λ _ h. inl h) never (parse_select_statement-IsSelect p))
      λ _.
        if-PostOption unset _ _ (sees p token_create)
          (λ _.
            weaken-Post false unset _ (λ _ h. inr (inl h)) never
              (parse_create_statement-IsCreate p))
          λ _.
            if-PostOption unset _ _ (sees p token_insert)
              (λ _.
                weaken-Post false unset _ (λ _ h. inr (inr (inl h))) never
                  (parse_insert_statement-IsInsert p))
              λ _.
                if-PostOption unset _ _ (sees p token_update)
                  (λ update.
                    weaken-Post true unset _ (λ _ h. inr (inr (inr (inl h)))) (λ _. update)
                      (parse_update_statement-IsUpdate p))
                  λ _.
                    if-PostOption unset _ _ (sees p token_delete)
                      (λ _.
                        weaken-Post false unset _ (λ _ h. inr (inr (inr (inr h)))) never
                          (parse_delete_statement-IsDelete p))
                      λ _. tt
