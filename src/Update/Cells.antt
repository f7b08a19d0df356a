-- ===== src/Update/Cells.antt =====
-- The loop of `update_command` in src/table.c over one leaf, and what it makes of a text.
use database_in_c.Prelude.{
  ℕ, zero, suc, ◌+◌, ◌<◌, ◌≤◌, ◌≡◌, ◌≢◌, refl, Bool, true, false, ◌++◌, some, arith, length,
  if◌then◌else◌, update, Bool-cases, inl, inr, ◌∙◌, ap, sym, All, drop, take, take_all, ltb,
  length-append, length-drop,
}
use native.Mathlib.Decide.{dec_lt}
use database_in_c.Chars.{Bytes}
use database_in_c.Ast.{literal_string, column_text}
use database_in_c.Row.{Value, text, value_text_max_len, strlen, value_bytes, read_value}
use database_in_c.Row.Strlen.{strlen-append}
use database_in_c.Page.{LeafCell}
use database_in_c.Btree.Leaf.Insert.{leaf_cell}
use database_in_c.Update.{CellStep, keep_cell, write_cell, update_cells, update_value}

module _ (step : LeafCell → CellStep) (f : LeafCell → Bool) (g : LeafCell → Bytes)
    (decides : (c : LeafCell) → step c ≡ (if f c then write_cell (g c) else keep_cell)) where
  -- A cell behind the loop.
  abbrev edited : LeafCell → LeafCell
  edited c = if f c then leaf_cell c.key (g c) else c

  update_cells-write :
      (k i : ℕ) (cells : ℕ → LeafCell) (dirty : Bool)
      → f (cells i) ≡ true
      → update_cells step (suc k) i cells dirty
        ≡ update_cells step k (i + 1) (update cells i (leaf_cell (cells i).key (g (cells i)))) true
  unfolding update_cells
  update_cells-write k i cells dirty hit =
      let e : step (cells i) ≡ write_cell (g (cells i)) =
        decides (cells i) ∙ ap (λ b. if b then write_cell (g (cells i)) else keep_cell) hit in
      rw (e, update_cells) refl

  update_cells-keep :
      (k i : ℕ) (cells : ℕ → LeafCell) (dirty : Bool)
      → f (cells i) ≡ false
      → update_cells step (suc k) i cells dirty ≡ update_cells step k (i + 1) cells dirty
  unfolding update_cells
  update_cells-keep k i cells dirty miss =
      let e : step (cells i) ≡ keep_cell =
        decides (cells i) ∙ ap (λ b. if b then write_cell (g (cells i)) else keep_cell) miss in
      rw (e, update_cells) refl

  -- What the loop leaves of the cells from `i` on, `k` of them, and of the mark.
  record Edits (cells : ℕ → LeafCell) (i k : ℕ) (dirty : Bool) (out : ℕ → LeafCell) (flag : Bool)
      : Type 0 where
    before : (j : ℕ) → j < i → out j ≡ cells j
    within : (j : ℕ) → i ≤ j → j < i + k → out j ≡ edited (cells j)
    stays : dirty ≡ true → flag ≡ true
    marked : (j : ℕ) → i ≤ j → j < i + k → f (cells j) ≡ true → flag ≡ true

  update_cells-Edits :
      (k i : ℕ) (cells : ℕ → LeafCell) (dirty : Bool)
      → (out : ℕ → LeafCell) × (flag : Bool) × (update_cells step k i cells dirty
          ≡ some (out, flag, true))
        × Edits cells i k dirty out flag
  unfolding update_cells
  update_cells-Edits zero i cells dirty = (
    cells,
    dirty,
    refl,
    record {
      before = λ j p. refl;
      within = λ j p q. absurd (omega arith);
      stays = λ e. e;
      marked = λ j p q e. absurd (omega arith);
    },
  )
  update_cells-Edits (suc k) i cells dirty = elim (Bool-cases (f (cells i))) [
    | inl hit ↦
        let new = leaf_cell (cells i).key (g (cells i)) in
        let cells' = update cells i new in
        let (out, flag, runs, edits) = update_cells-Edits k (i + 1) cells' true in
        let here : edited (cells i) ≡ new = ap (λ b. if b then new else cells i) hit in
        let here' : cells' i ≡ new = ground arith in
        (
          out,
          flag,
          update_cells-write k i cells dirty hit ∙ runs,
          record {
            before = λ j p. edits.before j (omega arith) ∙ ground arith;
            within = λ j p q. elim (dec_lt i j) [
              | yes later ↦
                  let same : cells' j ≡ cells j = ground arith in
                  edits.within j (omega arith) (omega arith) ∙ ap edited same
              | no first ↦
                  let eq : j ≡ i = omega arith in
                  rw eq (edits.before i (omega arith) ∙ here' ∙ sym here)
            ];
            stays = λ e. edits.stays refl;
            marked = λ j p q e. edits.stays refl;
          },
        )
    | inr miss ↦
        let (out, flag, runs, edits) = update_cells-Edits k (i + 1) cells dirty in
        let here : edited (cells i) ≡ cells i =
          ap (λ b. if b then leaf_cell (cells i).key (g (cells i)) else cells i) miss in
        (
          out,
          flag,
          update_cells-keep k i cells dirty miss ∙ runs,
          record {
            before = λ j p. edits.before j (omega arith);
            within = λ j p q. elim (dec_lt i j) [
              | yes later ↦ edits.within j (omega arith) (omega arith)
              | no first ↦
                  let eq : j ≡ i = omega arith in rw eq (edits.before i (omega arith) ∙ sym here)
            ];
            stays = edits.stays;
            marked = λ j p q e. elim (dec_lt i j) [
              | yes later ↦ edits.marked j (omega arith) (omega arith) e
              | no first ↦
                  let eq : j ≡ i = omega arith in
                  let both : true ≡ false = sym e ∙ ap (λ n. f (cells n)) eq ∙ miss in
                  absurd (ground (arith, both))
            ];
          },
        )
  ]

  -- Where every round keeps its cell or writes it, as `f` decides, the loop of `update_command` over
  -- the `n` cells of a leaf runs to its end; the cells on which `f` holds have the new value under
  -- their old key, the others are as they were, and the leaf is marked dirty if `f` holds on one.
  pub update_cells-edited :
      (cells : ℕ → LeafCell) (n : ℕ)
      → (out : ℕ → LeafCell) × (flag : Bool) × (update_cells step n 0 cells false
          ≡ some (out, flag, true))
        × ((j : ℕ)
            → j < n
            → out j ≡ (if f (cells j) then leaf_cell (cells j).key (g (cells j)) else cells j))
        × ((j : ℕ) → j < n → f (cells j) ≡ true → flag ≡ true)
  update_cells-edited cells n =
      let (out, flag, runs, edits) = update_cells-Edits n 0 cells false in
      (
        out,
        flag,
        runs,
        λ j p. edits.within j (omega arith) (omega arith),
        λ j p e. edits.marked j (omega arith) (omega arith) e,
      )

-- A text that is set to a shorter one without a NUL is stored with the rest of the old text behind
-- it: what `deserialize_row` reads back has the new text's length and that of the old text's rest.
pub update_value-tail :
    (t s : Bytes) (n : ℕ)
    → length t ≡ value_text_max_len
    → length s ≤ value_text_max_len
    → All (λ c. c ≢ 0) s
    → (v : Value) × (update_value (text t n) (literal_string s) ≡ some (some v))
      × (read_value column_text (value_bytes v)
          ≡ text (s ++ drop (length s) t) (length s + strlen (drop (length s) t)))
unfolding update_value read_value value_bytes
update_value-tail t s n size fits clean =
    let test : ltb value_text_max_len (length s) ≡ false = ground arith in
    let all = s ++ drop (length s) t in
    let count : value_text_max_len ≡ length all =
      omega (arith, length-append {0} s (drop (length s) t), length-drop {0} (length s) t) in
    let whole : take value_text_max_len all ≡ all = take_all all value_text_max_len count in
    (
      text all (length s),
      rw test,
      ap (λ u. text u (strlen u)) (ap (take value_text_max_len) whole ∙ whole)
          ∙ ap (text all) (strlen-append s (drop (length s) t) clean),
    )
