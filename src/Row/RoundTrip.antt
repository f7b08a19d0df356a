-- ===== src/Row/RoundTrip.antt =====
-- `serialize_row` and `deserialize_row` of src/table.c undo one another.
use database_in_c.Prelude.{
  ◌≤◌, ◌≡◌, refl, ap, subst, sym, ◌∙◌, true, false, List, [], ◌∷◌, ◌++◌, arith, length, take_all,
  take, drop, length-append, length-take, length-drop, take-append, drop-append,
}
use database_in_c.Chars.{Bytes}
use database_in_c.Ast.{ColumnType, column_integer, column_text, column_boolean}
use database_in_c.Row.{
  Value, Row, integer, text, boolean, value_text_max_len, pattern_of, int64_of, strlen, value_bytes,
  serialize_row, read_value, column_width, deserialize_row, row_size,
}
use database_in_c.Row.Int64.{
  IsInt64, length-to_bytes, int64_of-pattern_of, pattern_of-lt, of_bytes-to_bytes_8,
}

-- A value that `insert_command` or `deserialize_row` builds for a column of the type.
abbrev pub HasType : ColumnType → Value → Type 0
HasType column_integer (integer n) = IsInt64 n
HasType column_text (text t n) = (length t ≡ value_text_max_len) × (n ≡ strlen t)
HasType column_boolean (boolean b) = Unit
HasType _ _ = ⊥

abbrev pub HasTypes : List ColumnType → Row → Type 0
HasTypes [] [] = Unit
HasTypes (type ∷ types) (v ∷ row) = HasType type v × HasTypes types row
HasTypes _ _ = ⊥

pub length-value_bytes :
    (type : ColumnType) (v : Value) → HasType type v → length (value_bytes v) ≡ column_width type
unfolding value_bytes
length-value_bytes column_integer (integer n) h = length-to_bytes 8 (pattern_of n)
length-value_bytes column_text (text t n) h = rw (length-take value_text_max_len t, h.0)
length-value_bytes column_boolean (boolean b) h = refl
length-value_bytes column_integer (text t n) h = absurd h
length-value_bytes column_integer (boolean b) h = absurd h
length-value_bytes column_text (integer n) h = absurd h
length-value_bytes column_text (boolean b) h = absurd h
length-value_bytes column_boolean (integer n) h = absurd h
length-value_bytes column_boolean (text t n) h = absurd h

read_value-value_bytes :
    (type : ColumnType) (v : Value) (rest : Bytes)
    → HasType type v
    → read_value type (value_bytes v ++ rest) ≡ v
unfolding read_value value_bytes
read_value-value_bytes column_integer (integer n) rest h =
    ap (λ w. integer (int64_of w)) (of_bytes-to_bytes_8 (pattern_of n) (pattern_of-lt n))
    ∙ ap integer (int64_of-pattern_of n h)
read_value-value_bytes column_text (text t n) rest (full, len) =
    let whole : take value_text_max_len t ≡ t = take_all t value_text_max_len (sym full) in
    let back : take value_text_max_len (take value_text_max_len t ++ rest) ≡ t =
      rw whole (take-append t rest value_text_max_len (sym full)) in
    ap (λ u. text u (strlen u)) back ∙ ap (text t) (sym len)
read_value-value_bytes column_boolean (boolean true) rest h = refl
read_value-value_bytes column_boolean (boolean false) rest h = refl
read_value-value_bytes column_integer (text t n) rest h = absurd h
read_value-value_bytes column_integer (boolean b) rest h = absurd h
read_value-value_bytes column_text (integer n) rest h = absurd h
read_value-value_bytes column_text (boolean b) rest h = absurd h
read_value-value_bytes column_boolean (integer n) rest h = absurd h
read_value-value_bytes column_boolean (text t n) rest h = absurd h

-- A row of the column types that was serialized over any destination reads back as itself.
pub deserialize_row-serialize_row :
    (types : List ColumnType) (row : Row) (destination : Bytes)
    → HasTypes types row
    → deserialize_row types (serialize_row row destination) ≡ row
unfolding deserialize_row serialize_row
deserialize_row-serialize_row [] [] destination h = refl
deserialize_row-serialize_row [] (v ∷ row) destination h = absurd h
deserialize_row-serialize_row (type ∷ types) [] destination h = absurd h
deserialize_row-serialize_row (type ∷ types) (v ∷ row) destination (hv, h) =
    let rest = serialize_row row (drop (length (value_bytes v)) destination) in
    rw (
      read_value-value_bytes type v rest hv,
      drop-append (value_bytes v) rest (column_width type) (sym (length-value_bytes type v hv)),
      deserialize_row-serialize_row types row (drop (length (value_bytes v)) destination) h,
    )

-- A row of the column types, serialized over no more than `row_size` bytes, takes `row_size` bytes.
pub length-serialize_row :
    (types : List ColumnType) (row : Row) (destination : Bytes)
    → HasTypes types row
    → length destination ≤ row_size types
    → length (serialize_row row destination) ≡ row_size types
unfolding serialize_row row_size
length-serialize_row [] [] destination h e = omega arith
length-serialize_row [] (v ∷ row) destination h e = absurd h
length-serialize_row (type ∷ types) [] destination h e = absurd h
length-serialize_row (type ∷ types) (v ∷ row) destination (hv, h) e = omega (
  arith,
  length-append {0} (value_bytes v) (serialize_row row (drop (length (value_bytes v)) destination)),
  length-value_bytes type v hv,
  length-serialize_row types row (drop (length (value_bytes v)) destination) h (
      omega (
        arith,
        e,
        length-drop {0} (length (value_bytes v)) destination,
        length-value_bytes type v hv,
      )),
)

-- What `serialize_row` writes for a row of the column types does not depend on the bytes that it
-- overwrites, if they are no more than `row_size`.
pub serialize_row-fresh :
    (types : List ColumnType) (row : Row) (s t : Bytes)
    → HasTypes types row
    → length s ≤ row_size types
    → length t ≤ row_size types
    → serialize_row row s ≡ serialize_row row t
unfolding serialize_row row_size
serialize_row-fresh [] [] [] [] h e f = refl
serialize_row-fresh [] [] (b ∷ s) t h e f = absurd (omega arith)
serialize_row-fresh [] [] [] (b ∷ t) h e f = absurd (omega arith)
serialize_row-fresh [] (v ∷ row) s t h e f = absurd h
serialize_row-fresh (type ∷ types) [] s t h e f = absurd h
serialize_row-fresh (type ∷ types) (v ∷ row) s t (hv, h) e f =
    let n = length-value_bytes type v hv in
    let k = length (value_bytes v) in
    ap (λ l. value_bytes v ++ l)
      (serialize_row-fresh types row (drop k s) (drop k t) h
        (omega (arith, n, e, length-drop {0} k s)) (omega (arith, n, f, length-drop {0} k t)))

-- Bytes of the right number that hold a row of the types.
abbrev pub IsStored : List ColumnType → Bytes → Type 0
IsStored types s =
    (length s ≡ row_size types) × ((row : Row) × HasTypes types row × (serialize_row row s ≡ s))

-- The bytes of a row of the types, read and written again over any destination of the row's size, are
-- the same bytes.
pub serialize_row-deserialize_row :
    (types : List ColumnType) (s destination : Bytes)
    → IsStored types s
    → length destination ≤ row_size types
    → serialize_row (deserialize_row types s) destination ≡ s
serialize_row-deserialize_row types s destination (size, (row, typed, same)) e =
    let reads : deserialize_row types s ≡ row =
      subst (λ u. deserialize_row types u ≡ row) same
        (deserialize_row-serialize_row types row s typed) in
    rw (reads, serialize_row-fresh types row destination s typed e (omega arith)) same

-- A row of the types is stored by writing it to an empty buffer.
pub IsStored-serialize_row :
    (types : List ColumnType) (row : Row)
    → HasTypes types row
    → IsStored types (serialize_row row [])
IsStored-serialize_row types row typed =
    let size = length-serialize_row types row [] typed (omega arith) in
    (
      size,
      (
        row,
        typed,
        serialize_row-fresh types row (serialize_row row []) [] typed (omega arith) (omega arith),
      ),
    )
