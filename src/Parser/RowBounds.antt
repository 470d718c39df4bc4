-- ===== src/Parser/RowBounds.antt =====
-- The cells that PostgresParser::parse_data_row leaves in its row.
use wf_postgres.Cell.{PostgresCell}
use wf_postgres.Common.{
  ℕ, zero, suc, ◌+◌, ◌≤◌, ◌≡◌, ◌≢◌, refl, ap, true, false, List, [], ◌∷◌, ◌++◌, none, some, ◌⊎◌,
  inl, inr, Run, ok, fault, diverged, Returns-ok, sym, ◌∙◌, Returns, >>=-Returns, Bytes, ℤ, pos,
  negsuc, length, drop, length-drop, length-take, length-append, All, All-append, ltb, Bool-cases,
  Option-cases, some-pair, arith, tests,
}
use wf_postgres.Parser.DataRow.{parse_data_row, read_columns, read_column, row_for}
use wf_postgres.Types.{PostgresField}
use wf_postgres.Wire.Bounds.{Any, read_int16-Returns, read_int32-Returns}
use wf_postgres.Wire.{read_int16, read_int32}

-- The bytes of a cell's value.
abbrev pub value_of : PostgresCell → Bytes
value_of c = elim c.contents [ none ↦ [] | some b ↦ b ]

-- The bytes that a row's values and their length fields take.
abbrev pub row_size : List PostgresCell → ℕ
row_size [] = 0
row_size (c ∷ row) = 4 + length (value_of c) + row_size row

row_size-append :
    (row : List PostgresCell) (c : PostgresCell)
    → row_size (row ++ c ∷ []) ≡ row_size row + 4 + length (value_of c)
row_size-append [] c = omega arith
row_size-append (x ∷ row) c = omega (arith, row_size-append row c)

-- A value is as long as its cell says; a null cell points to nothing, any other to its value.
abbrev pub IsCell : PostgresCell → Type 0
IsCell c =
    (length (value_of c) ≡ c.length)
    × (((c.is_null ≡ true) × (c.contents ≡ none)) ⊎ ((c.is_null ≡ false) × (c.contents ≢ none)))

read_column-IsCell :
    (n : ℤ) (p : Bytes) (f : PostgresField) {c : PostgresCell} {p' : Bytes}
    → read_column n p f ≡ some (c, p')
    → IsCell c × (length p ≡ length (value_of c) + length p')
unfolding read_column
read_column-IsCell (negsuc zero) p f {c} {p'} h =
    let e = some-pair h in rw (← e.0, ← e.1) ((refl, inl (refl, refl)), omega arith)
read_column-IsCell (negsuc (suc _)) p f h = cc
read_column-IsCell (pos n) p f {c} {p'} h = elim (Bool-cases (ltb (length p) n)) [
  | inl short ↦ ground arith
  | inr e ↦
      let k = some-pair (rw e at h) in
      let fits : n ≤ length p = omega (tests, e) in
      rw (← k.0, ← k.1)
        (
          (omega (arith, length-take n p), inr (refl, λ x. cc)),
          omega (arith, length-take n p, length-drop n p),
        )
]

-- On 0 there are `n` cells, and their values with their length fields take at most `size` bytes.
-- On -1 the row holds the cells read before the fault was met.
abbrev pub Cells : ℕ → ℕ → ℤ × List PostgresCell → Type 0
Cells n size (status, row) =
    All IsCell row
    × (row_size row ≤ size)
    × ((status ≡ negsuc 0) ⊎ ((status ≡ pos 0) × (length row ≡ n)))

Cells-grow :
    (m : Run (ℤ × List PostgresCell)) {n n' size size' : ℕ}
    → n ≡ n'
    → size ≤ size'
    → Returns m (Cells n size)
    → Returns m (Cells n' size')
Cells-grow (ok r) e h (cells, small, count) = (cells, omega arith, rw (← e) count)
Cells-grow fault e h c = c
Cells-grow diverged e h c = c

read_columns-Cells :
    (n : ℕ) (p : Bytes) (fields : List PostgresField) (row : List PostgresCell)
    → n ≤ length fields
    → All IsCell row
    → Returns (read_columns n p fields row) (Cells (length row + n) (row_size row + length p))
unfolding read_columns
read_columns-Cells zero p fields row h cells = (cells, omega arith, inr (refl, omega arith))
read_columns-Cells (suc n) p [] row h cells = absurd (omega arith)
read_columns-Cells (suc n) p (f ∷ fields) row h cells = elim (Bool-cases (ltb (length p) 4)) [
  | inl short ↦ rw short (cells, omega arith, inl refl)
  | inr e ↦ rw e (
      >>=-Returns (read_int32 p) _ Any _ (read_int32-Returns p (omega (tests, e))) λ col_len _.
        elim (Option-cases (read_column col_len (drop 4 p) f)) [
          | inl c ↦ rw c (cells, omega arith, inl refl)
          | inr ((c, p'), k) ↦ rw k (
              let is_cell = read_column-IsCell col_len (drop 4 p) f k in
              Cells-grow _ (omega (arith, length-append row (c ∷ [])))
                (omega (tests, e, row_size-append row c, is_cell.1, length-drop 4 p))
                (read_columns-Cells n p' fields (row ++ c ∷ []) (omega arith)
                  (All-append IsCell row (c ∷ []) cells (is_cell.0, tt))))
        ])
]

-- On 0 there are as many cells as the payload announces, and no more than there are fields.
abbrev pub RowOf : Bytes → List PostgresField → ℤ × List PostgresCell → Type 0
RowOf p fields (status, row) =
    All IsCell row
    × (row_size row ≤ length p)
    × ((status ≡ negsuc 0)
        ⊎ ((status ≡ pos 0)
            × (read_int16 p ≡ ok (pos (length row)))
            × (length row ≤ length fields)))

columns-RowOf :
    (m : Run (ℤ × List PostgresCell)) (p : Bytes) (fields : List PostgresField) (n size : ℕ)
    → read_int16 p ≡ ok (pos n)
    → n ≤ length fields
    → size ≤ length p
    → Returns m (Cells n size)
    → Returns m (RowOf p fields)
columns-RowOf (ok (status, row)) p fields n size e h small (cells, fits, inl bad) =
    (cells, omega arith, inl bad)
columns-RowOf (ok (status, row)) p fields n size e h small (cells, fits, inr good) =
    (cells, omega arith, inr (good.0, e ∙ ap (λ k. ok (pos k)) (sym good.1), omega (arith, good.1)))
columns-RowOf fault p fields n size e h small c = c
columns-RowOf diverged p fields n size e h small c = c

row_for-RowOf :
    (p : Bytes) (fields : List PostgresField) (num_cols : ℤ)
    → read_int16 p ≡ ok num_cols
    → Returns (row_for num_cols (drop 2 p) [] fields) (RowOf p fields)
unfolding row_for
row_for-RowOf p fields (negsuc n) e = (tt, omega arith, inl refl)
row_for-RowOf p fields (pos n) e = elim (Bool-cases (ltb (length fields) n)) [
  | inl many ↦ rw many (tt, omega arith, inl refl)
  | inr few ↦ rw few (
      columns-RowOf _ p fields (0 + n) (0 + length (drop 2 p))
        (e ∙ ap (λ k. ok (pos k)) (omega arith)) (omega (tests, few))
        (omega (arith, length-drop 2 p))
        (read_columns-Cells n (drop 2 p) fields [] (omega (tests, few)) tt))
]

-- Whatever a DataRow payload holds, no read leaves it: the parser returns with -1, or with 0 and
-- as many cells as the payload announces and no more than there are fields. The cells are values
-- that fit in the payload together.
pub parse_data_row-RowOf :
    (p : Bytes) (fields : List PostgresField)
    → Returns (parse_data_row p [] fields) (RowOf p fields)
unfolding parse_data_row
parse_data_row-RowOf p fields = elim (Bool-cases (ltb (length p) 2)) [
  | inl e ↦ rw e (tt, omega arith, inl refl)
  | inr e ↦
      let (num_cols, read, _) =
        Returns-ok (read_int16 p) Any (read_int16-Returns p (omega (tests, e))) in
      rw (e, read) (row_for-RowOf p fields num_cols read)
]
