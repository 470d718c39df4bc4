-- ===== src/Cursor/NamedRows.antt =====
-- What a row by name holds, and that copied rows own their bytes.
use wf_postgres.Cell.{PostgresCell}
use wf_postgres.Common.{
  Bool, true, false, List, [], ◌∷◌, Option, none, some, ok, ◌>>=◌, Bytes, All, length,
  if◌then◌else◌, str_eq, str_eq_iff, ◌≡◌, ◌≤◌, ◌∙◌, refl, sym, subst, ap, arith, le→not-ltb,
  Bool-cases, inl, inr,
}
use wf_postgres.Cursor.{PostgresResultCursor, fetch_row}
use wf_postgres.Cursor.Named.{
  RowMap, insert, insert_unordered, name_cells, named, fetch_row_map, fetch_row_unordered_map,
}
use wf_postgres.Types.{PostgresField, str_lt}

abbrev pub find : Bytes → RowMap → Option PostgresCell
find k [] = none
find k ((j, v) ∷ m) = if str_eq j k then some v else find k m

abbrev or_else : Option PostgresCell → Option PostgresCell → Option PostgresCell
or_else (some v) o = some v
or_else none o = o

-- The cell of the first column of that name.
abbrev pub column_named : Bytes → List PostgresField → List PostgresCell → Option PostgresCell
column_named k fields [] = none
column_named k [] (x ∷ row) = none
column_named k (f ∷ fields) (x ∷ row) =
    if str_eq f.name k then some x else column_named k fields row

str_lt_trans : (a b c : Bytes) → str_lt a b ≡ true → str_lt b c ≡ true → str_lt a c ≡ true
unfolding str_lt
str_lt_trans [] [] c h k = cc
str_lt_trans [] (y ∷ b) [] h k = cc
str_lt_trans [] (y ∷ b) (z ∷ c) h k = refl
str_lt_trans (x ∷ a) [] c h k = cc
str_lt_trans (x ∷ a) (y ∷ b) [] h k = cc
str_lt_trans (x ∷ a) (y ∷ b) (z ∷ c) h k = ground (arith, str_lt_trans a b c)

str_lt_irrefl : (a : Bytes) → str_lt a a ≡ false
unfolding str_lt
str_lt_irrefl [] = refl
str_lt_irrefl (x ∷ a) = ground (arith, str_lt_irrefl a)

str_lt_total : (a b : Bytes) → str_eq a b ≡ false → str_lt b a ≡ false → str_lt a b ≡ true
unfolding str_lt str_eq
str_lt_total [] [] h k = cc
str_lt_total [] (y ∷ b) h k = refl
str_lt_total (x ∷ a) [] h k = cc
str_lt_total (x ∷ a) (y ∷ b) h k = ground (arith, str_lt_total a b)

-- All keys are behind `k`.
abbrev Above : Bytes → RowMap → Type 0
Above k = All (λ (kv : Bytes × PostgresCell). str_lt k kv.0 ≡ true)

abbrev IsSorted : RowMap → Type 0
IsSorted [] = Unit
IsSorted ((k, _) ∷ m) = Above k m × IsSorted m

Above-trans : (j k : Bytes) (m : RowMap) → str_lt j k ≡ true → Above k m → Above j m
Above-trans j k [] h a = tt
Above-trans j k ((i, _) ∷ m) h a = (str_lt_trans j k i h a.0, Above-trans j k m h a.1)

find-Above : (k : Bytes) (m : RowMap) → Above k m → find k m ≡ none
find-Above k [] a = refl
find-Above k ((i, v) ∷ m) a = elim (Bool-cases (str_eq i k)) [
  | inl e ↦ let same = (str_eq_iff i k).0 e in cc (ap (str_lt k) same, str_lt_irrefl k, a.0)
  | inr e ↦ rw e (find-Above k m a.1)
]

insert-Above :
    (j k : Bytes) (v : PostgresCell) (m : RowMap)
    → str_lt j k ≡ true
    → Above j m
    → Above j (insert k v m)
unfolding insert
insert-Above j k v [] h a = (h, tt)
insert-Above j k v ((i, w) ∷ m) h a = elim (Bool-cases (str_eq i k)) [
  | inl e ↦ rw e a
  | inr e ↦ elim (Bool-cases (str_lt k i)) [
    | inl b ↦ rw (e, b) (h, a)
    | inr b ↦ rw (e, b) (a.0, insert-Above j k v m h a.1)
  ]
]

insert-IsSorted : (k : Bytes) (v : PostgresCell) (m : RowMap) → IsSorted m → IsSorted (insert k v m)
unfolding insert
insert-IsSorted k v [] s = (tt, tt)
insert-IsSorted k v ((i, w) ∷ m) s = elim (Bool-cases (str_eq i k)) [
  | inl e ↦ rw e s
  | inr e ↦ elim (Bool-cases (str_lt k i)) [
    | inl b ↦ rw (e, b) ((b, Above-trans k i m b s.0), s)
    | inr b ↦ rw (e, b) (insert-Above i k v m (str_lt_total i k e b) s.0, insert-IsSorted k v m s.1)
  ]
]

-- An insertion keeps what is there.
abbrev After : Bytes → Bytes → PostgresCell → RowMap → RowMap → Type 0
After j k v m m' = find j m' ≡ or_else (find j m) (if str_eq k j then some v else none)

or_else-none : (o : Option PostgresCell) → o ≡ or_else o none
or_else-none none = refl
or_else-none (some v) = refl

insert-After :
    (j k : Bytes) (v : PostgresCell) (m : RowMap) → IsSorted m → After j k v m (insert k v m)
unfolding insert
insert-After j k v [] s = refl
insert-After j k v ((i, w) ∷ m) s = elim (Bool-cases (str_eq i k)) [
  | inl e ↦ ground (arith, str_eq_iff k j, str_eq_iff i k, str_eq_iff i j)
  | inr e ↦ elim (Bool-cases (str_lt k i)) [
    | inl b ↦
        let absent : find k ((i, w) ∷ m) ≡ none =
          find-Above k ((i, w) ∷ m) (b, Above-trans k i m b s.0) in
        elim (Bool-cases (str_eq k j)) [
          | inl f ↦
              let none_there : find j ((i, w) ∷ m) ≡ none =
                subst (λ x. find x ((i, w) ∷ m) ≡ none) ((str_eq_iff k j).0 f) absent in
              rw (e, b, f) (ap (λ o. or_else o (some v)) (sym none_there))
          | inr f ↦ rw (e, b, f) (or_else-none (find j ((i, w) ∷ m)))
        ]
    | inr b ↦
        ground (arith, str_eq_iff k j, str_eq_iff i k, str_eq_iff i j, insert-After j k v m s.1)
  ]
]

insert_unordered-After :
    (j k : Bytes) (v : PostgresCell) (m : RowMap) → After j k v m (insert_unordered k v m)
unfolding insert_unordered
insert_unordered-After j k v [] = refl
insert_unordered-After j k v ((i, w) ∷ m) =
    ground (arith, str_eq_iff k j, str_eq_iff i k, str_eq_iff i j, insert_unordered-After j k v m)

or_else_assoc : (a b c : Option PostgresCell) → or_else (or_else a b) c ≡ or_else a (or_else b c)
or_else_assoc none b c = refl
or_else_assoc (some v) b c = refl

or_else_if :
    (b : Bool) (v : PostgresCell) (o : Option PostgresCell)
    → or_else (if b then some v else none) o ≡ (if b then some v else o)
or_else_if true v o = refl
or_else_if false v o = refl

-- The map of a row that is no longer than the fields; `Good` is what the insertion keeps.
module _ (put : Bytes → PostgresCell → RowMap → RowMap) (Good : RowMap → Type 0)
    (keeps : (k : Bytes) (v : PostgresCell) (m : RowMap) → Good m → Good (put k v m))
    (after : (j k : Bytes) (v : PostgresCell) (m : RowMap)
      → Good m
      → After j k v m (put k v m)) where
  name_cells-find :
      (fields : List PostgresField) (row : List PostgresCell) (m : RowMap)
      → length row ≤ length fields
      → Good m
      → (m' : RowMap) × (name_cells put fields row m ≡ ok m')
        × ((k : Bytes) → find k m' ≡ or_else (find k m) (column_named k fields row))
  unfolding name_cells
  name_cells-find [] [] m h g = (m, refl, λ k. or_else-none (find k m))
  name_cells-find (f ∷ fields) [] m h g = (m, refl, λ k. or_else-none (find k m))
  name_cells-find [] (x ∷ row) m h g = absurd (omega arith)
  name_cells-find (f ∷ fields) (x ∷ row) m h g =
      let (m', e, all) =
        name_cells-find fields row (put f.name x m) (omega arith) (keeps f.name x m g) in
      (
        m',
        e,
        λ k.
            all k
            ∙ ap (λ o. or_else o (column_named k fields row)) (after k f.name x m g)
            ∙ or_else_assoc (find k m) (if str_eq f.name k then some x else none) _
            ∙ ap (or_else (find k m)) (or_else_if (str_eq f.name k) x _),
      )

  named-find :
      (c' : PostgresResultCursor) (row : List PostgresCell)
      → length row ≤ length c'.fields
      → Good []
      → (m : RowMap) × (named put (some row) c' ≡ ok (some m, c'))
        × ((k : Bytes) → find k m ≡ column_named k c'.fields row)
  named-find c' row h g =
      let (m, e, all) = name_cells-find c'.fields row [] h g in
      (m, rw (le→not-ltb (length c'.fields) (length row) h, e) refl, all)

-- A row by the names of its columns: where fetch_row gives a row with no more cells than there
-- are fields, both maps hold for every name the cell of the first column with that name, and
-- nothing for other names; the cursor moves as fetch_row moves it.
pub fetch_row_maps-columns :
    (c c' : PostgresResultCursor) (row : List PostgresCell)
    → fetch_row c ≡ ok (some row, c')
    → length row ≤ length c'.fields
    → (m m' : RowMap) × (fetch_row_map c ≡ ok (some m, c'))
      × (fetch_row_unordered_map c ≡ ok (some m', c'))
      × ((k : Bytes)
          → (find k m ≡ column_named k c'.fields row) × (find k m' ≡ column_named k c'.fields row))
unfolding fetch_row_map fetch_row_unordered_map
fetch_row_maps-columns c c' row e h =
    let (m, r, all) = named-find insert IsSorted insert-IsSorted insert-After c' row h tt in
    let (m', r', all') =
      named-find insert_unordered (λ _. Unit) (λ _ _ _ _. tt)
        (λ j k v n _. insert_unordered-After j k v n) c' row h tt in
    (m, m', rw (e, ◌>>=◌) r, rw (e, ◌>>=◌) r', λ k. (all k, all' k))
