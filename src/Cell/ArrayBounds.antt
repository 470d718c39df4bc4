-- ===== src/Cell/ArrayBounds.antt =====
-- What as_array of src/protocol/PostgresResult.cc reads, whatever a cell holds.
use wf_postgres.Cell.Access.{is_binary, Holds}
use wf_postgres.Cell.Arrays.{
  read_element, read_elements, read_dims, as_array, behind_dims, size_of, rounds,
}
use wf_postgres.Cell.ArrayMessages.{as_array_head, read_dims_inside}
use wf_postgres.Cell.{PostgresCell}
use wf_postgres.Common.{
  ℕ, zero, suc, ◌+◌, ◌-◌, ◌*◌, ◌^◌, ◌≡◌, refl, ◌∙◌, ◌≤◌, ◌<◌, true, false, ◌||◌, List, [], ◌∷◌,
  ◌++◌, Option, none, some, ok, fault, ◌>>=◌, Returns, Bytes, ℤ, pos, negsuc, u32, length, drop,
  ltb, ◌==◌, All, arith, length-drop, drop_all, Returns-ok, Returns-map, Bool-cases, Option-cases,
  length-take, not-ltb→le, subst, ◌≢◌, inl, inr, ◌⊎◌, All-append, le→not-ltb,
}
use wf_postgres.Types.{PostgresField}
use wf_postgres.Wire.Bounds.{Any, read_int32-Returns}
use wf_postgres.Wire.{read_uint32, read_int32}

-- An element has all its bytes.
abbrev pub IsWhole : PostgresCell → Type 0
IsWhole c = elim c.contents [ none ↦ c.length ≡ 0 | some v ↦ c.length ≡ length v ]

abbrev pub total : List PostgresCell → ℕ
total [] = 0
total (c ∷ cells) = c.length + total cells

total-append : (xs ys : List PostgresCell) → total (xs ++ ys) ≡ total xs + total ys
total-append [] ys = omega arith
total-append (x ∷ xs) ys = omega (arith, total-append xs ys)

-- Whole elements, of `n` bytes together at most.
abbrev pub Within : ℕ → List PostgresCell → Type 0
Within n cells = All IsWhole cells × (total cells ≤ n)

-- A whole element out of `p`, or none.
abbrev Taken : Bytes → Option (PostgresCell × Bytes) → Type 0
Taken p none = Unit
Taken p (some (e, p')) = IsWhole e × (e.length + length p' ≤ length p)

read_element-Taken : (l : ℤ) (p : Bytes) (f : Option PostgresField) → Taken p (read_element l p f)
unfolding read_element
read_element-Taken (negsuc zero) p f = (refl, omega arith)
read_element-Taken (negsuc (suc n)) p f = tt
read_element-Taken (pos n) p f = elim (Bool-cases (ltb (length p) n)) [
  | inl short ↦ rw short tt
  | inr fits ↦ rw fits (
      let inside = not-ltb→le (length p) n fits in
      (omega (arith, length-take n p), omega (arith, length-drop n p)))
]

read_elements-Within :
    (n : ℕ) (p : Bytes) (f : Option PostgresField) (before : List PostgresCell) (m : ℕ)
    → Within m before
    → Returns (read_elements n p f before) (Within (m + length p))
unfolding read_elements
read_elements-Within zero p f before m h = (h.0, omega arith)
read_elements-Within (suc n) p f before m h = elim (Bool-cases (ltb (length p) 4)) [
  | inl short ↦ rw short (h.0, omega arith)
  | inr enough ↦
      let four = not-ltb→le (length p) 4 enough in
      let (l, r, _) = Returns-ok (read_int32 p) Any (read_int32-Returns p four) in
      let taken = read_element-Taken l (drop 4 p) f in
      elim (Option-cases (read_element l (drop 4 p) f)) [
        | inl stop ↦ rw (enough, r, ◌>>=◌, stop) (h.0, omega arith)
        | inr ((e, p'), more) ↦
            let (whole, size) = subst (Taken (drop 4 p)) more taken in
            rw (enough, r, ◌>>=◌, more)
              (Returns-map (read_elements n p' f (before ++ e ∷ []))
                (Within (m + e.length + length p')) (Within (m + length p))
                (λ cells w. (w.0, omega (arith, w.1, size, length-drop 4 p)))
                (read_elements-Within n p' f (before ++ e ∷ []) (m + e.length) (
                  All-append IsWhole before (e ∷ []) h.0 (whole, tt),
                  omega (arith, h.1, total-append before (e ∷ [])),
                )))
      ]
]

-- 12 + 8 * ndim is an int, for the bit pattern of `ndim`.
abbrev pub NoOverflow : ℕ → Type 0
NoOverflow w = (w < 2 ^ 28 - 1) ⊎ ((2 ^ 32 - 2 ^ 28 ≤ w) × (w < 2 ^ 32))

-- A head that passes the guard has a positive number of dimensions, and they are there.
passes_guard :
    (ndim n : ℕ)
    → NoOverflow ndim
    → ndim ≢ 2 ^ 32 - 1
    → n < 2 ^ 63
    → (ndim == 0 || ltb n (size_of (u32 (12 + 8 * ndim)))) ≡ false
    → (1 ≤ ndim)
      × (12 + 8 * ndim ≤ n)
      × (behind_dims ndim ≡ some (12 + 8 * ndim))
      × (size_of (u32 (12 + 8 * ndim)) ≤ n)
passes_guard ndim n (inl small) regular size go =
    (ground arith, ground arith, ground arith, ground arith)
passes_guard ndim n (inr large) regular size go = absurd (ground arith)

read_dims-Within :
    (ndim : ℕ) (p : Bytes) (f : Option PostgresField)
    → NoOverflow ndim
    → ndim ≢ 2 ^ 32 - 1
    → length p < 2 ^ 63
    → Returns (read_dims ndim (length p) p f) (Within (length p))
read_dims-Within ndim p f small regular size =
    elim (Bool-cases (ndim == 0 || ltb (length p) (size_of (u32 (12 + 8 * ndim))))) [
      | inl stop ↦ unfold read_dims in rw stop (tt, omega arith)
      | inr go ↦
          let (positive, inside, start, guard) =
            passes_guard ndim (length p) small regular size go in
          let (dim_size, d, _) =
            Returns-ok (read_int32 (drop 12 p)) Any
              (read_int32-Returns (drop 12 p) (omega (arith, length-drop 12 p))) in
          let (lower, l, _) =
            Returns-ok (read_int32 (drop 16 p)) Any
              (read_int32-Returns (drop 16 p) (omega (arith, length-drop 16 p))) in
          rw (read_dims_inside ndim p f dim_size lower (ground arith) guard d l, start)
            (Returns-map _ (Within (0 + length (drop (12 + 8 * ndim) p))) (Within (length p))
              (λ cells w. (w.0, omega (arith, w.1, length-drop (12 + 8 * ndim) p)))
              (read_elements-Within (rounds dim_size) (drop (12 + 8 * ndim) p) f [] 0
                (tt, omega arith)))
    ]

-- as_array reads nothing outside its cell and gives whole elements that have together no more
-- bytes than it, whatever the cell's bytes are: the cell is binary and has 12 bytes at least, 12
-- + 8 * ndim is an int, and ndim is not -1.
pub as_array-Within :
    (c : PostgresCell) (p : Bytes) (ndim : ℕ)
    → Holds c p
    → is_binary c ≡ true
    → (12 ≤ length p) × (length p < 2 ^ 63)
    → read_uint32 p ≡ ok ndim
    → NoOverflow ndim
    → ndim ≢ 2 ^ 32 - 1
    → Returns (as_array c) (Within (length p))
as_array-Within c p ndim h b size r small regular =
    rw (as_array_head c p ndim h b size.0 r) (read_dims-Within ndim p c.field small regular size.1)

-- The case that is left out there: a binary cell of 12 bytes whose count of dimensions is -1
-- makes as_array read behind the cell.
pub as_array_minus_one :
    (c : PostgresCell) (rest : Bytes)
    → Holds c (255 ∷ 255 ∷ 255 ∷ 255 ∷ rest)
    → is_binary c ≡ true
    → length rest ≡ 8
    → as_array c ≡ fault
as_array_minus_one c rest h b size =
    let p = 255 ∷ 255 ∷ 255 ∷ 255 ∷ rest in
    as_array_head c p (2 ^ 32 - 1) h b (omega arith) (unfold read_uint32 in refl)
    ∙ (unfold read_dims in
        rw (le→not-ltb (length p) 4 (omega arith), drop_all 8 rest (omega arith))
          (unfold read_int32 read_uint32 in refl))
