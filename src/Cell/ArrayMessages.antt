-- ===== src/Cell/ArrayMessages.antt =====
-- The arrays that the server sends, as src/protocol/PostgresResult.cc reads them.
use wf_postgres.Cell.Access.{is_binary, Holds}
use wf_postgres.Cell.Arrays.{
  read_element, read_elements, read_dims, as_array, elements_from, behind_dims, size_of,
}
use wf_postgres.Cell.{PostgresCell, cell}
use wf_postgres.Common.{
  ℕ, suc, ◌+◌, ◌-◌, ◌*◌, ◌^◌, ◌≡◌, refl, ap, ◌∙◌, ◌≤◌, ◌<◌, true, false, List, [], ◌∷◌, ◌++◌, map,
  Option, none, some, ok, ◌>>=◌, Bytes, ℤ, pos, negsuc, u32, length, drop, ltb, ◌==◌, All, arith,
  append-nil, length-drop, take_all, Returns-ok, le→not-ltb, length-append, take-length-append,
  drop-length-append, append_assoc,
}
use wf_postgres.Types.{PostgresField}
use wf_postgres.Wire.Bounds.{Any, read_uint32-Returns}
use wf_postgres.Wire.RoundTrip.{be32, read_int32-be32}
use wf_postgres.Wire.{read_uint32, read_int32}

-- The elements as the server writes them: NULL is the length -1.
abbrev pub element_bytes : Option Bytes → Bytes
element_bytes none = be32 (2 ^ 32 - 1)
element_bytes (some v) = be32 (length v) ++ v

abbrev pub elements_bytes : List (Option Bytes) → Bytes
elements_bytes [] = []
elements_bytes (v ∷ vs) = element_bytes v ++ elements_bytes vs

abbrev pub element_cell : Option PostgresField → Option Bytes → PostgresCell
element_cell f none = cell none 0 true f
element_cell f (some v) = cell (some v) (length v) false f

abbrev pub FitsElement : Option Bytes → Type 0
FitsElement none = Unit
FitsElement (some v) = length v < 2 ^ 31

-- A one-dimensional array.
abbrev pub array_bytes : ℕ → ℕ → ℕ → List (Option Bytes) → Bytes
array_bytes flags oid lower vs =
    be32 1 ++ (be32 flags ++ (be32 oid ++ (be32 (length vs) ++ (be32 lower ++ elements_bytes vs))))

read_elements-step :
    (n : ℕ) (p p' : Bytes) (f : Option PostgresField) (before : List PostgresCell) (l : ℤ)
    (e : PostgresCell)
    → 4 ≤ length p
    → read_int32 p ≡ ok l
    → read_element l (drop 4 p) f ≡ some (e, p')
    → read_elements (suc n) p f before ≡ read_elements n p' f (before ++ e ∷ [])
unfolding read_elements
read_elements-step n p p' f before l e size r h =
    rw (le→not-ltb (length p) 4 size, r, ◌>>=◌, h) refl

read_element-some :
    (v rest : Bytes) (f : Option PostgresField)
    → read_element (pos (length v)) (v ++ rest) f ≡ some (element_cell f (some v), rest)
unfolding read_element
read_element-some v rest f =
    let enough : ltb (length (v ++ rest)) (length v) ≡ false =
      ground (arith, length-append v rest) in
    rw (enough, take-length-append v rest, drop-length-append v rest) refl

read_elements-elements_bytes :
    (vs : List (Option Bytes)) (f : Option PostgresField) (before : List PostgresCell)
    → All FitsElement vs
    → read_elements (length vs) (elements_bytes vs) f before
      ≡ ok (before ++ map (element_cell f) vs)
read_elements-elements_bytes [] f before h = unfold read_elements in rw append-nil refl
read_elements-elements_bytes (none ∷ vs) f before h =
    read_elements-step (length vs) (elements_bytes (none ∷ vs)) (elements_bytes vs) f before
      (negsuc 0) (element_cell f none) (omega arith) (unfold read_int32 read_uint32 in refl)
      (unfold read_element in refl)
    ∙ read_elements-elements_bytes vs f (before ++ element_cell f none ∷ []) h.1
    ∙ ap ok (append_assoc before (element_cell f none ∷ []) _)
read_elements-elements_bytes (some v ∷ vs) f before h =
    read_elements-step (length vs) (elements_bytes (some v ∷ vs)) (elements_bytes vs) f before
      (pos (length v)) (element_cell f (some v)) (omega arith)
      (read_int32-be32 (length v) (v ++ elements_bytes vs) h.0)
      (read_element-some v (elements_bytes vs) f)
    ∙ read_elements-elements_bytes vs f (before ++ element_cell f (some v) ∷ []) h.1
    ∙ ap ok (append_assoc before (element_cell f (some v) ∷ []) _)

-- Behind a head of three words.
pub as_array_head :
    (c : PostgresCell) (p : Bytes) (ndim : ℕ)
    → Holds c p
    → is_binary c ≡ true
    → 12 ≤ length p
    → read_uint32 p ≡ ok ndim
    → as_array c ≡ read_dims ndim (length p) p c.field
unfolding as_array
as_array_head c p ndim h b size r =
    let (flags, f, _) =
      Returns-ok (read_uint32 (drop 4 p)) Any
        (read_uint32-Returns (drop 4 p) (omega (arith, length-drop 4 p))) in
    let (oid, o, _) =
      Returns-ok (read_uint32 (drop 8 p)) Any
        (read_uint32-Returns (drop 8 p) (omega (arith, length-drop 8 p))) in
    rw (h.2, h.1, b, h.0, le→not-ltb (length p) 12 size, r, ◌>>=◌, f, ◌>>=◌, o) refl

pub read_dims_inside :
    (ndim : ℕ) (p : Bytes) (f : Option PostgresField) (dim_size lower : ℤ)
    → (ndim == 0) ≡ false
    → size_of (u32 (12 + 8 * ndim)) ≤ length p
    → read_int32 (drop 12 p) ≡ ok dim_size
    → read_int32 (drop 16 p) ≡ ok lower
    → read_dims ndim (length p) p f ≡ elements_from (behind_dims ndim) dim_size p f
unfolding read_dims
read_dims_inside ndim p f dim_size lower z size d l =
    rw (z, le→not-ltb (length p) (size_of (u32 (12 + 8 * ndim))) size, d, ◌>>=◌, l)
      (ap (λ (q : Bytes). elements_from (behind_dims ndim) dim_size q f)
        (take_all (length p) p (omega arith)))

-- A binary cell that holds a one-dimensional array as the server sends it gives each element's
-- cell in order, NULL included. There are less than 2 ^ 31 elements, none of 2 ^ 31 bytes or
-- more, and the lower bound is below 2 ^ 31.
pub as_array-array_bytes :
    (c : PostgresCell) (flags oid : ℕ) (lower : ℕ) (vs : List (Option Bytes))
    → Holds c (array_bytes flags oid lower vs)
    → is_binary c ≡ true
    → lower < 2 ^ 31
    → (length vs < 2 ^ 31) × All FitsElement vs
    → as_array c ≡ ok (map (element_cell c.field) vs)
as_array-array_bytes c flags oid lower vs h b low fits =
    let p = array_bytes flags oid lower vs in
    as_array_head c p 1 h b (omega arith) (unfold read_uint32 in refl)
    ∙ read_dims_inside 1 p c.field (pos (length vs)) (pos lower) refl (omega arith)
        (read_int32-be32 (length vs) (be32 lower ++ elements_bytes vs) fits.0)
        (read_int32-be32 lower (elements_bytes vs) low)
    ∙ read_elements-elements_bytes vs c.field [] fits.1
