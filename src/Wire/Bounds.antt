-- ===== src/Wire/Bounds.antt =====
-- PostgresWireUtil reads within the bytes that it is given.
use wf_postgres.Common.{
  ℕ, ◌+◌, ◌≤◌, ◌≡◌, ap, [], ◌∷◌, some, Returns, Bytes, length, length-append, arith,
}
use wf_postgres.Libc.{std_string}
use wf_postgres.Wire.Strings.{read_cstring-eq-some}
use wf_postgres.Wire.{read_uint16, read_uint32, read_int16, read_int32, read_cstring}

abbrev pub Any {ℓ} : {A : Type ℓ} → A → Type 0
Any _ = Unit

pub read_uint16-Returns : (p : Bytes) → 2 ≤ length p → Returns (read_uint16 p) Any
unfolding read_uint16
read_uint16-Returns [] h = absurd (omega arith)
read_uint16-Returns (_ ∷ []) h = absurd (omega arith)
read_uint16-Returns (_ ∷ _ ∷ _) h = tt

pub read_uint32-Returns : (p : Bytes) → 4 ≤ length p → Returns (read_uint32 p) Any
unfolding read_uint32
read_uint32-Returns [] h = absurd (omega arith)
read_uint32-Returns (_ ∷ []) h = absurd (omega arith)
read_uint32-Returns (_ ∷ _ ∷ []) h = absurd (omega arith)
read_uint32-Returns (_ ∷ _ ∷ _ ∷ []) h = absurd (omega arith)
read_uint32-Returns (_ ∷ _ ∷ _ ∷ _ ∷ _) h = tt

pub read_int16-Returns : (p : Bytes) → 2 ≤ length p → Returns (read_int16 p) Any
unfolding read_int16 read_uint16
read_int16-Returns [] h = absurd (omega arith)
read_int16-Returns (_ ∷ []) h = absurd (omega arith)
read_int16-Returns (_ ∷ _ ∷ _) h = tt

pub read_int32-Returns : (p : Bytes) → 4 ≤ length p → Returns (read_int32 p) Any
unfolding read_int32 read_uint32
read_int32-Returns [] h = absurd (omega arith)
read_int32-Returns (_ ∷ []) h = absurd (omega arith)
read_int32-Returns (_ ∷ _ ∷ []) h = absurd (omega arith)
read_int32-Returns (_ ∷ _ ∷ _ ∷ []) h = absurd (omega arith)
read_int32-Returns (_ ∷ _ ∷ _ ∷ _ ∷ _) h = tt

-- A string that was read used its own bytes and the zero byte.
pub length-read_cstring :
    (p : Bytes) {s rest : Bytes}
    → read_cstring p ≡ some (s, rest)
    → length p ≡ length s + 1 + length rest
length-read_cstring p {s} {rest} h =
    omega (arith, ap length (read_cstring-eq-some p h).0, length-append s (0 ∷ rest))

-- A copy of bytes that are there.
pub std_string-Returns : (p : Bytes) (n : ℕ) → n ≤ length p → Returns (std_string p n) Any
unfolding std_string
std_string-Returns p n h = ground arith
