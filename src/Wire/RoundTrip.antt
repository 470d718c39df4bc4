-- ===== src/Wire/RoundTrip.antt =====
-- Writing and reading back: the words of src/protocol/PostgresWireUtil.h.
use wf_postgres.Common.{
  ℕ, ◌+◌, ◌*◌, ◌/◌, ◌%◌, ◌^◌, ◌<◌, ◌≡◌, refl, ap, ◌∙◌, [], ◌∷◌, ◌++◌, ok, Bytes, ℤ, pos, negsuc,
  signed16, signed32, signed64, word16, word32, word64, length, drop, drop-length-append,
  append_assoc, arith, lt→ltb, u16, u32,
}
use wf_postgres.Wire.{
  read_uint16, read_uint32, read_uint64, read_int16, read_int32, read_int64, write_uint16,
  write_uint32, write_uint64, write_int16, write_int32, write_int64,
}

-- The four bytes of a word, most significant first.
abbrev pub be32 : ℕ → Bytes
be32 v = u32 v / 2 ^ 24 ∷ u32 v / 2 ^ 16 % 256 ∷ u32 v / 256 % 256 ∷ u32 v % 256 ∷ []

abbrev pub be16 : ℕ → Bytes
be16 v = u16 v / 256 ∷ u16 v % 256 ∷ []

pub write_uint16-be16 : (buf : Bytes) (v : ℕ) → write_uint16 buf v ≡ buf ++ be16 v
unfolding write_uint16
write_uint16-be16 buf v = refl

pub write_uint32-be32 : (buf : Bytes) (v : ℕ) → write_uint32 buf v ≡ buf ++ be32 v
unfolding write_uint32
write_uint32-be32 buf v = refl

pub read_uint32-be32 : (v : ℕ) (rest : Bytes) → v < 2 ^ 32 → read_uint32 (be32 v ++ rest) ≡ ok v
unfolding read_uint32
read_uint32-be32 v rest h = ap ok (omega arith)

read_uint32-bytes :
    (a b c d : ℕ) (rest : Bytes)
    → (a < 256) × (b < 256) × (c < 256) × (d < 256)
    → (v : ℕ) × (read_uint32 (a ∷ b ∷ c ∷ d ∷ rest) ≡ ok v)
      × (v < 2 ^ 32)
      × (be32 v ≡ a ∷ b ∷ c ∷ d ∷ [])
unfolding read_uint32
read_uint32-bytes a b c d rest h =
    (a * 2 ^ 24 + b * 2 ^ 16 + c * 256 + d, refl, omega arith, ground arith)

pub read_uint16-write_uint16 :
    (v : ℕ) (rest : Bytes) → v < 2 ^ 16 → read_uint16 (write_uint16 [] v ++ rest) ≡ ok v
unfolding read_uint16 write_uint16
read_uint16-write_uint16 v rest h = ap ok (omega arith)

pub read_uint64-write_uint64 :
    (v : ℕ) (rest : Bytes) → v < 2 ^ 64 → read_uint64 (write_uint64 [] v ++ rest) ≡ ok v
unfolding read_uint64 write_uint64
read_uint64-write_uint64 v rest h = ap ok (omega arith)

-- The integers of a word of `k + 1` bits: -2 ^ k ≤ v < 2 ^ k.
abbrev pub FitsIn : ℕ → ℤ → Type 0
FitsIn k (pos n) = n < 2 ^ k
FitsIn k (negsuc n) = n < 2 ^ k

pub signed16-word16 : (v : ℤ) → FitsIn 15 v → signed16 (word16 v) ≡ v
signed16-word16 (pos n) h = ground arith
signed16-word16 (negsuc n) h = ground arith

pub signed32-word32 : (v : ℤ) → FitsIn 31 v → signed32 (word32 v) ≡ v
signed32-word32 (pos n) h = ground arith
signed32-word32 (negsuc n) h = ground arith

pub signed64-word64 : (v : ℤ) → FitsIn 63 v → signed64 (word64 v) ≡ v
signed64-word64 (pos n) h = ground arith
signed64-word64 (negsuc n) h = ground arith

pub word16-lt : (v : ℤ) → word16 v < 2 ^ 16
word16-lt (pos n) = omega arith
word16-lt (negsuc n) = omega arith

pub word32-lt : (v : ℤ) → word32 v < 2 ^ 32
word32-lt (pos n) = omega arith
word32-lt (negsuc n) = omega arith

pub word64-lt : (v : ℤ) → word64 v < 2 ^ 64
word64-lt (pos n) = omega arith
word64-lt (negsuc n) = omega arith

four_bytes :
    (w : ℕ)
    → w < 2 ^ 32
    → signed32 (
        u32 w / 2 ^ 24 * 2 ^ 24
        + u32 w / 2 ^ 16 % 256 * 2 ^ 16
        + u32 w / 256 % 256 * 256
        + u32 w % 256)
      ≡ signed32 w
four_bytes w h =
    let e : u32 w / 2 ^ 24 * 2 ^ 24
          + u32 w / 2 ^ 16 % 256 * 2 ^ 16
          + u32 w / 256 % 256 * 256
          + u32 w % 256
        ≡ w =
      omega arith in
    ap signed32 e

-- The integer that stands in two and in four bytes.
pub signed16-be16 :
    (v : ℤ) → FitsIn 15 v → signed16 (u16 (word16 v) / 256 * 256 + u16 (word16 v) % 256) ≡ v
signed16-be16 v h =
    let e : u16 (word16 v) / 256 * 256 + u16 (word16 v) % 256 ≡ word16 v =
      omega (arith, word16-lt v) in
    ap signed16 e ∙ signed16-word16 v h

pub signed32-be32 :
    (v : ℤ)
    → FitsIn 31 v
    → signed32 (
        u32 (word32 v) / 2 ^ 24 * 2 ^ 24
        + u32 (word32 v) / 2 ^ 16 % 256 * 2 ^ 16
        + u32 (word32 v) / 256 % 256 * 256
        + u32 (word32 v) % 256)
      ≡ v
signed32-be32 v h = four_bytes (word32 v) (word32-lt v) ∙ signed32-word32 v h

pub read_int16-write_int16 :
    (v : ℤ) (rest : Bytes) → FitsIn 15 v → read_int16 (write_int16 [] v ++ rest) ≡ ok v
unfolding read_int16 write_int16
read_int16-write_int16 v rest h =
    rw (read_uint16-write_uint16 (word16 v) rest (word16-lt v)) (ap ok (signed16-word16 v h))

pub read_int16-be16 : (n : ℕ) (rest : Bytes) → n < 2 ^ 15 → read_int16 (be16 n ++ rest) ≡ ok (pos n)
unfolding read_int16 read_uint16
read_int16-be16 n rest h =
    let e : u16 n / 256 * 256 + u16 n % 256 ≡ n = omega arith in rw (e, lt→ltb n (2 ^ 15) h)

pub read_int32-be32 : (n : ℕ) (rest : Bytes) → n < 2 ^ 31 → read_int32 (be32 n ++ rest) ≡ ok (pos n)
unfolding read_int32
read_int32-be32 n rest h = rw (read_uint32-be32 n rest (omega arith), lt→ltb n (2 ^ 31) h)

pub read_int32-write_int32 :
    (v : ℤ) (rest : Bytes) → FitsIn 31 v → read_int32 (write_int32 [] v ++ rest) ≡ ok v
unfolding read_int32 write_int32
read_int32-write_int32 v rest h =
    rw (write_uint32-be32, read_uint32-be32 (word32 v) rest (word32-lt v))
      (ap ok (signed32-word32 v h))

read_int64-write_int64 :
    (v : ℤ) (rest : Bytes) → FitsIn 63 v → read_int64 (write_int64 [] v ++ rest) ≡ ok v
unfolding read_int64 write_int64
read_int64-write_int64 v rest h =
    rw (read_uint64-write_uint64 (word64 v) rest (word64-lt v)) (ap ok (signed64-word64 v h))

write_int16-append : (buf : Bytes) (v : ℤ) → write_int16 buf v ≡ buf ++ write_int16 [] v
unfolding write_int16 write_uint16
write_int16-append buf v = refl

pub write_int32-append : (buf : Bytes) (v : ℤ) → write_int32 buf v ≡ buf ++ write_int32 [] v
unfolding write_int32 write_uint32
write_int32-append buf v = refl

write_int64-append : (buf : Bytes) (v : ℤ) → write_int64 buf v ≡ buf ++ write_int64 [] v
unfolding write_int64 write_uint64
write_int64-append buf v = append_assoc buf _ _

-- A signed integer of 16, 32 or 64 bits that a write appends is what the read at that place
-- gives back, if it fits its width.
pub read_ints-write_ints :
    (buf rest : Bytes) (v16 v32 v64 : ℤ)
    → FitsIn 15 v16
    → FitsIn 31 v32
    → FitsIn 63 v64
    → (read_int16 (drop (length buf) (write_int16 buf v16 ++ rest)) ≡ ok v16)
      × (read_int32 (drop (length buf) (write_int32 buf v32 ++ rest)) ≡ ok v32)
      × (read_int64 (drop (length buf) (write_int64 buf v64 ++ rest)) ≡ ok v64)
read_ints-write_ints buf rest v16 v32 v64 h16 h32 h64 = (
  rw (write_int16-append buf v16, append_assoc, drop-length-append)
      (read_int16-write_int16 v16 rest h16),
  rw (write_int32-append buf v32, append_assoc, drop-length-append)
      (read_int32-write_int32 v32 rest h32),
  rw (write_int64-append buf v64, append_assoc, drop-length-append)
      (read_int64-write_int64 v64 rest h64),
)
