-- ===== src/Wire.antt =====
-- src/protocol/PostgresWireUtil.h: big-endian words and C strings in a byte buffer. A pointer is
-- modelled by the bytes from it up to the end of the memory that it may reach.
pub mod Bounds
pub mod RoundTrip
pub mod Strings
use wf_postgres.Common.{
  ℕ, ◌+◌, ◌*◌, ◌/◌, ◌%◌, ◌^◌, List, [], ◌∷◌, ◌++◌, Option, none, some, Run, ok, fault, ◌>>=◌, Bytes,
  ℤ, signed16, signed32, signed64, word16, word32, word64, u16, u32, take, drop, ◌==◌,
  if◌then◌else◌,
}

-- memcpy of the bytes in network order, and ntohs.
unfoldable pub read_uint16 : Bytes → Run ℕ
read_uint16 (a ∷ b ∷ _) = ok (a * 256 + b)
read_uint16 _ = fault

unfoldable pub read_uint32 : Bytes → Run ℕ
read_uint32 (a ∷ b ∷ c ∷ d ∷ _) = ok (a * 2 ^ 24 + b * 2 ^ 16 + c * 256 + d)
read_uint32 _ = fault

unfoldable pub read_uint64 : Bytes → Run ℕ
unfolding read_uint32
read_uint64 p = do high ← read_uint32 p; low ← read_uint32 (drop 4 p); ok (high * 2 ^ 32 + low)

unfoldable pub read_int16 : Bytes → Run ℤ
read_int16 p = do v ← read_uint16 p; ok (signed16 v)

unfoldable pub read_int32 : Bytes → Run ℤ
read_int32 p = do v ← read_uint32 p; ok (signed32 v)

unfoldable pub read_int64 : Bytes → Run ℤ
read_int64 p = do v ← read_uint64 p; ok (signed64 v)

-- The parameter is a uint16_t: a wider argument is cut off at the call.
unfoldable pub write_uint16 : Bytes → ℕ → Bytes
write_uint16 buf v = buf ++ (u16 v / 256 ∷ u16 v % 256 ∷ [])

unfoldable pub write_uint32 : Bytes → ℕ → Bytes
write_uint32 buf v =
    buf ++ (u32 v / 2 ^ 24 ∷ u32 v / 2 ^ 16 % 256 ∷ u32 v / 256 % 256 ∷ u32 v % 256 ∷ [])

unfoldable pub write_uint64 : Bytes → ℕ → Bytes
unfolding write_uint32
write_uint64 buf v = write_uint32 (write_uint32 buf (v % 2 ^ 64 / 2 ^ 32)) (v % 2 ^ 32)

unfoldable pub write_int16 : Bytes → ℤ → Bytes
write_int16 buf v = write_uint16 buf (word16 v)

unfoldable pub write_int32 : Bytes → ℤ → Bytes
write_int32 buf v = write_uint32 buf (word32 v)

unfoldable pub write_int64 : Bytes → ℤ → Bytes
write_int64 buf v = write_uint64 buf (word64 v)

-- The string with the zero byte that ends it.
unfoldable pub write_string : Bytes → Bytes → Bytes
write_string buf str = buf ++ (str ++ 0 ∷ [])

unfoldable pub write_n : Bytes → Bytes → ℕ → Bytes
write_n buf p len = buf ++ take len p

-- The C library's memchr: the index of the first byte `c`.
unfoldable pub memchr : ℕ → Bytes → Option ℕ
memchr c [] = none
memchr c (b ∷ bs) =
    if b == c then some 0 else elim (memchr c bs) [ none ↦ none | some n ↦ some (n + 1) ]

-- `none` is `return false`; else the text and the pointer behind its zero byte.
unfoldable pub read_cstring : Bytes → Option (Bytes × Bytes)
read_cstring p = elim (memchr 0 p) [
  | none ↦ none
  | some null_pos ↦ some (take null_pos p, drop (null_pos + 1) p)
]
