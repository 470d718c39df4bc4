-- ===== src/Libc.antt =====
-- The functions of the C and C++ libraries that the sources call on bytes and numbers: std::string
-- of a pointer, strtoll, strtoull, std::to_string, and errno.
pub mod Numbers
pub mod Calendar
pub mod Formats
use wf_postgres.Common.{
  ℕ, ◌+◌, ◌-◌, ◌/◌, ◌%◌, ◌^◌, Bool, [], ◌∷◌, Option, none, some, Run, ok, fault, leb, length, take,
  Bytes, ℤ, pos, negsuc, is_empty, ltb, ◌==◌, if◌then◌else◌, is_digit, to_string, unsigned_number,
  signed_number, skip_spaces,
}

-- What a call stores in errno, `cleared` for 0; `none` leaves it as it was.
pub data Errno : Type 0 where
  einval erange cleared : Errno

abbrev pub Errs : Type 0 → Type 0
Errs A = A × Option Errno

-- std::string(p, n), which reads `n` bytes behind the pointer.
unfoldable pub std_string : Bytes → ℕ → Run Bytes
std_string p n = if leb n (length p) then ok (take n p) else fault

-- The C string at a std::string's c_str(): it ends at the first zero byte.
unfoldable pub c_text : Bytes → Bytes
c_text [] = []
c_text (b ∷ bs) = if b == 0 then [] else b ∷ c_text bs

-- The text behind the digits at its start.
unfoldable pub drop_digits : Bytes → Bytes
drop_digits [] = []
drop_digits (c ∷ cs) = if is_digit c then drop_digits cs else c ∷ cs

unfoldable pub drop_sign : Bytes → Bytes
drop_sign [] = []
drop_sign (c ∷ cs) = if c == b'-' then cs else if c == b'+' then cs else c ∷ cs

-- LLONG_MAX and LLONG_MIN stand for what is out of range.
unfoldable pub to_long_long : ℤ → Errs ℤ
to_long_long (pos n) =
    if ltb n (2 ^ 63) then (pos n, none) else (pos (2 ^ 63 - 1), some Errno.erange)
to_long_long (negsuc n) =
    if ltb n (2 ^ 63) then (negsuc n, none) else (negsuc (2 ^ 63 - 1), some Errno.erange)

-- strtoll(s, &end, 10): the number with errno, and the text at `end`.
unfoldable pub strtoll : Bytes → Errs ℤ × Bytes
unfolding to_long_long
strtoll s = elim (signed_number (skip_spaces s)) [
  | none ↦ ((pos 0, none), s)
  | some v ↦ (to_long_long v, drop_digits (drop_sign (skip_spaces s)))
]

-- strtoull(s, &end, 10) on a text that starts with a digit, where it is called.
unfoldable pub strtoull : Bytes → Errs ℕ × Bytes
strtoull s = elim (unsigned_number s) [
  | none ↦ ((0, none), s)
  | some v ↦
      ((if ltb v (2 ^ 64) then (v, none) else (2 ^ 64 - 1, some Errno.erange)), drop_digits s)
]

-- std::to_string of a signed number.
unfoldable pub to_string_ℤ : ℤ → Bytes
to_string_ℤ (pos n) = to_string n
to_string_ℤ (negsuc n) = b'-' ∷ to_string (n + 1)

-- sprintf("%02x", b), for each byte.
abbrev hex_digit : ℕ → ℕ
hex_digit d = if ltb d 10 then d + b'0' else d + 87

unfoldable pub to_hex : Bytes → Bytes
to_hex [] = []
to_hex (b ∷ bs) = hex_digit (b / 16) ∷ hex_digit (b % 16) ∷ to_hex bs
