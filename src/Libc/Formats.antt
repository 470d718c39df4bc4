-- ===== src/Libc/Formats.antt =====
-- snprintf with %0wd, and strptime, for the formats of src/protocol/PostgresResult.cc.
pub mod RoundTrip
use wf_postgres.Common.{
  ℕ, zero, suc, ◌+◌, ◌-◌, ◌*◌, ◌/◌, ◌%◌, ◌^◌, ◌&&◌, [], ◌∷◌, ◌++◌, Option, none, some, Bytes, ℤ,
  pos, negsuc, ltb, leb, ◌==◌, if◌then◌else◌, is_digit, is_space, skip_spaces, to_string,
}
use wf_postgres.Libc.Calendar.{Tm, zero_tm}
use wf_postgres.Libc.{to_string_ℤ}

-- The last `w` digits.
unfoldable pub digits : ℕ → ℕ → Bytes
digits zero n = []
digits (suc w) n = digits w (n / 10) ++ (n % 10 + b'0') ∷ []

-- "%0wd"; the sign counts for the width.
unfoldable pub padded : ℕ → ℤ → Bytes
unfolding digits
padded w (pos n) = if ltb n (10 ^ w) then digits w n else to_string n
padded w (negsuc n) =
    b'-' ∷ (if ltb (n + 1) (10 ^ (w - 1)) then digits (w - 1) (n + 1) else to_string (n + 1))

-- "%04d-%02d-%02d"
unfoldable pub print_date : Tm → Bytes
unfolding padded
print_date t = padded 4 t.year ++ b'-' ∷ (padded 2 (pos t.mon) ++ b'-' ∷ padded 2 (pos t.mday))

-- "%Y-%m-%d" of strftime, which does not pad the year.
unfoldable pub strftime_date : Tm → Bytes
unfolding padded to_string_ℤ
strftime_date t =
    to_string_ℤ t.year ++ b'-' ∷ (padded 2 (pos t.mon) ++ b'-' ∷ padded 2 (pos t.mday))

-- "%02d:%02d:%02d"
unfoldable pub print_clock : ℤ → ℤ → ℤ → Bytes
unfolding padded
print_clock hour min sec = padded 2 hour ++ b':' ∷ (padded 2 min ++ b':' ∷ padded 2 sec)

-- strptime reads at most `n` more digits of a number that stays within `hi`.
unfoldable pub number_loop : ℕ → ℕ → ℕ → Bytes → ℕ × Bytes
number_loop zero hi val s = (val, s)
number_loop (suc n) hi val [] = (val, [])
number_loop (suc n) hi val (c ∷ s) =
    if leb (val * 10) hi && is_digit c
    then number_loop n hi (val * 10 + (c - b'0')) s
    else (val, c ∷ s)

unfoldable pub skip_blank : Bytes → Bytes
skip_blank [] = []
skip_blank (c ∷ s) = if c == b' ' then skip_blank s else c ∷ s

abbrev pub in_range : ℕ → ℕ → ℕ × Bytes → Option (ℕ × Bytes)
in_range lo hi (val, s) = if leb lo val && leb val hi then some (val, s) else none

abbrev pub number_from : ℕ → ℕ → ℕ → Bytes → Option (ℕ × Bytes)
number_from lo hi n [] = none
number_from lo hi n (c ∷ s) =
    if is_digit c then in_range lo hi (number_loop (n - 1) hi (c - b'0') s) else none

-- A number of `n` digits at most, from `lo` to `hi`.
unfoldable pub get_number : ℕ → ℕ → ℕ → Bytes → Option (ℕ × Bytes)
unfolding skip_blank
get_number lo hi n s = number_from lo hi n (skip_blank s)

-- A character of the format.
abbrev pub get_char : ℕ → Bytes → Option Bytes
get_char c [] = none
get_char c (b ∷ s) = if b == c then some s else none

infixl 5 ◌>>=◌
abbrev ◌>>=◌ {ℓ κ} : {A : Type ℓ} {B : Type κ} → Option A → (A → Option B) → Option B
none >>= f = none
some a >>= f = f a

-- strptime with "%Y-%m-%d"; the text at the pointer that it returns.
unfoldable pub parse_date : Bytes → Tm → Option (Tm × Bytes)
parse_date s tm = do
  (y, s1) ← get_number 0 9999 4 s
  s2 ← get_char b'-' s1
  (m, s3) ← get_number 1 12 2 s2
  s4 ← get_char b'-' s3
  (d, s5) ← get_number 1 31 2 s4
  some (record tm { year = pos y; mon = m; mday = d }, s5)

-- "%H:%M:%S"
unfoldable pub parse_clock : Bytes → Tm → Option (Tm × Bytes)
parse_clock s tm = do
  (h, s1) ← get_number 0 23 2 s
  s2 ← get_char b':' s1
  (m, s3) ← get_number 0 59 2 s2
  s4 ← get_char b':' s3
  (c, s5) ← get_number 0 61 2 s4
  some (record tm { hour = h; min = m; sec = c }, s5)

-- "%Y-%m-%d %H:%M:%S": a blank of the format is any white space, or none.
unfoldable pub parse_spaced : Bytes → Tm → Option (Tm × Bytes)
parse_spaced s tm = do (tm', s') ← parse_date s tm; parse_clock (skip_spaces s') tm'

-- "%Y-%m-%dT%H:%M:%S"
unfoldable pub parse_iso : Bytes → Tm → Option (Tm × Bytes)
parse_iso s tm = do (tm', s') ← parse_date s tm; s'' ← get_char b'T' s'; parse_clock s'' tm'
