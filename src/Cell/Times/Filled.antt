-- ===== src/Cell/Times/Filled.antt =====
-- as_date, as_time, as_datetime and as_time_point of src/protocol/PostgresResult.cc. `has_tm` says
-- whether `tm` is no null pointer; `usec` is given back in any case, and what is in `*tm` when they
-- return false is left out.
use wf_postgres.Cell.Access.{is_binary, text_of}
use wf_postgres.Cell.Numbers.{as_int, as_bigint}
use wf_postgres.Cell.Times.{million, is_negative, split_micros, day_epoch}
use wf_postgres.Cell.{PostgresCell}
use wf_postgres.Common.{
  ℕ, zero, ◌+◌, ◌-◌, ◌*◌, ◌/◌, ◌%◌, ◌^◌, Bool, true, false, not, ◌&&◌, ◌||◌, [], ◌∷◌, Option, none,
  some, Run, ok, map_run, Bytes, ℤ, pos, negsuc, ◌+ℤ◌, div_ℤ, rem_ℤ, sub_ℕ, to_int, signed64,
  word64, pos_part, leb, ltb, ◌==◌, if◌then◌else◌, is_digit, is_empty,
}
use wf_postgres.Libc.Calendar.{Tm, zero_tm, gmtime, timegm}
use wf_postgres.Libc.Formats.{parse_date, parse_clock, parse_spaced, parse_iso}
use wf_postgres.Libc.{Errno, Errs, einval, c_text}

-- `none` is `return false`.
abbrev pub Filled : Type 0 → Type 0
Filled A = Errs (Option A)

abbrev pub filled {ℓ} : {A : Type ℓ} → A → Option A × Option Errno
filled a = (some a, none)

-- errno = EINVAL; return false;
abbrev pub failed {ℓ} : {A : Type ℓ} → Option A × Option Errno
failed = (none, some einval)

-- The branches of the three functions: no `tm`, a binary value of `size` bytes, and text.
abbrev pub fill :
    {A : Type 0}
    → PostgresCell
    → Bool
    → ℕ
    → Run (Errs ℤ)
    → (ℤ → A)
    → (Bytes → Filled A)
    → Run (Filled A)
fill c has_tm size v of_binary of_text =
    if c.is_null || not has_tm
    then ok failed
    else if is_binary c
    then (if c.length == size
        then map_run (λ (r : Errs ℤ). (some (of_binary r.0), r.1)) v
        else ok failed)
    else map_run (λ s. of_text (c_text s)) (text_of c)

-- `end != nullptr && *end == '\0'`
abbrev pub at_end : Option (Tm × Bytes) → Filled Tm
at_end none = failed
at_end (some (tm, [])) = filled tm
at_end (some (tm, _ ∷ _)) = failed

abbrev pub binary_date : ℤ → Tm
binary_date v = record (gmtime (day_epoch v)) { hour = 0; min = 0; sec = 0 }

unfoldable pub as_date : PostgresCell → Bool → Run (Filled Tm)
as_date c has_tm = fill c has_tm 4 (as_int c) binary_date (λ s. at_end (parse_date s zero_tm))

-- The loop over the digits behind a point; at six digits the rest is passed over.
unfoldable pub fraction : Bytes → ℕ → ℕ → ℕ → ℕ × ℕ × Bytes
fraction [] count temp_usec mult = (count, temp_usec, [])
fraction (c ∷ s) count temp_usec mult =
    let more = fraction s (count + 1) (temp_usec + (c - b'0') * mult) (mult / 10) in
    let past = fraction s (count + 1) temp_usec mult in
    if is_digit c then (if ltb count 6 then more else past) else (count, temp_usec, c ∷ s)

abbrev pub time_fraction : Tm → ℕ × ℕ × Bytes → Filled (Tm × ℕ)
time_fraction tm (count, temp_usec, s) =
    if ltb 0 count && leb count 6 && is_empty s then filled (tm, temp_usec) else failed

abbrev pub time_end : Tm → Bytes → Filled (Tm × ℕ)
time_end tm [] = filled (tm, 0)
time_end tm (c ∷ s) = if c == b'.' then time_fraction tm (fraction s 0 0 100000) else failed

abbrev pub text_time : Option (Tm × Bytes) → Filled (Tm × ℕ)
text_time none = failed
text_time (some (tm, s)) = time_end tm s

-- `if (x < 0) x += k`, for x above -k.
abbrev pub lift : ℕ → ℤ → ℕ
lift k (pos n) = n
lift k (negsuc n) = k - (n + 1)

abbrev pub clock_of : ℤ → ℤ → Tm × ℕ
clock_of total_secs micros = (
  record zero_tm {
    hour = lift 24 (rem_ℤ (div_ℤ total_secs 3600) 24);
    min = lift 60 (div_ℤ (rem_ℤ total_secs 3600) 60);
    sec = lift 60 (rem_ℤ total_secs 60);
  },
  pos_part micros,
)

abbrev pub binary_time : ℤ → Tm × ℕ
binary_time v =
    let micros = rem_ℤ v million in
    let total_secs = to_int (div_ℤ v million) in
    if is_negative micros
    then clock_of (to_int (total_secs +ℤ negsuc 0)) (micros +ℤ pos million)
    else clock_of total_secs micros

unfoldable pub as_time : PostgresCell → Bool → Run (Filled (Tm × ℕ))
as_time c has_tm =
    fill c has_tm 8 (as_bigint c) binary_time (λ s. text_time (parse_clock s zero_tm))

abbrev pub two_digits : Bytes → Option (ℕ × Bytes)
two_digits (a ∷ b ∷ s) =
    if is_digit a && is_digit b then some ((a - b'0') * 10 + (b - b'0'), s) else none
two_digits _ = none

-- The minutes of an offset, with a colon or without; `none` is `return false`.
abbrev pub offset_minutes : Bytes → Option (ℕ × Bytes)
offset_minutes [] = some (0, [])
offset_minutes (c ∷ s) =
    if c == b':'
    then two_digits s
    else elim (two_digits (c ∷ s)) [ none ↦ some (0, c ∷ s) | some r ↦ some r ]

abbrev signed : Bool → ℕ → ℤ
signed true n = pos n
signed false n = sub_ℕ 0 n

-- The offset in seconds, and the text behind it.
unfoldable pub parse_timezone_offset : Bytes → Option (ℤ × Bytes)
parse_timezone_offset [] = none
parse_timezone_offset (c ∷ s) =
    if c == b'Z' || c == b'z'
    then some (pos 0, s)
    else if c == b'+' || c == b'-'
    then elim (two_digits s) [
      | none ↦ none
      | some (h, s') ↦ elim (offset_minutes s') [
        | none ↦ none
        | some (m, s'') ↦ some (signed (c == b'+') (h * 3600 + m * 60), s'')
      ]
    ]
    else none

-- local_epoch != (time_t)-1
abbrev pub is_minus_one : ℤ → Bool
is_minus_one (negsuc zero) = true
is_minus_one _ = false

abbrev negated : ℤ → ℤ
negated (pos n) = sub_ℕ 0 n
negated (negsuc n) = pos (n + 1)

abbrev pub to_utc : Tm → ℤ → Tm
to_utc tm tz_offset =
    if is_minus_one (timegm tm) then tm else gmtime (timegm tm +ℤ negated tz_offset)

abbrev pub zone_end : Tm → ℕ → Bytes → Filled (Tm × ℕ)
zone_end tm usec [] = filled (tm, usec)
zone_end tm usec (c ∷ s) = elim (parse_timezone_offset (c ∷ s)) [
  | none ↦ failed
  | some (tz_offset, tz_end) ↦
      if is_empty tz_end then filled (to_utc tm tz_offset, usec) else failed
]

abbrev pub zone_fraction : Tm → ℕ × ℕ × Bytes → Filled (Tm × ℕ)
zone_fraction tm (count, temp_usec, s) = zone_end tm temp_usec s

abbrev pub datetime_end : Tm → Bytes → Filled (Tm × ℕ)
datetime_end tm [] = filled (tm, 0)
datetime_end tm (c ∷ s) =
    if c == b'.' then zone_fraction tm (fraction s 0 0 100000) else zone_end tm 0 (c ∷ s)

abbrev either : Option (Tm × Bytes) → Option (Tm × Bytes) → Option (Tm × Bytes)
either (some r) other = some r
either none other = other

abbrev pub text_datetime : Option (Tm × Bytes) → Filled (Tm × ℕ)
text_datetime none = failed
text_datetime (some (tm, s)) = datetime_end tm s

abbrev pub binary_datetime : ℤ → Tm × ℕ
binary_datetime v = let (epoch, micros) = split_micros v in (gmtime epoch, pos_part micros)

unfoldable pub as_datetime : PostgresCell → Bool → Run (Filled (Tm × ℕ))
as_datetime c has_tm =
    fill c has_tm 8 (as_bigint c) binary_datetime
      (λ s. text_datetime (either (parse_spaced s zero_tm) (parse_iso s zero_tm)))

-- A sum of 64 bits.
abbrev pub add64 : ℤ → ℤ → ℤ
add64 a b = signed64 ((word64 a + word64 b) % 2 ^ 64)

abbrev pub times_million : ℤ → ℤ
times_million (pos n) = pos (n * million)
times_million (negsuc n) = sub_ℕ 0 ((n + 1) * million)

-- system_clock::time_point(microseconds(us)), as the nanoseconds that libstdc++ counts in an
-- int64_t; a product that is too large wraps.
abbrev pub from_micros : ℤ → ℤ
from_micros us = signed64 (word64 us * 1000 % 2 ^ 64)

-- The time point of (int64_t)sec * 1000000LL + usec, with EINVAL for a `sec` of -1.
abbrev pub point_of : Filled (Tm × ℕ) → Errs ℤ
point_of (none, e) = (pos 0, e)
point_of (some (tm, usec), e) =
    if is_minus_one (timegm tm)
    then (pos 0, some einval)
    else (from_micros (add64 (times_million (timegm tm)) (pos usec)), e)

-- A time_point as its nanoseconds behind 1970-01-01.
unfoldable pub as_time_point : PostgresCell → Run (Errs ℤ)
as_time_point c =
    if c.is_null
    then ok (pos 0, some einval)
    else if is_binary c
    then (if c.length == 8
        then map_run (λ (r : Errs ℤ). (from_micros (add64 r.0 (pos 946684800000000)), r.1))
            (as_bigint c)
        else ok (pos 0, some einval))
    else map_run point_of (as_datetime c true)
