-- ===== src/Cell/Times.antt =====
-- The dates and times of src/protocol/PostgresResult.cc: as_date_string, as_time_string and
-- as_datetime_string. The functions that fill a struct tm are in the module Filled.
pub mod Filled
pub mod RoundTrip
pub mod Points
pub mod Micros
pub mod Structs
use wf_postgres.Cell.Access.{is_binary, text_of}
use wf_postgres.Cell.Numbers.{as_int, as_bigint}
use wf_postgres.Cell.{PostgresCell}
use wf_postgres.Common.{
  ℕ, zero, suc, ◌+◌, ◌-◌, ◌*◌, ◌/◌, ◌%◌, ◌^◌, Bool, true, false, not, ◌&&◌, ◌||◌, [], ◌∷◌, ◌++◌,
  Option, none, some, Run, ok, ◌>>=◌, map_run, Bytes, codes, ℤ, pos, negsuc, ◌+ℤ◌, div_ℤ, rem_ℤ,
  sub_ℕ, to_int, signed64, word64, leb, ltb, ◌==◌, if◌then◌else◌, is_digit, is_empty,
}
use wf_postgres.Libc.Calendar.{Tm, zero_tm, gmtime, timegm}
use wf_postgres.Libc.Formats.{
  padded, print_date, print_clock, parse_date, parse_clock, parse_spaced, parse_iso,
}
use wf_postgres.Libc.{Errs, einval, c_text}

abbrev pub million : ℕ
million = 1000000

-- 2000-01-01 in seconds behind 1970-01-01.
abbrev pub pg_epoch : ℤ
pg_epoch = pos 946684800

abbrev pub is_negative : ℤ → Bool
is_negative (pos n) = false
is_negative (negsuc n) = true

abbrev pub is_positive : ℤ → Bool
is_positive (pos n) = ltb 0 n
is_positive (negsuc n) = false

-- The seconds and microseconds of a timestamp, and `if (micros < 0)`.
unfoldable pub split_micros : ℤ → ℤ × ℤ
split_micros v =
    let epoch = div_ℤ v million +ℤ pg_epoch in
    let micros = rem_ℤ v million in
    if is_negative micros then (epoch +ℤ negsuc 0, micros +ℤ pos million) else (epoch, micros)

abbrev pub print_datetime : Tm → Bytes
print_datetime t = print_date t ++ b' ' ∷ print_clock (pos t.hour) (pos t.min) (pos t.sec)

abbrev pub with_micros : Bytes → ℤ → Bytes
with_micros s micros = if is_positive micros then s ++ b'.' ∷ padded 6 micros else s

unfoldable pub datetime_text : ℤ → Bytes
datetime_text v =
    let (epoch, micros) = split_micros v in with_micros (print_datetime (gmtime epoch)) micros

-- Text is passed on as it is, and so are the errors of a binary value of another length.
abbrev pub text_or : PostgresCell → ℕ → Run (Errs ℤ) → (ℤ → Bytes) → Run (Errs Bytes)
text_or c size v print =
    if c.is_null
    then ok ([], none)
    else if is_binary c
    then (if c.length == size
        then map_run (λ (r : Errs ℤ). (print r.0, r.1)) v
        else ok ([], some einval))
    else map_run (λ s. (s, none)) (text_of c)

unfoldable pub as_datetime_string : PostgresCell → Run (Errs Bytes)
as_datetime_string c = text_or c 8 (as_bigint c) datetime_text

-- (v * 86400LL) + 946684800LL
abbrev pub day_epoch : ℤ → ℤ
day_epoch (pos n) = pos (n * 86400) +ℤ pg_epoch
day_epoch (negsuc n) = sub_ℕ 0 ((n + 1) * 86400) +ℤ pg_epoch

unfoldable pub as_date_string : PostgresCell → Run (Errs Bytes)
as_date_string c = text_or c 4 (as_int c) (λ v. print_date (gmtime (day_epoch v)))

abbrev pub time_text : ℤ → Bytes
time_text v =
    let total_secs = to_int (div_ℤ v million) in
    with_micros
      (print_clock (div_ℤ total_secs 3600) (div_ℤ (rem_ℤ total_secs 3600) 60) (rem_ℤ total_secs 60))
      (rem_ℤ v million)

unfoldable pub as_time_string : PostgresCell → Run (Errs Bytes)
as_time_string c = text_or c 8 (as_bigint c) time_text
