-- ===== src/Value/Times.antt =====
-- The dates and times of include/PostgresValue.h.
use wf_postgres.Cell.Times.{million, is_negative}
use wf_postgres.Common.{◌∷◌, ◌++◌, Bytes, codes, ℤ, pos, negsuc, ◌+ℤ◌, div_ℤ, rem_ℤ, if◌then◌else◌}
use wf_postgres.Libc.Calendar.{Tm, gmtime}
use wf_postgres.Libc.Formats.{padded, print_clock, strftime_date}
use wf_postgres.Task.{int_eq}
use wf_postgres.Value.{PostgresValue, value}

-- "%H:%M:%S" and "%Y-%m-%d %H:%M:%S" of strftime.
abbrev pub strftime_clock : Tm → Bytes
strftime_clock t = print_clock (pos t.hour) (pos t.min) (pos t.sec)

abbrev pub strftime_datetime : Tm → Bytes
strftime_datetime t = strftime_date t ++ b' ' ∷ strftime_clock t

-- PostgresValue(tm_val, type_oid), with the format by the type: DATE, TIME or any other.
unfoldable pub of_tm : Tm → ℤ → PostgresValue
of_tm tm_val type_oid =
    value
      (if int_eq type_oid (pos 1082)
        then strftime_date tm_val
        else if int_eq type_oid (pos 1083)
        then strftime_clock tm_val
        else strftime_datetime tm_val)
      type_oid

-- The seconds and microseconds of a time point in nanoseconds, and `if (usec_count < 0)`.
unfoldable pub split_point : ℤ → ℤ × ℤ
split_point ns =
    let sec_count = div_ℤ ns 1000000000 in
    let usec_count = div_ℤ (rem_ℤ ns 1000000000) 1000 in
    if is_negative usec_count
    then (sec_count +ℤ negsuc 0, usec_count +ℤ pos million)
    else (sec_count, usec_count)

-- "%s.%06d+00"
unfoldable pub point_text : ℤ → Bytes
unfolding split_point
point_text ns =
    let (sec_count, usec_count) = split_point ns in
    strftime_datetime (gmtime sec_count) ++ b'.' ∷ (padded 6 usec_count ++ codes "+00")

-- PostgresValue(tp), of a time point as its nanoseconds behind 1970-01-01.
unfoldable pub of_time_point : ℤ → PostgresValue
unfolding point_text
of_time_point ns = value (point_text ns) (pos 1184)
