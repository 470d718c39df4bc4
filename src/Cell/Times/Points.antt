-- ===== src/Cell/Times/Points.antt =====
-- A time point of include/PostgresValue.h, read back by as_time_point of
-- src/protocol/PostgresResult.cc.
use wf_postgres.Cell.Access.{is_binary, Holds}
use wf_postgres.Cell.RoundTrip.{text_of-Holds}
use wf_postgres.Cell.Times.Filled.{
  filled, fraction, datetime_end, as_datetime, is_minus_one, as_time_point, parse_timezone_offset,
  to_utc,
}
use wf_postgres.Cell.Times.Micros.{whole_micros, split_point-sum, seconds-FitsIn, gmtime_year}
use wf_postgres.Cell.Times.RoundTrip.{fraction-padded, IsTm-gmtime}
use wf_postgres.Cell.Times.{million, print_datetime}
use wf_postgres.Cell.{PostgresCell}
use wf_postgres.Common.{
  ℕ, suc, ◌+◌, ◌-◌, ◌*◌, ◌/◌, ◌%◌, ◌<◌, ◌≤◌, ◌≡◌, refl, ap, ap₂, true, false, [], ◌∷◌, ◌++◌, none,
  some, ok, Bytes, All-append, ℤ, pos, negsuc, ◌+ℤ◌, neg_part, Bool-cases, inl, inr, arith,
  to_string, decimal, codes, if◌then◌else◌,
}
use wf_postgres.Libc.Calendar.Days.{timegm-gmtime}
use wf_postgres.Libc.Calendar.{Tm, zero_tm, gmtime, unix_day}
use wf_postgres.Libc.Formats.RoundTrip.{
  parse_spaced-print, padded_four, padded_six-NoNul, print-NoNul,
}
use wf_postgres.Libc.Formats.{padded, print_date, strftime_date}
use wf_postgres.Libc.Numbers.{c_text-NoNul}
use wf_postgres.Libc.{c_text, einval, to_string_ℤ}
use wf_postgres.Value.Times.{split_point, point_text, of_time_point}
use wf_postgres.Wire.RoundTrip.{FitsIn}

decimal-step : (r n : ℕ) → 10 ≤ n → decimal (suc r) n ≡ decimal r (n / 10) ++ (n % 10 + b'0') ∷ []
unfolding decimal
decimal-step r n h = ground arith

decimal_one : (r n : ℕ) → n < 10 → decimal (suc r) n ≡ (n + b'0') ∷ []
unfolding decimal
decimal_one r n h = ground arith

-- A year of four digits is printed like "%04d".
to_string-padded : (y : ℕ) → 1000 ≤ y → y < 10000 → to_string y ≡ padded 4 (pos y)
unfolding to_string
to_string-padded y h k =
    let rounds : y + 1 ≡ suc (suc (suc (suc (y - 3)))) = omega arith in
    rw
      (
        rounds,
        decimal-step (suc (suc (suc (y - 3)))) y (omega arith),
        decimal-step (suc (suc (y - 3))) (y / 10) (omega arith),
        decimal-step (suc (y - 3)) (y / 10 / 10) (omega arith),
        decimal_one (y - 3) (y / 10 / 10 / 10) (omega arith),
        padded_four y k,
      )
      (ap₂ (λ (a b : ℕ). (a + b'0') ∷ (b + b'0') ∷ (y / 10 % 10 + b'0') ∷ (y % 10 + b'0') ∷ [])
        (omega arith) (omega arith))

pub strftime_date-print :
    (t : Tm) (y : ℕ) → t.year ≡ pos y → 1000 ≤ y → y < 10000 → strftime_date t ≡ print_date t
unfolding strftime_date print_date to_string_ℤ
strftime_date-print t y e h k = rw e (
    ap (λ (s : Bytes). s ++ b'-' ∷ (padded 2 (pos t.mon) ++ b'-' ∷ padded 2 (pos t.mday)))
      (to_string-padded y h k))

add_zero : (t : ℤ) → t +ℤ pos 0 ≡ t
add_zero (pos n) = ground arith
add_zero (negsuc n) = ground arith

-- An offset of nothing leaves the time as it is.
to_utc_zero : (t : ℤ) → neg_part t ≤ 86400 * unix_day → to_utc (gmtime t) (pos 0) ≡ gmtime t
to_utc_zero t h = elim (Bool-cases (is_minus_one t)) [
  | inl e ↦ rw (timegm-gmtime t h, e) refl
  | inr e ↦ rw (timegm-gmtime t h, e) (ap gmtime (add_zero t))
]

-- What stands behind the second of a time point is read as its microseconds.
datetime_end-point :
    (t : ℤ) (u : ℕ)
    → neg_part t ≤ 86400 * unix_day
    → u < million
    → datetime_end (gmtime t) (b'.' ∷ (padded 6 (pos u) ++ codes "+00")) ≡ filled (gmtime t, u)
datetime_end-point t u h k =
    rw (fraction-padded u (codes "+00") k (λ m. unfold fraction in refl))
      (unfold parse_timezone_offset in ap (λ (tm : Tm). filled (tm, u)) (to_utc_zero t h))

-- The text of a time point, and how it is read.
as_datetime-point :
    (us : ℤ) (y : ℕ) (c : PostgresCell) (h : FitsIn 63 us)
    → (gmtime (split_point us).0).year ≡ pos y
    → 1000 ≤ y
    → y < 10000
    → Holds c (point_text us)
    → is_binary c ≡ false
    → as_datetime c true ≡ ok (filled (gmtime (split_point us).0, (split_point-sum us h).0))
unfolding as_datetime
as_datetime-point us y c h e low high hc bc =
    let (u, micros, small, _, near) = split_point-sum us h in
    let t = gmtime (split_point us).0 in
    let is_tm = IsTm-gmtime (split_point us).0 y e high in
    let rest = b'.' ∷ (padded 6 (pos u) ++ codes "+00") in
    let text : point_text us ≡ print_datetime t ++ rest =
      unfold point_text in rw (micros, strftime_date-print t y e low high) refl in
    let whole : c_text (print_datetime t ++ rest) ≡ print_datetime t ++ rest = c_text-NoNul _ (
      All-append _ (print_datetime t) rest (print-NoNul t is_tm) (
        omega arith,
        All-append _ (padded 6 (pos u)) (codes "+00") (padded_six-NoNul u small) (omega arith),
      )) in
    rw
      (
        text_of-Holds c (point_text us) hc,
        hc.2,
        bc,
        text,
        whole,
        parse_spaced-print t rest zero_tm is_tm,
      )
      (ap ok (datetime_end-point (split_point us).0 u near small))

-- A time point comes back in whole microseconds: as_time_point reads the text that PostgresValue
-- makes of it as the same time point with the nanoseconds behind the last microsecond left off,
-- towards 1970, and with no error, but for the second before 1970, which it refuses with EINVAL.
-- This holds for every time point of libstdc++, an int64_t of nanoseconds.
pub as_time_point-of_time_point :
    (ns : ℤ) (c : PostgresCell)
    → FitsIn 63 ns
    → Holds c (of_time_point ns).contents
    → is_binary c ≡ false
    → as_time_point c
      ≡ ok (
          if is_minus_one (split_point ns).0 then (pos 0, some einval) else (whole_micros ns, none))
unfolding as_time_point of_time_point
as_time_point-of_time_point ns c h hc bc =
    let (u, _, _, sum, near) = split_point-sum ns h in
    let (y, e, low, high) = gmtime_year (split_point ns).0 (seconds-FitsIn ns h) in
    rw
      (
        as_datetime-point ns y c h e low high hc bc,
        hc.2,
        bc,
        timegm-gmtime (split_point ns).0 near,
        sum,
      )
      refl
