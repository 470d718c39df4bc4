-- ===== src/Libc/Calendar.antt =====
-- gmtime_r and timegm of the C library: seconds since 1970-01-01 00:00:00 UTC, and the proleptic
-- Gregorian calendar. Days are counted from a 1st of March far back, so that the time of every
-- value of 64 bits in microseconds, and of every 32 bits in days, is a natural number.
pub mod Days
use wf_postgres.Common.{
  ℕ, ◌+◌, ◌-◌, ◌*◌, ◌/◌, ◌%◌, ℤ, pos, negsuc, sub_ℕ, ◌+ℤ◌, pos_part, neg_part, ltb, leb,
  if◌then◌else◌,
}

-- struct tm, with the year itself for tm_year + 1900 and the month from 1 for tm_mon + 1;
-- tm_wday, tm_yday and tm_isdst are left out.
pub record Tm : Type 0 where
  pub year : ℤ
  pub mon : ℕ
  pub mday : ℕ
  pub hour : ℕ
  pub min : ℕ
  pub sec : ℕ

-- memset(tm, 0, sizeof(struct tm))
abbrev pub zero_tm : Tm
zero_tm = record { year = pos 1900; mon = 1; mday = 0; hour = 0; min = 0; sec = 0 }

-- 20,000 eras of 400 years.
abbrev pub shift_years : ℕ
shift_years = 8000000

-- The days from that 1st of March to 1970-01-01, in years that start in March.
abbrev pub unix_day : ℕ
unix_day = 20000 * 146097 + 719468

-- The day of a year that starts in March, and the year, of a day.
pub record Civil : Type 0 where
  pub year : ℕ
  pub mon : ℕ
  pub mday : ℕ

abbrev pub year_of_era : ℕ → ℕ
year_of_era doe = (doe - doe / 1460 + doe / 36524 - doe / 146096) / 365

abbrev pub days_before : ℕ → ℕ
days_before yoe = 365 * yoe + yoe / 4 - yoe / 100

abbrev pub month_from : ℕ → ℕ
month_from mp = if ltb mp 10 then mp + 3 else mp - 9

abbrev pub date_of_year : ℕ → ℕ → Civil
date_of_year y doy =
    let mp = (5 * doy + 2) / 153 in
    record {
      year = if ltb mp 10 then y else y + 1;
      mon = month_from mp;
      mday = doy - (153 * mp + 2) / 5 + 1;
    }

unfoldable pub civil_of_day : ℕ → Civil
civil_of_day z =
    let doe = z % 146097 in
    let yoe = year_of_era doe in date_of_year (400 * (z / 146097) + yoe) (doe - days_before yoe)

-- The day of a year and a month; the day of the month may be past its end.
unfoldable pub day_of_civil : ℕ → ℕ → ℕ → ℕ
day_of_civil year mon mday =
    let y = if ltb 2 mon then year else year - 1 in
    let mp = if ltb 2 mon then mon - 3 else mon + 9 in
    146097 * (y / 400) + days_before (y % 400) + ((153 * mp + 2) / 5 + mday) - 1

-- Seconds since the far 1st of March.
abbrev pub far_seconds : ℤ → ℕ
far_seconds t = pos_part (t +ℤ pos (86400 * unix_day))

unfoldable pub gmtime : ℤ → Tm
gmtime t =
    let s = far_seconds t in
    let c = civil_of_day (s / 86400) in
    record {
      year = sub_ℕ c.year shift_years;
      mon = c.mon;
      mday = c.mday;
      hour = s % 86400 / 3600;
      min = s % 3600 / 60;
      sec = s % 60;
    }

unfoldable pub timegm : Tm → ℤ
timegm tm =
    sub_ℕ
      (86400 * day_of_civil (pos_part (tm.year +ℤ pos shift_years)) tm.mon tm.mday
        + 3600 * tm.hour
        + 60 * tm.min
        + tm.sec)
      (86400 * unix_day)
