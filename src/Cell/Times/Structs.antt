-- ===== src/Cell/Times/Structs.antt =====
-- A struct tm as a value of include/PostgresValue.h, read back by as_date, as_time and as_datetime
-- of src/protocol/PostgresResult.cc.
use wf_postgres.Cell.Access.{is_binary, Holds}
use wf_postgres.Cell.RoundTrip.{text_of-Holds}
use wf_postgres.Cell.Times.Filled.{filled, as_date, as_time, as_datetime}
use wf_postgres.Cell.Times.Points.{strftime_date-print}
use wf_postgres.Cell.{PostgresCell}
use wf_postgres.Common.{
  ℕ, ◌<◌, ◌≤◌, ◌≡◌, refl, sym, ap, ◌∙◌, true, false, [], ◌∷◌, ◌++◌, append-nil, some, ok, pos,
}
use wf_postgres.Libc.Calendar.{Tm, zero_tm}
use wf_postgres.Libc.Formats.RoundTrip.{
  IsTm, parse_date-print, parse_clock-print, parse_spaced-print, print_date-NoNul,
  print_clock-NoNul, print-NoNul,
}
use wf_postgres.Libc.Formats.{parse_date, parse_clock, parse_spaced, print_date, print_clock}
use wf_postgres.Libc.Numbers.{c_text-NoNul}
use wf_postgres.Value.Times.{of_tm}

-- The three formats, as they are read to their end.
parse_date_all :
    (t : Tm)
    → IsTm t
    → parse_date (print_date t) zero_tm
      ≡ some (record zero_tm { year = t.year; mon = t.mon; mday = t.mday }, [])
parse_date_all t (y, e, d, c) =
    ap (λ s. parse_date s zero_tm) (sym (append-nil (print_date t)))
    ∙ (unfold print_date in rw e (parse_date-print y t.mon t.mday [] zero_tm d))

parse_clock_all :
    (t : Tm)
    → IsTm t
    → parse_clock (print_clock (pos t.hour) (pos t.min) (pos t.sec)) zero_tm
      ≡ some (record zero_tm { hour = t.hour; min = t.min; sec = t.sec }, [])
parse_clock_all t (y, e, d, c) =
    ap (λ s. parse_clock s zero_tm) (sym (append-nil _))
    ∙ parse_clock-print t.hour t.min t.sec [] zero_tm c

parse_spaced_all :
    (t : Tm)
    → IsTm t
    → parse_spaced (print_date t ++ b' ' ∷ print_clock (pos t.hour) (pos t.min) (pos t.sec)) zero_tm
      ≡ some (t, [])
parse_spaced_all t h =
    ap (λ s. parse_spaced s zero_tm) (sym (append-nil _)) ∙ parse_spaced-print t [] zero_tm h

-- A struct tm comes back from the text that PostgresValue makes of it: as_date reads a DATE as
-- its day at midnight, as_time a TIME as its clock, and as_datetime a TIMESTAMP as all of it,
-- with no microseconds and no error. The year is one of 1000 to 9999, the month from 1 to 12,
-- the day from 1 to 31, and the clock within its ranges.
pub as_times-of_tm :
    (t : Tm) (y : ℕ) (c d e : PostgresCell)
    → IsTm t
    → t.year ≡ pos y
    → (1000 ≤ y) × (y < 10000)
    → Holds c (of_tm t (pos 1082)).contents × (is_binary c ≡ false)
    → Holds d (of_tm t (pos 1083)).contents × (is_binary d ≡ false)
    → Holds e (of_tm t (pos 1114)).contents × (is_binary e ≡ false)
    → (as_date c true ≡ ok (filled (record t { hour = 0; min = 0; sec = 0 })))
      × (as_time d true
          ≡ ok (filled (record zero_tm { hour = t.hour; min = t.min; sec = t.sec }, 0)))
      × (as_datetime e true ≡ ok (filled (t, 0)))
unfolding as_date as_time as_datetime of_tm
as_times-of_tm t y c d e h year range hc hd he =
    let date = strftime_date-print t y year range.0 range.1 in
    (
      rw
          (
            text_of-Holds c _ hc.0,
            hc.0.2,
            hc.1,
            date,
            c_text-NoNul _ (print_date-NoNul t h),
            parse_date_all t h,
          )
          refl,
      rw
          (
            text_of-Holds d _ hd.0,
            hd.0.2,
            hd.1,
            c_text-NoNul _ (print_clock-NoNul t h),
            parse_clock_all t h,
          )
          refl,
      rw
          (
            text_of-Holds e _ he.0,
            he.0.2,
            he.1,
            date,
            c_text-NoNul _ (print-NoNul t h),
            parse_spaced_all t h,
          )
          refl,
    )
