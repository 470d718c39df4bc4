-- ===== src/Libc/Calendar/Days.antt =====
-- The calendar of gmtime_r and timegm: each day has one date.
use wf_postgres.Common.{
  ℕ, true, false, ◌+◌, ◌-◌, ◌*◌, ◌/◌, ◌%◌, ◌<◌, ◌≤◌, ◌≡◌, ap, ◌∙◌, ℤ, pos, negsuc, sub_ℕ, ◌+ℤ◌,
  pos_part, neg_part, ltb, arith, Bool-cases, inl, inr, ltb→lt, lt→ltb, le→not-ltb, not-ltb→le,
}
use wf_postgres.Libc.Calendar.{
  shift_years, unix_day, year_of_era, days_before, date_of_year, civil_of_day, day_of_civil,
  far_seconds, gmtime, timegm,
}

-- A day of an era of 400 years lies in one of its years.
pub year_of_era-bounds :
    (doe : ℕ)
    → doe < 146097
    → (year_of_era doe < 400)
      × (days_before (year_of_era doe) ≤ doe)
      × (doe - days_before (year_of_era doe) < 366)
year_of_era-bounds doe h = (omega arith, omega arith, omega arith)

-- The month and its day, within a year that starts in March.
pub date_of_year-day :
    (y doy : ℕ)
    → doy < 366
    → (day_of_civil (date_of_year y doy).year (date_of_year y doy).mon (date_of_year y doy).mday
        ≡ 146097 * (y / 400) + days_before (y % 400) + doy)
      × (1 ≤ (date_of_year y doy).mon)
      × ((date_of_year y doy).mon ≤ 12)
      × (1 ≤ (date_of_year y doy).mday)
      × ((date_of_year y doy).mday ≤ 31)
unfolding day_of_civil
date_of_year-day y doy h =
    let mp = (5 * doy + 2) / 153 in
    elim (Bool-cases (ltb mp 10)) [
      | inl early ↦
          let march : ltb 2 (mp + 3) ≡ true = lt→ltb 2 (mp + 3) (omega arith) in
          rw (early, march) (omega (arith, ltb→lt mp 10 early))
      | inr late ↦
          let small : mp - 9 ≤ 2 = omega arith in
          let january : ltb 2 (mp - 9) ≡ false = le→not-ltb 2 (mp - 9) small in
          let back : y + 1 - 1 ≡ y = omega arith in
          rw (late, january, back) (omega (arith, not-ltb→le mp 10 late))
    ]

-- The date of a day stands for that day.
pub day_of_civil-civil_of_day :
    (z : ℕ)
    → (day_of_civil (civil_of_day z).year (civil_of_day z).mon (civil_of_day z).mday ≡ z)
      × (1 ≤ (civil_of_day z).mon)
      × ((civil_of_day z).mon ≤ 12)
      × (1 ≤ (civil_of_day z).mday)
      × ((civil_of_day z).mday ≤ 31)
unfolding civil_of_day
day_of_civil-civil_of_day z =
    let doe = z % 146097 in
    let (in_era, before, in_year) = year_of_era-bounds doe (omega arith) in
    let y = 400 * (z / 146097) + year_of_era doe in
    let (day, mon1, mon12, mday1, mday31) =
      date_of_year-day y (doe - days_before (year_of_era doe)) in_year in
    let era : y / 400 ≡ z / 146097 = omega (arith, in_era) in
    let yoe : y % 400 ≡ year_of_era doe = omega (arith, in_era) in
    (
      day
          ∙ ap
              (λ (e : ℕ).
                146097 * e + days_before (y % 400) + (doe - days_before (year_of_era doe)))
              era
          ∙ ap
              (λ (e : ℕ).
                146097 * (z / 146097) + days_before e + (doe - days_before (year_of_era doe)))
              yoe
          ∙ omega (arith, before),
      mon1,
      mon12,
      mday1,
      mday31,
    )

shift_back : (a k : ℕ) → pos_part (sub_ℕ a k +ℤ pos k) ≡ a
shift_back a k = ground arith

unshift : (t : ℤ) (k : ℕ) → neg_part t ≤ k → sub_ℕ (pos_part (t +ℤ pos k)) k ≡ t
unshift (pos n) k h = ground arith
unshift (negsuc n) k h = ground arith

-- The parts of a number of seconds.
seconds_parts :
    (s : ℕ) → 86400 * (s / 86400) + 3600 * (s % 86400 / 3600) + 60 * (s % 3600 / 60) + s % 60 ≡ s
seconds_parts s = omega arith

-- A time that the far 1st of March precedes is what its date and its time of day stand for.
pub timegm-gmtime : (t : ℤ) → neg_part t ≤ 86400 * unix_day → timegm (gmtime t) ≡ t
unfolding timegm gmtime
timegm-gmtime t h =
    let s = far_seconds t in
    let c = civil_of_day (s / 86400) in
    let clock : ℕ → ℕ =
      λ day. 86400 * day + 3600 * (s % 86400 / 3600) + 60 * (s % 3600 / 60) + s % 60 in
    ap (λ (y : ℕ). sub_ℕ (clock (day_of_civil y c.mon c.mday)) (86400 * unix_day))
      (shift_back c.year shift_years)
    ∙ ap (λ (d : ℕ). sub_ℕ (clock d) (86400 * unix_day)) (day_of_civil-civil_of_day (s / 86400)).0
    ∙ ap (λ (n : ℕ). sub_ℕ n (86400 * unix_day)) (seconds_parts s)
    ∙ unshift t (86400 * unix_day) h
