-- ===== src/Cell/Times/Micros.antt =====
-- The seconds and microseconds of a time point of include/PostgresValue.h, which libstdc++ keeps
-- in nanoseconds.
use wf_postgres.Cell.Times.Filled.{add64, times_million, from_micros}
use wf_postgres.Cell.Times.{million, is_negative}
use wf_postgres.Common.{
  ℕ, zero, suc, ◌+◌, ◌-◌, ◌*◌, ◌/◌, ◌%◌, ◌^◌, ◌<◌, ◌≤◌, ◌≡◌, refl, ap, ap₂, ◌∙◌, ℤ, pos, negsuc,
  ◌+ℤ◌, div_ℤ, rem_ℤ, neg_part, sub_ℕ, leb, ltb, Bool-cases, inl, inr, arith, if◌then◌else◌,
}
use wf_postgres.Libc.Calendar.{
  gmtime, unix_day, shift_years, civil_of_day, year_of_era, days_before, far_seconds,
}
use wf_postgres.Value.Times.{split_point}
use wf_postgres.Wire.RoundTrip.{FitsIn}

add64_pos : (a u : ℕ) → a + u < 2 ^ 63 → add64 (pos a) (pos u) ≡ pos (a + u)
add64_pos a u h = ground arith

add64_neg : (n u : ℕ) → n < 2 ^ 63 → u < million → add64 (negsuc (n + u)) (pos u) ≡ negsuc n
add64_neg n u h k = ground arith

sub_ℕ_neg : (m k : ℕ) → m ≡ suc k → sub_ℕ 0 m ≡ negsuc k
sub_ℕ_neg m k h = ground arith

one_below : (q : ℕ) → sub_ℕ 0 q +ℤ negsuc 0 ≡ negsuc q
one_below zero = refl
one_below (suc q) = rw (sub_ℕ_neg (suc q) q refl) (ground arith)

-- The seconds and microseconds of a count of microseconds.
unfoldable split_us : ℤ → ℤ × ℤ
split_us us =
    if is_negative (rem_ℤ us million)
    then (div_ℤ us million +ℤ negsuc 0, rem_ℤ us million +ℤ pos million)
    else (div_ℤ us million, rem_ℤ us million)

-- The nanoseconds in whole microseconds, towards zero.
abbrev pub whole_micros : ℤ → ℤ
whole_micros (pos n) = pos (n / 1000 * 1000)
whole_micros (negsuc n) = sub_ℕ 0 (suc n / 1000 * 1000)

div_ℤ_sub : (m k : ℕ) → 0 / k ≡ 0 → div_ℤ (sub_ℕ 0 m) k ≡ sub_ℕ 0 (m / k)
div_ℤ_sub zero k h = rw h refl
div_ℤ_sub (suc m) k h = ap (λ z. div_ℤ z k) (sub_ℕ_neg (suc m) m refl)

rem_ℤ_sub : (m k : ℕ) → 0 % k ≡ 0 → rem_ℤ (sub_ℕ 0 m) k ≡ sub_ℕ 0 (m % k)
rem_ℤ_sub zero k h = rw h refl
rem_ℤ_sub (suc m) k h = ap (λ z. rem_ℤ z k) (sub_ℕ_neg (suc m) m refl)

split_point-us : (ns : ℤ) → split_point ns ≡ split_us (div_ℤ ns 1000)
unfolding split_point split_us
split_point-us (pos n) =
    let secs : n / 1000000000 ≡ n / 1000 / million = omega arith in
    let micros : n % 1000000000 / 1000 ≡ n / 1000 % million = omega arith in rw (secs, micros) refl
split_point-us (negsuc n) =
    let secs : suc n / 1000000000 ≡ suc n / 1000 / million = omega arith in
    let micros : suc n % 1000000000 / 1000 ≡ suc n / 1000 % million = omega arith in
    rw
      (
        div_ℤ_sub (suc n % 1000000000) 1000 refl,
        div_ℤ_sub (suc n / 1000) million refl,
        rem_ℤ_sub (suc n / 1000) million refl,
        secs,
        micros,
      )
      refl

-- Microseconds that a time point can have.
abbrev AreMicros : ℤ → Type 0
AreMicros (pos n) = n < 10 ^ 16
AreMicros (negsuc n) = n < 10 ^ 16

micros_of : (ns : ℤ) → FitsIn 63 ns → AreMicros (div_ℤ ns 1000)
micros_of (pos n) h = omega arith
micros_of (negsuc n) h = ground arith

from_micros_whole : (ns : ℤ) → FitsIn 63 ns → from_micros (div_ℤ ns 1000) ≡ whole_micros ns
from_micros_whole (pos n) h = ground arith
from_micros_whole (negsuc n) h = ground arith

-- Before 1970 the second is the one below.
split_us_neg :
    (n : ℕ)
    → (q u : ℕ) × (split_us (negsuc n) ≡ (negsuc q, pos u))
      × (u < million)
      × (suc n + u ≡ (q + 1) * million)
unfolding split_us
split_us_neg n = elim (Bool-cases (leb (suc n % million) 0)) [
  | inl none_left ↦
      let none : suc n % million ≡ 0 = ground arith in
      (
        suc n / million - 1,
        0,
        rw none_left (
            ap₂ (λ (a b : ℤ). (a, b))
              (sub_ℕ_neg (suc n / million) (suc n / million - 1) (omega arith))
              (ap pos (omega arith))),
        omega arith,
        omega arith,
      )
  | inr some_left ↦
      let r = suc n % million in
      let some : 0 < suc n % million = ground arith in
      (
        suc n / million,
        million - r,
        rw some_left (ap₂ (λ (a b : ℤ). (a, b)) (one_below (suc n / million)) (ground arith)),
        omega arith,
        omega arith,
      )
]

-- The seconds and microseconds add up to the time point.
split_us-sum :
    (us : ℤ)
    → AreMicros us
    → (u : ℕ) × ((split_us us).1 ≡ pos u)
      × (u < million)
      × (add64 (times_million (split_us us).0) (pos u) ≡ us)
      × (neg_part (split_us us).0 ≤ 86400 * unix_day)
split_us-sum (pos n) h = (
  n % million,
  unfold split_us in refl,
  omega arith,
  unfold split_us in
      add64_pos (n / million * million) (n % million) (omega arith) ∙ ap pos (omega arith),
  unfold split_us in omega arith,
)
split_us-sum (negsuc n) h =
    let (q, u, e, k, sum) = split_us_neg n in
    let before : times_million (negsuc q) ≡ negsuc (n + u) =
      sub_ℕ_neg ((q + 1) * million) (n + u) (omega (arith, sum)) in
    (
      u,
      rw e refl,
      k,
      rw (e, before) (add64_neg n u (omega (arith, h)) k),
      rw e (omega (arith, sum, h)),
    )

pub split_point-sum :
    (ns : ℤ)
    → FitsIn 63 ns
    → (u : ℕ) × ((split_point ns).1 ≡ pos u)
      × (u < million)
      × (from_micros (add64 (times_million (split_point ns).0) (pos u)) ≡ whole_micros ns)
      × (neg_part (split_point ns).0 ≤ 86400 * unix_day)
split_point-sum ns h =
    let (u, micros, small, sum, near) = split_us-sum (div_ℤ ns 1000) (micros_of ns h) in
    rw (split_point-us ns) (u, micros, small, ap from_micros sum ∙ from_micros_whole ns h, near)

year_of_era-Bound : (doe : ℕ) → doe < 146097 → year_of_era doe ≤ 410
year_of_era-Bound doe h = omega arith

year_of_day :
    (z : ℕ)
    → unix_day ≤ z + 200000
    → z ≤ unix_day + 200000
    → (shift_years + 1000 ≤ (civil_of_day z).year) × ((civil_of_day z).year < shift_years + 10000)
unfolding civil_of_day
year_of_day z h k =
    let doe = z % 146097 in
    let eras : (20003 ≤ z / 146097) × (z / 146097 ≤ 20006) = omega arith in
    let era = year_of_era-Bound doe (omega arith) in
    elim (Bool-cases (ltb ((5 * (doe - days_before (year_of_era doe)) + 2) / 153) 10)) [
      | inl e ↦ rw e (omega (arith, era, eras.0), omega (arith, era, eras.1))
      | inr e ↦ rw e (omega (arith, era, eras.0), omega (arith, era, eras.1))
    ]

seconds_us : (us : ℤ) → AreMicros us → FitsIn 34 (split_us us).0
seconds_us (pos n) h = unfold split_us in omega arith
seconds_us (negsuc n) h = let (q, u, e, k, sum) = split_us_neg n in rw e (omega (arith, k, sum, h))

far_seconds-Bounds :
    (t : ℤ)
    → FitsIn 34 t
    → (86400 * unix_day ≤ far_seconds t + 2 ^ 34) × (far_seconds t < 86400 * unix_day + 2 ^ 34)
far_seconds-Bounds (pos n) h = ground arith
far_seconds-Bounds (negsuc n) h = ground arith

pub seconds-FitsIn : (ns : ℤ) → FitsIn 63 ns → FitsIn 34 (split_point ns).0
seconds-FitsIn ns h = rw (split_point-us ns) (seconds_us (div_ℤ ns 1000) (micros_of ns h))

-- The year of a time point has four digits.
pub gmtime_year :
    (t : ℤ) → FitsIn 34 t → (y : ℕ) × ((gmtime t).year ≡ pos y) × (1000 ≤ y) × (y < 10000)
unfolding gmtime
gmtime_year t h =
    let s = far_seconds t in
    let (before, behind) = far_seconds-Bounds t h in
    let (low, high) = year_of_day (s / 86400) (omega (arith, before)) (omega (arith, behind)) in
    let y = (civil_of_day (s / 86400)).year in
    (y - shift_years, ground (arith, low), omega (arith, low), omega (arith, high))
