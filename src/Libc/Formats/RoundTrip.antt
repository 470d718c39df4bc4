-- ===== src/Libc/Formats/RoundTrip.antt =====
-- Reading back printed dates and times.
use wf_postgres.Common.{
  ℕ, suc, ◌+◌, ◌-◌, ◌*◌, ◌/◌, ◌%◌, ◌<◌, ◌≤◌, ◌≡◌, append_assoc, NoNul, All-append, refl, ap, ap₂,
  ◌∙◌, true, false, ◌&&◌, [], ◌∷◌, ◌++◌, some, Bytes, pos, leb, lt→ltb, ◌==◌, is_digit, is_space,
  skip_spaces, arith,
}
use wf_postgres.Libc.Calendar.{Tm}
use wf_postgres.Libc.Formats.{
  padded, number_loop, get_number, print_date, print_clock, parse_date, parse_clock, parse_spaced,
}

pub padded_two : (n : ℕ) → n < 100 → padded 2 (pos n) ≡ (n / 10 + b'0') ∷ (n % 10 + b'0') ∷ []
unfolding padded
padded_two n h =
    rw (lt→ltb n 100 h) (ap (λ (d : ℕ). (d + b'0') ∷ (n % 10 + b'0') ∷ []) (omega arith))

-- A number of two digits.
pub get_number_two :
    (lo hi n : ℕ) (s : Bytes)
    → lo ≤ n
    → n ≤ hi
    → hi < 100
    → get_number lo hi 2 ((n / 10 + b'0') ∷ (n % 10 + b'0') ∷ s) ≡ some (n, s)
unfolding get_number number_loop
get_number_two lo hi n s a b c = ground arith

pub padded_four :
    (n : ℕ)
    → n < 10000
    → padded 4 (pos n)
      ≡ (n / 1000 + b'0') ∷ (n / 100 % 10 + b'0') ∷ (n / 10 % 10 + b'0') ∷ (n % 10 + b'0') ∷ []
unfolding padded
padded_four n h = rw (lt→ltb n 10000 h) (
    ap₂ (λ (a b : ℕ). (a + b'0') ∷ (b + b'0') ∷ (n / 10 % 10 + b'0') ∷ (n % 10 + b'0') ∷ [])
      (omega arith) (omega arith))

number_loop-digit :
    (n hi val c : ℕ) (s : Bytes)
    → val * 10 ≤ hi
    → c < 10
    → number_loop (suc n) hi val ((c + b'0') ∷ s) ≡ number_loop n hi (val * 10 + c) s
unfolding number_loop
number_loop-digit n hi val c s h k =
    let test : (leb (val * 10) hi && is_digit (c + b'0')) ≡ true = ground arith in
    rw test (ap (λ (d : ℕ). number_loop n hi (val * 10 + d) s) (omega arith))

-- A year of four digits.
pub get_number_four :
    (n : ℕ) (s : Bytes)
    → n < 10000
    → get_number 0 9999 4
        ((n / 1000 + b'0') ∷ (n / 100 % 10 + b'0') ∷ (n / 10 % 10 + b'0') ∷ (n % 10 + b'0') ∷ s)
      ≡ some (n, s)
unfolding get_number
get_number_four n s h =
    let not_blank : (n / 1000 + b'0' == b' ') ≡ false = ground arith in
    let digit : is_digit (n / 1000 + b'0') ≡ true = ground arith in
    let start : n / 1000 + b'0' - b'0' ≡ n / 1000 = omega arith in
    let loop : number_loop 3 9999 (n / 1000)
          ((n / 100 % 10 + b'0') ∷ (n / 10 % 10 + b'0') ∷ (n % 10 + b'0') ∷ s)
        ≡ (n, s) =
      number_loop-digit 2 9999 (n / 1000) (n / 100 % 10)
        ((n / 10 % 10 + b'0') ∷ (n % 10 + b'0') ∷ s) (omega arith) (omega arith)
      ∙ number_loop-digit 1 9999 (n / 1000 * 10 + n / 100 % 10) (n / 10 % 10) ((n % 10 + b'0') ∷ s)
          (omega arith) (omega arith)
      ∙ number_loop-digit 0 9999 ((n / 1000 * 10 + n / 100 % 10) * 10 + n / 10 % 10) (n % 10) s
          (omega arith) (omega arith)
      ∙ (unfold number_loop in ap (λ (m : ℕ). (m, s)) (omega arith)) in
    rw (not_blank, digit, start, loop) (ground arith)

-- A date of the years 0 to 9999.
abbrev pub IsDate : ℕ → ℕ → ℕ → Type 0
IsDate y m d = (y < 10000) × ((1 ≤ m) × (m ≤ 12)) × ((1 ≤ d) × (d ≤ 31))

pub parse_date-print :
    (y m d : ℕ) (rest : Bytes) (tm : Tm)
    → IsDate y m d
    → parse_date
        ((padded 4 (pos y) ++ b'-' ∷ (padded 2 (pos m) ++ b'-' ∷ padded 2 (pos d))) ++ rest)
        tm
      ≡ some (record tm { year = pos y; mon = m; mday = d }, rest)
unfolding parse_date
parse_date-print y m d rest tm (hy, hm, hd) =
    rw
      (
        padded_four y hy,
        padded_two m (omega arith),
        padded_two d (omega arith),
        get_number_four y _ hy,
        get_number_two 1 12 m _ hm.0 hm.1 (omega arith),
        get_number_two 1 31 d rest hd.0 hd.1 (omega arith),
      )
      refl

abbrev pub IsClock : ℕ → ℕ → ℕ → Type 0
IsClock h m s = (h < 24) × (m < 60) × (s < 60)

pub parse_clock-print :
    (h m s : ℕ) (rest : Bytes) (tm : Tm)
    → IsClock h m s
    → parse_clock (print_clock (pos h) (pos m) (pos s) ++ rest) tm
      ≡ some (record tm { hour = h; min = m; sec = s }, rest)
unfolding parse_clock print_clock
parse_clock-print h m s rest tm (hh, hm, hs) =
    rw
      (
        padded_two h (omega arith),
        padded_two m (omega arith),
        padded_two s (omega arith),
        get_number_two 0 23 h _ (omega arith) (omega arith) (omega arith),
        get_number_two 0 59 m _ (omega arith) (omega arith) (omega arith),
        get_number_two 0 61 s rest (omega arith) (omega arith) (omega arith),
      )
      refl

-- A clock starts with a digit.
skip_spaces-clock :
    (h m s : ℕ) (rest : Bytes)
    → IsClock h m s
    → skip_spaces (b' ' ∷ (print_clock (pos h) (pos m) (pos s) ++ rest))
      ≡ print_clock (pos h) (pos m) (pos s) ++ rest
unfolding print_clock
skip_spaces-clock h m s rest (hh, _, _) = rw (padded_two h (omega arith)) (
    unfold skip_spaces in
    let digit : is_space (h / 10 + b'0') ≡ false = ground arith in rw digit refl)

-- A date and a time of day.
abbrev pub IsTm : Tm → Type 0
IsTm t = (y : ℕ) × (t.year ≡ pos y) × IsDate y t.mon t.mday × IsClock t.hour t.min t.sec

pub parse_spaced-print :
    (t : Tm) (rest : Bytes) (tm : Tm)
    → IsTm t
    → parse_spaced
        ((print_date t ++ b' ' ∷ print_clock (pos t.hour) (pos t.min) (pos t.sec)) ++ rest)
        tm
      ≡ some (t, rest)
unfolding parse_spaced print_date
parse_spaced-print t rest tm (y, e, d, c) =
    let clock = print_clock (pos t.hour) (pos t.min) (pos t.sec) in
    rw
      (
        e,
        append_assoc
            (padded 4 (pos y) ++ b'-' ∷ (padded 2 (pos t.mon) ++ b'-' ∷ padded 2 (pos t.mday)))
            (b' ' ∷ clock) rest,
        parse_date-print y t.mon t.mday (b' ' ∷ (clock ++ rest)) tm d,
        skip_spaces-clock t.hour t.min t.sec rest c,
        parse_clock-print t.hour t.min t.sec rest
            (record tm { year = pos y; mon = t.mon; mday = t.mday }) c,
      )
      refl

pub padded_six :
    (n : ℕ)
    → n < 1000000
    → padded 6 (pos n)
      ≡ (n / 100000 + b'0')
        ∷ (n / 10000 % 10 + b'0')
        ∷ (n / 1000 % 10 + b'0')
        ∷ (n / 100 % 10 + b'0')
        ∷ (n / 10 % 10 + b'0')
        ∷ (n % 10 + b'0')
        ∷ []
unfolding padded
padded_six n h = rw (lt→ltb n 1000000 h) (ground arith)

pub print_date-NoNul : (t : Tm) → IsTm t → NoNul (print_date t)
unfolding print_date
print_date-NoNul t (y, e, (hy, hm, hd), c) =
    rw (e, padded_four y hy, padded_two t.mon (omega arith), padded_two t.mday (omega arith))
      (omega arith)

pub print_clock-NoNul : (t : Tm) → IsTm t → NoNul (print_clock (pos t.hour) (pos t.min) (pos t.sec))
unfolding print_clock
print_clock-NoNul t (y, e, d, (hh, hm, hs)) =
    rw
      (
        padded_two t.hour (omega arith),
        padded_two t.min (omega arith),
        padded_two t.sec (omega arith),
      )
      (omega arith)

pub padded_six-NoNul : (n : ℕ) → n < 1000000 → NoNul (padded 6 (pos n))
padded_six-NoNul n h = rw (padded_six n h) (omega arith)

pub print-NoNul :
    (t : Tm)
    → IsTm t
    → NoNul (print_date t ++ b' ' ∷ print_clock (pos t.hour) (pos t.min) (pos t.sec))
print-NoNul t h =
    All-append _ (print_date t) _ (print_date-NoNul t h) (omega arith, print_clock-NoNul t h)
