-- ===== src/Cell/Times/RoundTrip.antt =====
-- A binary timestamp and its text in src/protocol/PostgresResult.cc.
use wf_postgres.Cell.Access.{is_binary, Holds}
use wf_postgres.Cell.RoundTrip.{as_bigint_binary, text_of-Holds, length-write_int64}
use wf_postgres.Cell.Times.Filled.{filled, fraction, datetime_end, as_datetime}
use wf_postgres.Cell.Times.{
  million, split_micros, datetime_text, print_datetime, with_micros, as_datetime_string,
}
use wf_postgres.Cell.{PostgresCell}
use wf_postgres.Common.{
  ℕ, zero, suc, ◌+◌, ◌-◌, ◌*◌, ◌/◌, ◌%◌, ◌<◌, ◌≡◌, refl, sym, ap, ◌∙◌, true, false, [], ◌∷◌, ◌++◌,
  append-nil, none, some, ok, Bytes, NoNul, All-append, ℤ, pos, negsuc, pos_part, ltb, leb, lt→ltb,
  is_digit, Bool-cases, inl, inr, arith,
}
use wf_postgres.Libc.Calendar.Days.{day_of_civil-civil_of_day}
use wf_postgres.Libc.Calendar.{Tm, zero_tm, far_seconds, gmtime}
use wf_postgres.Libc.Formats.RoundTrip.{
  IsTm, parse_spaced-print, padded_six, padded_six-NoNul, print-NoNul,
}
use wf_postgres.Libc.Formats.{padded, parse_spaced}
use wf_postgres.Libc.Numbers.{c_text-NoNul}
use wf_postgres.Libc.{c_text}
use wf_postgres.Wire.RoundTrip.{FitsIn}
use wf_postgres.Wire.{write_int64}

fraction-digit :
    (c count temp mult : ℕ) (s : Bytes)
    → c < 10
    → count < 6
    → fraction ((c + b'0') ∷ s) count temp mult
      ≡ fraction s (count + 1) (temp + c * mult) (mult / 10)
unfolding fraction
fraction-digit c count temp mult s h k =
    let digit : is_digit (c + b'0') ≡ true = ground arith in
    let value : c + b'0' - b'0' ≡ c = omega arith in rw (digit, lt→ltb count 6 k, value) refl

-- Six digits, and a text that no digit starts.
pub fraction-padded :
    (n : ℕ) (s : Bytes)
    → n < 1000000
    → ((m : ℕ) → fraction s 6 m 0 ≡ (6, m, s))
    → fraction (padded 6 (pos n) ++ s) 0 0 100000 ≡ (6, n, s)
fraction-padded n s h stop =
    let d : ℕ → ℕ = λ k. n / k % 10 in
    rw
      (
        padded_six n h,
        fraction-digit (n / 100000) 0 0 100000
            ((d 10000 + b'0')
              ∷ (d 1000 + b'0')
              ∷ (d 100 + b'0')
              ∷ (d 10 + b'0')
              ∷ (n % 10 + b'0')
              ∷ s)
            (omega arith) (omega arith),
        fraction-digit (d 10000) 1 (0 + n / 100000 * 100000) 10000
            ((d 1000 + b'0') ∷ (d 100 + b'0') ∷ (d 10 + b'0') ∷ (n % 10 + b'0') ∷ s) (omega arith)
            (omega arith),
        fraction-digit (d 1000) 2 _ 1000 ((d 100 + b'0') ∷ (d 10 + b'0') ∷ (n % 10 + b'0') ∷ s)
            (omega arith) (omega arith),
        fraction-digit (d 100) 3 _ 100 ((d 10 + b'0') ∷ (n % 10 + b'0') ∷ s) (omega arith)
            (omega arith),
        fraction-digit (d 10) 4 _ 10 ((n % 10 + b'0') ∷ s) (omega arith) (omega arith),
        fraction-digit (n % 10) 5 _ 1 s (omega arith) (omega arith),
      )
      (stop _ ∙ ap (λ (m : ℕ). (6, m, s)) (omega arith))

-- How the text of a time is read.
parse_spaced-text :
    (t : Tm) (u : ℕ)
    → IsTm t
    → u < 1000000
    → (rest : Bytes) × (parse_spaced (with_micros (print_datetime t) (pos u)) zero_tm
        ≡ some (t, rest))
      × (datetime_end t rest ≡ filled (t, u))
parse_spaced-text t zero h k = (
  [],
  ap (λ s. parse_spaced s zero_tm) (sym (append-nil (print_datetime t)))
      ∙ parse_spaced-print t [] zero_tm h,
  refl,
)
parse_spaced-text t (suc u) h k =
    let rest = b'.' ∷ padded 6 (pos (suc u)) in
    let positive : ltb 0 (suc u) ≡ true = ground arith in
    (
      rest,
      rw positive (parse_spaced-print t rest zero_tm h),
      rw
          (
            sym (append-nil (padded 6 (pos (suc u)))),
            fraction-padded (suc u) [] k (λ m. unfold fraction in refl),
          )
          refl,
    )

-- The text holds no zero byte.
text-NoNul :
    (t : Tm) (u : ℕ) → IsTm t → u < 1000000 → NoNul (with_micros (print_datetime t) (pos u))
text-NoNul t zero h k = print-NoNul t h
text-NoNul t (suc u) h k =
    let positive : ltb 0 (suc u) ≡ true = ground arith in
    rw positive (
      All-append _ (print_datetime t) _ (print-NoNul t h) (omega arith, padded_six-NoNul (suc u) k))

-- The microseconds of a timestamp are from 0 to 999999.
pub split_micros-range : (v : ℤ) → (u : ℕ) × ((split_micros v).1 ≡ pos u) × (u < 1000000)
unfolding split_micros
split_micros-range (pos n) = (n % million, refl, omega arith)
split_micros-range (negsuc n) = elim (Bool-cases (leb (suc n % million) 0)) [
  | inl none_left ↦ (0, rw none_left (ground arith), omega arith)
  | inr some_left ↦
      let r = suc n % million in
      let positive : 0 < r = ground arith in (million - r, rw some_left (ground arith), omega arith)
]

-- The parts of gmtime_r's result.
pub IsTm-gmtime : (t : ℤ) (y : ℕ) → (gmtime t).year ≡ pos y → y < 10000 → IsTm (gmtime t)
unfolding gmtime
IsTm-gmtime t y e h =
    let (_, m1, m12, d1, d31) = day_of_civil-civil_of_day (far_seconds t / 86400) in
    (y, e, (h, (m1, m12), (d1, d31)), (omega arith, omega arith, omega arith))

-- A timestamp means the same in both formats: as_datetime_string prints the binary one as a text
-- of its second in UTC and its microseconds, and as_datetime fills the same struct tm and the
-- same microseconds from the binary value and from that text. The second stands in one of the
-- years 0 to 9999.
pub as_datetime-as_datetime_string :
    (v : ℤ) (y : ℕ) (c d : PostgresCell)
    → FitsIn 63 v
    → Holds c (write_int64 [] v)
    → is_binary c ≡ true
    → (gmtime (split_micros v).0).year ≡ pos y
    → y < 10000
    → Holds d (datetime_text v)
    → is_binary d ≡ false
    → (as_datetime_string c ≡ ok (datetime_text v, none))
      × (as_datetime c true ≡ ok (filled (gmtime (split_micros v).0, pos_part (split_micros v).1)))
      × (as_datetime d true ≡ ok (filled (gmtime (split_micros v).0, pos_part (split_micros v).1)))
unfolding as_datetime_string as_datetime
as_datetime-as_datetime_string v y c d k hc bc e small hd bd =
    let (u, micros, range) = split_micros-range v in
    let t = gmtime (split_micros v).0 in
    let is_tm = IsTm-gmtime (split_micros v).0 y e small in
    let text : datetime_text v ≡ with_micros (print_datetime t) (pos u) =
      unfold datetime_text in ap (with_micros (print_datetime t)) micros in
    let whole : c_text (with_micros (print_datetime t) (pos u))
        ≡ with_micros (print_datetime t) (pos u) =
      c_text-NoNul _ (text-NoNul t u is_tm range) in
    let (rest, parsed, end) = parse_spaced-text t u is_tm range in
    (
      rw (as_bigint_binary c v k hc bc, hc.2, bc, hc.1, length-write_int64 v) refl,
      rw (as_bigint_binary c v k hc bc, hc.2, bc, hc.1, length-write_int64 v) refl,
      rw (text_of-Holds d (datetime_text v) hd, hd.2, bd, text, whole, parsed)
          (ap ok (end ∙ ap (λ m. filled (t, pos_part m)) (sym micros))),
    )
