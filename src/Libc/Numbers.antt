-- ===== src/Libc/Numbers.antt =====
-- Reading back a printed number.
use wf_postgres.Common.{
  ℕ, zero, suc, ◌+◌, ◌-◌, ◌*◌, ◌/◌, ◌%◌, ◌^◌, ◌≤◌, ◌<◌, ◌≡◌, refl, [], ◌∷◌, ◌++◌, none, some, Bytes,
  NoNul, All, All-append, ℤ, pos, negsuc, ltb, lt→ltb, inl, inr, Bool-cases, decimal, to_string,
  leading_number, unsigned_number, signed_number, skip_spaces, arith,
}
use wf_postgres.Libc.{c_text, drop_digits, drop_sign, to_long_long, strtoll, strtoull, to_string_ℤ}
use wf_postgres.Wire.RoundTrip.{FitsIn}

abbrev pub IsDigit : ℕ → Type 0
IsDigit c = (b'0' ≤ c) × (c ≤ b'9')

abbrev pub AreDigits : Bytes → Type 0
AreDigits = All IsDigit

-- A text of digits, and at least one.
abbrev pub IsNumeral : Bytes → Type 0
IsNumeral [] = ⊥
IsNumeral (c ∷ cs) = AreDigits (c ∷ cs)

-- Digits, and one more behind them.
IsNumeral-append : (s : Bytes) (c : ℕ) → AreDigits s → IsDigit c → IsNumeral (s ++ c ∷ [])
IsNumeral-append [] c h k = (k, tt)
IsNumeral-append (x ∷ s) c h k = All-append IsDigit (x ∷ s) (c ∷ []) h (k, tt)

pub AreDigits-of : (s : Bytes) → IsNumeral s → AreDigits s
AreDigits-of [] h = tt
AreDigits-of (c ∷ s) h = h

pub decimal-IsNumeral : (r n : ℕ) → n < r → IsNumeral (decimal r n)
unfolding decimal
decimal-IsNumeral zero n h = absurd (omega arith)
decimal-IsNumeral (suc r) n h = elim (Bool-cases (ltb n 10)) [
  | inl small ↦ rw small (ground arith)
  | inr large ↦ rw large (
      IsNumeral-append (decimal r (n / 10)) (n % 10 + b'0')
        (AreDigits-of _ (decimal-IsNumeral r (n / 10) (ground arith))) (omega arith))
]

leading_number-append :
    (a : ℕ) (s t : Bytes)
    → AreDigits s
    → leading_number a (s ++ t) ≡ leading_number (leading_number a s) t
unfolding leading_number
leading_number-append a [] t h = refl
leading_number-append a (c ∷ s) t h =
    ground (arith, leading_number-append (a * 10 + (c - b'0')) s t h.1)

pub leading_number-decimal : (r n : ℕ) → n < r → leading_number 0 (decimal r n) ≡ n
unfolding decimal
leading_number-decimal zero n h = absurd (omega arith)
leading_number-decimal (suc r) n h = elim (Bool-cases (ltb n 10)) [
  | inl small ↦ rw small (unfold leading_number in ground arith)
  | inr large ↦
      rw
        (
          large,
          leading_number-append 0 (decimal r (n / 10)) ((n % 10 + b'0') ∷ [])
              (AreDigits-of _ (decimal-IsNumeral r (n / 10) (ground arith))),
          leading_number-decimal r (n / 10) (ground arith),
        )
        (unfold leading_number in ground arith)
]

-- Digits are read to their end.
drop_digits_all : (s : Bytes) → AreDigits s → drop_digits s ≡ []
unfolding drop_digits
drop_digits_all [] h = refl
drop_digits_all (c ∷ s) h = ground (arith, drop_digits_all s h.1)

unsigned_number-IsNumeral :
    (s : Bytes) → IsNumeral s → unsigned_number s ≡ some (leading_number 0 s)
unfolding unsigned_number
unsigned_number-IsNumeral [] h = absurd h
unsigned_number-IsNumeral (c ∷ s) h = ground arith

-- A text of digits is read as its number.
signed_number-IsNumeral :
    (s : Bytes) → IsNumeral s → signed_number (skip_spaces s) ≡ some (pos (leading_number 0 s))
unfolding signed_number skip_spaces unsigned_number
signed_number-IsNumeral [] h = absurd h
signed_number-IsNumeral (c ∷ s) h = ground arith

drop_sign-IsNumeral : (s : Bytes) → IsNumeral s → drop_digits (drop_sign (skip_spaces s)) ≡ []
unfolding skip_spaces drop_sign
drop_sign-IsNumeral [] h = absurd h
drop_sign-IsNumeral (c ∷ s) h = ground (arith, drop_digits_all (c ∷ s) h)

pub strtoll-IsNumeral :
    (s : Bytes) → IsNumeral s → strtoll s ≡ (to_long_long (pos (leading_number 0 s)), [])
unfolding strtoll
strtoll-IsNumeral s h = rw (signed_number-IsNumeral s h, strtoll, drop_sign-IsNumeral s h) refl

pub to_string-IsNumeral : (n : ℕ) → IsNumeral (to_string n)
unfolding to_string
to_string-IsNumeral n = decimal-IsNumeral (n + 1) n (omega arith)

pub leading_number-to_string : (n : ℕ) → leading_number 0 (to_string n) ≡ n
unfolding to_string
leading_number-to_string n = leading_number-decimal (n + 1) n (omega arith)

strtoll_minus :
    (s : Bytes) (n : ℕ)
    → IsNumeral s
    → leading_number 0 s ≡ n + 1
    → strtoll (b'-' ∷ s) ≡ (to_long_long (negsuc n), [])
unfolding strtoll skip_spaces signed_number drop_sign
strtoll_minus s n h e =
    rw (unsigned_number-IsNumeral s h, strtoll, drop_digits_all s (AreDigits-of s h), e)
      (let one : n + 1 ≡ suc n = omega arith in rw one refl)

-- Every int64_t is read back from its print.
pub strtoll-to_string_ℤ : (v : ℤ) → FitsIn 63 v → strtoll (to_string_ℤ v) ≡ ((v, none), [])
unfolding to_string_ℤ to_long_long
strtoll-to_string_ℤ (pos n) h =
    rw
      (strtoll-IsNumeral _ (to_string-IsNumeral n), leading_number-to_string n, lt→ltb n (2 ^ 63) h)
      refl
strtoll-to_string_ℤ (negsuc n) h =
    rw
      (
        strtoll_minus (to_string (n + 1)) n (to_string-IsNumeral (n + 1))
            (leading_number-to_string (n + 1)),
        lt→ltb n (2 ^ 63) h,
      )
      refl

pub strtoull-IsNumeral :
    (s : Bytes)
    → IsNumeral s
    → leading_number 0 s < 2 ^ 64
    → strtoull s ≡ ((leading_number 0 s, none), [])
unfolding strtoull
strtoull-IsNumeral s h k =
    rw
      (
        unsigned_number-IsNumeral s h,
        strtoull,
        drop_digits_all s (AreDigits-of s h),
        lt→ltb (leading_number 0 s) (2 ^ 64) k,
      )
      refl

pub NoNul-of_digits : (s : Bytes) → AreDigits s → NoNul s
NoNul-of_digits [] h = tt
NoNul-of_digits (c ∷ s) h = (omega arith, NoNul-of_digits s h.1)

pub c_text-NoNul : (s : Bytes) → NoNul s → c_text s ≡ s
unfolding c_text
c_text-NoNul [] h = refl
c_text-NoNul (c ∷ s) h = ground (arith, c_text-NoNul s h.1)

pub NoNul-to_string_ℤ : (v : ℤ) → NoNul (to_string_ℤ v)
unfolding to_string_ℤ
NoNul-to_string_ℤ (pos n) = NoNul-of_digits (to_string n) (AreDigits-of _ (to_string-IsNumeral n))
NoNul-to_string_ℤ (negsuc n) = (
  omega arith,
  NoNul-of_digits (to_string (n + 1)) (AreDigits-of _ (to_string-IsNumeral (n + 1))),
)
