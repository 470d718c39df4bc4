-- ===== src/Scram/Xor.antt =====
-- The exclusive or of src/auth/ScramAuth.cc, byte by byte, undone by itself.
use Prim.Native.Nat.{bit_xor, digits, differ, bit_xor-bitwise}
use wf_postgres.Common.{
  ℕ, zero, suc, ◌+◌, ◌*◌, ◌/◌, ◌%◌, ◌≤◌, ◌<◌, ◌≡◌, refl, ap, ap₂, [], ◌∷◌, Bytes, length, arith,
}
use wf_postgres.Scram.{xor_bytes}

abbrev xor_digits : ℕ → ℕ → ℕ → ℕ
xor_digits n a b = digits (λ b. b) differ n a b

xor_digits_fuel : (n m a b : ℕ) → a ≤ n → a ≤ m → xor_digits n a b ≡ xor_digits m a b
xor_digits_fuel zero zero a b p q = refl
xor_digits_fuel zero (suc m) zero b p q = refl
xor_digits_fuel zero (suc m) (suc a) b p q = absurd (omega arith)
xor_digits_fuel (suc n) zero zero b p q = refl
xor_digits_fuel (suc n) zero (suc a) b p q = absurd (omega arith)
xor_digits_fuel (suc n) (suc m) zero b p q = refl
xor_digits_fuel (suc n) (suc m) (suc a) b p q =
    ap (λ (x : ℕ). x * 2 + differ (suc a % 2) (b % 2))
      (xor_digits_fuel n m (suc a / 2) (b / 2) (omega arith) (omega arith))

zero-bit_xor : (b : ℕ) → bit_xor 0 b ≡ b
zero-bit_xor b = bit_xor-bitwise 0 b

zero-differ : (x : ℕ) → differ 0 x ≡ x
zero-differ x = refl

bit_xor_step : (a b : ℕ) → bit_xor a b ≡ bit_xor (a / 2) (b / 2) * 2 + differ (a % 2) (b % 2)
bit_xor_step zero b = omega (arith, zero-bit_xor b, zero-bit_xor (b / 2), zero-differ (b % 2))
bit_xor_step (suc a) b = omega (
  arith,
  bit_xor-bitwise (suc a) b,
  bit_xor-bitwise (suc a / 2) (b / 2),
  xor_digits_fuel a (suc a / 2) (suc a / 2) (b / 2) (omega arith) (omega arith),
)

differ_lt : (a b : ℕ) → a < 2 → b < 2 → differ a b < 2
differ_lt zero b p q = q
differ_lt (suc a) zero p q = p
differ_lt (suc a) (suc b) p q = differ_lt a b (omega arith) (omega arith)

differ_twice : (a b : ℕ) → a < 2 → b < 2 → differ (differ a b) b ≡ a
differ_twice zero zero p q = refl
differ_twice zero (suc zero) p q = refl
differ_twice (suc zero) zero p q = refl
differ_twice (suc zero) (suc zero) p q = refl
differ_twice (suc (suc a)) b p q = absurd (omega arith)
differ_twice a (suc (suc b)) p q = absurd (omega arith)

bit_xor_twice_fuel : (n a b : ℕ) → a ≤ n → b ≤ n → bit_xor (bit_xor a b) b ≡ a
bit_xor_twice_fuel zero zero zero p q = refl
bit_xor_twice_fuel zero (suc a) b p q = absurd (omega arith)
bit_xor_twice_fuel zero zero (suc b) p q = absurd (omega arith)
bit_xor_twice_fuel (suc n) a b p q =
    let x = bit_xor (a / 2) (b / 2) in
    let d = differ (a % 2) (b % 2) in
    let d2 : d < 2 = differ_lt (a % 2) (b % 2) (omega arith) (omega arith) in
    let step : bit_xor a b ≡ x * 2 + d = bit_xor_step a b in
    let half : bit_xor a b / 2 ≡ x = omega (arith, step, d2) in
    let low : bit_xor a b % 2 ≡ d = omega (arith, step, d2) in
    let next : bit_xor (bit_xor a b) b
        ≡ bit_xor (bit_xor a b / 2) (b / 2) * 2 + differ (bit_xor a b % 2) (b % 2) =
      bit_xor_step (bit_xor a b) b in
    let upper : bit_xor (bit_xor a b / 2) (b / 2) ≡ a / 2 =
      rw half (bit_xor_twice_fuel n (a / 2) (b / 2) (omega arith) (omega arith)) in
    let lower : differ (bit_xor a b % 2) (b % 2) ≡ a % 2 =
      rw low (differ_twice (a % 2) (b % 2) (omega arith) (omega arith)) in
    omega (arith, next, upper, lower)

pub bit_xor_twice : (a b : ℕ) → bit_xor (bit_xor a b) b ≡ a
bit_xor_twice a b = bit_xor_twice_fuel (a + b) a b (omega arith) (omega arith)

-- With a key as long as the text, the text comes back.
pub xor_bytes_twice :
    (xs key : Bytes) → length xs ≡ length key → xor_bytes (xor_bytes xs key) key ≡ xs
unfolding xor_bytes
xor_bytes_twice [] [] h = refl
xor_bytes_twice [] (k ∷ key) h = refl
xor_bytes_twice (x ∷ xs) [] h = absurd (omega (arith, h))
xor_bytes_twice (x ∷ xs) (k ∷ key) h =
    ap₂ ◌∷◌ (bit_xor_twice x k) (xor_bytes_twice xs key (omega (arith, h)))
