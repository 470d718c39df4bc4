-- ===== src/Common/Decimal.antt =====
-- Decimal numbers as the C++ library prints and reads them.
use Prim.Native.Nat.{ℕ, zero, suc, ◌+◌, ◌-◌, ◌*◌, ◌/◌, ◌%◌, ◌^◌}
use mathlib.Core.Bool.{Bool, ◌&&◌, ◌||◌}
use mathlib.Core.List.{[], ◌∷◌, ◌++◌}
use mathlib.Core.Option.{Option, none, some}
use wf_postgres.Common.Int.{Bytes, ℤ, pos, negsuc}
use wf_postgres.Common.Tests.{ltb, leb, ◌==◌, if◌then◌else◌}

-- A number has no more digits than its value and one.
unfoldable pub decimal : ℕ → ℕ → Bytes
decimal zero n = []
decimal (suc rounds) n =
    let more = decimal rounds (n / 10) ++ (n % 10 + b'0') ∷ [] in
    if ltb n 10 then (n + b'0') ∷ [] else more

-- std::to_string of an unsigned number.
unfoldable pub to_string : ℕ → Bytes
unfolding decimal
to_string n = decimal (n + 1) n

abbrev pub is_digit : ℕ → Bool
is_digit c = leb b'0' c && leb c b'9'

-- isspace in the C locale.
abbrev pub is_space : ℕ → Bool
is_space c = c == b' ' || (leb 9 c && leb c 13)

-- The digits at the start of a text; `none` if there is no digit.
unfoldable pub leading_number : ℕ → Bytes → ℕ
leading_number acc [] = acc
leading_number acc (c ∷ cs) = if is_digit c then leading_number (acc * 10 + (c - b'0')) cs else acc

unfoldable pub unsigned_number : Bytes → Option ℕ
unfolding leading_number
unsigned_number [] = none
unsigned_number (c ∷ cs) = if is_digit c then some (leading_number 0 (c ∷ cs)) else none

abbrev pub negate : ℕ → ℤ
negate zero = pos 0
negate (suc n) = negsuc n

unfoldable pub signed_number : Bytes → Option ℤ
unfolding unsigned_number
signed_number [] = none
signed_number (c ∷ cs) =
    if c == b'-'
    then elim (unsigned_number cs) [ none ↦ none | some n ↦ some (negate n) ]
    else elim (unsigned_number (if c == b'+' then cs else c ∷ cs)) [
      | none ↦ none
      | some n ↦ some (pos n)
    ]

unfoldable pub skip_spaces : Bytes → Bytes
skip_spaces [] = []
skip_spaces (c ∷ cs) = if is_space c then skip_spaces cs else c ∷ cs

-- The range of int.
abbrev pub in_int : ℤ → Bool
in_int (pos n) = ltb n (2 ^ 31)
in_int (negsuc n) = ltb n (2 ^ 31)

-- std::stoi; `none` is one of its exceptions. What stands behind the digits is ignored.
unfoldable pub stoi : Bytes → Option ℤ
unfolding signed_number skip_spaces
stoi s = elim (signed_number (skip_spaces s)) [
  | none ↦ none
  | some v ↦ if in_int v then some v else none
]
