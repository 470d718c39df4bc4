-- ===== src/Types/Maps.antt =====
-- std::map<std::string, std::string> as the list of its pairs, in the order of the keys.
use wf_postgres.Common.{
  Bool, true, false, ◌||◌, ◌&&◌, List, [], ◌∷◌, Option, none, some, Bytes, ltb, ◌==◌, if◌then◌else◌,
  str_eq, str_eq_iff, ◌≡◌, refl, arith,
}

-- std::string::operator<
unfoldable pub str_lt : Bytes → Bytes → Bool
str_lt [] [] = false
str_lt [] (y ∷ ys) = true
str_lt (x ∷ xs) [] = false
str_lt (x ∷ xs) (y ∷ ys) = ltb x y || (x == y && str_lt xs ys)

abbrev pub StringMap : Type 0
StringMap = List (Bytes × Bytes)

unfoldable pub lookup : Bytes → StringMap → Option Bytes
lookup k [] = none
lookup k ((j, v) ∷ m) = if str_eq j k then some v else lookup k m

-- m[k] = v
unfoldable pub assign : Bytes → Bytes → StringMap → StringMap
assign k v [] = (k, v) ∷ []
assign k v ((j, w) ∷ m) =
    if str_eq j k
    then (k, v) ∷ m
    else if str_lt k j
    then (k, v) ∷ (j, w) ∷ m
    else (j, w) ∷ assign k v m

pub lookup-assign :
    (j k v : Bytes) (m : StringMap)
    → lookup j (assign k v m) ≡ (if str_eq k j then some v else lookup j m)
unfolding lookup assign
lookup-assign j k v [] = refl
lookup-assign j k v ((i, w) ∷ m) =
    ground (arith, str_eq_iff k j, str_eq_iff i k, str_eq_iff i j, lookup-assign j k v m)
