-- ===== src/Value.antt =====
-- include/PostgresValue.h: a parameter of a query as its type, and the text that the server reads.
pub mod ArrayText
pub mod ArrayElements
pub mod Times
use wf_postgres.Common.{
  ℕ, zero, suc, ◌+◌, Bool, true, false, ◌||◌, List, [], ◌∷◌, ◌++◌, map, Option, none, some, Bytes,
  codes, ℤ, pos, to_string, is_empty, ltb, ◌==◌, if◌then◌else◌,
}
use wf_postgres.Libc.{to_hex, to_string_ℤ}
use wf_postgres.Types.{PostgresParameter, null_parameter, parameter}

pub record PostgresValue : Type 0 where
  pub is_null : Bool
  pub type_oid : ℤ
  pub contents : Bytes

-- PostgresValue(s, type_oid)
abbrev pub value : Bytes → ℤ → PostgresValue
value s oid = record { is_null = false; type_oid = oid; contents = s }

unfoldable pub to_hex_bytea : Bytes → Bytes
to_hex_bytea p = codes "\\x" ++ to_hex p

-- PostgresValue::null
abbrev pub null_value : ℤ → PostgresValue
null_value oid = record { is_null = true; type_oid = oid; contents = [] }

unfoldable pub of_bool : Bool → PostgresValue
of_bool v = value (if v then codes "t" else codes "f") (pos 16)

unfoldable pub of_int16 : ℤ → PostgresValue
of_int16 v = value (to_string_ℤ v) (pos 21)

unfoldable pub of_int32 : ℤ → PostgresValue
of_int32 v = value (to_string_ℤ v) (pos 23)

unfoldable pub of_int64 : ℤ → PostgresValue
of_int64 v = value (to_string_ℤ v) (pos 20)

-- An unsigned type is sent as the next wider signed one.
unfoldable pub of_uint16 : ℕ → PostgresValue
of_uint16 v = value (to_string v) (pos 23)

unfoldable pub of_uint32 : ℕ → PostgresValue
of_uint32 v = value (to_string v) (pos 20)

unfoldable pub of_uint64 : ℕ → PostgresValue
of_uint64 v = value (to_string v) (pos 1700)

-- A const char*; `none` is nullptr.
unfoldable pub of_c_string : Option Bytes → PostgresValue
of_c_string none = null_value (pos 25)
of_c_string (some s) = value s (pos 25)

unfoldable pub of_string : Bytes → PostgresValue
of_string s = value s (pos 25)

unfoldable pub of_bytes : Bytes → PostgresValue
of_bytes bytes = value (to_hex_bytea bytes) (pos 17)

-- PostgresValue::bytea(data, len); `none` is nullptr.
unfoldable pub bytea : Option Bytes → PostgresValue
unfolding to_hex_bytea
bytea none = null_value (pos 17)
bytea (some p) = value (if is_empty p then [] else to_hex_bytea p) (pos 17)

unfoldable pub numeric : Bytes → PostgresValue
numeric num_str = value num_str (pos 1700)

unfoldable pub json : Bytes → PostgresValue
json json_str = value json_str (pos 114)

unfoldable pub jsonb : Bytes → PostgresValue
jsonb json_str = value json_str (pos 3802)

unfoldable pub uuid : Bytes → PostgresValue
uuid uuid_str = value uuid_str (pos 2950)

-- `if (i > 0) s.push_back(',')`
abbrev pub separate : ℕ → Bytes → Bytes
separate i s = if ltb 0 i then s ++ b',' ∷ [] else s

-- The loop of format_array over the elements behind the first `i`.
unfoldable pub format_items {ℓ} : {A : Type ℓ} → (A → Bytes) → List A → ℕ → Bytes → Bytes
format_items print [] i s = s
format_items print (x ∷ vec) i s = format_items print vec (i + 1) (separate i s ++ print x)

-- `print` is std::to_string of the element type.
unfoldable pub format_array {ℓ} : {A : Type ℓ} → (A → Bytes) → List A → Bytes
unfolding format_items
format_array print vec = format_items print vec 0 (b'{' ∷ []) ++ b'}' ∷ []

-- The loop over the characters of an element.
unfoldable pub push_escaped : Bytes → Bytes → Bytes
push_escaped [] s = s
push_escaped (c ∷ text) s =
    push_escaped text ((if c == b'"' || c == b'\\' then s ++ b'\\' ∷ [] else s) ++ c ∷ [])

unfoldable pub push_texts : List Bytes → ℕ → Bytes → Bytes
unfolding push_escaped
push_texts [] i s = s
push_texts (text ∷ vec) i s =
    push_texts vec (i + 1) (push_escaped text (separate i s ++ b'"' ∷ []) ++ b'"' ∷ [])

unfoldable pub text_array : List Bytes → Bytes
unfolding push_texts
text_array vec = push_texts vec 0 (b'{' ∷ []) ++ b'}' ∷ []

unfoldable pub of_int32_array : List ℤ → PostgresValue
of_int32_array vec = value (format_array to_string_ℤ vec) (pos 1007)

unfoldable pub of_int64_array : List ℤ → PostgresValue
of_int64_array vec = value (format_array to_string_ℤ vec) (pos 1016)

unfoldable pub of_texts : List Bytes → PostgresValue
of_texts vec = value (text_array vec) (pos 1009)

unfoldable pub to_parameter : PostgresValue → PostgresParameter
to_parameter v =
    if v.is_null
    then record null_parameter { type_oid = v.type_oid }
    else parameter v.contents (pos 0) v.type_oid

-- detail::collect_params: the values that the arguments make, in order.
unfoldable pub collect_params : List PostgresParameter → List PostgresValue → List PostgresParameter
unfolding to_parameter
collect_params out [] = out
collect_params out (v ∷ rest) = collect_params (out ++ to_parameter v ∷ []) rest

unfoldable pub bind_params : List PostgresValue → List PostgresParameter
unfolding collect_params
bind_params args = collect_params [] args

-- A floating point number by its print, std::to_string.
module _ {ℓ} {Float : Type ℓ} (print : Float → Bytes) where
  unfoldable pub of_float : Float → PostgresValue
  of_float v = value (print v) (pos 700)

  unfoldable pub of_double : Float → PostgresValue
  of_double v = value (print v) (pos 701)

  unfoldable pub of_double_array : List Float → PostgresValue
  of_double_array vec = value (format_array print vec) (pos 1022)
