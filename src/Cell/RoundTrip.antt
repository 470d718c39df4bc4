-- ===== src/Cell/RoundTrip.antt =====
-- The conversions of src/protocol/PostgresResult.cc on the texts that include/PostgresValue.h
-- makes, and on the binary values of the protocol.
use wf_postgres.Cell.Access.{is_binary, Holds, string_of, text_of}
use wf_postgres.Cell.Numbers.{parse_number, binary_int, as_int, as_bigint}
use wf_postgres.Cell.Texts.{hex_val, hex_bytes, bytea_text, as_bytea}
use wf_postgres.Cell.{PostgresCell}
use wf_postgres.Common.{
  ℕ, ◌+◌, ◌/◌, ◌%◌, ◌<◌, ◌≡◌, refl, sym, ap, ◌∙◌, true, false, [], ◌∷◌, append-nil, none, some, ok,
  Bytes, IsBytes, ℤ, pos, negsuc, length, take_all, ltb, leb, ◌==◌, if◌then◌else◌, arith, map_run,
  signed64, word64, to_string,
}
use wf_postgres.Libc.Numbers.{
  strtoll-to_string_ℤ, c_text-NoNul, NoNul-to_string_ℤ, IsNumeral, to_string-IsNumeral,
}
use wf_postgres.Libc.{Errs, to_string_ℤ, to_hex}
use wf_postgres.Value.{of_int64, of_bytes, to_hex_bytea}
use wf_postgres.Wire.RoundTrip.{FitsIn, read_uint64-write_uint64, signed64-word64, word64-lt}
use wf_postgres.Wire.{read_uint64, write_uint32, write_uint64, write_int64}

pub string_of-all : (p : Bytes) → string_of (some p) (length p) ≡ ok p
string_of-all p =
    let whole : leb (length p) (length p) ≡ true = ground arith in
    rw (whole, take_all (length p) p (omega arith)) refl

parse_number-to_string_ℤ : (v : ℤ) → FitsIn 63 v → parse_number (to_string_ℤ v) ≡ (v, none)
unfolding parse_number
parse_number-to_string_ℤ v h =
    rw (c_text-NoNul _ (NoNul-to_string_ℤ v), strtoll-to_string_ℤ v h) refl

pub text_of-Holds : (c : PostgresCell) (p : Bytes) → Holds c p → text_of c ≡ ok p
text_of-Holds c p h = rw (h.0, h.1) (string_of-all p)

-- A text value is read by strtoll.
as_bigint_text :
    (c : PostgresCell) (p : Bytes)
    → Holds c p
    → is_binary c ≡ false
    → as_bigint c ≡ ok (parse_number p)
unfolding as_bigint
as_bigint_text c p h b = rw (h.2, b, text_of-Holds c p h) refl

as_int_text :
    (c : PostgresCell) (p : Bytes)
    → Holds c p
    → 0 < length p
    → is_binary c ≡ false
    → as_int c ≡ ok (parse_number p)
unfolding as_int
as_int_text c p h k b =
    let some_bytes : (c.length == 0) ≡ false = ground (arith, h.1) in
    rw (h.2, some_bytes, b, text_of-Holds c p h) refl

pub length-write_int64 : (v : ℤ) → length (write_int64 [] v) ≡ 8
unfolding write_int64 write_uint64 write_uint32
length-write_int64 v = refl

signed64-write_int64 :
    (v : ℤ)
    → FitsIn 63 v
    → map_run {B = Errs ℤ} (λ w. (signed64 w, none)) (read_uint64 (write_int64 [] v)) ≡ ok (v, none)
signed64-write_int64 v h =
    let read : read_uint64 (write_int64 [] v) ≡ ok (word64 v) =
      unfold write_int64 in
      ap read_uint64 (sym (append-nil (write_uint64 [] (word64 v))))
      ∙ read_uint64-write_uint64 (word64 v) [] (word64-lt v) in
    rw (read, signed64-word64 v h) refl

pub as_bigint_binary :
    (c : PostgresCell) (v : ℤ)
    → FitsIn 63 v
    → Holds c (write_int64 [] v)
    → is_binary c ≡ true
    → as_bigint c ≡ ok (v, none)
unfolding as_bigint
as_bigint_binary c v k h b = rw (h.2, b, h.1, h.0, length-write_int64 v) (signed64-write_int64 v k)

as_int_binary :
    (c : PostgresCell) (v : ℤ)
    → FitsIn 63 v
    → Holds c (write_int64 [] v)
    → is_binary c ≡ true
    → as_int c ≡ ok (v, none)
unfolding as_int binary_int
as_int_binary c v k h b = rw (h.2, b, h.1, h.0, length-write_int64 v) (signed64-write_int64 v k)

hex_val-hex_digit : (d : ℕ) → d < 16 → hex_val (if ltb d 10 then d + b'0' else d + 87) ≡ d
unfolding hex_val
hex_val-hex_digit d h = ground arith

hex_bytes-to_hex : (p : Bytes) → IsBytes p → hex_bytes (to_hex p) ≡ p
unfolding hex_bytes to_hex
hex_bytes-to_hex [] h = refl
hex_bytes-to_hex (b ∷ p) h =
    rw
      (
        hex_val-hex_digit (b / 16) (omega arith),
        hex_val-hex_digit (b % 16) (omega arith),
        hex_bytes-to_hex p h.1,
      )
      (ap (λ x. x ∷ p) (omega arith))

IsNumeral-size : (s : Bytes) → IsNumeral s → 0 < length s
IsNumeral-size [] h = absurd h
IsNumeral-size (c ∷ s) h = omega arith

to_string_ℤ_size : (v : ℤ) → 0 < length (to_string_ℤ v)
unfolding to_string_ℤ
to_string_ℤ_size (pos n) = IsNumeral-size (to_string n) (to_string-IsNumeral n)
to_string_ℤ_size (negsuc n) = omega arith

-- Every int64_t comes back: as_bigint and as_int read it from the text that PostgresValue makes
-- of it, and from its eight bytes, with no error.
pub as_bigint-of_int64 :
    (v : ℤ) (c d : PostgresCell)
    → FitsIn 63 v
    → Holds c (of_int64 v).contents
    → is_binary c ≡ false
    → Holds d (write_int64 [] v)
    → is_binary d ≡ true
    → (as_bigint c ≡ ok (v, none))
      × (as_int c ≡ ok (v, none))
      × (as_bigint d ≡ ok (v, none))
      × (as_int d ≡ ok (v, none))
unfolding of_int64
as_bigint-of_int64 v c d k hc bc hd bd = (
  as_bigint_text c (to_string_ℤ v) hc bc ∙ ap ok (parse_number-to_string_ℤ v k),
  as_int_text c (to_string_ℤ v) hc (to_string_ℤ_size v) bc ∙ ap ok (parse_number-to_string_ℤ v k),
  as_bigint_binary d v k hd bd,
  as_int_binary d v k hd bd,
)

as_bytea_text :
    (c : PostgresCell) (p : Bytes)
    → Holds c p
    → 0 < length p
    → is_binary c ≡ false
    → as_bytea c ≡ ok (bytea_text p)
unfolding as_bytea
as_bytea_text c p h k b =
    let some_bytes : (c.length == 0) ≡ false = ground (arith, h.1) in
    rw (h.2, some_bytes, h.0, as_bytea, text_of-Holds c p h, b) refl

-- Bytes of any kind come back: as_bytea reads them from the text that PostgresValue makes of
-- them.
pub as_bytea-of_bytes :
    (bytes : Bytes) (c : PostgresCell)
    → IsBytes bytes
    → Holds c (of_bytes bytes).contents
    → is_binary c ≡ false
    → as_bytea c ≡ ok bytes
unfolding of_bytes to_hex_bytea
as_bytea-of_bytes bytes c h hc b =
    as_bytea_text c (to_hex_bytea bytes) hc (omega arith) b ∙ ap ok (hex_bytes-to_hex bytes h)
