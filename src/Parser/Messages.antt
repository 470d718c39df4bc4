-- ===== src/Parser/Messages.antt =====
-- The payloads that a server sends, as the protocol's documentation lays them out, and what
-- src/protocol/PostgresParser.cc makes of them.
use wf_postgres.Common.{
  ℕ, zero, suc, ◌<◌, ◌≤◌, ◌^◌, ◌≡◌, refl, ap, ◌∙◌, List, [], ◌∷◌, ◌++◌, ok, Bytes, NoNul, pos,
  word16, word32, length, All, append-nil, append_assoc, length-append, le→not-ltb, ne→not-==,
  arith, ◌==◌, ◌||◌, ◌&&◌, is_empty, if◌then◌else◌,
}
use wf_postgres.Parser.{
  error_fields, set_error_field, parse_error_response, read_field, read_fields,
  parse_row_description,
}
use wf_postgres.Types.{PostgresError, PostgresField}
use wf_postgres.Wire.RoundTrip.{be16, be32, FitsIn, signed16-be16, signed32-be32, read_int16-be16}
use wf_postgres.Wire.Strings.{read_cstring-append}
use wf_postgres.Wire.{read_uint16, read_uint32}

-- ErrorResponse and NoticeResponse: for each field its code and its text, then a zero byte.
abbrev pub error_payload : List (ℕ × Bytes) → Bytes → Bytes
error_payload [] rest = 0 ∷ rest
error_payload ((code, value) ∷ fs) rest = code ∷ (value ++ 0 ∷ error_payload fs rest)

abbrev pub IsErrorFields : List (ℕ × Bytes) → Type 0
IsErrorFields = All (λ f. (0 < f.0) × NoNul f.1)

-- The last text with a code, or what was there.
abbrev pub last_text : ℕ → List (ℕ × Bytes) → Bytes → Bytes
last_text code [] old = old
last_text code ((c, value) ∷ fs) old = last_text code fs (if c == code then value else old)

-- The severity: each `S` sets it, and a `V` does where there is none yet.
abbrev pub last_severity : List (ℕ × Bytes) → Bytes → Bytes
last_severity [] old = old
last_severity ((c, value) ∷ fs) old =
    last_severity fs (if c == b'S' || (c == b'V' && is_empty old) then value else old)

-- The error that the protocol's codes describe; other codes say nothing.
abbrev pub described : List (ℕ × Bytes) → PostgresError → PostgresError
described fs err = record {
  severity = last_severity fs err.severity;
  sql_state = last_text b'C' fs err.sql_state;
  message = last_text b'M' fs err.message;
  detail = last_text b'D' fs err.detail;
  hint = last_text b'H' fs err.hint;
  position = last_text b'P' fs err.position;
}

no_length : (s : Bytes) → (length s == 0) ≡ is_empty s
no_length [] = refl
no_length (b ∷ s) = ground arith

set_error_field-described :
    (code : ℕ) (value : Bytes) (err : PostgresError)
    → set_error_field code value err ≡ described ((code, value) ∷ []) err
unfolding set_error_field
set_error_field-described code value err = rw (no_length err.severity) (ground arith)

error_fields-payload :
    (rounds : ℕ) (fs : List (ℕ × Bytes)) (rest : Bytes) (err : PostgresError)
    → IsErrorFields fs
    → length (error_payload fs rest) ≤ rounds
    → error_fields rounds (error_payload fs rest) err ≡ ok (described fs err)
unfolding error_fields
error_fields-payload zero [] rest err h n = absurd (omega arith)
error_fields-payload (suc rounds) [] rest err h n = refl
error_fields-payload zero ((code, value) ∷ fs) rest err h n = absurd (omega arith)
error_fields-payload (suc rounds) ((code, value) ∷ fs) rest err h n =
    rw
      (
        ne→not-== code 0 (omega arith),
        read_cstring-append value (error_payload fs rest) h.0.1,
        error_fields,
      )
      (error_fields-payload rounds fs rest (set_error_field code value err) h.1
          (omega (arith, length-append value (0 ∷ error_payload fs rest)))
        ∙ ap (λ e. ok (described fs e)) (set_error_field-described code value err))

-- An error whose fields have codes that are not zero and texts without a zero byte, read over an
-- older error: the severity is set by each field S, and by a V where it is empty at that point;
-- the SQLSTATE, message, detail, hint and position are the last text of the codes C, M, D, H and
-- P, or what they were before where there is none; other codes change nothing, and neither do
-- the bytes behind the payload.
pub parse_error_response-payload :
    (fs : List (ℕ × Bytes)) (rest : Bytes) (err : PostgresError)
    → IsErrorFields fs
    → parse_error_response (error_payload fs rest) err ≡ ok (described fs err)
unfolding parse_error_response
parse_error_response-payload fs rest err h = error_fields-payload _ fs rest err h (omega arith)

-- RowDescription: the count of fields, and for each its name and six numbers.
abbrev pub numbers_payload : PostgresField → Bytes → Bytes
numbers_payload f rest =
    be32 (word32 f.table_oid)
    ++ (be16 (word16 f.column_attr)
        ++ (be32 (word32 f.type_oid)
            ++ (be16 (word16 f.type_size)
                ++ (be32 (word32 f.type_modifier) ++ (be16 (word16 f.format) ++ rest)))))

abbrev pub fields_payload : List PostgresField → Bytes → Bytes
fields_payload [] rest = rest
fields_payload (f ∷ fs) rest = f.name ++ 0 ∷ numbers_payload f (fields_payload fs rest)

abbrev pub IsField : PostgresField → Type 0
IsField f =
    NoNul f.name
    × FitsIn 31 f.table_oid
    × FitsIn 15 f.column_attr
    × FitsIn 31 f.type_oid
    × FitsIn 15 f.type_size
    × FitsIn 31 f.type_modifier
    × FitsIn 15 f.format

read_field-payload :
    (f : PostgresField) (rest : Bytes)
    → IsField f
    → read_field f.name (numbers_payload f rest) ≡ ok f
unfolding read_field read_uint16 read_uint32
read_field-payload f rest h = ap ok λ i. record {
  name = f.name;
  table_oid = signed32-be32 f.table_oid h.1 i;
  column_attr = signed16-be16 f.column_attr h.2 i;
  type_oid = signed32-be32 f.type_oid h.3 i;
  type_size = signed16-be16 f.type_size h.4 i;
  type_modifier = signed32-be32 f.type_modifier h.5 i;
  format = signed16-be16 f.format h.6 i;
}

read_fields-payload :
    (fs : List PostgresField) (rest : Bytes) (before : List PostgresField)
    → All IsField fs
    → read_fields (length fs) (fields_payload fs rest) before ≡ ok (pos 0, before ++ fs)
unfolding read_fields
read_fields-payload [] rest before h = rw append-nil
read_fields-payload (f ∷ fs) rest before h =
    rw
      (
        read_cstring-append f.name (numbers_payload f (fields_payload fs rest)) h.0.0,
        read_fields,
        le→not-ltb (length (numbers_payload f (fields_payload fs rest))) 18 (omega arith),
        read_field-payload f (fields_payload fs rest) h.0,
      )
      (read_fields-payload fs rest (before ++ f ∷ []) h.1
        ∙ ap (λ x. ok (pos 0, x)) (append_assoc before (f ∷ []) fs))

abbrev pub row_description_payload : List PostgresField → Bytes → Bytes
row_description_payload fs rest = be16 (length fs) ++ fields_payload fs rest

-- A RowDescription of fewer than 2 ^ 15 fields, whose names hold no zero byte and whose numbers
-- fit their widths, is read back field by field, whatever bytes stand behind it.
pub parse_row_description-payload :
    (fs : List PostgresField) (rest : Bytes) (old : List PostgresField)
    → length fs < 2 ^ 15
    → All IsField fs
    → parse_row_description (row_description_payload fs rest) old ≡ ok (pos 0, fs)
unfolding parse_row_description
parse_row_description-payload fs rest old small h =
    rw
      (
        le→not-ltb (length (row_description_payload fs rest)) 2 (omega arith),
        read_int16-be16 (length fs) (fields_payload fs rest) small,
      )
      (read_fields-payload fs rest [] h)
