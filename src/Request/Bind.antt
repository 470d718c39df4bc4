-- ===== src/Request/Bind.antt =====
-- The parameters of PostgresRequest::encode_extended_query in the layout of the Bind message.
use wf_postgres.Common.{
  ℕ, ◌/◌, ◌%◌, ◌<◌, ◌≤◌, ◌^◌, ◌≡◌, refl, sym, ap, ◌∙◌, List, [], ◌∷◌, ◌++◌, map, Option, none, some,
  ok, inl, inr, Bytes, ℤ, pos, negsuc, u32, word16, word32, signed32, length, drop, All,
  drop-length-append, append-nil, suc, append_assoc, Bool-cases, if◌then◌else◌, arith,
}
use wf_postgres.Parser.DataRow.{parse_data_row}
use wf_postgres.Parser.Rows.{
  value_payload, values_payload, FitsValue, cells_of, data_row_payload, parse_data_row-payload,
}
use wf_postgres.Request.{PostgresRequest, write_formats, write_value, write_values, bind_payload}
use wf_postgres.Types.{PostgresParameter, PostgresField}
use wf_postgres.Wire.RoundTrip.{be16, be32, write_uint16-be16, write_uint32-be32}
use wf_postgres.Wire.{write_uint16, write_int32}

-- A parameter's value, where NULL has none.
abbrev pub value_of : PostgresParameter → Option Bytes
value_of param = if param.is_null then none else some param.contents

abbrev pub formats_payload : List PostgresParameter → Bytes
formats_payload [] = []
formats_payload (param ∷ ps) = be16 (word16 param.format) ++ formats_payload ps

-- What stands before the values: the names, the count and the formats.
abbrev pub bind_prefix : PostgresRequest → Bytes
bind_prefix r =
    (r.portal_name ++ 0 ∷ [])
    ++ ((r.statement_name ++ 0 ∷ []) ++ (be16 (length r.params) ++ formats_payload r.params))

-- The format code for all columns of the result.
abbrev pub bind_suffix : PostgresRequest → Bytes
bind_suffix r = be16 1 ++ be16 (word16 r.result_format)

write_formats-payload :
    (buf : Bytes) (ps : List PostgresParameter) → write_formats buf ps ≡ buf ++ formats_payload ps
unfolding write_formats
write_formats-payload buf [] = sym (append-nil buf)
write_formats-payload buf (param ∷ ps) =
    write_formats-payload (write_uint16 buf (word16 param.format)) ps
    ∙ ap (λ b. b ++ formats_payload ps) (write_uint16-be16 buf (word16 param.format))
    ∙ append_assoc buf (be16 (word16 param.format)) (formats_payload ps)

-- The cast of a size to an int32_t and back changes no bit.
be32-size : (n : ℕ) → be32 (word32 (signed32 (u32 n))) ≡ be32 n
be32-size n =
    let e : u32 (word32 (signed32 (u32 n))) ≡ u32 n = ground arith in
    ap (λ (w : ℕ). w / 2 ^ 24 ∷ w / 2 ^ 16 % 256 ∷ w / 256 % 256 ∷ w % 256 ∷ []) e

write_int32-be32 : (buf : Bytes) (v : ℤ) → write_int32 buf v ≡ buf ++ be32 (word32 v)
unfolding write_int32
write_int32-be32 buf v = write_uint32-be32 buf (word32 v)

write_value-payload :
    (buf rest : Bytes) (param : PostgresParameter)
    → write_value buf param ++ rest ≡ buf ++ value_payload (value_of param) rest
unfolding write_value
write_value-payload buf rest param = elim (Bool-cases param.is_null) [
  | inl e ↦
      rw (e, write_int32-be32 buf (negsuc 0)) (append_assoc buf (be32 (word32 (negsuc 0))) rest)
  | inr e ↦
      rw
        (
          e,
          write_int32-be32 buf (signed32 (u32 (length param.contents))),
          be32-size (length param.contents),
        )
        (append_assoc (buf ++ be32 (length param.contents)) param.contents rest
          ∙ append_assoc buf (be32 (length param.contents)) (param.contents ++ rest))
]

write_values-payload :
    (buf rest : Bytes) (ps : List PostgresParameter)
    → write_values buf ps ++ rest ≡ buf ++ values_payload (map value_of ps) rest
unfolding write_values
write_values-payload buf rest [] = refl
write_values-payload buf rest (param ∷ ps) =
    write_values-payload (write_value buf param) rest ps
    ∙ write_value-payload buf (values_payload (map value_of ps) rest) param

length-map_values : (ps : List PostgresParameter) → length (map value_of ps) ≡ length ps
length-map_values [] = refl
length-map_values (param ∷ ps) = ap suc (length-map_values ps)

-- The layout of a Bind message: the names, the formats, and then the values as a row lays them out.
bind_payload-layout :
    (r : PostgresRequest)
    → bind_payload r ≡ bind_prefix r ++ data_row_payload (map value_of r.params) (bind_suffix r)
unfolding bind_payload
bind_payload-layout r =
    let p1 = (r.portal_name ++ 0 ∷ []) ++ (r.statement_name ++ 0 ∷ []) in
    let n = length r.params in
    let p2 = write_formats (write_uint16 p1 n) r.params in
    let p3 = write_values (write_uint16 p2 n) r.params in
    let values = values_payload (map value_of r.params) (bind_suffix r) in
    let formats : p2 ≡ bind_prefix r =
      write_formats-payload (write_uint16 p1 n) r.params
      ∙ ap (λ b. b ++ formats_payload r.params) (write_uint16-be16 p1 n)
      ∙ append_assoc p1 (be16 n) (formats_payload r.params)
      ∙ append_assoc (r.portal_name ++ 0 ∷ []) (r.statement_name ++ 0 ∷ [])
          (be16 n ++ formats_payload r.params) in
    write_uint16-be16 (write_uint16 p3 1) (word16 r.result_format)
    ∙ ap (λ b. b ++ be16 (word16 r.result_format)) (write_uint16-be16 p3 1)
    ∙ append_assoc p3 (be16 1) (be16 (word16 r.result_format))
    ∙ write_values-payload (write_uint16 p2 n) (bind_suffix r) r.params
    ∙ ap (λ b. b ++ values) (write_uint16-be16 p2 n)
    ∙ append_assoc p2 (be16 n) values
    ∙ ap (λ b. b ++ (be16 n ++ values)) formats
    ∙ ap (λ m. bind_prefix r ++ (be16 m ++ values)) (sym (length-map_values r.params))

-- The parameters of a Bind message are written as a DataRow's columns are: behind the names and
-- the format codes, parse_data_row finds each value again, NULL included, if there are less than
-- 2 ^ 15 parameters, none of 2 ^ 31 bytes or more, and a field for each.
pub bind_payload-columns :
    (r : PostgresRequest) (fs : List PostgresField)
    → length r.params ≤ length fs
    → length r.params < 2 ^ 15
    → All FitsValue (map value_of r.params)
    → parse_data_row (drop (length (bind_prefix r)) (bind_payload r)) [] fs
      ≡ ok (pos 0, cells_of (map value_of r.params) fs)
bind_payload-columns r fs n small h =
    rw (bind_payload-layout r, drop-length-append)
      (parse_data_row-payload (map value_of r.params) fs (bind_suffix r)
        (omega (arith, length-map_values r.params)) (omega (arith, length-map_values r.params)) h)
