-- ===== src/Tests/ParserTests.antt =====
-- Inputs for src/protocol/PostgresParser.cc.
use wf_postgres.Common.{
  ◌≡◌, refl, List, [], ◌∷◌, ok, some, none, Option, arith, Bytes, Returns, codes, pos, negsuc,
}
use wf_postgres.Parser.DataRow.{parse_data_row}
use wf_postgres.Parser.Messages.{
  error_payload, parse_error_response-payload, row_description_payload,
}
use wf_postgres.Parser.RowBounds.{RowOf, parse_data_row-RowOf}
use wf_postgres.Parser.Rows.{data_row_payload}
use wf_postgres.Parser.Safety.{AllOrNone, parse_row_description-AllOrNone, parsers-Returns}
use wf_postgres.Parser.{
  parse_error_response, parse_backend_key_data, parse_notification, parse_negotiation_response,
  parse_row_description, parse_ready_for_query, BackendKey, Negotiation,
}
use wf_postgres.Types.{PostgresField, no_error}
use wf_postgres.Wire.Bounds.{Any}
use wf_postgres.Wire.{read_int16, read_uint16}

abbrev id_field : PostgresField
id_field = record {
  name = codes "id";
  table_oid = pos 16384;
  column_attr = pos 1;
  type_oid = pos 23;
  type_size = pos 4;
  type_modifier = negsuc 0;
  format = pos 0;
}

abbrev no_key : BackendKey
no_key = record { pid = pos 0; secret_key = pos 0; secret_data = [] }

abbrev no_negotiation : Negotiation
no_negotiation = record { version = 0; unsupported_options = [] }

parsers-Returns_example :
    Returns (parse_error_response (b'M' ∷ b'x' ∷ []) no_error) Any
    × Returns (parse_backend_key_data (b'M' ∷ b'x' ∷ []) no_key) Any
    × Returns (parse_notification (b'M' ∷ b'x' ∷ []) []) Any
    × Returns (parse_negotiation_response (b'M' ∷ b'x' ∷ []) no_negotiation) Any
    × Returns (parse_row_description (b'M' ∷ b'x' ∷ []) []) Any
    × Returns (parse_ready_for_query (b'M' ∷ b'x' ∷ []) b'I') Any
parsers-Returns_example =
    parsers-Returns (b'M' ∷ b'x' ∷ []) no_error no_key [] no_negotiation [] b'I'

parse_error_response-payload_example :
    parse_error_response
      (error_payload
        ((b'S', codes "FEHLER")
          ∷ (b'V', codes "ERROR")
          ∷ (b'C', codes "42P01")
          ∷ (b'M', codes "m")
          ∷ (b'D', codes "d")
          ∷ (b'H', codes "h")
          ∷ (b'P', codes "15")
          ∷ (b'F', codes "f.c")
          ∷ [])
        [])
      no_error
    ≡ ok (record {
      severity = codes "FEHLER";
      sql_state = codes "42P01";
      message = codes "m";
      detail = codes "d";
      hint = codes "h";
      position = codes "15";
    })
parse_error_response-payload_example =
    parse_error_response-payload
      ((b'S', codes "FEHLER")
        ∷ (b'V', codes "ERROR")
        ∷ (b'C', codes "42P01")
        ∷ (b'M', codes "m")
        ∷ (b'D', codes "d")
        ∷ (b'H', codes "h")
        ∷ (b'P', codes "15")
        ∷ (b'F', codes "f.c")
        ∷ [])
      [] no_error (omega arith)

abbrev two_values : List (Option Bytes)
two_values = some (codes "7") ∷ none ∷ []

parse_data_row-RowOf_example :
    Returns
      (parse_data_row (data_row_payload two_values []) [] (id_field ∷ []))
      (RowOf (data_row_payload two_values []) (id_field ∷ []))
parse_data_row-RowOf_example = parse_data_row-RowOf (data_row_payload two_values []) (id_field ∷ [])

one_field_count : read_int16 (row_description_payload (id_field ∷ []) []) ≡ ok (pos 1)
unfolding read_int16 read_uint16
one_field_count = refl

parse_row_description-AllOrNone_example :
    Returns (parse_row_description (row_description_payload (id_field ∷ []) []) []) (AllOrNone 1)
parse_row_description-AllOrNone_example =
    parse_row_description-AllOrNone (row_description_payload (id_field ∷ []) []) [] (pos 1)
      (omega arith) one_field_count
