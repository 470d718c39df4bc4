-- ===== src/Tests/RequestTests.antt =====
-- Inputs for src/protocol/PostgresRequest.cc.
use wf_postgres.Common.{
  ◌+◌, ◌≡◌, refl, true, [], ◌∷◌, ◌++◌, str_eq, none, some, ok, arith, codes, length, drop, pos,
  negsuc,
}
use wf_postgres.Parser.DataRow.{parse_data_row}
use wf_postgres.Parser.Rows.{cells_of}
use wf_postgres.Request.Bind.{bind_prefix, bind_payload-columns}
use wf_postgres.Request.Frames.{Reads, messages_of, sent_bytes, encode-Reads}
use wf_postgres.Request.Startup.{
  read_pairs, others, startup_pairs, startup_stream, encode_startup-Reads,
}
use wf_postgres.Request.{
  PostgresRequest, new_request, set_query_params, startup_payload, bind_payload, encode,
}
use wf_postgres.Stream.Frames.{rest_of}
use wf_postgres.Stream.{PostgresFrame, PostgresStream, next_frame, payload_bytes}
use wf_postgres.Types.{PostgresField, parameter, null_parameter}
use wf_postgres.Wire.RoundTrip.{be32}
use wf_postgres.Wire.{write_uint16, write_uint32, write_int32}
use wf_postgres.Request.{
  parse_payload, write_oids, write_formats, write_value, write_values, push_params,
}

abbrev with_params : PostgresRequest
with_params =
    set_query_params new_request (codes "SELECT $1, $2")
      (parameter (codes "7") (pos 0) (pos 23) ∷ null_parameter ∷ [])

encode-Reads_example :
    Reads
      (record { owned = true; bytes = sent_bytes (encode with_params); cursor = 0 })
      (messages_of with_params)
unfolding parse_payload bind_payload write_oids write_formats write_values write_value write_uint16
    write_uint32 write_int32
encode-Reads_example = encode-Reads with_params refl refl (omega arith)

abbrev any_field : PostgresField
any_field = record {
  name = codes "c";
  table_oid = pos 0;
  column_attr = pos 0;
  type_oid = pos 23;
  type_size = pos 4;
  type_modifier = negsuc 0;
  format = pos 0;
}

bind_payload-columns_example :
    parse_data_row
      (drop (length (bind_prefix with_params)) (bind_payload with_params))
      []
      (any_field ∷ any_field ∷ [])
    ≡ ok (pos 0, cells_of (some (codes "7") ∷ none ∷ []) (any_field ∷ any_field ∷ []))
bind_payload-columns_example =
    bind_payload-columns with_params (any_field ∷ any_field ∷ []) (omega arith) (omega arith)
      (omega arith)

abbrev startup_request : PostgresRequest
startup_request = record new_request {
  is_startup = true;
  user = codes "ada";
  startup_params = (codes "client_encoding", codes "UTF8") ∷ (codes "user", codes "eve") ∷ [];
}

encode_startup-Reads_example :
    (f : PostgresFrame) × (s : PostgresStream) × (next_frame (startup_stream startup_request) true
      ≡ ok (some (f, s)))
    × (rest_of s ≡ [])
    × (payload_bytes (startup_stream startup_request) f
        ≡ ok (be32 196610 ++ startup_payload startup_request))
    × (read_pairs (length (startup_pairs startup_request) + 1) (startup_payload startup_request)
        ≡ some (startup_pairs startup_request))
unfolding startup_payload push_params others str_eq
encode_startup-Reads_example = encode_startup-Reads startup_request (omega arith) (omega arith)
