-- ===== src/Request.antt =====
-- include/PostgresRequest.h and src/protocol/PostgresRequest.cc: what the client sends. A string
-- that `encode` hands out in `vectors[0]` is `buf`; the count of vectors is the result.
pub mod Frames
pub mod Bind
pub mod Startup
use wf_postgres.Common.{
  ℕ, ◌+◌, Bool, true, false, not, ◌&&◌, ◌||◌, List, [], ◌∷◌, ◌++◌, Bytes, ℤ, pos, negsuc, codes,
  length, u32, signed32, word16, word32, if◌then◌else◌, is_empty, str_eq,
}
use wf_postgres.Types.{PostgresParameter, StringMap}
use wf_postgres.Wire.{write_uint16, write_uint32, write_int32}

pub record PostgresRequest : Type 0 where
  pub buf : Bytes
  pub is_startup : Bool
  pub is_disconnect : Bool
  pub is_cancel : Bool
  pub is_copy : Bool
  pub copy_done : Bool
  pub copy_fail : Bool
  pub wait_notification : Bool
  pub has_params : Bool
  pub protocol_version : ℕ
  pub startup_params : StringMap
  pub result_format : ℤ
  pub cancel_pid : ℤ
  pub cancel_secret_data : Bytes
  pub skip_parse : Bool
  pub copy_data : Bytes
  pub statement_name : Bytes
  pub portal_name : Bytes
  pub query : Bytes
  pub params : List PostgresParameter
  pub user : Bytes
  pub db : Bytes
  pub pass : Bytes

-- PostgresRequest()
abbrev pub new_request : PostgresRequest
new_request = record {
  buf = [];
  is_startup = false;
  is_disconnect = false;
  is_cancel = false;
  is_copy = false;
  copy_done = false;
  copy_fail = false;
  wait_notification = false;
  has_params = false;
  protocol_version = 196610;
  startup_params = [];
  result_format = pos 0;
  cancel_pid = pos 0;
  cancel_secret_data = [];
  skip_parse = false;
  copy_data = [];
  statement_name = [];
  portal_name = [];
  query = [];
  params = [];
  user = [];
  db = [];
  pass = [];
}

abbrev pub set_query : PostgresRequest → Bytes → PostgresRequest
set_query r query = record r { query = query }

abbrev pub set_query_params : PostgresRequest → Bytes → List PostgresParameter → PostgresRequest
set_query_params r query params = record r { query = query; params = params; has_params = true }

abbrev pub set_copy_data : PostgresRequest → Bytes → Bool → PostgresRequest
set_copy_data r contents is_done = record r {
  is_copy = true;
  copy_data = contents;
  copy_done = is_done;
}

abbrev pub set_copy_fail : PostgresRequest → Bytes → PostgresRequest
set_copy_fail r error_msg = record r { is_copy = true; copy_fail = true; copy_data = error_msg }

abbrev pub set_cancel : PostgresRequest → ℤ → Bytes → PostgresRequest
set_cancel r pid secret_data = record r {
  is_cancel = true;
  cancel_pid = pid;
  cancel_secret_data = secret_data;
}

-- buf_.append(&type, 1), the length, and the payload.
abbrev pub push_frame : Bytes → ℕ → Bytes → Bytes
push_frame buf type payload = write_uint32 (buf ++ type ∷ []) (4 + length payload) ++ payload

abbrev with_buf : PostgresRequest → Bytes → ℕ × PostgresRequest
with_buf r buf = (1, record r { buf = buf })

unfoldable pub encode_terminate : PostgresRequest → ℕ × PostgresRequest
encode_terminate r = with_buf r (write_uint32 (b'X' ∷ []) 4)

unfoldable pub encode_cancel : PostgresRequest → ℕ × PostgresRequest
encode_cancel r =
    let b1 = write_uint32 [] (12 + length r.cancel_secret_data) in
    let b2 = write_uint32 b1 80877102 in
    let b3 = write_uint32 b2 (word32 r.cancel_pid) in with_buf r (b3 ++ r.cancel_secret_data)

unfoldable pub copy_buf : PostgresRequest → Bytes
copy_buf r =
    if r.copy_fail
    then push_frame [] b'f' (r.copy_data ++ 0 ∷ [])
    else let b1 = if is_empty r.copy_data then [] else push_frame [] b'd' r.copy_data in
      if r.copy_done then write_uint32 (b1 ++ b'c' ∷ []) 4 else b1

unfoldable pub encode_copy : PostgresRequest → ℕ × PostgresRequest
encode_copy r =
    if is_empty (copy_buf r) then (0, record r { buf = copy_buf r }) else with_buf r (copy_buf r)

abbrev pub push_pair : Bytes → Bytes → Bytes → Bytes
push_pair params key value = ((params ++ key) ++ 0 ∷ []) ++ (value ++ 0 ∷ [])

-- The loop over startup_params_.
unfoldable pub push_params : Bytes → StringMap → Bytes
push_params params [] = params
push_params params ((key, value) ∷ m) =
    if not (str_eq key (codes "user")) && not (str_eq key (codes "database"))
    then push_params (push_pair params key value) m
    else push_params params m

unfoldable pub startup_payload : PostgresRequest → Bytes
startup_payload r =
    let p1 = push_pair [] (codes "user") r.user in
    let p2 = if is_empty r.db then p1 else push_pair p1 (codes "database") r.db in
    push_params p2 r.startup_params ++ 0 ∷ []

unfoldable pub encode_startup : PostgresRequest → ℕ × PostgresRequest
encode_startup r =
    let params = startup_payload r in
    let b1 = write_uint32 [] (4 + 4 + length params) in
    let b2 = write_uint32 b1 r.protocol_version in with_buf r (b2 ++ params)

unfoldable pub encode_simple_query : PostgresRequest → ℕ × PostgresRequest
encode_simple_query r = with_buf r (push_frame [] b'Q' (r.query ++ 0 ∷ []))

-- The loops over params_. A format is an int that write_uint16 takes the low bits of.
unfoldable pub write_oids : Bytes → List PostgresParameter → Bytes
write_oids buf [] = buf
write_oids buf (param ∷ ps) = write_oids (write_uint32 buf (word32 param.type_oid)) ps

unfoldable pub write_formats : Bytes → List PostgresParameter → Bytes
write_formats buf [] = buf
write_formats buf (param ∷ ps) = write_formats (write_uint16 buf (word16 param.format)) ps

-- The size is cast to an int32_t.
unfoldable pub write_value : Bytes → PostgresParameter → Bytes
write_value buf param =
    if param.is_null
    then write_int32 buf (negsuc 0)
    else write_int32 buf (signed32 (u32 (length param.contents))) ++ param.contents

unfoldable pub write_values : Bytes → List PostgresParameter → Bytes
write_values buf [] = buf
write_values buf (param ∷ ps) = write_values (write_value buf param) ps

unfoldable pub parse_payload : PostgresRequest → Bytes
parse_payload r =
    let p1 = (r.statement_name ++ 0 ∷ []) ++ (r.query ++ 0 ∷ []) in
    write_oids (write_uint16 p1 (length r.params)) r.params

unfoldable pub bind_payload : PostgresRequest → Bytes
bind_payload r =
    let p1 = (r.portal_name ++ 0 ∷ []) ++ (r.statement_name ++ 0 ∷ []) in
    let p2 = write_formats (write_uint16 p1 (length r.params)) r.params in
    let p3 = write_values (write_uint16 p2 (length r.params)) r.params in
    write_uint16 (write_uint16 p3 1) (word16 r.result_format)

unfoldable pub encode_extended_query : PostgresRequest → ℕ × PostgresRequest
encode_extended_query r =
    let b1 = if not r.skip_parse then push_frame [] b'P' (parse_payload r) else [] in
    let b2 = push_frame b1 b'B' (bind_payload r) in
    let b3 = push_frame b2 b'D' (b'P' ∷ (r.portal_name ++ 0 ∷ [])) in
    let b4 = push_frame b3 b'E' (write_uint32 (r.portal_name ++ 0 ∷ []) 0) in
    with_buf r (write_uint32 (b4 ++ b'S' ∷ []) 4)

unfoldable pub encode : PostgresRequest → ℕ × PostgresRequest
encode r =
    if r.is_disconnect
    then encode_terminate r
    else if r.is_cancel
    then encode_cancel r
    else if r.is_copy
    then encode_copy r
    else if r.wait_notification
    then (0, r)
    else if r.is_startup
    then encode_startup r
    else if not r.has_params
    then encode_simple_query r
    else encode_extended_query r

-- PostgresSSLRequest::encode
unfoldable pub encode_ssl_request : Bytes
encode_ssl_request = write_uint32 (write_uint32 [] 8) 80877103
