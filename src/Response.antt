-- ===== src/Response.antt =====
-- include/PostgresResponse.h: the state of a response, its setters and clear_buffer. `sent` and
-- `entropy` stand for what is outside: the messages given to ProtocolMessage::feedback, and the
-- outcomes of the calls of RAND_bytes to come, where none left is a failure.
pub mod Append
pub mod Rounds
pub mod Loop
pub mod Chunks
pub mod Copy
pub mod Growth
pub mod Messages
pub mod Invariant
use wf_postgres.Common.{
  ℕ, Bool, true, false, ◌&&◌, List, [], ◌∷◌, ◌++◌, Option, none, some, Bytes, ℤ, pos, codes, ltb,
}
use wf_postgres.Parser.{BackendKey, Negotiation}
use wf_postgres.Scram.{ScramAuth}
use wf_postgres.Types.{PostgresError, PostgresNotification, StringMap, no_error}

-- PostgresAuth: `none` is the null pointer that its constructor leaves.
pub record PostgresAuth : Type 0 where
  pub scram_auth : Option ScramAuth

pub record PostgresResponse : Type 0 where
  pub buf : Bytes
  pub cursor : ℕ
  pub user : Bytes
  pub pass : Bytes
  pub auth : Option PostgresAuth
  pub is_error : Bool
  pub is_startup : Bool
  pub is_copy_in : Bool
  pub is_copy_out : Bool
  pub error : PostgresError
  pub backend_key : BackendKey
  pub transaction_state : ℕ
  pub ready_for_query : Bool
  pub parameters : StringMap
  pub notifications : List PostgresNotification
  pub notices : List PostgresError
  pub notify_mode : Bool
  pub negotiated : Negotiation
  pub internal_error : ℕ
  pub sent : List Bytes
  pub entropy : List (Option Bytes)

-- PostgresResponse(), before anything is sent.
abbrev pub new_response : List (Option Bytes) → PostgresResponse
new_response entropy = record {
  buf = [];
  cursor = 0;
  user = [];
  pass = [];
  auth = none;
  is_error = false;
  is_startup = false;
  is_copy_in = false;
  is_copy_out = false;
  error = no_error;
  backend_key = record { pid = pos 0; secret_key = pos 0; secret_data = [] };
  transaction_state = b'I';
  ready_for_query = false;
  parameters = [];
  notifications = [];
  notices = [];
  notify_mode = false;
  negotiated = record { version = 0; unsupported_options = [] };
  internal_error = 0;
  sent = [];
  entropy = entropy;
}

unfoldable pub set_auth : PostgresResponse → Bytes → Bytes → PostgresResponse
set_auth r user pass = record r {
  user = user;
  pass = pass;
  auth = elim r.auth [ none ↦ some (record { scram_auth = none }) | some a ↦ some a ];
}

unfoldable pub set_error_fatal : PostgresResponse → Bytes → PostgresResponse
set_error_fatal r message = record r {
  is_error = true;
  error = record r.error { severity = codes "FATAL"; message = message };
}

unfoldable pub set_internal_error : PostgresResponse → ℕ → PostgresResponse
set_internal_error r e = record r { internal_error = e }

unfoldable pub feedback : PostgresResponse → Bytes → PostgresResponse
feedback r message = record r { sent = r.sent ++ message ∷ [] }

unfoldable pub clear_buffer : PostgresResponse → PostgresResponse
clear_buffer r = record r {
  buf = [];
  cursor = 0;
  is_error = false;
  is_copy_in = false;
  is_copy_out = false;
  ready_for_query = false;
  error = no_error;
  negotiated = record { version = 0; unsupported_options = [] };
  internal_error = 0;
  notices = [];
  notifications = [];
  parameters = [];
}

unfoldable pub is_startup_error : PostgresResponse → Bool
is_startup_error r = r.is_error && ltb 0 r.cursor
