-- ===== src/Types.antt =====
-- include/PostgresTypes.h: the values that the parser, the request and the result share. Strings
-- are lists of bytes, and a std::map is its list of pairs in the order of the keys.
mod Maps
unfoldable pub use Maps.*
use wf_postgres.Common.{ℕ, Bool, true, false, [], Option, none, Bytes, ℤ, pos}

pub record PostgresError : Type 0 where
  pub severity : Bytes
  pub sql_state : Bytes
  pub message : Bytes
  pub detail : Bytes
  pub hint : Bytes
  pub position : Bytes

-- PostgresError()
abbrev pub no_error : PostgresError
no_error = record {
  severity = [];
  sql_state = [];
  message = [];
  detail = [];
  hint = [];
  position = [];
}

pub record PostgresNotification : Type 0 where
  pub backend_pid : ℕ
  pub channel : Bytes
  pub payload : Bytes

pub record PostgresField : Type 0 where
  pub name : Bytes
  pub table_oid : ℤ
  pub column_attr : ℤ
  pub type_oid : ℤ
  pub type_size : ℤ
  pub type_modifier : ℤ
  pub format : ℤ

pub record PostgresParameter : Type 0 where
  pub is_null : Bool
  pub format : ℤ
  pub type_oid : ℤ
  pub contents : Bytes

-- PostgresParameter() and PostgresParameter(val, fmt, oid)
abbrev pub null_parameter : PostgresParameter
null_parameter = record { is_null = true; format = pos 0; type_oid = pos 0; contents = [] }

abbrev pub parameter : Bytes → ℤ → ℤ → PostgresParameter
parameter val fmt oid = record { is_null = false; format = fmt; type_oid = oid; contents = val }
