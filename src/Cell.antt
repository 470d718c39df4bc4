-- ===== src/Cell.antt =====
-- struct PostgresCell of include/PostgresResult.h: a value of a row, seen in the response's buffer
-- or copied into storage of its own.
pub mod Access
pub mod Numbers
pub mod Texts
pub mod Floats
pub mod Times
pub mod Copies
pub mod Arrays
pub mod ArrayMessages
pub mod ArrayBounds
pub mod RoundTrip
use wf_postgres.Common.{ℕ, Bool, [], Option, Bytes}
use wf_postgres.Types.{PostgresField}

-- `contents` are the bytes that `data_` points to; `none` is nullptr.
pub record PostgresCell : Type 0 where
  pub contents : Option Bytes
  pub length : ℕ
  pub is_null : Bool
  -- What `field_` points at, a field of the cursor, as it is while its result set is the current one.
  pub field : Option PostgresField
  pub storage : Bytes

-- PostgresCell(data, length, is_null, field)
abbrev pub cell : Option Bytes → ℕ → Bool → Option PostgresField → PostgresCell
cell p n null f = record { contents = p; length = n; is_null = null; field = f; storage = [] }
