-- ===== src/Stream.antt =====
-- src/protocol/PostgresStream.h and PostgresStream.cc: frames cut out of a byte buffer.
pub mod Frames
pub mod FrameBounds
pub mod Growth
use wf_postgres.Common.{
  ℕ, ◌+◌, ◌-◌, ◌^◌, Bool, true, false, ◌&&◌, List, [], ◌∷◌, ◌++◌, Option, none, some, Run, ok,
  fault, ◌>>=◌, Bytes, u32, length, take, drop, ltb, leb, if◌then◌else◌,
}
use wf_postgres.Wire.{read_uint32}

-- `payload` is the offset in the buffer that the pointer stands for; `none` is nullptr.
pub record PostgresFrame : Type 0 where
  pub type : ℕ
  pub payload : Option ℕ
  pub payload_size : ℕ
  pub frame_size : ℕ

-- `owned` says that `buf_` is set: then `bytes` is the string that it points to. Otherwise
-- `bytes` are the `raw_size_` bytes at `raw_buf_`.
pub record PostgresStream : Type 0 where
  pub owned : Bool
  pub bytes : Bytes
  pub cursor : ℕ

-- size_t subtraction: below zero it wraps.
unfoldable pub buffered_size : PostgresStream → ℕ
buffered_size s =
    if leb s.cursor (length s.bytes)
    then length s.bytes - s.cursor
    else length s.bytes + 2 ^ 64 - s.cursor

unfoldable pub append : PostgresStream → Bytes → PostgresStream
append s more = if s.owned then record s { bytes = s.bytes ++ more } else s

-- Reading the byte that a pointer points to.
unfoldable pub load : Bytes → Run ℕ
load [] = fault
load (b ∷ _) = ok b

-- `if (is_startup) …`: a frame with no type byte.
unfoldable pub next_startup : PostgresStream → Run (Option (PostgresFrame × PostgresStream))
next_startup s = if ltb (buffered_size s) 4 then ok none else do
  len ← read_uint32 (drop s.cursor s.bytes)
  ok (
      if ltb (buffered_size s) len
      then none
      else some (
        record {
          type = 0;
          payload = some (s.cursor + 4);
          payload_size = u32 (len + 2 ^ 32 - 4);
          frame_size = len;
        },
        record s { cursor = s.cursor + len },
      ))

-- `1 + len` is a sum of 32 bits.
unfoldable pub next_message : PostgresStream → Run (Option (PostgresFrame × PostgresStream))
next_message s = if ltb (buffered_size s) 5 then ok none else do
  type ← load (drop s.cursor s.bytes)
  len ← read_uint32 (drop (s.cursor + 1) s.bytes)
  ok (
      if ltb len 4
      then some (
        record { type = type; payload = none; payload_size = 0; frame_size = 5 },
        record s { cursor = s.cursor + 5 },
      )
      else if ltb (buffered_size s) (u32 (1 + len))
      then none
      else some (
        record {
          type = type;
          payload = some (s.cursor + 5);
          payload_size = len - 4;
          frame_size = u32 (1 + len);
        },
        record s { cursor = s.cursor + u32 (1 + len) },
      ))

unfoldable pub next_frame : PostgresStream → Bool → Run (Option (PostgresFrame × PostgresStream))
next_frame s is_startup = if is_startup then next_startup s else next_message s

-- What the callee finds at `frame.payload`, `frame.payload_size` bytes long.
unfoldable pub payload_bytes : PostgresStream → PostgresFrame → Run Bytes
payload_bytes s f = elim f.payload [
  | none ↦ fault
  | some p ↦
      if leb (p + f.payload_size) (length s.bytes)
      then ok (take f.payload_size (drop p s.bytes))
      else fault
]

unfoldable pub compact : PostgresStream → PostgresStream
compact s = if ltb 0 s.cursor then record s { bytes = drop s.cursor s.bytes; cursor = 0 } else s

unfoldable pub truncate_unconsumed : PostgresStream → PostgresStream
truncate_unconsumed s =
    if s.owned && ltb s.cursor (length s.bytes)
    then record s { bytes = take s.cursor s.bytes }
    else s

unfoldable pub clear : PostgresStream → PostgresStream
clear s = record s { bytes = []; cursor = 0 }
