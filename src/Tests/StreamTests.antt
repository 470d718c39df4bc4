-- ===== src/Tests/StreamTests.antt =====
-- Inputs for src/protocol/PostgresStream.cc.
use wf_postgres.Common.{◌≡◌, ◌++◌, refl, true, false, [], ◌∷◌, ok, fault, some, arith, Returns}
use wf_postgres.Stream.FrameBounds.{ends, frame, Outcome, next_frame-Outcome}
use wf_postgres.Stream.Frames.{message, frame_of, skip}
use wf_postgres.Stream.Growth.{next_frame_wrapping}
use wf_postgres.Stream.{
  PostgresFrame, PostgresStream, next_frame, next_message, payload_bytes, load, buffered_size,
}
use wf_postgres.Wire.{read_uint32}

-- An empty query response behind three bytes that are consumed, and the start of another frame.
abbrev partly_read : PostgresStream
partly_read = record {
  owned = true;
  bytes = 1 ∷ 2 ∷ 3 ∷ (message b'Z' (b'I' ∷ []) ++ 9 ∷ 9 ∷ []);
  cursor = 3;
}

partly_read_test :
    next_frame partly_read false
    ≡ ok (some (frame_of partly_read b'Z' (b'I' ∷ []), skip partly_read 6))
unfolding next_frame next_message load buffered_size read_uint32
partly_read_test = refl

next_frame-Outcome_example : Returns (next_frame partly_read false) (Outcome partly_read)
next_frame-Outcome_example =
    next_frame-Outcome partly_read (omega arith)
      (frame b'Z' 0 0 0 5 (b'I' ∷ 9 ∷ 9 ∷ []) refl (omega arith) (ends (omega arith)))

abbrev wrapped : PostgresStream
wrapped = record { owned = true; bytes = b'D' ∷ 255 ∷ 255 ∷ 255 ∷ 255 ∷ 0 ∷ []; cursor = 0 }

next_frame_wrapping_example :
    (f : PostgresFrame) × (next_frame wrapped false ≡ ok (some (f, wrapped)))
    × (f.frame_size ≡ 0)
    × (payload_bytes wrapped f ≡ fault)
next_frame_wrapping_example =
    next_frame_wrapping wrapped b'D' (0 ∷ []) (omega arith) (omega arith) refl
