-- ===== src/Response/Copy/Messages.antt =====
-- The rows of a COPY, read from the messages of src/protocol/PostgresResponse.cc's buffer.
use wf_postgres.Common.{
  ℕ, zero, suc, ◌+◌, ◌<◌, ◌≤◌, ◌≡◌, ◌∙◌, refl, ap, Bool, true, false, ◌||◌, ◌==◌, if◌then◌else◌,
  List, [], ◌∷◌, ◌++◌, none, ok, Bytes, length, length-append, append-nil, append_assoc, arith, inl,
  inr, Bool-cases,
}
use wf_postgres.Parser.{event_type}
use wf_postgres.Request.Frames.{Message, on_wire, FitsAll}
use wf_postgres.Response.Copy.{
  copy_stream, pushes, stops, passes_over, copy_step, after_step, copy_loop, get_copy_data,
  ends_copy, done_loop, is_copy_done,
}
use wf_postgres.Response.{PostgresResponse}
use wf_postgres.Stream.Frames.{IsValid, rest_of, skip, next_frame_short, next_frame-message}
use wf_postgres.Stream.{PostgresStream, next_frame}

-- The rows of a COPY, by the type bytes of the protocol: CopyData has `d`, and CopyDone (`c`),
-- CommandComplete (`C`) and ReadyForQuery (`Z`) end them.
abbrev pub ends_rows : ℕ → Bool
ends_rows t = t == b'c' || t == b'C' || t == b'Z'

abbrev pub copies_of : List Message → List Bytes
copies_of [] = []
copies_of ((t, p) ∷ ms) =
    let later = copies_of ms in if ends_rows t then [] else if t == b'd' then p ∷ later else later

-- CopyDone or ReadyForQuery is there.
abbrev pub copy_done_in : List Message → Bool
copy_done_in [] = false
copy_done_in ((t, _) ∷ ms) = (t == b'c' || t == b'Z') || copy_done_in ms

-- The events of those bytes.
copy_step-type :
    (t : ℕ)
    → copy_step (event_type t)
      ≡ (if ends_rows t then stops else if t == b'd' then pushes else passes_over)
unfolding copy_step event_type
copy_step-type t = ground arith

ends_copy-type : (t : ℕ) → ends_copy (event_type t) ≡ (t == b'c' || t == b'Z')
unfolding ends_copy event_type
ends_copy-type t = ground arith

messages_size : (ms : List Message) → length ms ≤ length (on_wire ms)
messages_size [] = omega arith
messages_size ((t, p) ∷ ms) = omega (arith, length-append p (on_wire ms), messages_size ms)

no_frame : (s : PostgresStream) → IsValid s → rest_of s ≡ [] → next_frame s false ≡ ok none
no_frame s v e = next_frame_short s v (omega (arith, ap length e))

copy_loop-copies_of :
    (n : ℕ) (s : PostgresStream) (ms : List Message) (row : List Bytes)
    → length ms < n
    → IsValid s
    → FitsAll ms
    → rest_of s ≡ on_wire ms
    → copy_loop n s row ≡ ok (row ++ copies_of ms)
unfolding copy_loop after_step
copy_loop-copies_of zero s ms row h v f e = absurd (omega arith)
copy_loop-copies_of (suc n) s [] row h v f e = rw (no_frame s v e, append-nil) refl
copy_loop-copies_of (suc n) s ((t, p) ∷ ms) row h v f e =
    let (next, payload, rest, valid) = next_frame-message s t p (on_wire ms) v f.0 e in
    let later = skip s (5 + length p) in
    elim (Bool-cases (ends_rows t)) [
      | inl k ↦ rw (next, copy_step-type t, k, after_step, append-nil) refl
      | inr k ↦ elim (Bool-cases (t == b'd')) [
        | inl d ↦
            rw (next, copy_step-type t, k, d, after_step, payload)
              (copy_loop-copies_of n later ms (row ++ p ∷ []) (omega arith) valid f.1 rest
                ∙ ap ok (append_assoc row (p ∷ []) (copies_of ms)))
        | inr d ↦
            rw (next, copy_step-type t, k, d, after_step)
              (copy_loop-copies_of n later ms row (omega arith) valid f.1 rest)
      ]
    ]

done_loop-copy_done_in :
    (n : ℕ) (s : PostgresStream) (ms : List Message)
    → length ms < n
    → IsValid s
    → FitsAll ms
    → rest_of s ≡ on_wire ms
    → done_loop n s ≡ ok (copy_done_in ms)
unfolding done_loop
done_loop-copy_done_in zero s ms h v f e = absurd (omega arith)
done_loop-copy_done_in (suc n) s [] h v f e = rw (no_frame s v e) refl
done_loop-copy_done_in (suc n) s ((t, p) ∷ ms) h v f e =
    let (next, _, rest, valid) = next_frame-message s t p (on_wire ms) v f.0 e in
    elim (Bool-cases (t == b'c' || t == b'Z')) [
      | inl k ↦ rw (next, ends_copy-type t, k) refl
      | inr k ↦
          rw (next, ends_copy-type t, k)
            (done_loop-copy_done_in n (skip s (5 + length p)) ms (omega arith) valid f.1 rest)
    ]

-- On a COPY answer whose buffer is whole messages that fit in a length field, get_copy_data
-- gives the payloads of the CopyData messages in order, up to the first CopyDone,
-- CommandComplete or ReadyForQuery, and is_copy_done says whether a CopyDone or a ReadyForQuery
-- is among the messages.
pub copies-messages :
    (r : PostgresResponse) (ms : List Message)
    → r.is_copy_out ≡ true
    → FitsAll ms
    → r.buf ≡ on_wire ms
    → (get_copy_data r ≡ ok (copies_of ms)) × (is_copy_done r ≡ ok (copy_done_in ms))
unfolding get_copy_data is_copy_done
copies-messages r ms out f e =
    let size : length ms < length r.buf + 1 = omega (arith, messages_size ms, ap length e) in
    (
      rw out (copy_loop-copies_of (length r.buf + 1) (copy_stream r) ms [] size (omega arith) f e),
      rw out (done_loop-copy_done_in (length r.buf + 1) (copy_stream r) ms size (omega arith) f e),
    )
