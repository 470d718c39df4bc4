-- ===== src/Cursor/Rows.antt =====
-- The rows that src/protocol/PostgresResult.cc finds in a result set of whole messages.
use wf_postgres.Cell.{PostgresCell}
use wf_postgres.Common.{
  ℕ, zero, suc, ◌+◌, ◌<◌, ◌≤◌, ◌^◌, ◌≡◌, refl, ap, ◌∙◌, subst, ◌||◌, if◌then◌else◌, Bool, true,
  false, List, [], ◌∷◌, ◌++◌, map, Option, none, some, ok, Bytes, NoNul, All, length, leb,
  length-append, length-drop, take-length-append, append-nil, append_assoc, arith,
}
use wf_postgres.Cursor.{
  PostgresResultCursor, stream_at, move_to, end_set, rounds_for, returns, Fetched, fetch_event,
  fetch_frame, fetch_loop, fetch_row, fetch_all_loop, fetch_all,
}
use wf_postgres.Parser.Rows.{data_row_payload, cells_of, FitsValue, parse_data_row-payload}
use wf_postgres.Parser.{event_type, parse_command_complete}
use wf_postgres.Request.Frames.{Message, on_wire}
use wf_postgres.Stream.Frames.{rest_of, message, FitsFrame, frame_of, skip, next_frame-message}
use wf_postgres.Stream.{PostgresFrame, PostgresStream, next_frame, payload_bytes}
use wf_postgres.Types.{PostgresField}
use wf_postgres.Wire.Strings.{memchr-append}

-- A row that the fields describe.
abbrev pub IsRow : List PostgresField → List (Option Bytes) → Type 0
IsRow fields vs =
    (length vs ≤ length fields)
    × (length vs < 2 ^ 15)
    × All FitsValue vs
    × FitsFrame (data_row_payload vs [])

abbrev pub rows_messages : List (List (Option Bytes)) → List Message → List Message
rows_messages [] ms = ms
rows_messages (vs ∷ rows) ms = (b'D', data_row_payload vs []) ∷ rows_messages rows ms

fetch_row-loop :
    (c : PostgresResultCursor)
    → c.current_result_set_done ≡ false
    → c.cursor < length c.bytes
    → fetch_row c ≡ fetch_loop (rounds_for c) (stream_at c) c
unfolding fetch_row
fetch_row-loop c d inside =
    let here : (c.current_result_set_done || leb (length c.bytes) c.cursor) ≡ false =
      ground (arith, d, inside) in
    ap (λ (b : Bool). if b then ok (none, c) else fetch_loop (rounds_for c) (stream_at c) c) here

fetch_loop-step :
    (n : ℕ) (c : PostgresResultCursor) (s : PostgresStream) (f : PostgresFrame)
    (s' : PostgresStream) {row : Fetched} {c' : PostgresResultCursor}
    → next_frame s false ≡ ok (some (f, s'))
    → fetch_frame s f s' c ≡ ok (returns row c')
    → fetch_loop (suc n) s c ≡ ok (row, c')
unfolding fetch_loop
fetch_loop-step n c s f s' e h = rw (e, h) refl

fetch_frame-payload :
    (s : PostgresStream) (t : ℕ) (p : Bytes) (s' : PostgresStream) (c : PostgresResultCursor)
    → payload_bytes s (frame_of s t p) ≡ ok p
    → fetch_frame s (frame_of s t p) s' c ≡ fetch_event (event_type t) (ok p) s' c
unfolding fetch_frame
fetch_frame-payload s t p s' c e = rw e refl

-- The frame at the cursor of a set that is not done, and what a round does with it.
fetch_row-step :
    (c : PostgresResultCursor) (t : ℕ) (p rest : Bytes) {row : Fetched} {c' : PostgresResultCursor}
    → c.current_result_set_done ≡ false
    → c.cursor ≤ length c.bytes
    → FitsFrame p
    → rest_of (stream_at c) ≡ message t p ++ rest
    → fetch_event (event_type t) (ok p) (skip (stream_at c) (5 + length p)) c ≡ ok (returns row c')
    → fetch_row c ≡ ok (row, c')
fetch_row-step c t p rest {row} {c'} d v fits e h =
    let (next, payload, _, valid) = next_frame-message (stream_at c) t p rest v fits e in
    let inside : c.cursor < length c.bytes =
      omega (arith, ap length e, length-drop c.cursor c.bytes) in
    fetch_row-loop c d inside
    ∙ subst (λ m. fetch_loop m (stream_at c) c ≡ ok (row, c')) (omega arith)
        (fetch_loop-step (length c.bytes) c (stream_at c) (frame_of (stream_at c) t p)
          (skip (stream_at c) (5 + length p)) next
          (fetch_frame-payload (stream_at c) t p (skip (stream_at c) (5 + length p)) c payload ∙ h))

fetch_row-data :
    (c : PostgresResultCursor) (vs : List (Option Bytes)) (rest : Bytes)
    → c.current_result_set_done ≡ false
    → c.cursor ≤ length c.bytes
    → IsRow c.fields vs
    → rest_of (stream_at c) ≡ message b'D' (data_row_payload vs []) ++ rest
    → fetch_row c
      ≡ ok (
        some (cells_of vs c.fields),
        move_to c (skip (stream_at c) (5 + length (data_row_payload vs []))),
      )
unfolding fetch_event event_type
fetch_row-data c vs rest d v h e =
    fetch_row-step c b'D' (data_row_payload vs []) rest d v h.3 e
      (rw (parse_data_row-payload vs c.fields [] h.0 h.1 h.2) refl)

-- The payload of CommandComplete.
abbrev pub tag_payload : Bytes → Bytes
tag_payload tag = tag ++ 0 ∷ []

parse_command_complete-payload :
    (tag old : Bytes) → NoNul tag → parse_command_complete (tag_payload tag) old ≡ tag
unfolding parse_command_complete
parse_command_complete-payload tag old h =
    rw (memchr-append tag [] h, parse_command_complete) (take-length-append tag (0 ∷ []))

fetch_row_complete :
    (c : PostgresResultCursor) (tag rest : Bytes)
    → c.current_result_set_done ≡ false
    → c.cursor ≤ length c.bytes
    → FitsFrame (tag_payload tag)
    → NoNul tag
    → rest_of (stream_at c) ≡ message b'C' (tag_payload tag) ++ rest
    → fetch_row c
      ≡ ok (none, move_to (end_set c tag) (skip (stream_at c) (5 + length (tag_payload tag))))
unfolding fetch_event event_type
fetch_row_complete c tag rest d v fits h e =
    fetch_row-step c b'C' (tag_payload tag) rest d v fits e (
      ap
        (λ (x : Bytes). ok (
          returns none (move_to (end_set c x) (skip (stream_at c) (5 + length (tag_payload tag))))))
        (parse_command_complete-payload tag c.command_tag h))

fetch_all_loop-rows :
    (n : ℕ) (c : PostgresResultCursor) (rows : List (List (Option Bytes))) (tag : Bytes)
    (ms : List Message) (before : List (List PostgresCell))
    → length rows < n
    → c.current_result_set_done ≡ false
    → c.cursor ≤ length c.bytes
    → All (IsRow c.fields) rows
    → FitsFrame (tag_payload tag) × NoNul tag
    → rest_of (stream_at c) ≡ on_wire (rows_messages rows ((b'C', tag_payload tag) ∷ ms))
    → (c' : PostgresResultCursor) × (fetch_all_loop n c before
        ≡ ok (before ++ map (λ vs. cells_of vs c.fields) rows, c'))
      × (c'.current_result_set_done ≡ true)
      × (c'.command_tag ≡ tag)
      × (rest_of (stream_at c') ≡ on_wire ms)
      × (c'.fields ≡ c.fields)
unfolding fetch_all_loop
fetch_all_loop-rows zero c rows tag ms before n d v h t e = absurd (omega arith)
fetch_all_loop-rows (suc n) c [] tag ms before small d v h t e =
    let p = tag_payload tag in
    let (_, _, rest, _) = next_frame-message (stream_at c) b'C' p (on_wire ms) v t.0 e in
    (
      move_to (end_set c tag) (skip (stream_at c) (5 + length p)),
      rw (fetch_row_complete c tag (on_wire ms) d v t.0 t.1 e, append-nil) refl,
      refl,
      refl,
      rest,
      refl,
    )
fetch_all_loop-rows (suc n) c (vs ∷ rows) tag ms before small d v h t e =
    let p = data_row_payload vs [] in
    let later = on_wire (rows_messages rows ((b'C', tag_payload tag) ∷ ms)) in
    let (_, _, rest, valid) = next_frame-message (stream_at c) b'D' p later v h.0.3 e in
    let moved = move_to c (skip (stream_at c) (5 + length p)) in
    let (c', all, done, same, behind, kept) =
      fetch_all_loop-rows n moved rows tag ms (before ++ cells_of vs c.fields ∷ []) (omega arith) d
        valid h.1 t rest in
    (
      c',
      rw (fetch_row-data c vs later d v h.0 e) (
          all
          ∙ ap (λ x. ok (x, c'))
              (append_assoc before (cells_of vs c.fields ∷ [])
                (map (λ w. cells_of w c.fields) rows))),
      done,
      same,
      behind,
      kept,
    )

rows_size :
    (rows : List (List (Option Bytes))) (ms : List Message)
    → length rows ≤ length (on_wire (rows_messages rows ms))
rows_size [] ms = omega arith
rows_size (vs ∷ rows) ms = omega (
  arith,
  length-append (data_row_payload vs []) (on_wire (rows_messages rows ms)),
  rows_size rows ms,
)

-- In a result set that is not done, and whose rows stand as whole DataRow messages at the cursor
-- with CommandComplete behind them, fetch_all gives each row's cells in order; then the set is
-- done, the command tag is the message's, and the cursor is behind it. A row has no more values
-- than there are fields, less than 2 ^ 15, and none of 2 ^ 31 bytes; the messages fit in a
-- length field, and the tag holds no zero byte.
pub fetch_all-rows :
    (c : PostgresResultCursor) (rows : List (List (Option Bytes))) (tag : Bytes) (ms : List Message)
    → c.current_result_set_done ≡ false
    → c.cursor ≤ length c.bytes
    → All (IsRow c.fields) rows
    → FitsFrame (tag_payload tag) × NoNul tag
    → rest_of (stream_at c) ≡ on_wire (rows_messages rows ((b'C', tag_payload tag) ∷ ms))
    → (c' : PostgresResultCursor) × (fetch_all c ≡ ok (map (λ vs. cells_of vs c.fields) rows, c'))
      × (c'.current_result_set_done ≡ true)
      × (c'.command_tag ≡ tag)
      × (rest_of (stream_at c') ≡ on_wire ms)
      × (c'.fields ≡ c.fields)
unfolding fetch_all
fetch_all-rows c rows tag ms d v h t e =
    fetch_all_loop-rows (rounds_for c) c rows tag ms []
      (omega (
        arith,
        rows_size rows ((b'C', tag_payload tag) ∷ ms),
        ap length e,
        length-drop c.cursor c.bytes,
      ))
      d v h t e
