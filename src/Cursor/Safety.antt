-- ===== src/Cursor/Safety.antt =====
-- src/protocol/PostgresResult.cc on bytes of any kind: its loops end, and they read nothing outside.
use wf_postgres.Common.{
  ℕ, zero, suc, ◌+◌, ◌<◌, ◌≡◌, ap, false, ◌||◌, [], Option, none, some, ◌⊎◌, inl, inr, Option-cases,
  ok, Returns, >>=-Returns, Returns-ok, Bytes, length, leb, Bool-cases, arith,
}
use wf_postgres.Cursor.{
  PostgresResultCursor, stream_at, rounds_for, Step, returns, looks_on, Fetched, fetch_event,
  fetch_frame, fetch_loop, fetch_row,
}
use wf_postgres.Parser.DataRow.{parse_data_row}
use wf_postgres.Parser.RowBounds.{RowOf, parse_data_row-RowOf}
use wf_postgres.Parser.{PostgresBackendEventType, data_row, event_type}
use wf_postgres.Stream.FrameBounds.{Framing, Took, Outcome, next_frame-Outcome}
use wf_postgres.Stream.Frames.{IsValid, rest_of}
use wf_postgres.Stream.{PostgresFrame, PostgresStream, next_frame, payload_bytes}
use wf_postgres.Wire.Bounds.{Any}

fetch_event-Returns :
    (t : PostgresBackendEventType) (p : Bytes) (s : PostgresStream) (c : PostgresResultCursor)
    → Returns (fetch_event t (ok p) s c) Any
unfolding fetch_event
fetch_event-Returns data_row p s c =
    >>=-Returns (parse_data_row p [] c.fields) _ (RowOf p c.fields) Any
      (parse_data_row-RowOf p c.fields) λ _ _. tt
fetch_event-Returns _ p s c = tt

fetch_frame-Returns :
    (s : PostgresStream) (f : PostgresFrame) (s' : PostgresStream) (c : PostgresResultCursor)
    → ((f.payload ≡ none)
        ⊎ ((p : Bytes) × (payload_bytes s f ≡ ok p) × (length p ≡ f.payload_size)))
    → Returns (fetch_frame s f s' c) Any
unfolding fetch_frame
fetch_frame-Returns s f s' c (inl e) = rw (e, fetch_frame) tt
fetch_frame-Returns s f s' c (inr (p, e, _)) = elim (Option-cases f.payload) [
  | inl n ↦ rw (n, fetch_frame) tt
  | inr (q, n) ↦ rw (n, fetch_frame, e) (fetch_event-Returns (event_type f.type) p s' c)
]

module _ (n : ℕ)
    (ih : (s : PostgresStream) (c : PostgresResultCursor)
      → IsValid s
      → Framing (rest_of s)
      → length s.bytes < n + s.cursor
      → Returns (fetch_loop n s c) Any) where
  step-Returns :
      (s : PostgresStream) (c : PostgresResultCursor) (f : PostgresFrame) (s' : PostgresStream)
      (step : Step Fetched)
      → length s.bytes < suc n + s.cursor
      → next_frame s false ≡ ok (some (f, s'))
      → Took s f s'
      → fetch_frame s f s' c ≡ ok step
      → Returns (fetch_loop (suc n) s c) Any
  unfolding fetch_loop
  step-Returns s c f s' (returns row c') h e t g = rw (e, g) tt
  step-Returns s c f s' looks_on h e t g =
      let same = ap length t.same_bytes in
      rw (e, g)
        (ih s' c (omega (arith, t.inside, same)) t.framing
          (omega (arith, t.moved, t.progress, same)))

  next-Returns :
      (s : PostgresStream) (c : PostgresResultCursor)
      (next : Option (PostgresFrame × PostgresStream))
      → length s.bytes < suc n + s.cursor
      → next_frame s false ≡ ok next
      → Outcome s next
      → Returns (fetch_loop (suc n) s c) Any
  unfolding fetch_loop
  next-Returns s c none h e o = rw e tt
  next-Returns s c (some (f, s')) h e t =
      let (step, g, _) = Returns-ok _ _ (fetch_frame-Returns s f s' c t.payload) in
      step-Returns s c f s' step h e t g

fetch_loop-Returns :
    (n : ℕ) (s : PostgresStream) (c : PostgresResultCursor)
    → IsValid s
    → Framing (rest_of s)
    → length s.bytes < n + s.cursor
    → Returns (fetch_loop n s c) Any
fetch_loop-Returns zero s c v w h = absurd (omega arith)
fetch_loop-Returns (suc n) s c v w h =
    let (next, e, o) = Returns-ok _ _ (next_frame-Outcome s v w) in
    next-Returns n (fetch_loop-Returns n) s c next h e o

pub fetch_row-Returns :
    (c : PostgresResultCursor)
    → IsValid (stream_at c)
    → Framing (rest_of (stream_at c))
    → Returns (fetch_row c) Any
unfolding fetch_row
fetch_row-Returns c v w =
    elim (Bool-cases (c.current_result_set_done || leb (length c.bytes) c.cursor)) [
      | inl e ↦ rw e tt
      | inr e ↦ rw e (fetch_loop-Returns (rounds_for c) (stream_at c) c v w (omega arith))
    ]
