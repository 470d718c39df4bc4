-- ===== src/Cursor/Metadata.antt =====
-- parse_metadata of src/protocol/PostgresResult.cc on bytes of any kind.
use wf_postgres.Common.{
  ℕ, zero, suc, ◌+◌, ◌<◌, ◌≡◌, sym, ap, subst, false, Option, none, some, inl, inr, Option-cases,
  ok, Returns, >>=-Returns, Returns-ok, Bytes, length, arith,
}
use wf_postgres.Cursor.{
  PostgresResultCursor, stream_at, rounds_for, Step, returns, looks_on, metadata_event,
  metadata_loop, parse_metadata,
}
use wf_postgres.Parser.Safety.{parse_row_description-Returns}
use wf_postgres.Parser.{
  PostgresBackendEventType, row_description, event_type, parse_row_description,
}
use wf_postgres.Stream.FrameBounds.{Framing, Took, Outcome, next_frame-Outcome}
use wf_postgres.Stream.Frames.{IsValid, rest_of}
use wf_postgres.Stream.{PostgresFrame, PostgresStream, next_frame, payload_bytes}
use wf_postgres.Wire.Bounds.{Any}

-- A stream that a loop with `n` rounds left can finish.
pub record Reads (n : ℕ) (s : PostgresStream) : Type 0 where
  pub valid : IsValid s
  pub framing : Framing (rest_of s)
  pub enough : length s.bytes < n + s.cursor

pub Took-Reads :
    (n : ℕ) (s : PostgresStream) (f : PostgresFrame) (s' : PostgresStream)
    → Reads (suc n) s
    → Took s f s'
    → Reads n s'
Took-Reads n s f s' r t =
    let same = ap length t.same_bytes in
    record {
      valid = omega (arith, t.inside, same);
      framing = t.framing;
      enough = omega (arith, r.enough, t.moved, t.progress, same);
    }

abbrev pub Shown : PostgresStream → PostgresFrame → Type 0
Shown s f = (p : Bytes) × (payload_bytes s f ≡ ok p) × (length p ≡ f.payload_size)

metadata_event-Returns :
    (t : PostgresBackendEventType) (p : Bytes) (f : PostgresFrame) (s : PostgresStream)
    (c : PostgresResultCursor)
    → Returns (metadata_event t (ok p) f s c) Any
unfolding metadata_event
metadata_event-Returns row_description p f s c =
    >>=-Returns (parse_row_description p c.fields) _ Any Any
      (parse_row_description-Returns p c.fields) λ _ _. tt
metadata_event-Returns _ p f s c = tt

module _ (n : ℕ)
    (ih : (s : PostgresStream) (c : PostgresResultCursor)
      → Reads n s
      → Returns (metadata_loop n s c) Any) where
  metadata_frame-Returns :
      (s : PostgresStream) (c : PostgresResultCursor) (f : PostgresFrame) (s' : PostgresStream)
      {q : ℕ} (step : Step (Unit {0}))
      → Reads (suc n) s
      → next_frame s false ≡ ok (some (f, s'))
      → Took s f s'
      → f.payload ≡ some q
      → metadata_event (event_type f.type) (payload_bytes s f) f s' c ≡ ok step
      → Returns (metadata_loop (suc n) s c) Any
  unfolding metadata_loop
  metadata_frame-Returns s c f s' (returns x c') h e t q g = rw (e, q, metadata_loop, g) tt
  metadata_frame-Returns s c f s' looks_on h e t q g =
      rw (e, q, metadata_loop, g) (ih s' c (Took-Reads n s f s' h t))

  metadata_next-Returns :
      (s : PostgresStream) (c : PostgresResultCursor)
      (next : Option (PostgresFrame × PostgresStream))
      → Reads (suc n) s
      → next_frame s false ≡ ok next
      → Outcome s next
      → Returns (metadata_loop (suc n) s c) Any
  unfolding metadata_loop
  metadata_next-Returns s c none h e o = rw e tt
  metadata_next-Returns s c (some (f, s')) h e t = elim (Option-cases f.payload) [
    | inl q ↦ rw (e, q, metadata_loop) tt
    | inr (q, k) ↦ elim t.payload [
      | inl none_there ↦ cc
      | inr (p, b, _) ↦
          let (step, g, _) =
            Returns-ok (metadata_event (event_type f.type) (payload_bytes s f) f s' c) Any (
              subst (λ m. Returns (metadata_event (event_type f.type) m f s' c) Any) (sym b)
                (metadata_event-Returns (event_type f.type) p f s' c)) in
          metadata_frame-Returns s c f s' step h e t k g
    ]
  ]

metadata_loop-Returns :
    (n : ℕ) (s : PostgresStream) (c : PostgresResultCursor)
    → Reads n s
    → Returns (metadata_loop n s c) Any
metadata_loop-Returns zero s c h = absurd (omega (arith, h.enough, h.valid))
metadata_loop-Returns (suc n) s c h =
    let (next, e, o) = Returns-ok _ _ (next_frame-Outcome s h.valid h.framing) in
    metadata_next-Returns n (metadata_loop-Returns n) s c next h e o

pub parse_metadata-Returns :
    (c : PostgresResultCursor)
    → IsValid (stream_at c)
    → Framing (rest_of (stream_at c))
    → Returns (parse_metadata c) Any
unfolding parse_metadata
parse_metadata-Returns c v w =
    metadata_loop-Returns (rounds_for c) (stream_at c) _
      (record { valid = v; framing = w; enough = omega arith })
