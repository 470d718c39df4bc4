-- ===== src/Cursor/ResultSets.antt =====
-- next_result_set of src/protocol/PostgresResult.cc on bytes of any kind.
use wf_postgres.Common.{
  ℕ, zero, suc, ◌-◌, ◌≡◌, refl, sym, ap, ap₂, ◌∙◌, subst, Bool, true, false, Option, none, some,
  inl, inr, Option-cases, Run, ok, Returns, >>=-Returns, Returns-ok, Bytes, length, drop,
  if◌then◌else◌, Bool-cases, arith,
}
use wf_postgres.Cursor.{
  PostgresResultCursor, stream_at, rounds_for, parse_metadata, is_ready, starts_set, seek_loop,
  Skip, skip_returns, left, skips_on, skip_event, skip_loop, next_result_set, fetch_row,
}
use wf_postgres.Cursor.Safety.{fetch_row-Returns}
use wf_postgres.Parser.{PostgresBackendEventType, command_complete, event_type}
use wf_postgres.Stream.FrameBounds.{Framing, Took, Outcome, next_frame-Outcome}
use wf_postgres.Stream.Frames.{IsValid, rest_of}
use wf_postgres.Stream.{PostgresFrame, PostgresStream, next_frame, payload_bytes}
use wf_postgres.Wire.Bounds.{Any}
use wf_postgres.Cursor.Metadata.{Reads, Took-Reads, parse_metadata-Returns}

module _ (n : ℕ)
    (ih : (s : PostgresStream) (c : PostgresResultCursor)
      → c.bytes ≡ s.bytes
      → Reads n s
      → Returns (seek_loop n s c) Any) where
  -- The frame that starts a set is read again from its first byte.
  again-Returns :
      (s : PostgresStream) (c : PostgresResultCursor) (f : PostgresFrame) (s' : PostgresStream)
      → c.bytes ≡ s.bytes
      → Reads (suc n) s
      → Took s f s'
      → Returns (parse_metadata (record c { cursor = s'.cursor - f.frame_size })) Any
  again-Returns s c f s' same h t =
      let here : s'.cursor - f.frame_size ≡ s.cursor = omega (arith, t.moved) in
      parse_metadata-Returns (record c { cursor = s'.cursor - f.frame_size })
        (omega (arith, here, h.valid, ap length same))
        (subst Framing (ap₂ (λ i (b : Bytes). drop i b) (sym here) (sym same)) h.framing)

  seek_next-Returns :
      (s : PostgresStream) (c : PostgresResultCursor)
      (next : Option (PostgresFrame × PostgresStream))
      → c.bytes ≡ s.bytes
      → Reads (suc n) s
      → next_frame s false ≡ ok next
      → Outcome s next
      → Returns (seek_loop (suc n) s c) Any
  unfolding seek_loop
  seek_next-Returns s c none same h e o = rw e tt
  seek_next-Returns s c (some (f, s')) same h e t = elim (Option-cases f.payload) [
    | inl q ↦ rw (e, q, seek_loop) tt
    | inr (q, k) ↦ elim (Bool-cases (is_ready (event_type f.type))) [
      | inl r ↦ rw (e, k, seek_loop, r) tt
      | inr r ↦ elim (Bool-cases (starts_set (event_type f.type))) [
        | inl b ↦
            rw (e, k, seek_loop, r, b)
              (>>=-Returns (parse_metadata (record c { cursor = s'.cursor - f.frame_size })) _ Any
                Any (again-Returns s c f s' same h t) λ _ _. tt)
        | inr b ↦
            rw (e, k, seek_loop, r, b) (ih s' c (same ∙ sym t.same_bytes) (Took-Reads n s f s' h t))
      ]
    ]
  ]

seek_loop-Returns :
    (n : ℕ) (s : PostgresStream) (c : PostgresResultCursor)
    → c.bytes ≡ s.bytes
    → Reads n s
    → Returns (seek_loop n s c) Any
seek_loop-Returns zero s c same h = absurd (omega (arith, h.enough, h.valid))
seek_loop-Returns (suc n) s c same h =
    let (next, e, o) = Returns-ok _ _ (next_frame-Outcome s h.valid h.framing) in
    seek_next-Returns n (seek_loop-Returns n) s c next same h e o

-- The first loop leaves the bytes alone.
abbrev SkipKeeps : PostgresResultCursor → Skip → Type 0
SkipKeeps c (left c') = c'.bytes ≡ c.bytes
SkipKeeps c _ = Unit

skip_event-SkipKeeps :
    (t : PostgresBackendEventType) (p : Bytes) (s : PostgresStream) (c : PostgresResultCursor)
    → Returns (skip_event t (ok p) s c) (SkipKeeps c)
unfolding skip_event
skip_event-SkipKeeps command_complete p s c = refl
skip_event-SkipKeeps _ p s c = tt

seek-Returns :
    (s : PostgresStream) (c c' : PostgresResultCursor)
    → c.bytes ≡ s.bytes
    → c'.bytes ≡ c.bytes
    → IsValid s
    → Framing (rest_of s)
    → Returns (seek_loop (rounds_for c) s c') Any
seek-Returns s c c' same kept v w =
    seek_loop-Returns (rounds_for c) s c' (kept ∙ same)
      (record { valid = v; framing = w; enough = omega (arith, ap length same) })

module _ (n : ℕ)
    (ih : (s : PostgresStream) (c : PostgresResultCursor)
      → c.bytes ≡ s.bytes
      → Reads n s
      → Returns (skip_loop n s c) Any) where
  skip_frame-Returns :
      (s : PostgresStream) (c : PostgresResultCursor) (f : PostgresFrame) (s' : PostgresStream)
      {q : ℕ} (skip : Skip)
      → c.bytes ≡ s.bytes
      → Reads (suc n) s
      → next_frame s false ≡ ok (some (f, s'))
      → Took s f s'
      → f.payload ≡ some q
      → skip_event (event_type f.type) (payload_bytes s f) s' c ≡ ok skip
      → SkipKeeps c skip
      → Returns (skip_loop (suc n) s c) Any
  unfolding skip_loop
  skip_frame-Returns s c f s' (skip_returns c') same h e t q g k = rw (e, q, skip_loop, g) tt
  skip_frame-Returns s c f s' (left c') same h e t q g k =
      let r = Took-Reads n s f s' h t in
      rw (e, q, skip_loop, g) (seek-Returns s' c c' (same ∙ sym t.same_bytes) k r.valid r.framing)
  skip_frame-Returns s c f s' skips_on same h e t q g k =
      rw (e, q, skip_loop, g) (ih s' c (same ∙ sym t.same_bytes) (Took-Reads n s f s' h t))

  skip_next-Returns :
      (s : PostgresStream) (c : PostgresResultCursor)
      (next : Option (PostgresFrame × PostgresStream))
      → c.bytes ≡ s.bytes
      → Reads (suc n) s
      → next_frame s false ≡ ok next
      → Outcome s next
      → Returns (skip_loop (suc n) s c) Any
  unfolding skip_loop
  skip_next-Returns s c none same h e o = rw e (seek-Returns s c c same refl h.valid h.framing)
  skip_next-Returns s c (some (f, s')) same h e t = elim (Option-cases f.payload) [
    | inl q ↦ rw (e, q, skip_loop) tt
    | inr (q, k) ↦ elim t.payload [
      | inl none_there ↦ cc
      | inr (p, b, _) ↦
          let (skip, g, kept) =
            Returns-ok (skip_event (event_type f.type) (payload_bytes s f) s' c) (SkipKeeps c) (
              subst (λ m. Returns (skip_event (event_type f.type) m s' c) (SkipKeeps c)) (sym b)
                (skip_event-SkipKeeps (event_type f.type) p s' c)) in
          skip_frame-Returns s c f s' skip same h e t k g kept
    ]
  ]

skip_loop-Returns :
    (n : ℕ) (s : PostgresStream) (c : PostgresResultCursor)
    → c.bytes ≡ s.bytes
    → Reads n s
    → Returns (skip_loop n s c) Any
skip_loop-Returns zero s c same h = absurd (omega (arith, h.enough, h.valid))
skip_loop-Returns (suc n) s c same h =
    let (next, e, o) = Returns-ok _ _ (next_frame-Outcome s h.valid h.framing) in
    skip_next-Returns n (skip_loop-Returns n) s c next same h e o

branch-Returns :
    (b : Bool) (x y : Run (Bool × PostgresResultCursor))
    → Returns x Any
    → Returns y Any
    → Returns (if b then x else y) Any
branch-Returns true x y h k = h
branch-Returns false x y h k = k

next_result_set-Returns :
    (c : PostgresResultCursor)
    → IsValid (stream_at c)
    → Framing (rest_of (stream_at c))
    → Returns (next_result_set c) Any
unfolding next_result_set
next_result_set-Returns c v w =
    let r : Reads (rounds_for c) (stream_at c) = record {
      valid = v;
      framing = w;
      enough = omega arith;
    } in
    branch-Returns c.current_result_set_done (seek_loop (rounds_for c) (stream_at c) c)
      (skip_loop (rounds_for c) (stream_at c) c)
      (seek_loop-Returns (rounds_for c) (stream_at c) c refl r)
      (skip_loop-Returns (rounds_for c) (stream_at c) c refl r)

-- On bytes where no frame announces the length 2 ^ 32 - 1, and with the cursor inside,
-- fetch_row, parse_metadata and next_result_set return: they read nothing outside the bytes, and
-- their loops end.
pub cursor-Returns :
    (c : PostgresResultCursor)
    → IsValid (stream_at c)
    → Framing (rest_of (stream_at c))
    → Returns (fetch_row c) Any × Returns (parse_metadata c) Any × Returns (next_result_set c) Any
cursor-Returns c v w =
    (fetch_row-Returns c v w, parse_metadata-Returns c v w, next_result_set-Returns c v w)
