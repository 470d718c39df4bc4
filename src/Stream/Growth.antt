-- ===== src/Stream/Growth.antt =====
-- PostgresStream over time: bytes that arrive later, consumed bytes that are dropped, and a length
-- field that the sum of 32 bits takes back to zero.
use wf_postgres.Common.{
  ℕ, ◌+◌, ◌-◌, ◌^◌, ◌<◌, ◌≡◌, refl, sym, ap, ◌∙◌, true, false, [], ◌∷◌, ◌++◌, some, none, ok, fault,
  Bytes, inl, inr, length, take, length-drop, length-append, drop-append_le, drop_all, take_all,
  le-cases, lt→ltb, le→not-ltb, ok-injective, length-take, arith,
}
use wf_postgres.Stream.FrameBounds.{Took}
use wf_postgres.Stream.Frames.{
  IsValid, rest_of, Header-cases, framed, word, next_frame_short, next_frame_header,
}
use wf_postgres.Stream.{
  PostgresFrame, PostgresStream, append, next_frame, payload_bytes, compact, truncate_unconsumed,
}

-- The same stream with more bytes behind it.
abbrev pub extend : PostgresStream → Bytes → PostgresStream
extend s more = record s { bytes = s.bytes ++ more }

rest_of-extend :
    (s : PostgresStream) (more : Bytes) → IsValid s → rest_of (extend s more) ≡ rest_of s ++ more
rest_of-extend s more v = drop-append_le s.cursor s.bytes more v

framed-extend :
    (s : PostgresStream) (t len avail k : ℕ) (more : Bytes) {f : PostgresFrame}
    {s' : PostgresStream}
    → framed s t len avail ≡ some (f, s')
    → framed (extend s more) t len (avail + k) ≡ some (f, extend s' more)
framed-extend s t len avail k more h = ground arith

-- A frame that is complete in a stream whose cursor lies in its buffer is the same frame
-- whatever bytes arrive after it.
pub next_frame-extend :
    (s : PostgresStream) (more : Bytes) {f : PostgresFrame} {s' : PostgresStream}
    → IsValid s
    → next_frame s false ≡ ok (some (f, s'))
    → next_frame (extend s more) false ≡ ok (some (f, extend s' more))
next_frame-extend s more {f} {s'} v h = elim (Header-cases (rest_of s)) [
  | inl short ↦ cc (next_frame_short s v short)
  | inr x ↦
      let size : length (x.behind ++ more) + 5 ≡ (length x.behind + 5) + length more =
        omega (arith, length-append x.behind more) in
      next_frame_header (extend s more) x.t x.a x.b x.c x.d (x.behind ++ more)
        (omega (arith, length-append s.bytes more))
        (rest_of-extend s more v ∙ ap (λ y. y ++ more) x.at)
      ∙ rw size (
          ap ok (
            framed-extend s x.t (word x.a x.b x.c x.d) (length x.behind + 5) (length more) more
              (ok-injective (sym (next_frame_header s x.t x.a x.b x.c x.d x.behind v x.at) ∙ h))))
]

framed-late :
    (s : PostgresStream) (t len avail avail' : ℕ) (more : Bytes) {f : PostgresFrame}
    {s' : PostgresStream}
    → framed s t len avail ≡ none
    → framed (extend s more) t len avail' ≡ some (f, s')
    → s.cursor + avail < s'.cursor
framed-late s t len avail avail' more h k = ground arith

-- A frame that completes with the new bytes ends among them.
pub next_frame-late :
    (s : PostgresStream) (more : Bytes) {f : PostgresFrame} {s' : PostgresStream}
    → IsValid s
    → next_frame s false ≡ ok none
    → next_frame (extend s more) false ≡ ok (some (f, s'))
    → Took (extend s more) f s'
    → length s.bytes < s'.cursor
next_frame-late s more {f} {s'} v h k t = elim (Header-cases (rest_of s)) [
  | inl short ↦ omega (arith, t.moved, t.progress, length-drop s.cursor s.bytes)
  | inr x ↦
      let e =
        next_frame_header (extend s more) x.t x.a x.b x.c x.d (x.behind ++ more)
          (omega (arith, length-append s.bytes more))
          (rest_of-extend s more v ∙ ap (λ y. y ++ more) x.at) in
      let e' = next_frame_header s x.t x.a x.b x.c x.d x.behind v x.at in
      omega (
        arith,
        framed-late s x.t (word x.a x.b x.c x.d) (length x.behind + 5)
            (length (x.behind ++ more) + 5) more (ok-injective (sym e' ∙ h))
            (ok-injective (sym e ∙ k)),
        ap length x.at,
        length-drop s.cursor s.bytes,
      )
]

-- A length field of 2 ^ 32 - 1 passes the test for a complete frame, in a buffer of less than 2
-- ^ 32 - 5 bytes whose cursor lies inside: the stream does not move, and the frame's payload
-- reaches out of the buffer.
pub next_frame_wrapping :
    (s : PostgresStream) (t : ℕ) (r : Bytes)
    → IsValid s
    → length s.bytes < 2 ^ 32 - 5
    → rest_of s ≡ t ∷ 255 ∷ 255 ∷ 255 ∷ 255 ∷ r
    → (f : PostgresFrame) × (next_frame s false ≡ ok (some (f, s)))
      × (f.frame_size ≡ 0)
      × (payload_bytes s f ≡ fault)
unfolding payload_bytes
next_frame_wrapping s t r v small e = (
  record { type = t; payload = some (s.cursor + 5); payload_size = 2 ^ 32 - 5; frame_size = 0 },
  next_frame_header s t 255 255 255 255 r v e ∙ ground arith,
  refl,
  ground arith,
)

-- Bytes that are appended to a string buffer are behind the ones not consumed.
pub append_lem :
    (s : PostgresStream) (more : Bytes)
    → IsValid s
    → s.owned ≡ true
    → (rest_of (append s more) ≡ rest_of s ++ more) × IsValid (append s more)
unfolding append
append_lem s more v o = rw o (rest_of-extend s more v, omega (arith, length-append s.bytes more))

-- compact drops what was consumed and keeps what was not.
pub compact_lem :
    (s : PostgresStream)
    → (rest_of (compact s) ≡ rest_of s) × ((compact s).cursor ≡ 0) × IsValid (compact s)
unfolding compact
compact_lem s = ground arith

-- truncate_unconsumed drops what was not consumed and keeps what was; it needs the string.
pub truncate_unconsumed_lem :
    (s : PostgresStream)
    → IsValid s
    → s.owned ≡ true
    → (rest_of (truncate_unconsumed s) ≡ [])
      × (take s.cursor (truncate_unconsumed s).bytes ≡ take s.cursor s.bytes)
      × ((truncate_unconsumed s).cursor ≡ s.cursor)
      × (length (truncate_unconsumed s).bytes ≡ s.cursor)
unfolding truncate_unconsumed
truncate_unconsumed_lem s v o = elim (le-cases s.cursor (length s.bytes)) [
  | inl more ↦
      rw (o, lt→ltb _ _ more)
        (
          drop_all s.cursor (take s.cursor s.bytes) (omega (arith, length-take s.cursor s.bytes)),
          take_all s.cursor (take s.cursor s.bytes) (omega (arith, length-take s.cursor s.bytes)),
          refl,
          omega (arith, length-take s.cursor s.bytes),
        )
  | inr all ↦ rw (o, le→not-ltb _ _ all) (drop_all s.cursor s.bytes all, refl, refl, omega arith)
]
