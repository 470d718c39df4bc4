-- ===== src/Response/Growth.antt =====
-- The loop of PostgresResponse::append over a buffer that grows behind the frames it reads.
use wf_postgres.Auth.Frame.{over}
use wf_postgres.Common.{
  ℕ, zero, suc, ◌+◌, ◌≤◌, ◌≡◌, refl, sym, ap, ap₂, ◌∙◌, subst, Bool, false, ◌++◌, none, some, inl,
  inr, ◌⊎◌, ok, Returns-of_eq, map_run, Bytes, length, drop, length-append, drop-append_le,
  take-append_le, le-cases, Option-cases, length-drop, arith,
}
use wf_postgres.Response.Append.{goes_on, stream_of, with_stream, handle_frame, frames_loop}
use wf_postgres.Response.Invariant.{grow}
use wf_postgres.Response.Loop.{
  stopped, went_on, ended, turn, frames_loop-zero, frames_loop_on, frames_loop-more,
}
use wf_postgres.Response.Rounds.{over_round, over_round-Keeps, handle_frame-over}
use wf_postgres.Response.{PostgresResponse}
use wf_postgres.Scram.{Crypto}
use wf_postgres.Stream.FrameBounds.{Framing, Framing-prefix, Took, next_frame-Outcome}
use wf_postgres.Stream.Frames.{IsValid, rest_of}
use wf_postgres.Stream.Growth.{extend, next_frame-extend}
use wf_postgres.Stream.{PostgresFrame, PostgresStream, next_frame, payload_bytes}
use wf_postgres.Wire.Bounds.{Any}

-- The payload of a frame in the first bytes is the same in the whole.
payload_bytes-extend :
    (s : PostgresStream) (f : PostgresFrame) (more : Bytes) {p : Bytes}
    → payload_bytes s f ≡ ok p
    → payload_bytes (extend s more) f ≡ ok p
unfolding payload_bytes
payload_bytes-extend s f more h = elim (Option-cases f.payload) [
  | inl e ↦ ground arith
  | inr (q, e) ↦ elim (le-cases (length s.bytes) (q + f.payload_size)) [
    | inl out ↦ ground arith
    | inr fits ↦ ground (
      arith,
      length-append s.bytes more,
      drop-append_le q s.bytes more (omega arith),
      take-append_le f.payload_size (drop q s.bytes) more (omega (arith, length-drop q s.bytes)),
    )
  ]
]

module _ (crypto : Crypto) where
  handle_frame-extend :
      (s : PostgresStream) (f : PostgresFrame) (more : Bytes) (r : PostgresResponse)
      → ((f.payload ≡ none)
          ⊎ ((p : Bytes) × (payload_bytes s f ≡ ok p) × (length p ≡ f.payload_size)))
      → handle_frame crypto (extend s more) f r ≡ handle_frame crypto s f r
  unfolding handle_frame
  handle_frame-extend s f more r (inl e) = rw (e, handle_frame)
  handle_frame-extend s f more r (inr (p, e, _)) = elim (Option-cases f.payload) [
    | inl n ↦ rw (n, handle_frame)
    | inr (q, n) ↦ rw (n, handle_frame, e, payload_bytes-extend s f more e)
  ]

  kept :
      (r : PostgresResponse) (f : PostgresFrame) (s : PostgresStream) {r' : PostgresResponse}
      → handle_frame crypto (stream_of r) f (with_stream r s) ≡ ok (goes_on r')
      → (r'.buf ≡ s.bytes) × (r'.cursor ≡ s.cursor)
  kept r f s g =
      let k =
        over_round-Keeps crypto (with_stream r s)
          (handle_frame crypto (stream_of r) f (with_stream r s))
          (handle_frame-over crypto s.bytes s.cursor (stream_of r) f (with_stream r s))
          (Returns-of_eq Any g tt) in
      rw g at k

  -- What a frame leaves at the cursor of the longer buffer.
  Framing-grow :
      (r r' : PostgresResponse) (more : Bytes) {f : PostgresFrame} {s : PostgresStream}
      → IsValid (stream_of r)
      → Framing (rest_of (stream_of r) ++ more)
      → next_frame (stream_of r) false ≡ ok (some (f, s))
      → Took (stream_of r) f s
      → (r'.buf ≡ s.bytes) × (r'.cursor ≡ s.cursor)
      → Framing (rest_of (stream_of r') ++ more)
  Framing-grow r r' more {f} {s} v w e t k =
      let longer =
        next_frame-Outcome (extend (stream_of r) more) (omega (arith, length-append r.buf more))
          (subst Framing (sym (drop-append_le r.cursor r.buf more v)) w) in
      let took : Took (extend (stream_of r) more) f (extend s more) =
        rw (next_frame-extend (stream_of r) more v e) at longer in
      let inside : s.cursor ≤ length s.bytes = omega (arith, t.inside, ap length t.same_bytes) in
      subst Framing
        (drop-append_le s.cursor s.bytes more inside
          ∙ ap₂ (λ i (b : Bytes). drop i b ++ more) (sym k.1) (sym k.0))
        took.framing

  -- A round with the longer buffer is the same round.
  handle_frame-grow :
      (r : PostgresResponse) (more : Bytes) {f : PostgresFrame} {s : PostgresStream}
      {r' : PostgresResponse}
      → Took (stream_of r) f s
      → handle_frame crypto (stream_of r) f (with_stream r s) ≡ ok (goes_on r')
      → handle_frame crypto
          (extend (stream_of r) more)
          f
          (with_stream (grow r more) (extend s more))
        ≡ ok (goes_on (grow r' more))
  handle_frame-grow r more {f} {s} {r'} t g =
      let k = kept r f s g in
      let same : over (s.bytes ++ more) s.cursor r' ≡ grow r' more =
        λ i. record r' { buf = sym k.0 i ++ more; cursor = sym k.1 i } in
      handle_frame-over crypto (s.bytes ++ more) s.cursor (extend (stream_of r) more) f
        (with_stream r s)
      ∙ ap (map_run (over_round (s.bytes ++ more) s.cursor))
          (handle_frame-extend (stream_of r) f more (with_stream r s) t.payload ∙ g)
      ∙ ap (λ x. ok (goes_on x)) same

  -- The loop over the first bytes, and then over what came later, is the loop over all of them.
  pub frames_loop-grow :
      (n m : ℕ) (r : PostgresResponse) (more : Bytes) {r1 : PostgresResponse}
      {x : Bool × PostgresResponse}
      → IsValid (stream_of r)
      → Framing (rest_of (stream_of r) ++ more)
      → frames_loop crypto n r ≡ ok (false, r1)
      → frames_loop crypto m (grow r1 more) ≡ ok x
      → frames_loop crypto (n + m) (grow r more) ≡ ok x
  frames_loop-grow zero m r more v f h k = cc (frames_loop-zero crypto r)
  frames_loop-grow (suc n) m r more {r1} {x} v f h k = elim (turn crypto n r h) [
    | stopped e y ↦
        let same : grow r1 more ≡ grow r more =
          ap (λ z. grow z more) (ap (λ (z : Bool × PostgresResponse). z.1) y) in
        subst (λ j. frames_loop crypto j (grow r more) ≡ ok x) (omega arith)
          (frames_loop-more crypto m (suc n) (grow r more)
            (subst (λ z. frames_loop crypto m z ≡ ok x) same k))
    | went_on {f = fr} {s = s} {r' = r'} e g t ↦
        let first =
          next_frame-Outcome (stream_of r) v (Framing-prefix (rest_of (stream_of r)) more refl f) in
        let took : Took (stream_of r) fr s = rw e at first in
        let same = kept r fr s g in
        let later =
          frames_loop-grow n m r' more
            (omega (arith, took.inside, ap length (same.0 ∙ took.same_bytes), same.1))
            (Framing-grow r r' more v f e took same) t k in
        subst (λ j. frames_loop crypto j (grow r more) ≡ ok x) (omega arith)
          (frames_loop_on crypto (n + m) (grow r more) (next_frame-extend (stream_of r) more v e)
              (handle_frame-grow r more took g)
            ∙ later)
    | ended e g y ↦ cc
  ]

  -- Where the loop stops for more bytes, the frames to come are still as they were.
  pub frames_loop-Framing :
      (n : ℕ) (r : PostgresResponse) (more : Bytes) {r1 : PostgresResponse}
      → IsValid (stream_of r)
      → Framing (rest_of (stream_of r) ++ more)
      → frames_loop crypto n r ≡ ok (false, r1)
      → Framing (rest_of (stream_of r1) ++ more)
  frames_loop-Framing zero r more v f h = cc (frames_loop-zero crypto r)
  frames_loop-Framing (suc n) r more {r1} v f h = elim (turn crypto n r h) [
    | stopped e y ↦
        subst (λ (z : Bool × PostgresResponse). Framing (rest_of (stream_of z.1) ++ more)) (sym y) f
    | went_on {f = fr} {s = s} {r' = r'} e g t ↦
        let first =
          next_frame-Outcome (stream_of r) v (Framing-prefix (rest_of (stream_of r)) more refl f) in
        let took : Took (stream_of r) fr s = rw e at first in
        let same = kept r fr s g in
        frames_loop-Framing n r' more
          (omega (arith, took.inside, ap length (same.0 ∙ took.same_bytes), same.1))
          (Framing-grow r r' more v f e took same) t
    | ended e g y ↦ cc
  ]
