-- ===== src/Response/Loop.antt =====
-- The `while` loop of PostgresResponse::append: it ends, it stays in the buffer, and it stops short
-- only where no frame is complete.
use wf_postgres.Common.{
  ℕ, zero, suc, ◌+◌, ◌<◌, ◌≤◌, ◌≡◌, refl, sym, ap, ◌∙◌, subst, Bool, true, false, Option, none,
  some, Run, ok, fault, diverged, Returns, Returns-ok, Returns-map, ap₂, ok-injective, Bytes,
  length, drop, arith,
}
use wf_postgres.Auth.Requests.{Decodes}
use wf_postgres.Response.Append.{
  Round, goes_on, finished, stream_of, with_stream, handle_frame, frames_loop,
}
use wf_postgres.Response.Rounds.{Keeps, handle_frame-Keeps}
use wf_postgres.Response.{PostgresResponse}
use wf_postgres.Scram.{Crypto}
use wf_postgres.Stream.FrameBounds.{Framing, Took, Outcome, next_frame-Outcome}
use wf_postgres.Stream.Frames.{IsValid, rest_of}
use wf_postgres.Stream.{PostgresFrame, PostgresStream, next_frame}

-- What the loop leaves: the same bytes, a cursor further on but inside, and, where it did not
-- finish, no complete frame at the cursor.
pub record Done (r : PostgresResponse) (fin : Bool) (r' : PostgresResponse) : Type 0 where
  pub same_bytes : r'.buf ≡ r.buf
  pub forward : r.cursor ≤ r'.cursor
  pub inside : r'.cursor ≤ length r.buf
  pub first :
      fin ≡ true
      → (f : PostgresFrame) × (s : PostgresStream) × (next_frame (stream_of r) false
          ≡ ok (some (f, s)))
        × Took (stream_of r) f s
        × (s.cursor ≤ r'.cursor)
  pub waits : fin ≡ false → next_frame (stream_of r') false ≡ ok none

abbrev pub IsDone : PostgresResponse → Bool × PostgresResponse → Type 0
IsDone r (fin, r') = Done r fin r'

module _ (crypto : Crypto) where
  -- A round of the loop: the frame, and what its handler says.
  pub frames_loop-none :
      (n : ℕ) (r : PostgresResponse)
      → next_frame (stream_of r) false ≡ ok none
      → frames_loop crypto (suc n) r ≡ ok (false, r)
  unfolding frames_loop
  frames_loop-none n r e = rw e

  pub frames_loop-zero : (r : PostgresResponse) → frames_loop crypto zero r ≡ diverged
  unfolding frames_loop
  frames_loop-zero r = refl

  pub frames_loop_on :
      (n : ℕ) (r : PostgresResponse) {f : PostgresFrame} {s : PostgresStream}
      {r' : PostgresResponse}
      → next_frame (stream_of r) false ≡ ok (some (f, s))
      → handle_frame crypto (stream_of r) f (with_stream r s) ≡ ok (goes_on r')
      → frames_loop crypto (suc n) r ≡ frames_loop crypto n r'
  unfolding frames_loop
  frames_loop_on n r e h = rw (e, h)

  pub frames_loop_end :
      (n : ℕ) (r : PostgresResponse) {f : PostgresFrame} {s : PostgresStream}
      {r' : PostgresResponse}
      → next_frame (stream_of r) false ≡ ok (some (f, s))
      → handle_frame crypto (stream_of r) f (with_stream r s) ≡ ok (finished r')
      → frames_loop crypto (suc n) r ≡ ok (true, r')
  unfolding frames_loop
  frames_loop_end n r e h = rw (e, h)

  frames_loop_unread :
      (n : ℕ) (r : PostgresResponse)
      → ((next_frame (stream_of r) false ≡ fault → frames_loop crypto (suc n) r ≡ fault)
          × (next_frame (stream_of r) false ≡ diverged → frames_loop crypto (suc n) r ≡ diverged))
  unfolding frames_loop
  frames_loop_unread n r = (λ e. rw e, λ e. rw e)

  frames_loop_unhandled :
      (n : ℕ) (r : PostgresResponse) {f : PostgresFrame} {s : PostgresStream}
      → next_frame (stream_of r) false ≡ ok (some (f, s))
      → ((handle_frame crypto (stream_of r) f (with_stream r s) ≡ fault
            → frames_loop crypto (suc n) r ≡ fault)
          × (handle_frame crypto (stream_of r) f (with_stream r s) ≡ diverged
              → frames_loop crypto (suc n) r ≡ diverged))
  unfolding frames_loop
  frames_loop_unhandled n r e = (λ h. rw (e, h), λ h. rw (e, h))

  -- How a loop that returned went on from here.
  pub data Turn (n : ℕ) (r : PostgresResponse) (x : Bool × PostgresResponse) : Type 0 where
    stopped : next_frame (stream_of r) false ≡ ok none → x ≡ (false, r) → Turn n r x
    went_on :
        {f : PostgresFrame} {s : PostgresStream} {r' : PostgresResponse}
        → next_frame (stream_of r) false ≡ ok (some (f, s))
        → handle_frame crypto (stream_of r) f (with_stream r s) ≡ ok (goes_on r')
        → frames_loop crypto n r' ≡ ok x
        → Turn n r x
    ended :
        {f : PostgresFrame} {s : PostgresStream} {r' : PostgresResponse}
        → next_frame (stream_of r) false ≡ ok (some (f, s))
        → handle_frame crypto (stream_of r) f (with_stream r s) ≡ ok (finished r')
        → x ≡ (true, r')
        → Turn n r x

  handled-Turn :
      (n : ℕ) (r : PostgresResponse) {x : Bool × PostgresResponse} {f : PostgresFrame}
      {s : PostgresStream} (m : Run Round)
      → next_frame (stream_of r) false ≡ ok (some (f, s))
      → handle_frame crypto (stream_of r) f (with_stream r s) ≡ m
      → frames_loop crypto (suc n) r ≡ ok x
      → Turn n r x
  handled-Turn n r (ok (goes_on r')) e h k = went_on e h (sym (frames_loop_on n r e h) ∙ k)
  handled-Turn n r (ok (finished r')) e h k =
      ended e h (ok-injective (sym k ∙ frames_loop_end n r e h))
  handled-Turn n r fault e h k = cc ((frames_loop_unhandled n r e).0 h)
  handled-Turn n r diverged e h k = cc ((frames_loop_unhandled n r e).1 h)

  next-Turn :
      (n : ℕ) (r : PostgresResponse) {x : Bool × PostgresResponse}
      (m : Run (Option (PostgresFrame × PostgresStream)))
      → next_frame (stream_of r) false ≡ m
      → frames_loop crypto (suc n) r ≡ ok x
      → Turn n r x
  next-Turn n r (ok none) e k = stopped e (ok-injective (sym k ∙ frames_loop-none n r e))
  next-Turn n r (ok (some (f, s))) e k = handled-Turn n r _ e refl k
  next-Turn n r fault e k = cc ((frames_loop_unread n r).0 e)
  next-Turn n r diverged e k = cc ((frames_loop_unread n r).1 e)

  pub turn :
      (n : ℕ) (r : PostgresResponse) {x : Bool × PostgresResponse}
      → frames_loop crypto (suc n) r ≡ ok x
      → Turn n r x
  turn n r k = next-Turn n r _ refl k

  -- More rounds than were needed change nothing.
  pub frames_loop-more :
      (n k : ℕ) (r : PostgresResponse) {x : Bool × PostgresResponse}
      → frames_loop crypto n r ≡ ok x
      → frames_loop crypto (n + k) r ≡ ok x
  frames_loop-more zero k r h = cc (frames_loop-zero r)
  frames_loop-more (suc n) k r {x} h =
      subst (λ m. frames_loop crypto m r ≡ ok x) (omega arith)
        (elim (turn n r h) [
          | stopped e y ↦ frames_loop-none (n + k) r e ∙ ap ok (sym y)
          | went_on {r' = r'} e g t ↦ frames_loop_on (n + k) r e g ∙ frames_loop-more n k r' t
          | ended e g y ↦ frames_loop_end (n + k) r e g ∙ ap ok (sym y)
        ])

  module _ (decodes : Decodes crypto) where
    Done-step :
        {r r' r'' : PostgresResponse} {fin : Bool} {f : PostgresFrame} {s : PostgresStream}
        → next_frame (stream_of r) false ≡ ok (some (f, s))
        → Took (stream_of r) f s
        → (r'.buf ≡ s.bytes) × (r'.cursor ≡ s.cursor)
        → Done r' fin r''
        → Done r fin r''
    Done-step {f = f} {s = s} e t k d = record {
      same_bytes = d.same_bytes ∙ k.0 ∙ t.same_bytes;
      forward = omega (arith, t.moved, k.1, d.forward);
      inside = omega (arith, d.inside, ap length k.0, ap length t.same_bytes);
      first = λ _. (f, s, e, t, omega (arith, k.1, d.forward));
      waits = d.waits;
    }

    module _ (n : ℕ)
        (ih : (r : PostgresResponse)
          → IsValid (stream_of r)
          → Framing (rest_of (stream_of r))
          → length r.buf < n + r.cursor
          → Returns (frames_loop crypto n r) (IsDone r)) where
      round-IsDone :
          (r : PostgresResponse) {f : PostgresFrame} {s : PostgresStream} (round : Round)
          → length r.buf < suc n + r.cursor
          → next_frame (stream_of r) false ≡ ok (some (f, s))
          → Took (stream_of r) f s
          → handle_frame crypto (stream_of r) f (with_stream r s) ≡ ok round
          → Keeps crypto (with_stream r s) round
          → Returns (frames_loop crypto (suc n) r) (IsDone r)
      round-IsDone r {f} {s} (goes_on r') h e t g k =
          let size = ap length (k.0 ∙ t.same_bytes) in
          let rest : rest_of (stream_of r') ≡ rest_of s = ap₂ (λ i (b : Bytes). drop i b) k.1 k.0 in
          rw (frames_loop_on n r e g) (
            Returns-map (frames_loop crypto n r') _ _ (λ x d. Done-step e t k d)
              (ih r' (omega (arith, t.inside, k.1, size)) (subst Framing (sym rest) t.framing)
                (omega (arith, t.moved, t.progress, k.1, size))))
      round-IsDone r {f} {s} (finished r') h e t g k = rw (frames_loop_end n r e g) (record {
        same_bytes = k.0 ∙ t.same_bytes;
        forward = omega (arith, t.moved, k.1);
        inside = omega (arith, t.inside, k.1);
        first = λ _. (f, s, e, t, omega (arith, k.1));
        waits = λ x. cc;
      })

      next-IsDone :
          (r : PostgresResponse) (next : Option (PostgresFrame × PostgresStream))
          → IsValid (stream_of r)
          → length r.buf < suc n + r.cursor
          → next_frame (stream_of r) false ≡ ok next
          → Outcome (stream_of r) next
          → Returns (frames_loop crypto (suc n) r) (IsDone r)
      next-IsDone r none v h e o = rw (frames_loop-none n r e) (record {
        same_bytes = refl;
        forward = omega arith;
        inside = v;
        first = λ x. cc;
        waits = λ _. e;
      })
      next-IsDone r (some (f, s)) v h e t =
          let (round, g, k) =
            Returns-ok _ _
              (handle_frame-Keeps crypto decodes (stream_of r) f (with_stream r s) t.payload) in
          round-IsDone r round h e t g k

    -- With more rounds than bytes to consume the loop returns.
    pub frames_loop-IsDone :
        (n : ℕ) (r : PostgresResponse)
        → IsValid (stream_of r)
        → Framing (rest_of (stream_of r))
        → length r.buf < n + r.cursor
        → Returns (frames_loop crypto n r) (IsDone r)
    frames_loop-IsDone zero r v w h = absurd (omega arith)
    frames_loop-IsDone (suc n) r v w h =
        let (next, e, o) = Returns-ok _ _ (next_frame-Outcome (stream_of r) v w) in
        next-IsDone n (frames_loop-IsDone n) r next v h e o
