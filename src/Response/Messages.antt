-- ===== src/Response/Messages.antt =====
-- PostgresResponse::append on whole messages: what they do to the response, one after the other,
-- with no buffer in sight.
use wf_postgres.Auth.Frame.{over}
use wf_postgres.Common.{
  ℕ, zero, suc, ◌+◌, ◌<◌, ◌≤◌, ◌≡◌, refl, sym, ap, ◌∙◌, Bool, true, false, List, [], ◌∷◌, ◌++◌, inl,
  inr, Run, ok, fault, diverged, ◌>>=◌, Run-cases, map_run, ok-injective, Bytes, length,
  length-append, drop-append_le, arith,
}
use wf_postgres.Parser.{event_type}
use wf_postgres.Request.Frames.{Message, on_wire, FitsAll}
use wf_postgres.Response.Append.{
  Round, goes_on, finished, stream_of, handle_event, handle_frame, frames_loop, end_append,
  rounds_for, append,
}
use wf_postgres.Response.Chunks.{append-of_loop}
use wf_postgres.Response.Invariant.{grow}
use wf_postgres.Response.Loop.{frames_loop-none, frames_loop_on, frames_loop_end}
use wf_postgres.Response.Rounds.{over_round, handle_frame-over}
use wf_postgres.Response.{PostgresResponse}
use wf_postgres.Scram.{Crypto}
use wf_postgres.Stream.Frames.{IsValid, rest_of, frame_of, next_frame_short, next_frame-message}
use wf_postgres.Stream.{PostgresStream, payload_bytes}

module _ (crypto : Crypto) where
  -- The messages in turn, up to one that finishes the response.
  unfoldable pub apply_messages : List Message → PostgresResponse → Run (Bool × PostgresResponse)
  apply_messages [] r = ok (false, r)
  apply_messages ((t, p) ∷ ms) r = handle_event crypto (event_type t) (ok p) r >>= λ round.
      elim round [ goes_on r' ↦ apply_messages ms r' | finished r' ↦ ok (true, r') ]

  handle_frame-payload :
      (s : PostgresStream) (t : ℕ) (p : Bytes) (r : PostgresResponse)
      → payload_bytes s (frame_of s t p) ≡ ok p
      → handle_frame crypto s (frame_of s t p) r ≡ handle_event crypto (event_type t) (ok p) r
  unfolding handle_frame
  handle_frame-payload s t p r e = rw e refl

  -- A message at the cursor is a round of the loop.
  message-round :
      (b : Bytes) (c : ℕ) (q : PostgresResponse) (t : ℕ) (p : Bytes) {round : Round}
      → payload_bytes (stream_of (over b c q)) (frame_of (stream_of (over b c q)) t p) ≡ ok p
      → handle_event crypto (event_type t) (ok p) q ≡ ok round
      → handle_frame crypto
          (stream_of (over b c q))
          (frame_of (stream_of (over b c q)) t p)
          (over b (c + (5 + length p)) q)
        ≡ ok (over_round b (c + (5 + length p)) round)
  message-round b c q t p e h =
      let s = stream_of (over b c q) in
      handle_frame-over crypto b (c + (5 + length p)) s (frame_of s t p) q
      ∙ ap (map_run (over_round b (c + (5 + length p)))) (handle_frame-payload s t p q e ∙ h)

  apply-goes_on :
      (t : ℕ) (p : Bytes) (ms : List Message) (q : PostgresResponse) {q' : PostgresResponse}
      → handle_event crypto (event_type t) (ok p) q ≡ ok (goes_on q')
      → apply_messages ((t, p) ∷ ms) q ≡ apply_messages ms q'
  unfolding apply_messages
  apply-goes_on t p ms q h = rw h refl

  apply-finished :
      (t : ℕ) (p : Bytes) (ms : List Message) (q : PostgresResponse) {q' : PostgresResponse}
      → handle_event crypto (event_type t) (ok p) q ≡ ok (finished q')
      → apply_messages ((t, p) ∷ ms) q ≡ ok (true, q')
  unfolding apply_messages
  apply-finished t p ms q h = rw h refl

  apply-stuck :
      (t : ℕ) (p : Bytes) (ms : List Message) (q : PostgresResponse)
      → ((handle_event crypto (event_type t) (ok p) q ≡ fault
            → apply_messages ((t, p) ∷ ms) q ≡ fault)
          × (handle_event crypto (event_type t) (ok p) q ≡ diverged
              → apply_messages ((t, p) ∷ ms) q ≡ diverged))
  unfolding apply_messages
  apply-stuck t p ms q = (λ h. rw h refl, λ h. rw h refl)

  apply_nil : (q : PostgresResponse) → ok (false, q) ≡ apply_messages [] q
  unfolding apply_messages
  apply_nil q = refl

  frames_loop-messages :
      (n : ℕ) (ms : List Message) (b : Bytes) (c : ℕ) (q : PostgresResponse) {fin : Bool}
      {q2 : PostgresResponse}
      → length ms < n
      → IsValid (stream_of (over b c q))
      → FitsAll ms
      → rest_of (stream_of (over b c q)) ≡ on_wire ms
      → apply_messages ms q ≡ ok (fin, q2)
      → (b' : Bytes) × (c' : ℕ) × (frames_loop crypto n (over b c q) ≡ ok (fin, over b' c' q2))
  frames_loop-messages zero ms b c q small v fits e h = absurd (omega arith)
  frames_loop-messages (suc n) [] b c q {fin} {q2} small v fits e h =
      let same : (false, q) ≡ (fin, q2) = ok-injective (apply_nil q ∙ h) in
      (
        b,
        c,
        frames_loop-none crypto n (over b c q)
              (next_frame_short (stream_of (over b c q)) v (omega (arith, ap length e)))
            ∙ ap (λ (x : Bool × PostgresResponse). ok (x.0, over b c x.1)) same,
      )
  frames_loop-messages (suc n) ((t, p) ∷ ms) b c q {fin} {q2} small v fits e h =
      let s = stream_of (over b c q) in
      let (next, payload, rest, valid) = next_frame-message s t p (on_wire ms) v fits.0 e in
      elim (Run-cases (handle_event crypto (event_type t) (ok p) q)) [
        | inl (goes_on q', k) ↦
            let (b', c', l) =
              frames_loop-messages n ms b (c + (5 + length p)) q' (omega arith) valid fits.1 rest
                (sym (apply-goes_on t p ms q k) ∙ h) in
            (
              b',
              c',
              frames_loop_on crypto n (over b c q) next (message-round b c q t p payload k) ∙ l,
            )
        | inl (finished q', k) ↦
            let same : (true, q') ≡ (fin, q2) =
              ok-injective (sym (apply-finished t p ms q k) ∙ h) in
            (
              b,
              c + (5 + length p),
              frames_loop_end crypto n (over b c q) next (message-round b c q t p payload k)
                  ∙ ap (λ (x : Bool × PostgresResponse). ok (x.0, over b (c + (5 + length p)) x.1))
                      same,
            )
        | inr (inl k) ↦ cc ((apply-stuck t p ms q).0 k)
        | inr (inr k) ↦ cc ((apply-stuck t p ms q).1 k)
      ]

  length-on_wire : (ms : List Message) → length ms ≤ length (on_wire ms)
  length-on_wire [] = omega arith
  length-on_wire ((t, p) ∷ ms) = omega (arith, length-append p (on_wire ms), length-on_wire ms)

  end_append-over :
      (len : ℕ) (b : Bytes) (c : ℕ) (fin : Bool) (q : PostgresResponse)
      → (size : ℕ) × (b' : Bytes) × (c' : ℕ) × (end_append len (fin, over b c q)
          ≡ (fin, size, over b' c' q))
  unfolding end_append
  end_append-over len b c false q = (len, b, c, refl)
  end_append-over len b c true q = (_, _, _, refl)

  -- append implements the messages: on a response with no byte left over, the bytes of whole
  -- messages that fit in a length field do to it what the messages do one after the other, up to
  -- the buffer and the cursor, and append says that it is finished exactly if a message finishes
  -- it, if no message faults.
  pub append-messages :
      (r : PostgresResponse) (ms : List Message) {fin : Bool} {q : PostgresResponse}
      → IsValid (stream_of r)
      → rest_of (stream_of r) ≡ []
      → FitsAll ms
      → apply_messages ms r ≡ ok (fin, q)
      → (size : ℕ) × (b : Bytes) × (c : ℕ) × (append crypto r (on_wire ms)
          ≡ ok (fin, size, over b c q))
  append-messages r ms {fin} {q} v e fits h =
      let wire = on_wire ms in
      let (b, c, l) =
        frames_loop-messages (rounds_for (grow r wire)) ms (r.buf ++ wire) r.cursor r
          (omega (arith, length-append r.buf wire, length-on_wire ms))
          (omega (arith, length-append r.buf wire)) fits
          (drop-append_le r.cursor r.buf wire v ∙ ap (λ x. x ++ wire) e) h in
      let (size, b', c', k) = end_append-over (length wire) b c fin q in
      (size, b', c', append-of_loop crypto r wire (fin, over b c q) l ∙ ap ok k)
