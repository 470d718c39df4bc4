-- ===== src/Response/Rounds.antt =====
-- A round of PostgresResponse::append: it leaves the buffer alone, and it returns.
use wf_postgres.Auth.Frame.{over, process_auth_request-over}
use wf_postgres.Auth.Requests.{Decodes, Replies, process_auth_request-Returns}
use wf_postgres.Auth.{process_auth_request}
use wf_postgres.Common.{
  ℕ, ◌≡◌, refl, ap, Option, none, some, ◌⊎◌, inl, inr, Run, ok, fault, diverged, Returns,
  >>=-Returns, map_run, Option-cases, ok-injective, Bytes, length, arith, [],
}
use wf_postgres.Parser.Safety.{parsers-Returns}
use wf_postgres.Parser.{
  PostgresBackendEventType, auth, error, backend_key, negotiate_protocol, ready, notification,
  notice, event_type, parse_error_response, parse_backend_key_data, parse_notification,
  parse_negotiation_response, parse_ready_for_query,
}
use wf_postgres.Response.Append.{Round, goes_on, finished, handle_event, handle_frame}
use wf_postgres.Response.{PostgresResponse, set_error_fatal}
use wf_postgres.Scram.{Crypto}
use wf_postgres.Stream.{PostgresFrame, PostgresStream, payload_bytes}
use wf_postgres.Types.{no_error}
use wf_postgres.Wire.Bounds.{Any}

abbrev pub over_round : Bytes → ℕ → Round → Round
over_round buf cursor (goes_on r) = goes_on (over buf cursor r)
over_round buf cursor (finished r) = finished (over buf cursor r)

module _ (crypto : Crypto) (buf : Bytes) (cursor : ℕ) where
  payload-over :
      (t : PostgresBackendEventType) (p : Bytes) (r : PostgresResponse)
      → handle_event crypto t (ok p) (over buf cursor r)
        ≡ map_run (over_round buf cursor) (handle_event crypto t (ok p) r)
  unfolding handle_event
  payload-over auth p r = ground (
    arith,
    process_auth_request-over crypto buf cursor p (record r {
      auth = elim r.auth [ none ↦ some (record { scram_auth = none }) | some a ↦ some a ];
    }),
  )
  payload-over _ p r = ground arith

  no_payload-over :
      (t : PostgresBackendEventType) (r : PostgresResponse)
      → (handle_event crypto t fault (over buf cursor r)
          ≡ map_run (over_round buf cursor) (handle_event crypto t fault r))
        × (handle_event crypto t diverged (over buf cursor r)
            ≡ map_run (over_round buf cursor) (handle_event crypto t diverged r))
  unfolding handle_event
  no_payload-over auth r = (refl, refl)
  no_payload-over _ r = (refl, refl)

  -- The effect of an event does not depend on what is buffered, and leaves it alone.
  pub handle_event-over :
      (t : PostgresBackendEventType) (payload : Run Bytes) (r : PostgresResponse)
      → handle_event crypto t payload (over buf cursor r)
        ≡ map_run (over_round buf cursor) (handle_event crypto t payload r)
  handle_event-over t (ok p) r = payload-over t p r
  handle_event-over t fault r = (no_payload-over t r).0
  handle_event-over t diverged r = (no_payload-over t r).1

module _ (crypto : Crypto) where
  frame-over :
      (pointer : Option ℕ) (buf : Bytes) (cursor : ℕ) (s : PostgresStream) (t size n : ℕ)
      (r : PostgresResponse)
      → let f : PostgresFrame = record {
        type = t;
        payload = pointer;
        payload_size = size;
        frame_size = n;
      } in
        handle_frame crypto s f (over buf cursor r)
        ≡ map_run (over_round buf cursor) (handle_frame crypto s f r)
  unfolding handle_frame set_error_fatal
  frame-over none buf cursor s t size n r = refl
  frame-over (some p) buf cursor s t size n r =
      handle_event-over crypto buf cursor (event_type t) (payload_bytes s _) r

  pub handle_frame-over :
      (buf : Bytes) (cursor : ℕ) (s : PostgresStream) (f : PostgresFrame) (r : PostgresResponse)
      → handle_frame crypto s f (over buf cursor r)
        ≡ map_run (over_round buf cursor) (handle_frame crypto s f r)
  handle_frame-over buf cursor s f r =
      frame-over f.payload buf cursor s f.type f.payload_size f.frame_size r

  -- The state after a round.
  abbrev pub after_round : Round → PostgresResponse
  after_round (goes_on r) = r
  after_round (finished r) = r

  abbrev pub Keeps : PostgresResponse → Round → Type 0
  Keeps r round = ((after_round round).buf ≡ r.buf) × ((after_round round).cursor ≡ r.cursor)

  pub over_round-Keeps :
      (r : PostgresResponse) (m : Run Round)
      → m ≡ map_run (over_round r.buf r.cursor) m
      → Returns m Any
      → Returns m (Keeps r)
  over_round-Keeps r (ok (goes_on r')) e h = (
    ap (λ x. (after_round x).buf) (ok-injective e),
    ap (λ x. (after_round x).cursor) (ok-injective e),
  )
  over_round-Keeps r (ok (finished r')) e h = (
    ap (λ x. (after_round x).buf) (ok-injective e),
    ap (λ x. (after_round x).cursor) (ok-injective e),
  )
  over_round-Keeps r fault e h = h
  over_round-Keeps r diverged e h = h

  -- The authentication of the response, or a new one.
  abbrev with_auth : PostgresResponse → PostgresResponse
  with_auth r = record r {
    auth = elim r.auth [ none ↦ some (record { scram_auth = none }) | some a ↦ some a ];
  }

  module _ (decodes : Decodes crypto) where
    handle_event-Returns :
        (t : PostgresBackendEventType) (p : Bytes) (r : PostgresResponse)
        → Returns (handle_event crypto t (ok p) r) Any
    unfolding handle_event
    handle_event-Returns error p r =
        >>=-Returns (parse_error_response p r.error) _ Any Any
          (parsers-Returns p r.error r.backend_key r.notifications r.negotiated [] 0).0 λ _ _. tt
    handle_event-Returns notice p r =
        >>=-Returns (parse_error_response p no_error) _ Any Any
          (parsers-Returns p no_error r.backend_key r.notifications r.negotiated [] 0).0 λ _ _. tt
    handle_event-Returns backend_key p r =
        >>=-Returns (parse_backend_key_data p r.backend_key) _ Any Any
          (parsers-Returns p r.error r.backend_key r.notifications r.negotiated [] 0).1 λ _ _. tt
    handle_event-Returns notification p r =
        >>=-Returns (parse_notification p r.notifications) _ Any Any
          (parsers-Returns p r.error r.backend_key r.notifications r.negotiated [] 0).2 λ _ _. tt
    handle_event-Returns negotiate_protocol p r =
        >>=-Returns (parse_negotiation_response p r.negotiated) _ Any Any
          (parsers-Returns p r.error r.backend_key r.notifications r.negotiated [] 0).3 λ _ _. tt
    handle_event-Returns ready p r =
        >>=-Returns (parse_ready_for_query p r.transaction_state) _ Any Any
          (parsers-Returns p r.error r.backend_key r.notifications r.negotiated []
            r.transaction_state).5
          λ _ _. tt
    handle_event-Returns auth p r =
        let r' = with_auth r in
        >>=-Returns (process_auth_request crypto p r') _ (Replies r') Any
          (process_auth_request-Returns crypto decodes p r') λ _ _. tt
    handle_event-Returns _ p r = tt

    frame-Returns :
        (s : PostgresStream) (f : PostgresFrame) (r : PostgresResponse)
        → ((f.payload ≡ none)
            ⊎ ((p : Bytes) × (payload_bytes s f ≡ ok p) × (length p ≡ f.payload_size)))
        → Returns (handle_frame crypto s f r) Any
    unfolding handle_frame
    frame-Returns s f r (inl e) = rw (e, handle_frame) tt
    frame-Returns s f r (inr (p, e, _)) = elim (Option-cases f.payload) [
      | inl n ↦ rw (n, handle_frame) tt
      | inr (x, n) ↦ rw (n, e, handle_frame) (handle_event-Returns (event_type f.type) p r)
    ]

    -- A round with a frame that next_frame gave returns, with the buffer and the cursor as before.
    pub handle_frame-Keeps :
        (s : PostgresStream) (f : PostgresFrame) (r : PostgresResponse)
        → ((f.payload ≡ none)
            ⊎ ((p : Bytes) × (payload_bytes s f ≡ ok p) × (length p ≡ f.payload_size)))
        → Returns (handle_frame crypto s f r) (Keeps r)
    handle_frame-Keeps s f r h =
        over_round-Keeps r (handle_frame crypto s f r) (handle_frame-over r.buf r.cursor s f r)
          (frame-Returns s f r h)
