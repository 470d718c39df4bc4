-- ===== src/Tests/ResponseTests.antt =====
-- Inputs for src/protocol/PostgresResponse.cc and src/auth/PostgresAuth.cc.
use wf_postgres.Auth.Requests.{Decodes, Replies, process_auth_request-Returns}
use wf_postgres.Auth.{process_auth_request}
use wf_postgres.Common.{
  ℕ, List, ◌≡◌, refl, true, false, [], ◌∷◌, ◌++◌, none, ok, Bytes, Returns, codes, arith, ◌≤◌,
  length, some, subst,
}
use wf_postgres.Parser.{event_type, parse_error_response, error_fields, parse_ready_for_query}
use wf_postgres.Types.{no_error}
use wf_postgres.Response.Append.{handle_event, handle_frame, frames_loop, end_append, append}
use wf_postgres.Auth.Frame.{over}
use wf_postgres.Request.Frames.{Message, on_wire}
use wf_postgres.Response.Messages.{apply_messages, append-messages}
use wf_postgres.Response.Chunks.{append-append}
use wf_postgres.Response.Invariant.{IsWaiting, IsAppended, append-IsAppended}
use wf_postgres.Response.{PostgresResponse, new_response}
use wf_postgres.Scram.{Crypto, pad_length, new_scram}
use wf_postgres.Stream
use wf_postgres.Stream.FrameBounds.{Framing, ends, frame}
use wf_postgres.Stream.Frames.{message}
use wf_postgres.Stream.{
  PostgresStream, next_frame, next_message, load, payload_bytes, buffered_size, truncate_unconsumed,
}
use wf_postgres.Wire.{read_uint32}

-- Functions of the right shape, and a decoder that refuses every text.
abbrev toy_crypto : Crypto
toy_crypto = record {
  md5 = λ b. b;
  sha256 = λ b. b;
  hmac = λ k m. k;
  encode_block = λ b. b;
  decode_block = λ b. none;
  pbkdf2 = λ p s i. none;
}

toy_crypto-Decodes : Decodes toy_crypto
toy_crypto-Decodes b64 out e = cc

-- A notice, and then the message that ends an answer, cut in the middle of the notice's header.
abbrev first_bytes : Bytes
first_bytes = b'N' ∷ 0 ∷ 0 ∷ []

abbrev later_bytes : Bytes
later_bytes = 0 ∷ 5 ∷ 0 ∷ (message b'Z' (b'T' ∷ []) ++ b'Z' ∷ [])

abbrev fresh : PostgresResponse
fresh = new_response []

abbrev begun : PostgresResponse
begun = record fresh { buf = first_bytes }

abbrev answered : PostgresResponse
answered = record fresh {
  buf = first_bytes ++ 0 ∷ 5 ∷ 0 ∷ message b'Z' (b'T' ∷ []);
  cursor = 12;
  notices = no_error ∷ [];
  transaction_state = b'T';
  ready_for_query = true;
}

fresh-IsWaiting : IsWaiting fresh
unfolding next_frame next_message buffered_size
fresh-IsWaiting = (omega arith, refl)

begun_test : append toy_crypto fresh first_bytes ≡ ok (false, 3, begun)
unfolding append Stream.append frames_loop next_frame next_message buffered_size end_append
begun_test = refl

answered_test : append toy_crypto begun later_bytes ≡ ok (true, 9, answered)
unfolding append Stream.append frames_loop next_frame next_message buffered_size end_append load
    read_uint32 handle_frame handle_event event_type payload_bytes parse_error_response error_fields
    parse_ready_for_query truncate_unconsumed
answered_test = refl

all_bytes-Framing : Framing (first_bytes ++ later_bytes)
all_bytes-Framing =
    frame b'N' 0 0 0 5 (0 ∷ (message b'Z' (b'T' ∷ []) ++ b'Z' ∷ [])) refl (omega arith)
      (frame b'Z' 0 0 0 5 (b'T' ∷ b'Z' ∷ []) refl (omega arith) (ends (omega arith)))

append-IsAppended_example :
    Returns
      (append toy_crypto fresh (first_bytes ++ later_bytes))
      (IsAppended fresh (first_bytes ++ later_bytes))
append-IsAppended_example =
    append-IsAppended toy_crypto toy_crypto-Decodes fresh (first_bytes ++ later_bytes)
      fresh-IsWaiting all_bytes-Framing

append-append_example :
    append toy_crypto fresh (first_bytes ++ later_bytes) ≡ ok (true, 12, answered)
append-append_example =
    append-append toy_crypto toy_crypto-Decodes fresh first_bytes later_bytes fresh-IsWaiting
      all_bytes-Framing begun_test answered_test

-- A decoder that gives each text back, and an exchange whose first message has been sent.
abbrev echo_crypto : Crypto
echo_crypto = record toy_crypto { decode_block = λ b. some b }

pad_length-length : (b : Bytes) → pad_length b ≤ length b
unfolding pad_length
pad_length-length [] = omega arith
pad_length-length (x ∷ []) = ground arith
pad_length-length (x ∷ y ∷ []) = ground arith
pad_length-length (x ∷ y ∷ z ∷ s) = omega (arith, pad_length-length (y ∷ z ∷ s))

echo_crypto-Decodes : Decodes echo_crypto
echo_crypto-Decodes b64 out e =
    let same : b64 ≡ out = cc in subst (λ o. pad_length b64 ≤ length o) same (pad_length-length b64)

abbrev in_exchange : PostgresResponse
in_exchange = record fresh {
  auth = some (record { scram_auth = some (record new_scram { client_nonce = codes "x" }) });
}

abbrev server_first : Bytes
server_first = 0 ∷ 0 ∷ 0 ∷ 11 ∷ codes "r=xy,s=ab==,i=1"

process_auth_request-Returns_example :
    Returns (process_auth_request echo_crypto server_first in_exchange) (Replies in_exchange)
process_auth_request-Returns_example =
    process_auth_request-Returns echo_crypto echo_crypto-Decodes server_first in_exchange

abbrev two_messages : List Message
two_messages = (b'N', 0 ∷ []) ∷ (b'Z', b'T' ∷ []) ∷ []

abbrev open_transaction : PostgresResponse
open_transaction = record fresh {
  notices = no_error ∷ [];
  transaction_state = b'T';
  ready_for_query = true;
}

two_messages_test : apply_messages toy_crypto two_messages fresh ≡ ok (true, open_transaction)
unfolding apply_messages handle_event event_type parse_error_response error_fields
    parse_ready_for_query load
two_messages_test = refl

append-messages_example :
    (size : ℕ) × (b : Bytes) × (c : ℕ) × (append toy_crypto fresh (on_wire two_messages)
      ≡ ok (true, size, over b c open_transaction))
append-messages_example =
    append-messages toy_crypto fresh two_messages (omega arith) refl (omega arith) two_messages_test
