-- ===== src/Tests/ScramTests.antt =====
-- Inputs for src/auth/ScramAuth.cc.
use wf_postgres.Common.{
  ◌≡◌, ◌↔◌, refl, true, [], ◌∷◌, ◌++◌, some, ok, Bytes, codes, length, ℕ, zero, suc, str_eq, stoi,
}
use wf_postgres.Scram.Agreement.{
  Proves, IsSigned, generate_client_final_message-Proves, verify_server_signature_iff,
}
use wf_postgres.Scram.{
  Crypto, ScramAuth, new_scram, pad_length, read_attribute, read_attributes, xor_bytes,
  base64_decode, base64_encode, prove, answer, generate_client_final_message,
  verify_server_signature,
}

repeat : ℕ → ℕ → Bytes
repeat zero b = []
repeat (suc n) b = b ∷ repeat n b

-- An HMAC of 32 bytes for every key, and an encoding that is the text itself.
abbrev flat_crypto : Crypto
flat_crypto = record {
  md5 = λ b. b;
  sha256 = λ b. b;
  hmac = λ k m. repeat 32 (length k);
  encode_block = λ b. b;
  decode_block = λ b. some b;
  pbkdf2 = λ p s i. some (repeat 32 7);
}

flat_size : (key m : Bytes) → length (flat_crypto.hmac key m) ≡ 32
unfolding repeat
flat_size key m = refl

abbrev client : ScramAuth
client = record new_scram {
  password = codes "pencil";
  client_nonce = codes "fyko";
  client_first_message_bare = codes "n=,r=fyko";
}

abbrev server_first : Bytes
server_first = codes "r=fyko3rf,s=QSXC,i=4096"

abbrev client_final : Bytes
client_final = codes "c=biws,r=fyko3rf,p=" ++ repeat 32 0

abbrev client_after : ScramAuth
client_after = record client {
  salted_password_cache = repeat 32 7;
  auth_message = codes "n=,r=fyko,r=fyko3rf,s=QSXC,i=4096,c=biws,r=fyko3rf";
}

client_final_test :
    generate_client_final_message flat_crypto client server_first ≡ ok (client_final, client_after)
unfolding generate_client_final_message read_attributes read_attribute answer prove base64_decode
    base64_encode pad_length xor_bytes str_eq stoi repeat
client_final_test = refl

generate_client_final_message-Proves_example :
    Proves flat_crypto client server_first client_final client_after
generate_client_final_message-Proves_example =
    generate_client_final_message-Proves flat_crypto flat_size client server_first client_final_test
      refl

abbrev server_final : Bytes
server_final = codes "v=" ++ repeat 32 32

server_final_test : verify_server_signature flat_crypto client_after server_final ≡ ok true
unfolding verify_server_signature base64_decode pad_length repeat str_eq
server_final_test = refl

verify_server_signature_iff_example :
    (verify_server_signature flat_crypto client_after server_final ≡ ok true)
    ↔ IsSigned flat_crypto client_after server_final
verify_server_signature_iff_example =
    verify_server_signature_iff flat_crypto client_after server_final
