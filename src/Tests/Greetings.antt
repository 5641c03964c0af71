-- ===== src/Tests/Greetings.antt =====
-- A codec with the laws of the handshake's packets: a text with its length in front, one after the
-- other.
use zapshare.Base.{
  ℕ, zero, suc, ◌+◌, ◌≤◌, ◌≡◌, refl, sym, ap, true, Bytes, [], ◌∷◌, ◌++◌, Option, none, some,
  length, arith, length-append, take-append_length, drop-append_length,
}
use zapshare.Protocol.{
  ProtocolVersion, unspecified, version_1, unknown_version, version_number, ClientHello,
  ServerHello, HandshakePacket, client_hello, server_hello, handshake_finish, handshake_error,
  no_handshake_body,
}
use zapshare.Protocol.Codec.{Codec, CodecLaws, HandshakeLaws, handshake_texts, handshake_overhead}
use zapshare.Tests.Json.{entry}
use zapshare.Tests.Wire.{wire, wire-laws}

abbrev number_version : ℕ → ProtocolVersion
number_version zero = unspecified
number_version (suc zero) = version_1
number_version (suc (suc n)) = unknown_version (suc (suc n))

-- A text in front of others.
abbrev put_text : Bytes → Bytes → Bytes
put_text s behind = length s ∷ (s ++ behind)

abbrev put_hello : HandshakePacket → Bytes
put_hello (client_hello h) =
    0
    ∷ version_number h.version
    ∷ put_text h.transfer_id (
        put_text h.token (
          put_text h.receiver_nonce (
            put_text h.receiver_identity.long_term_public_key
              (put_text h.receiver_identity.ephemeral_public_key h.receiver_signature))))
put_hello (server_hello h) =
    1
    ∷ version_number h.version
    ∷ put_text h.transfer_id (
        put_text h.sender_nonce (
          put_text h.sender_identity.long_term_public_key
            (put_text h.sender_identity.ephemeral_public_key h.sender_signature)))
put_hello (handshake_finish f) = 2 ∷ put_text f.transfer_id f.transcript_proof
put_hello (handshake_error e) = 3 ∷ e.message
put_hello no_handshake_body = []

abbrev take_client : ℕ → Bytes → HandshakePacket
take_client v s0 =
    let (transfer_id, s1) = entry s0 in
    let (token, s2) = entry s1 in
    let (nonce, s3) = entry s2 in
    let (long_term, s4) = entry s3 in
    let (ephemeral, signature) = entry s4 in
    client_hello (record {
      version = number_version v;
      transfer_id = transfer_id;
      token = token;
      receiver_nonce = nonce;
      receiver_identity = record {
        long_term_public_key = long_term;
        ephemeral_public_key = ephemeral;
      };
      receiver_signature = signature;
    })

abbrev take_server : ℕ → Bytes → HandshakePacket
take_server v s0 =
    let (transfer_id, s1) = entry s0 in
    let (nonce, s2) = entry s1 in
    let (long_term, s3) = entry s2 in
    let (ephemeral, signature) = entry s3 in
    server_hello (record {
      version = number_version v;
      transfer_id = transfer_id;
      sender_nonce = nonce;
      sender_identity = record {
        long_term_public_key = long_term;
        ephemeral_public_key = ephemeral;
      };
      sender_signature = signature;
    })

abbrev take_hello : Bytes → Option HandshakePacket
take_hello [] = some no_handshake_body
take_hello (tag ∷ []) = none
take_hello (zero ∷ v ∷ s) = some (take_client v s)
take_hello (suc zero ∷ v ∷ s) = some (take_server v s)
take_hello (suc (suc tag) ∷ v ∷ s) = none

abbrev pub greeting_wire : Codec
greeting_wire = record wire {
  handshake_to_string = λ packet. (true, put_hello packet);
  handshake_from_string = take_hello;
}

pub greeting_wire-control : CodecLaws greeting_wire
greeting_wire-control = record {
  control_serializes = wire-laws.control_serializes;
  control_visible = wire-laws.control_visible;
  control_round_trip = wire-laws.control_round_trip;
  control_size = wire-laws.control_size;
}

client_round_trip :
    (h : ClientHello)
    → h.version ≡ version_1
    → take_hello (put_hello (client_hello h)) ≡ some (client_hello h)
client_round_trip h v =
    let kept = ap (λ x. some (client_hello (record h { version = x }))) (sym v) in
    simp (v, take-append_length, drop-append_length) kept

server_round_trip :
    (h : ServerHello)
    → h.version ≡ version_1
    → take_hello (put_hello (server_hello h)) ≡ some (server_hello h)
server_round_trip h v =
    let kept = ap (λ x. some (server_hello (record h { version = x }))) (sym v) in
    simp (v, take-append_length, drop-append_length) kept

put_hello-size :
    (p : HandshakePacket) → length (put_hello p) ≤ handshake_texts p + handshake_overhead
put_hello-size (client_hello h) =
    let i = h.receiver_identity in
    let ephemeral = put_text i.ephemeral_public_key h.receiver_signature in
    let long_term = put_text i.long_term_public_key ephemeral in
    let nonce = put_text h.receiver_nonce long_term in
    omega (
      arith,
      length-append h.transfer_id (put_text h.token nonce),
      length-append h.token nonce,
      length-append h.receiver_nonce long_term,
      length-append i.long_term_public_key ephemeral,
      length-append i.ephemeral_public_key h.receiver_signature,
    )
put_hello-size (server_hello h) =
    let i = h.sender_identity in
    let ephemeral = put_text i.ephemeral_public_key h.sender_signature in
    let long_term = put_text i.long_term_public_key ephemeral in
    omega (
      arith,
      length-append h.transfer_id (put_text h.sender_nonce long_term),
      length-append h.sender_nonce long_term,
      length-append i.long_term_public_key ephemeral,
      length-append i.ephemeral_public_key h.sender_signature,
    )
put_hello-size (handshake_finish f) = omega (arith, length-append f.transfer_id f.transcript_proof)
put_hello-size (handshake_error e) = omega arith
put_hello-size no_handshake_body = omega arith

pub greeting_wire-laws : HandshakeLaws greeting_wire
greeting_wire-laws = record {
  handshake_serializes = λ p. refl;
  client_hello_round_trip = λ h v i k. client_round_trip h v;
  server_hello_round_trip = λ h v i. server_round_trip h v;
  handshake_size = put_hello-size;
}
