-- ===== src/Client/Handshake.antt =====
-- The handshake of cli_tool/src/client.cpp: build_peer_candidates, sign_client_hello and
-- perform_handshake. As in Client.Receive, what recv_with_timeout gives is a list of events.
pub mod Connects
pub mod Candidates
pub mod Hello
use zapshare.Base.{
  ℕ, zero, suc, ◌%◌, ◌^◌, Bool, true, false, not, ◌&&◌, Bytes, codes, List, [], ◌∷◌, ◌++◌, map,
  Option, none, some, Outcome, returned, thrown, aborted, and_then, is_empty, bytes_eq, ◌==◌,
  if◌then◌else◌,
}
use zapshare.Client.Receive.{Event, received, timeout, delivered}
use zapshare.Config.{Transfers, Endpoint, Datagram, max_retries}
use zapshare.Crypto.{
  IdentityKeyPair, generate_identity_keypair, generate_ephemeral_keypair, random_nonce, sign,
}
use zapshare.Platform.{Platform}
use zapshare.Protocol.{
  version_1, version_number, ClientHello, ServerHello, HandshakePacket, client_hello, server_hello,
  handshake_finish, handshake_error, no_handshake_body,
}
use zapshare.Protocol.Codec.{Codec}
use zapshare.Utils.Text.{to_string}

-- A port of 32 bits becomes an endpoint's port of 16 bits.
unfoldable pub build_peer_candidates : (Bytes → Outcome Bytes) → Transfers → Outcome (List Endpoint)
build_peer_candidates make_address t = and_then (make_address t.sender_ip) λ public'.
    if not (is_empty t.sender_local_ip) && not (t.sender_local_port == 0)
    then (and_then (make_address t.sender_local_ip) λ local'. returned (
        record { address = public'; port = t.sender_port % 2 ^ 16 }
        ∷ record { address = local'; port = t.sender_local_port % 2 ^ 16 }
        ∷ []))
    else returned (record { address = public'; port = t.sender_port % 2 ^ 16 } ∷ [])

-- What the receiver's signature is made over.
unfoldable pub client_transcript : ClientHello → Bytes
client_transcript hello =
    codes "client_hello"
    ++ (to_string (version_number hello.version)
        ++ (hello.transfer_id
            ++ (hello.token
                ++ (hello.receiver_nonce
                    ++ (hello.receiver_identity.long_term_public_key
                        ++ hello.receiver_identity.ephemeral_public_key)))))

-- Whether an answer connects: a server hello with the token for its transfer's id.
abbrev pub is_answer : Bytes → Option HandshakePacket → Bool
is_answer token (some (server_hello hello)) = bytes_eq hello.transfer_id token
is_answer token (some (client_hello hello)) = false
is_answer token (some (handshake_finish finish)) = false
is_answer token (some (handshake_error e)) = false
is_answer token (some no_handshake_body) = false
is_answer token none = false

abbrev pub send_all : Bytes → List Endpoint → List Datagram
send_all bytes peers = map (λ p. record { to = p; bytes = bytes }) peers

-- How the loop ends: connected, out of retries, or still waiting where the events end.
pub data Connection : Type 0 where
  connected : Endpoint → Connection
  gave_up : Connection
  waits : Connection

module _ (codec : Codec) where
  abbrev pub answers : Bytes → Event → Bool
  answers token timeout = false
  answers token (received sender bytes) =
      is_answer token (codec.handshake_from_string (delivered bytes))

  abbrev pub sender_of : Event → Connection
  sender_of timeout = waits
  sender_of (received sender bytes) = connected sender

  -- The rounds that are left; the events behind the answer are not consumed.
  unfoldable pub handshake_rounds :
      ℕ → Bytes → Bytes → List Endpoint → List Event → Connection × List Datagram × List Event
  handshake_rounds zero token bytes peers es = (gave_up, [], es)
  handshake_rounds (suc n) token bytes peers [] = (waits, send_all bytes peers, [])
  handshake_rounds (suc n) token bytes peers (e ∷ es) =
      let (result, sent, left) = handshake_rounds n token bytes peers es in
      if answers token e
      then (sender_of e, send_all bytes peers, es)
      else (result, send_all bytes peers ++ sent, left)

module _ (p : Platform) where
  open p use {World, sodium, codec}

  unfoldable pub sign_client_hello : ClientHello → IdentityKeyPair → Outcome Bytes
  unfolding client_transcript
  sign_client_hello hello receiver_identity =
      sign sodium (client_transcript hello) receiver_identity

  unfoldable pub build_client_hello : Bytes → World → Outcome (ClientHello × World)
  unfolding sign_client_hello
  build_client_hello token w =
      and_then (generate_identity_keypair sodium w) λ (receiver_identity, w1).
        and_then (generate_ephemeral_keypair sodium w1) λ (receiver_ephemeral, w2).
          and_then (random_nonce sodium 32 w2) λ (receiver_nonce, w3).
            let unsigned : ClientHello = record {
              version = version_1;
              transfer_id = token;
              token = token;
              receiver_nonce = receiver_nonce;
              receiver_identity = record {
                long_term_public_key = receiver_identity.public_key;
                ephemeral_public_key = receiver_ephemeral.public_key;
              };
              receiver_signature = [];
            } in
            and_then (sign_client_hello unsigned receiver_identity)
              λ signature. returned (record unsigned { receiver_signature = signature }, w3)

  -- Behind the hole punch: the hello is made once and sent in every round.
  unfoldable pub perform_handshake :
      List Endpoint
      → Bytes
      → List Event
      → World
      → Outcome (Connection × List Datagram × List Event × World)
  unfolding build_client_hello
  perform_handshake peers token es w = and_then (build_client_hello token w) λ (hello, w').
      let bytes = (codec.handshake_to_string (client_hello hello)).1 in
      let (result, sent, left) = handshake_rounds codec max_retries token bytes peers es in
      returned (result, sent, left, w')
