-- ===== src/Session/Handshake.antt =====
-- The handshake of cli_tool/include/session.hpp: sign_server_hello, validate_token and
-- handle_handshake_packet.
pub mod Authenticates
pub mod Unverified
pub mod Verdicts
pub mod Answers
use zapshare.Base.{
  ℕ, Bool, true, false, not, Bytes, codes, List, [], ◌++◌, Option, none, some, Outcome, returned,
  thrown, aborted, and_then, is_empty, if◌then◌else◌,
}
use zapshare.Config.{Transfers, Datagram}
use zapshare.Crypto.{
  IdentityKeyPair, EphemeralKeyPair, generate_identity_keypair, generate_ephemeral_keypair,
  random_nonce, sign,
}
use zapshare.Platform.{Platform}
use zapshare.Protocol.{
  ProtocolVersion, unspecified, version_1, unknown_version, version_number, bad_packet,
  invalid_token, ClientHello, ServerHello, HandshakePacket, client_hello, server_hello,
  handshake_finish, handshake_error, no_handshake_body,
}
use zapshare.Session.{Session, authenticated, closed, send_handshake_packet, send_handshake_error}
use zapshare.Utils.Metadata.{get_transfer_metadata}
use zapshare.Utils.Text.{to_string}

-- What the sender's signature is made over.
pub server_transcript : ServerHello → Bytes
server_transcript hello =
    codes "server_hello"
    ++ (to_string (version_number hello.version)
        ++ (hello.transfer_id
            ++ (hello.sender_nonce
                ++ (hello.sender_identity.long_term_public_key
                    ++ hello.sender_identity.ephemeral_public_key))))

abbrev pub is_version_1 : ProtocolVersion → Bool
is_version_1 version_1 = true
is_version_1 unspecified = false
is_version_1 (unknown_version n) = false

module _ (p : Platform) where
  open p use {World, sodium, http, json, codec}

  pub sign_server_hello : ServerHello → IdentityKeyPair → Outcome Bytes
  sign_server_hello hello sender_identity = sign sodium (server_transcript hello) sender_identity

  -- `catch (...)`: an exception is the answer false; a stop of the process is none.
  abbrev token_outcome : Session → Outcome Transfers → World → Outcome (Bool × Session × World)
  token_outcome s (returned t) w = returned (true, record s { transfer_metadata = t }, w)
  token_outcome s thrown w = returned (false, s, w)
  token_outcome s aborted w = aborted

  pub validate_token : Bytes → Session → World → Outcome (Bool × Session × World)
  validate_token token s w =
      let (t, w') = get_transfer_metadata json http token w in token_outcome s t w'

  -- The answer to an accepted hello: fresh keys and nonce, signed with the fresh identity key.
  build_server_hello : ClientHello → World → Outcome (ServerHello × World)
  unfolding sign_server_hello
  build_server_hello hello w =
      and_then (generate_identity_keypair sodium w) λ (server_identity, w1).
        and_then (generate_ephemeral_keypair sodium w1) λ (server_ephemeral, w2).
          and_then (random_nonce sodium 32 w2) λ (server_nonce, w3).
            let unsigned : ServerHello = record {
              version = version_1;
              transfer_id = hello.transfer_id;
              sender_nonce = server_nonce;
              sender_identity = record {
                long_term_public_key = server_identity.public_key;
                ephemeral_public_key = server_ephemeral.public_key;
              };
              sender_signature = [];
            } in
            and_then (sign_server_hello unsigned server_identity)
              λ signature. returned (record unsigned { sender_signature = signature }, w3)

  abbrev refuse : Session → World → List Datagram → Outcome (Session × List Datagram × World)
  refuse s w sent = returned (record s { state = closed }, sent, w)

  -- Behind the checks of version and token.
  accept : ClientHello → Session → World → Outcome (Session × List Datagram × World)
  unfolding build_server_hello
  accept hello s w = and_then (build_server_hello hello w) λ (response, w').
      let s' = record s { state = authenticated } in
      returned (s', send_handshake_packet p s' (server_hello response), w')

  handle_client_hello : ClientHello → Session → World → Outcome (Session × List Datagram × World)
  unfolding validate_token accept
  handle_client_hello hello s w =
      if not (is_version_1 hello.version)
      then refuse s w (send_handshake_error p s bad_packet (codes "Unsupported protocol version"))
      else if is_empty hello.token
      then refuse s w (send_handshake_error p s invalid_token (codes "Missing Token!"))
      else and_then (validate_token hello.token s w) λ (valid, s', w').
        if not valid
        then refuse s' w' (send_handshake_error p s' invalid_token (codes "Invalid Token"))
        else accept hello s' w'

  abbrev unexpected : Session → World → Outcome (Session × List Datagram × World)
  unexpected s w =
      returned (s, send_handshake_error p s bad_packet (codes "Expected client hello!"), w)

  handshake_body :
      Option HandshakePacket → Session → World → Outcome (Session × List Datagram × World)
  unfolding handle_client_hello
  handshake_body none s w = returned (s, [], w)
  handshake_body (some (client_hello hello)) s w = handle_client_hello hello s w
  handshake_body (some (server_hello hello)) s w = unexpected s w
  handshake_body (some (handshake_finish finish)) s w = unexpected s w
  handshake_body (some (handshake_error e)) s w = unexpected s w
  handshake_body (some no_handshake_body) s w = unexpected s w

  unfoldable pub handle_handshake_packet :
      Bytes → Session → World → Outcome (Session × List Datagram × World)
  unfolding handshake_body
  handle_handshake_packet bytes s w = handshake_body (codec.handshake_from_string bytes) s w
