-- ===== src/Session.antt =====
-- cli_tool/include/session.hpp: the sender's side of a transfer. A handler takes the session and
-- gives the new one with the datagrams that it sends, in order. `m_chunk_buffer` holds what `read`
-- returned and nothing else; prints are left out, and `send_to` hands each datagram to the network.
pub mod Stream
pub mod Control
pub mod Handshake
pub mod Packets
use zapshare.Base.{
  ℕ, ◌+◌, ◌%◌, ◌^◌, Bool, true, false, not, Bytes, codes, List, [], ◌∷◌, ◌++◌, Option, none, some,
  length, Outcome, returned, thrown, aborted, and_then, is_empty, ◌==◌, if◌then◌else◌,
}
use zapshare.Config.{Transfers, no_transfers, Endpoint, Datagram, payload_size, size_modulus}
use zapshare.Crypto.{
  IdentityKeyPair, generate_identity_keypair, generate_ephemeral_keypair, random_nonce, sign,
}
use zapshare.Platform.{Platform}
use zapshare.Protocol
use zapshare.Protocol.{
  ProtocolVersion, version_1, ErrorCode, bad_packet, invalid_token, transfer_not_found, ClientHello,
  ServerHello, HandshakePacket, client_hello, server_hello, handshake_finish, handshake_error,
  no_handshake_body, GetRequest, Ack, ControlPacket, get, ack, chunk, done, transfer_error,
  no_control_body, version_number,
}
use zapshare.Utils.Text.{to_string}
use zapshare.Utils.Metadata.{get_transfer_metadata}
use Stream.{closed_stream}
use Stream.{Stream as FileStream}

pub data State : Type 0 where
  waiting_hello authenticated transferring closed : State

pub record Session : Type 0 where
  pub remote_endpoint : Endpoint
  pub file_path : Bytes
  pub state : State
  pub file : FileStream
  pub file_id : Bytes
  pub offset : ℕ
  pub last_chunk_size : ℕ
  pub last_chunk_done : Bool
  pub last_packet_cache : Bytes
  pub transfer_metadata : Transfers

-- The constructor, with the members' initialisers.
unfoldable pub new_session : Endpoint → Bytes → Session
new_session remote_endpoint file_path = record {
  remote_endpoint = remote_endpoint;
  file_path = file_path;
  state = waiting_hello;
  file = closed_stream;
  file_id = [];
  offset = 0;
  last_chunk_size = 0;
  last_chunk_done = false;
  last_packet_cache = [];
  transfer_metadata = no_transfers;
}

-- `start` only prints: the session and the text, whose line ends in the byte 10.
unfoldable pub start : Session → Session × Bytes
start s = (s, codes "Session ready. Waiting for peer..." ++ (10 ∷ []))

abbrev pub is_closed_state : State → Bool
is_closed_state closed = true
is_closed_state waiting_hello = false
is_closed_state authenticated = false
is_closed_state transferring = false

abbrev pub is_closed : Session → Bool
is_closed s = is_closed_state s.state

module _ (p : Platform) where
  open p use {World, sodium, http, json, codec, read_file}

  -- `m_socket.send_to(asio::buffer(msg), m_remote_endpoint)`, send_message too.
  unfoldable pub send_message : Session → Bytes → List Datagram
  send_message s msg = record { to = s.remote_endpoint; bytes = msg } ∷ []

  unfoldable pub send_handshake_packet : Session → HandshakePacket → List Datagram
  unfolding send_message
  send_handshake_packet s packet =
      let (fine, bytes) = codec.handshake_to_string packet in
      if fine then send_message s bytes else []

  unfoldable pub send_control_packet : Session → ControlPacket → List Datagram
  unfolding send_message
  send_control_packet s packet =
      let (fine, bytes) = codec.control_to_string packet in
      if fine then send_message s bytes else []

  unfoldable pub send_handshake_error : Session → ErrorCode → Bytes → List Datagram
  unfolding send_handshake_packet
  send_handshake_error s code message =
      send_handshake_packet s (handshake_error (record { code = code; message = message }))

  unfoldable pub send_control_error : Session → Bytes → ErrorCode → Bytes → List Datagram
  unfolding send_control_packet
  send_control_error s transfer_id code message =
      send_control_packet s
        (transfer_error (record { transfer_id = transfer_id; code = code; message = message }))
