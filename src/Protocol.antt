-- ===== src/Protocol.antt =====
-- proto/v1/common.proto, handshake.proto and control.proto: the messages of the wire protocol.
-- A `oneof` body is one data type with a constructor for each member and one for an unset body.
use zapshare.Base.{ℕ, Bytes, length, ◌+◌}
pub mod Codec

pub data ProtocolVersion : Type 0 where
  unspecified : ProtocolVersion
  version_1 : ProtocolVersion
  -- proto3 keeps a number that the enum does not name
  unknown_version : ℕ → ProtocolVersion

-- `std::to_string` of a version prints its number.
abbrev pub version_number : ProtocolVersion → ℕ
version_number unspecified = 0
version_number version_1 = 1
version_number (unknown_version n) = n

pub data ErrorCode : Type 0 where
  no_code invalid_token handshake_failed unauthorized_peer bad_packet : ErrorCode
  transfer_not_found offset_mismatch integrity_check_failed : ErrorCode
  unknown_code : ℕ → ErrorCode

pub record PeerIdentity : Type 0 where
  pub long_term_public_key : Bytes
  pub ephemeral_public_key : Bytes

pub record ClientHello : Type 0 where
  pub version : ProtocolVersion
  pub transfer_id : Bytes
  pub token : Bytes
  pub receiver_nonce : Bytes
  pub receiver_identity : PeerIdentity
  pub receiver_signature : Bytes

pub record ServerHello : Type 0 where
  pub version : ProtocolVersion
  pub transfer_id : Bytes
  pub sender_nonce : Bytes
  pub sender_identity : PeerIdentity
  pub sender_signature : Bytes

pub record HandshakeFinish : Type 0 where
  pub transfer_id : Bytes
  pub transcript_proof : Bytes

pub record HandshakeError : Type 0 where
  pub code : ErrorCode
  pub message : Bytes

pub data HandshakePacket : Type 0 where
  client_hello : ClientHello → HandshakePacket
  server_hello : ServerHello → HandshakePacket
  handshake_finish : HandshakeFinish → HandshakePacket
  handshake_error : HandshakeError → HandshakePacket
  no_handshake_body : HandshakePacket

pub record GetRequest : Type 0 where
  pub transfer_id : Bytes

pub record Ack : Type 0 where
  pub transfer_id : Bytes
  pub next_offset : ℕ

pub record DataChunk : Type 0 where
  pub transfer_id : Bytes
  pub offset : ℕ
  pub payload : Bytes

pub record Done : Type 0 where
  pub transfer_id : Bytes
  pub final_size : ℕ
  pub file_hash : Bytes

pub record TransferError : Type 0 where
  pub transfer_id : Bytes
  pub code : ErrorCode
  pub message : Bytes

pub data ControlPacket : Type 0 where
  get : GetRequest → ControlPacket
  ack : Ack → ControlPacket
  chunk : DataChunk → ControlPacket
  done : Done → ControlPacket
  transfer_error : TransferError → ControlPacket
  no_control_body : ControlPacket

-- The texts that a message carries, which its fixed fields add a bounded amount to on the wire.
abbrev pub control_texts : ControlPacket → ℕ
control_texts (get g) = length g.transfer_id
control_texts (ack a) = length a.transfer_id
control_texts (chunk c) = length c.transfer_id + length c.payload
control_texts (done d) = length d.transfer_id + length d.file_hash
control_texts (transfer_error e) = length e.transfer_id + length e.message
control_texts no_control_body = 0
