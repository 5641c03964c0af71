-- ===== src/Protocol/Codec.antt =====
-- The generated protobuf code (`SerializeToString`, `ParseFromString`), which is not in the
-- repository, as an interface with the laws that protobuf documents.
use zapshare.Base.{
  All, ℕ, Bool, true, false, is_empty, ◌≢◌, Bytes, length, ◌+◌, ◌≤◌, ◌<◌, ◌^◌, ◌≡◌, Option, some,
}
use zapshare.Protocol.{
  ErrorCode, unknown_code, HandshakePacket, ControlPacket, control_texts, ack, chunk, done, get,
  transfer_error, no_control_body, PeerIdentity, ClientHello, ServerHello, version_1, client_hello,
  server_hello, handshake_finish, handshake_error, no_handshake_body,
}

-- `to_string` gives the flag that `SerializeToString` returns and the string that it leaves.
pub record Codec : Type 0 where
  pub handshake_to_string : HandshakePacket → Bool × Bytes
  pub handshake_from_string : Bytes → Option HandshakePacket
  pub control_to_string : ControlPacket → Bool × Bytes
  pub control_from_string : Bytes → Option ControlPacket

-- Tags, lengths and numbers of a control packet take at most 29 bytes on the wire.
abbrev pub wire_overhead : ℕ
wire_overhead = 29

-- A `string` field holds UTF-8; the program's ids and tokens are ASCII.
abbrev pub IsText : Bytes → Type 0
IsText s = All (λ b. b < 128) s

-- A code that the enum names.
abbrev IsNamed : ErrorCode → Type 0
IsNamed (unknown_code n) = ⊥
IsNamed code = Unit

-- The numbers of a packet are `uint64` fields, and its texts `string` fields.
abbrev pub FitsWire : ControlPacket → Type 0
FitsWire (get g) = IsText g.transfer_id
FitsWire (ack a) = (a.next_offset < 2 ^ 64) × IsText a.transfer_id
FitsWire (chunk c) = (c.offset < 2 ^ 64) × IsText c.transfer_id
FitsWire (done d) = (d.final_size < 2 ^ 64) × IsText d.transfer_id × IsText d.file_hash
FitsWire (transfer_error e) = IsNamed e.code × IsText e.transfer_id × IsText e.message
FitsWire no_control_body = Unit

-- What the peers rely on: a proto3 message has no required field, so it is always serialised (below
-- protobuf's limit of 2 GB), is read back as it was, and has the documented wire size.
pub record CodecLaws (c : Codec) : Type 0 where
  pub control_serializes : (p : ControlPacket) → (c.control_to_string p).0 ≡ true
  -- a body that is set shows at least as its tag
  pub control_visible :
      (p : ControlPacket) → p ≢ no_control_body → is_empty (c.control_to_string p).1 ≡ false
  pub control_round_trip :
      (p : ControlPacket) → FitsWire p → c.control_from_string (c.control_to_string p).1 ≡ some p
  pub control_size :
      (p : ControlPacket)
      → FitsWire p
      → length (c.control_to_string p).1 ≤ control_texts p + wire_overhead

-- The texts of a handshake packet.
abbrev pub identity_texts : PeerIdentity → ℕ
identity_texts i = length i.long_term_public_key + length i.ephemeral_public_key

abbrev pub handshake_texts : HandshakePacket → ℕ
handshake_texts (client_hello h) =
    length h.transfer_id
    + (length h.token
        + (length h.receiver_nonce
            + (identity_texts h.receiver_identity + length h.receiver_signature)))
handshake_texts (server_hello h) =
    length h.transfer_id
    + (length h.sender_nonce + (identity_texts h.sender_identity + length h.sender_signature))
handshake_texts (handshake_finish f) = length f.transfer_id + length f.transcript_proof
handshake_texts (handshake_error e) = length e.message
handshake_texts no_handshake_body = 0

-- Tags, lengths and numbers of a handshake packet take at most 59 bytes on the wire.
abbrev pub handshake_overhead : ℕ
handshake_overhead = 59

-- The same of a hello of the program's own version; only its version is a number.
pub record HandshakeLaws (c : Codec) : Type 0 where
  pub handshake_serializes : (p : HandshakePacket) → (c.handshake_to_string p).0 ≡ true
  pub client_hello_round_trip :
      (h : ClientHello)
      → h.version ≡ version_1
      → IsText h.transfer_id
      → IsText h.token
      → c.handshake_from_string (c.handshake_to_string (client_hello h)).1 ≡ some (client_hello h)
  pub server_hello_round_trip :
      (h : ServerHello)
      → h.version ≡ version_1
      → IsText h.transfer_id
      → c.handshake_from_string (c.handshake_to_string (server_hello h)).1 ≡ some (server_hello h)
  pub handshake_size :
      (p : HandshakePacket)
      → length (c.handshake_to_string p).1 ≤ handshake_texts p + handshake_overhead
