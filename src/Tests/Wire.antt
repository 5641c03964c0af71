-- ===== src/Tests/Wire.antt =====
-- A codec with the laws that are asked of protobuf: numbers in one place each, a text's length in
-- front of it.
use zapshare.Base.{
  ℕ, zero, suc, ◌+◌, ◌≤◌, ◌≡◌, ◌≢◌, refl, true, false, Bytes, [], ◌∷◌, ◌++◌, Option, none, some,
  length, take, drop, is_empty, arith, length-append, take-append_length, drop-append_length,
}
use zapshare.Protocol.{
  ErrorCode, no_code, invalid_token, handshake_failed, unauthorized_peer, bad_packet,
  transfer_not_found, offset_mismatch, integrity_check_failed, unknown_code, HandshakePacket,
  client_hello, version_1, ControlPacket, get, ack, chunk, done, transfer_error, no_control_body,
  control_texts,
}
use zapshare.Protocol.Codec.{Codec, CodecLaws, wire_overhead}

abbrev code_number : ErrorCode → ℕ
code_number no_code = 0
code_number invalid_token = 1
code_number handshake_failed = 2
code_number unauthorized_peer = 3
code_number bad_packet = 4
code_number transfer_not_found = 5
code_number offset_mismatch = 6
code_number integrity_check_failed = 7
code_number (unknown_code n) = suc (suc (suc (suc (suc (suc (suc (suc n)))))))

abbrev number_code : ℕ → ErrorCode
number_code zero = no_code
number_code (suc zero) = invalid_token
number_code (suc (suc zero)) = handshake_failed
number_code (suc (suc (suc zero))) = unauthorized_peer
number_code (suc (suc (suc (suc zero)))) = bad_packet
number_code (suc (suc (suc (suc (suc zero))))) = transfer_not_found
number_code (suc (suc (suc (suc (suc (suc zero)))))) = offset_mismatch
number_code (suc (suc (suc (suc (suc (suc (suc zero))))))) = integrity_check_failed
number_code (suc (suc (suc (suc (suc (suc (suc (suc n)))))))) = unknown_code n

number_code_lem : (c : ErrorCode) → number_code (code_number c) ≡ c
number_code_lem no_code = refl
number_code_lem invalid_token = refl
number_code_lem handshake_failed = refl
number_code_lem unauthorized_peer = refl
number_code_lem bad_packet = refl
number_code_lem transfer_not_found = refl
number_code_lem offset_mismatch = refl
number_code_lem integrity_check_failed = refl
number_code_lem (unknown_code n) = refl

abbrev pub put : ControlPacket → Bytes
put (get g) = 0 ∷ g.transfer_id
put (ack a) = 1 ∷ a.next_offset ∷ a.transfer_id
put (chunk c) = 2 ∷ c.offset ∷ length c.transfer_id ∷ (c.transfer_id ++ c.payload)
put (done d) = 3 ∷ d.final_size ∷ length d.transfer_id ∷ (d.transfer_id ++ d.file_hash)
put (transfer_error e) =
    4 ∷ code_number e.code ∷ length e.transfer_id ∷ (e.transfer_id ++ e.message)
put no_control_body = []

-- By the tag, the number, the length of the first text and the two texts.
abbrev pub parts : ℕ → ℕ → Bytes → Bytes → Option ControlPacket
parts zero o a b = some (chunk (record { transfer_id = a; offset = o; payload = b }))
parts (suc zero) o a b = some (done (record { transfer_id = a; final_size = o; file_hash = b }))
parts (suc (suc n)) o a b =
    some (transfer_error (record { transfer_id = a; code = number_code o; message = b }))

abbrev pub take_parts : ℕ → ℕ → Bytes → Option ControlPacket
take_parts tag o [] = none
take_parts tag o (n ∷ s) = parts tag o (take n s) (drop n s)

abbrev pub with_number : ℕ → Bytes → Option ControlPacket
with_number tag [] = none
with_number zero (o ∷ s) = some (ack (record { transfer_id = s; next_offset = o }))
with_number (suc tag) (o ∷ s) = take_parts tag o s

abbrev pub parse : Bytes → Option ControlPacket
parse [] = some no_control_body
parse (zero ∷ s) = some (get (record { transfer_id = s }))
parse (suc tag ∷ s) = with_number tag s

-- A hello of version 1 is the byte 9 and its token; the client's keys are empty.
abbrev pub parse_hello : Bytes → Option HandshakePacket
parse_hello [] = none
parse_hello (tag ∷ token) = some (
    client_hello (record {
      version = version_1;
      transfer_id = token;
      token = token;
      receiver_nonce = [];
      receiver_identity = record { long_term_public_key = []; ephemeral_public_key = [] };
      receiver_signature = [];
    }))

abbrev pub wire : Codec
wire = record {
  handshake_to_string = λ packet. (true, []);
  handshake_from_string = parse_hello;
  control_to_string = λ packet. (true, put packet);
  control_from_string = parse;
}

parse-put : (p : ControlPacket) → parse (put p) ≡ some p
parse-put (get g) = refl
parse-put (ack a) = refl
parse-put (chunk c) =
    rw (take-append_length c.transfer_id c.payload, drop-append_length c.transfer_id c.payload)
parse-put (done d) =
    rw (take-append_length d.transfer_id d.file_hash, drop-append_length d.transfer_id d.file_hash)
parse-put (transfer_error e) = rw (
  take-append_length e.transfer_id e.message,
  drop-append_length e.transfer_id e.message,
  number_code_lem e.code,
)
parse-put no_control_body = refl

put-size : (p : ControlPacket) → length (put p) ≤ control_texts p + wire_overhead
put-size (get g) = omega arith
put-size (ack a) = omega arith
put-size (chunk c) = omega (arith, length-append c.transfer_id c.payload)
put-size (done d) = omega (arith, length-append d.transfer_id d.file_hash)
put-size (transfer_error e) = omega (arith, length-append e.transfer_id e.message)
put-size no_control_body = omega arith

put-visible : (p : ControlPacket) → p ≢ no_control_body → is_empty (put p) ≡ false
put-visible (get g) h = refl
put-visible (ack a) h = refl
put-visible (chunk c) h = refl
put-visible (done d) h = refl
put-visible (transfer_error e) h = refl
put-visible no_control_body h = absurd (h refl)

pub wire-laws : CodecLaws wire
wire-laws = record {
  control_serializes = λ p. refl;
  control_visible = put-visible;
  control_round_trip = λ p fits. parse-put p;
  control_size = λ p fits. put-size p;
}
