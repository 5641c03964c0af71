-- ===== src/Session/Control/Chunk.antt =====
-- The chunk that stands at an offset, and that `send_next_chunk` and `resend_current_chunk` send it.
use zapshare.Base.{
  ℕ, ◌+◌, ◌≡◌, ◌≢◌, refl, false, Bytes, [], ◌∷◌, length, take, drop, arith, is_empty, ◌==◌,
  if◌then◌else◌,
}
use zapshare.Config.{Transfers, payload_size}
use zapshare.Platform.{Platform}
use zapshare.Protocol.{ControlPacket, chunk, done, no_control_body}
use zapshare.Protocol.Codec.{CodecLaws}
use zapshare.Session.{Session, send_message}
use zapshare.Session.Stream.{read, seekg}
use zapshare.Session.Stream.Reads.{IsReadyAt, read-seekg_payload, read-seekg_ready}
use zapshare.Session.Control.{send_read, send_next_chunk, resend_current_chunk}

-- The specification: the file is cut into pieces of the payload's size, and an empty piece, which
-- stands at the end only, is announced as done.
abbrev pub piece : Bytes → ℕ → Bytes
piece content offset = take payload_size (drop offset content)

unfoldable pub packet_for : Transfers → ℕ → Bytes → ControlPacket
packet_for t offset payload =
    if length payload == 0
    then done (record { transfer_id = t.id; final_size = t.file_size; file_hash = t.file_hash })
    else chunk (record { transfer_id = t.id; offset = offset; payload = payload })

packet_for-ne-none :
    (t : Transfers) (offset : ℕ) (payload : Bytes) → packet_for t offset payload ≢ no_control_body
unfolding packet_for
packet_for-ne-none t offset [] e = cc
packet_for-ne-none t offset (b ∷ payload) e = ground arith

module _ (p : Platform) where
  open p use {codec}

  abbrev pub packet_bytes : Transfers → Bytes → ℕ → Bytes
  packet_bytes t content offset =
      (codec.control_to_string (packet_for t offset (piece content offset))).1

  -- The session has sent the packet at its offset, and keeps it for a retransmission.
  pub record IsSending (content : Bytes) (s : Session) : Type 0 where
    pub ready : IsReadyAt content (s.offset + length (piece content s.offset)) s.file
    pub size : s.last_chunk_size ≡ length (piece content s.offset)
    pub ended : s.last_chunk_done ≡ (length (piece content s.offset) == 0)
    pub cached : s.last_packet_cache ≡ packet_bytes s.transfer_metadata content s.offset

  -- The session after the packet at its offset was sent.
  abbrev pub sent_at : Bytes → Session → Session
  sent_at content s = record s {
    file = (read payload_size (seekg s.offset s.file)).1;
    last_chunk_size = length (piece content s.offset);
    last_chunk_done = length (piece content s.offset) == 0;
    last_packet_cache = packet_bytes s.transfer_metadata content s.offset;
  }

  send_read_lem :
      (s : Session) (payload : Bytes)
      → let bytes = (codec.control_to_string (packet_for s.transfer_metadata s.offset payload)).1 in
        send_read p s payload ≡ (
          record s {
            last_chunk_size = length payload;
            last_chunk_done = length payload == 0;
            last_packet_cache = bytes;
          },
          send_message p s bytes,
        )
  unfolding send_read packet_for send_message
  send_read_lem s [] = refl
  send_read_lem s (b ∷ payload) = ground arith

  pub send_next_chunk_lem :
      (content : Bytes) (s : Session)
      → IsReadyAt content s.offset s.file
      → send_next_chunk p s
        ≡ (sent_at content s, send_message p s (packet_bytes s.transfer_metadata content s.offset))
  unfolding send_next_chunk send_message
  send_next_chunk_lem content s r =
      simp (r.opened, read-seekg_payload payload_size s.offset content s.file r)
        (send_read_lem (record s { file = (read payload_size (seekg s.offset s.file)).1 })
          (piece content s.offset))

  pub sent_at-IsSending :
      (content : Bytes) (s : Session)
      → IsReadyAt content s.offset s.file
      → IsSending content (sent_at content s)
  sent_at-IsSending content s r = record {
    ready = read-seekg_ready payload_size s.offset content s.file r;
    size = refl;
    ended = refl;
    cached = refl;
  }

  pub send_next_chunk-IsSending :
      (content : Bytes) (s : Session)
      → IsReadyAt content s.offset s.file
      → IsSending content (send_next_chunk p s).0
  send_next_chunk-IsSending content s r =
      rw (send_next_chunk_lem content s r) (sent_at-IsSending content s r)

  pub packet_bytes-visible :
      CodecLaws codec
      → (t : Transfers) (content : Bytes) (offset : ℕ)
      → is_empty (packet_bytes t content offset) ≡ false
  packet_bytes-visible laws t content offset =
      laws.control_visible _ (packet_for-ne-none t offset (piece content offset))

  -- A retransmission repeats the last datagram and changes nothing.
  pub resend_current_chunk_lem :
      CodecLaws codec
      → (content : Bytes) (s : Session) → IsSending content s
      → resend_current_chunk p s
        ≡ (s, send_message p s (packet_bytes s.transfer_metadata content s.offset))
  unfolding resend_current_chunk
  resend_current_chunk_lem laws content s sending =
      let visible = packet_bytes-visible laws s.transfer_metadata content s.offset in
      simp (sending.cached, visible)
