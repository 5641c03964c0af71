-- ===== src/Transfer/Packets.antt =====
-- A packet of the file survives the receiver's buffer and is read as a part of the file.
use zapshare.Base.{
  ℕ, ◌+◌, ◌^◌, ◌≤◌, ◌<◌, ◌≡◌, sym, true, false, Bytes, some, length, drop, arith, take_all,
  length-take, take-length-take, Bool-cases, inl, inr, ◌==◌, All, All-map,
}
use zapshare.Config.{Transfers, payload_size, max_packet_size, header_size}
use zapshare.Platform.{Platform}
use zapshare.Protocol.{chunk, done, control_texts}
use zapshare.Protocol.Codec.{CodecLaws, FitsWire, IsText, wire_overhead}
use zapshare.Session.{Session}
use zapshare.Session.Control.{handle_control_packet}
use zapshare.Session.Control.Invariant.{SessionInv, IsFilePacket, handle_control_packet-IsSafe}
use zapshare.Session.Control.Chunk.{piece, packet_for, packet_bytes}
use zapshare.Client.Receive.{delivered}
use zapshare.Client.Receive.Prefix.{IsOf}

-- What a transfer's metadata must satisfy: the size is that of the file, and the texts leave the
-- packets within the header's room and are ASCII. The program's ids have 40 bytes and its hashes 64.
pub record DescribesFile (t : Transfers) (content : Bytes) : Type 0 where
  pub file_size : t.file_size ≡ length content
  pub small : length content < 2 ^ 64
  pub short_id : length t.id + wire_overhead ≤ header_size
  pub short_hash : length t.file_hash ≤ payload_size
  pub text_id : IsText t.id
  pub text_hash : IsText t.file_hash

pub packet_for_last :
    (t : Transfers) (o : ℕ) (payload : Bytes)
    → (length payload == 0) ≡ true
    → packet_for t o payload
      ≡ done (record { transfer_id = t.id; final_size = t.file_size; file_hash = t.file_hash })
unfolding packet_for
packet_for_last t o payload e = rw e

pub packet_for_more :
    (t : Transfers) (o : ℕ) (payload : Bytes)
    → (length payload == 0) ≡ false
    → packet_for t o payload ≡ chunk (record { transfer_id = t.id; offset = o; payload = payload })
unfolding packet_for
packet_for_more t o payload e = rw e

piece-size : (content : Bytes) (o : ℕ) → length (piece content o) ≤ payload_size
piece-size content o = omega (arith, length-take payload_size (drop o content))

packet_for-texts :
    (t : Transfers) (content : Bytes) (o : ℕ) (payload : Bytes)
    → DescribesFile t content
    → length payload ≤ payload_size
    → control_texts (packet_for t o payload) + wire_overhead ≤ max_packet_size
unfolding packet_for
packet_for-texts t content o payload d h = elim (Bool-cases (length payload == 0)) [
  | inl e ↦ rw e (omega (arith, d.short_id, d.short_hash))
  | inr e ↦ rw e (omega (arith, d.short_id))
]

packet_for-FitsWire :
    (t : Transfers) (content : Bytes) (o : ℕ) (payload : Bytes)
    → DescribesFile t content
    → o ≤ length content
    → FitsWire (packet_for t o payload)
unfolding packet_for
packet_for-FitsWire t content o payload d h = elim (Bool-cases (length payload == 0)) [
  | inl e ↦ rw e (omega (arith, d.file_size, d.small), d.text_id, d.text_hash)
  | inr e ↦ rw e (omega (arith, d.small), d.text_id)
]

packet_for-IsOf :
    (t : Transfers) (content : Bytes) (o : ℕ)
    → DescribesFile t content
    → IsOf content (some (packet_for t o (piece content o)))
unfolding packet_for
packet_for-IsOf t content o d = elim (Bool-cases (length (piece content o) == 0)) [
  | inl e ↦ rw e d.file_size
  | inr e ↦ rw e (λ _. sym (take-length-take payload_size (drop o content)))
]

module _ (p : Platform) (laws : CodecLaws p.codec) where
  packet_bytes-size :
      (t : Transfers) (content : Bytes) (o : ℕ)
      → DescribesFile t content
      → o ≤ length content
      → length (packet_bytes p t content o) ≤ max_packet_size
  packet_bytes-size t content o d h =
      let payload = piece content o in
      omega (
        arith,
        laws.control_size (packet_for t o payload) (packet_for-FitsWire t content o payload d h),
        packet_for-texts t content o payload d (piece-size content o),
      )

  -- Whatever bytes reach a session that satisfies its invariant, every datagram that
  -- handle_control_packet makes it send fits the receiver's buffer of MAX_PACKET_SIZE bytes, if the
  -- transfer's id leaves 29 bytes of HEADER_SIZE for the packet's own fields, the hash is no longer
  -- than a payload, both are ASCII, and the metadata has the file's size, which is below 2 ^ 64.
  pub handle_control_packet-fits :
      (content : Bytes) (s : Session) (bytes : Bytes) (w : p.World)
      → DescribesFile s.transfer_metadata content
      → p.read_file s.file_path w ≡ some content
      → SessionInv p content s
      → All (λ d. length d.bytes ≤ max_packet_size) (handle_control_packet p bytes s w).1
  handle_control_packet-fits content s bytes w d file inv =
      let t = s.transfer_metadata in
      let safe = handle_control_packet-IsSafe p content laws d.small s bytes w file inv in
      All-map (IsFilePacket p content t) (λ x. length x.bytes ≤ max_packet_size)
        (λ x (o, within, same). rw same (packet_bytes-size t content o d within)) _ safe.packets

  pub packet_bytes-received :
      (t : Transfers) (content : Bytes) (o : ℕ)
      → DescribesFile t content
      → o ≤ length content
      → p.codec.control_from_string (delivered (packet_bytes p t content o))
        ≡ some (packet_for t o (piece content o))
  packet_bytes-received t content o d h =
      rw (take_all max_packet_size (packet_bytes p t content o) (packet_bytes-size t content o d h))
        (laws.control_round_trip _ (packet_for-FitsWire t content o (piece content o) d h))

  pub packet_bytes-IsOf :
      (t : Transfers) (content : Bytes) (o : ℕ)
      → DescribesFile t content
      → o ≤ length content
      → IsOf content (p.codec.control_from_string (delivered (packet_bytes p t content o)))
  packet_bytes-IsOf t content o d h =
      rw (packet_bytes-received t content o d h) (packet_for-IsOf t content o d)
