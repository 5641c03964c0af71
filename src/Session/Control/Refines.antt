-- ===== src/Session/Control/Refines.antt =====
-- The sender of a stop-and-wait protocol, and that handle_ack and handle_get_request implement it.
use zapshare.Base.{
  ℕ, ◌+◌, ◌%◌, ◌^◌, ◌<◌, ◌≡◌, refl, true, false, Bytes, List, [], length, arith, Bool-cases,
  ==_refl, inl, inr, ◌==◌, if◌then◌else◌, some, ap,
}
use zapshare.Config.{Datagram, size_modulus}
use zapshare.Platform.{Platform}
use zapshare.Protocol.{Ack, GetRequest}
use zapshare.Protocol.Codec.{CodecLaws}
use zapshare.Session.{Session, closed, transferring, authenticated, send_message}
use zapshare.Session.Stream.Reads.{IsReadyAt}
use zapshare.Session.Stream.{open_stream}
use zapshare.Session.Control.{
  start_transfer, ack_compare, ack_in_transfer, handle_ack, handle_get_request, get_in_state,
  with_file_id, send_next_chunk, resend_current_chunk,
}
use zapshare.Session.Control.Chunk.{
  piece, packet_bytes, IsSending, sent_at-IsSending, send_next_chunk_lem, resend_current_chunk_lem,
}

-- What the specification does: end, send the packet at an offset, or nothing.
pub data Reaction : Type 0 where
  closes ignores : Reaction
  sends_at : ℕ → Reaction

-- An acknowledgement of all that was sent moves on to the next piece, or ends the transfer behind
-- the last; one of the current offset asks for a retransmission.
unfoldable pub ack_reaction : Bytes → ℕ → ℕ → Reaction
ack_reaction content offset next =
    let size = length (piece content offset) in
    if next == offset + size
    then (if size == 0 then closes else sends_at (offset + size))
    else if next == offset
    then sends_at offset
    else ignores

pub ack_reaction_last :
    (content : Bytes) (o : ℕ)
    → (length (piece content o) == 0) ≡ true
    → ack_reaction content o (o + length (piece content o)) ≡ closes
unfolding ack_reaction
ack_reaction_last content o e = rw (==_refl (o + length (piece content o)), e)

pub ack_reaction_more :
    (content : Bytes) (o : ℕ)
    → (length (piece content o) == 0) ≡ false
    → ack_reaction content o (o + length (piece content o))
      ≡ sends_at (o + length (piece content o))
unfolding ack_reaction
ack_reaction_more content o e = rw (==_refl (o + length (piece content o)), e)

module _ (p : Platform) where
  open p use {World, codec, read_file}

  -- What may not change while the transfer runs.
  pub record KeepsPeer (s t : Session) : Type 0 where
    pub metadata : t.transfer_metadata ≡ s.transfer_metadata
    pub endpoint : t.remote_endpoint ≡ s.remote_endpoint
    pub path : t.file_path ≡ s.file_path
    pub running : t.state ≡ transferring

  abbrev pub Reacts : Bytes → Session → Reaction → Session × List Datagram → Type 0
  Reacts content s closes r = (r.0 ≡ record s { state = closed }) × (r.1 ≡ [])
  Reacts content s ignores r = (r.0 ≡ s) × (r.1 ≡ [])
  Reacts content s (sends_at o) r =
      IsSending p content r.0
      × KeepsPeer s r.0
      × (r.0.offset ≡ o)
      × (r.1 ≡ send_message p s (packet_bytes p s.transfer_metadata content o))

  expected_offset :
      (content : Bytes) (s : Session)
      → length content < 2 ^ 64
      → IsSending p content s
      → (s.offset + s.last_chunk_size) % size_modulus ≡ s.offset + length (piece content s.offset)
  expected_offset content s small sending =
      let within = sending.ready.within in omega (arith, sending.size)

  -- The next packet, when the stream is ready at the offset.
  advance-Reacts :
      (content : Bytes) (s : Session)
      → s.state ≡ transferring
      → IsSending p content s
      → let o = s.offset + length (piece content s.offset) in
        Reacts content s (sends_at o) (send_next_chunk p (record s { offset = o }))
  unfolding send_message
  advance-Reacts content s running sending =
      let s' = record s { offset = s.offset + length (piece content s.offset) } in
      rw (send_next_chunk_lem p content s' sending.ready) (
        sent_at-IsSending p content s' sending.ready,
        record { metadata = refl; endpoint = refl; path = refl; running = running },
        refl,
        refl,
      )

  resend-Reacts :
      CodecLaws codec
      → (content : Bytes) (s : Session) → s.state ≡ transferring
      → IsSending p content s
      → Reacts content s (sends_at s.offset) (resend_current_chunk p s)
  resend-Reacts laws content s running sending =
      rw (resend_current_chunk_lem p laws content s sending) (
        sending,
        record { metadata = refl; endpoint = refl; path = refl; running = running },
        refl,
        refl,
      )

  ack_compare-Reacts :
      CodecLaws codec
      → (content : Bytes) (s : Session) (next : ℕ) → s.state ≡ transferring
      → IsSending p content s
      → let size = length (piece content s.offset) in
        Reacts content s
          (ack_reaction content s.offset next)
          (ack_compare p (size == 0) (s.offset + size) next s)
  unfolding ack_compare ack_reaction
  ack_compare-Reacts laws content s next running sending =
      let size = length (piece content s.offset) in
      elim (Bool-cases (next == s.offset + size)) [
        | inl e ↦ elim (Bool-cases (size == 0)) [
          | inl z ↦ simp (e, z) (refl, refl)
          | inr z ↦ simp (e, z) (advance-Reacts content s running sending)
        ]
        | inr e ↦ elim (Bool-cases (next == s.offset)) [
          | inl z ↦ simp (e, z) (resend-Reacts laws content s running sending)
          | inr z ↦ simp (e, z) (refl, refl)
        ]
      ]

  -- In a running transfer handle_ack does what the stop-and-wait specification says for every
  -- acknowledged offset: the next packet of the file, the end behind the last one, the same packet
  -- again, or nothing.
  pub handle_ack-refines :
      CodecLaws codec
      → (content : Bytes) (s : Session) (a : Ack) → length content < 2 ^ 64
      → s.state ≡ transferring
      → IsSending p content s
      → Reacts content s (ack_reaction content s.offset a.next_offset) (handle_ack p a s)
  unfolding handle_ack ack_in_transfer
  handle_ack-refines laws content s a small running sending =
      simp (running, sending.ended, expected_offset content s small sending)
        (ack_compare-Reacts laws content s a.next_offset running sending)

  -- A get request in a running transfer repeats the packet at the current offset.
  pub handle_get_request-repeats :
      CodecLaws codec
      → (content : Bytes) (request : GetRequest) (s : Session) (w : World) → s.state ≡ transferring
      → IsSending p content s
      → Reacts content s (sends_at s.offset) (handle_get_request p request s w)
  unfolding handle_get_request get_in_state
  handle_get_request-repeats laws content request s w running sending =
      simp running (resend-Reacts laws content s running sending)

  start_transfer-Reacts :
      (content : Bytes) (s : Session) (transfer_id : Bytes)
      → s.offset ≡ 0
      → Reacts content s (sends_at 0) (start_transfer p s (open_stream (some content)) transfer_id)
  unfolding start_transfer open_stream send_message
  start_transfer-Reacts content s transfer_id zero_offset =
      let s' = record s { file = open_stream (some content); state = transferring } in
      let ready : IsReadyAt content s'.offset s'.file = record {
        opened = refl;
        same = refl;
        within = omega arith;
        failed = λ e. cc;
      } in
      rw (send_next_chunk_lem p content s' ready) (
        sent_at-IsSending p content s' ready,
        record { metadata = refl; endpoint = refl; path = refl; running = refl },
        zero_offset,
        ap (λ o. send_message p s (packet_bytes p s.transfer_metadata content o)) zero_offset,
      )

  with_file_id-Reacts :
      (content : Bytes) (s : Session) (transfer_id : Bytes)
      → s.offset ≡ 0
      → Reacts content s
          (sends_at 0)
          (start_transfer p (with_file_id p s) (open_stream (some content)) transfer_id)
  unfolding with_file_id send_message
  with_file_id-Reacts content s transfer_id zero_offset =
      let (sending, k, at, sent) =
        start_transfer-Reacts content (with_file_id p s) transfer_id zero_offset in
      (
        sending,
        record { metadata = k.metadata; endpoint = k.endpoint; path = k.path; running = k.running },
        at,
        sent,
      )

  -- The first get request of an authenticated session opens the file and sends its first packet.
  pub handle_get_request-starts :
      (content : Bytes) (request : GetRequest) (s : Session) (w : World)
      → s.state ≡ authenticated
      → s.offset ≡ 0
      → read_file s.file_path w ≡ some content
      → Reacts content s (sends_at 0) (handle_get_request p request s w)
  unfolding handle_get_request get_in_state
  handle_get_request-starts content request s w state zero_offset file =
      simp (state, file) (with_file_id-Reacts content s request.transfer_id zero_offset)
