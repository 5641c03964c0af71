-- ===== src/Transfer/Exchange.antt =====
-- Both sides answering one another over a network that keeps the order: the receiver's loop of
-- cli_tool/src/client.cpp against the session of cli_tool/include/session.hpp.
pub mod Lossless
pub mod Start
pub mod LostDone
use zapshare.Base.{
  append-nil, take-length-take, ℕ, zero, suc, ◌+◌, ◌-◌, ◌^◌, ◌≤◌, ◌<◌, ◌≡◌, refl, sym, ap, subst,
  ◌∙◌, Bool, true, false, Bytes, List, [], ◌∷◌, ◌++◌, Option, none, some, length, take, drop,
  Outcome, returned, thrown, aborted, and_then, arith, Bool-cases, inl, inr, ◌==◌, ==_iff, ==_refl,
  if◌then◌else◌, take_all, length-take, length-drop,
}
use zapshare.Config.{Transfers, Datagram, endpoint_eq, payload_size, max_packet_size}
use zapshare.Platform.{Platform}
use zapshare.FileHash.{Sha256, hash_content}
use zapshare.Protocol.{GetRequest, Ack, ack, chunk, done, ControlPacket}
use zapshare.Protocol.Codec.{CodecLaws, IsText}
use zapshare.Session.{Session, transferring, closed, send_message}
use zapshare.Session.Control.{handle_control_packet, handle_ack}
use zapshare.Session.Control.Chunk.{piece, packet_for, packet_bytes, IsSending}
use zapshare.Session.Control.Refines.{
  Reaction, sends_at, closes, ack_reaction, Reacts, KeepsPeer, handle_ack-refines,
  ack_reaction_last, ack_reaction_more,
}
use zapshare.Session.Control.Dispatch.{handle_control_packet-ack}
use zapshare.Client.Receive.{
  received, Request, Receiver, goes_on, finishes, receive_round, delivered, take_payload,
  ack_current,
}
use zapshare.Client.Receive.Prefix.{HasPrefix, take_payload-HasPrefix, take_payload-current_offset}
use zapshare.Client.Receive.Rounds.{
  endpoint_eq_refl, heard, ack_bytes, ack_current_lem, receive_round-chunk, receive_round-done,
}
use zapshare.Transfer.Packets.{
  DescribesFile, packet_bytes-received, packet_for_last, packet_for_more,
}

module _ (p : Platform) (sha : Sha256) (q : Request) (w : p.World) where
  open p use {codec}
  open q use {peer, transfer_id, expected_hash}

  -- The session, at the endpoint that the receiver takes for its peer, handles the datagrams in their
  -- order. A datagram to any other endpoint does not reach it.
  pub answer : List Datagram → Session → Session × List Datagram
  answer [] s = (s, [])
  answer (d ∷ ds) s =
      let missed = answer ds s in
      let (s', sent) = handle_control_packet p (delivered d.bytes) s w in
      let (s'', later) = answer ds s' in
      if endpoint_eq d.to peer then (s'', sent ++ later) else missed

  -- The receiver handles the first datagram on the way, and the session what the receiver sends.
  -- The result is `none` where nothing is on the way, or the fuel has run out.
  pub exchange : ℕ → Session → Receiver → List Datagram → Outcome (Option Bool × Session × Receiver)
  unfolding answer
  exchange fuel s r [] = returned (none, s, r)
  exchange zero s r (d ∷ ds) = returned (none, s, r)
  exchange (suc fuel) s r (d ∷ ds) =
      and_then (receive_round codec sha q (received peer d.bytes) r) λ (progress, r', acks).
        elim progress [
          | finishes b ↦ returned (some b, (answer acks s).0, r')
          | goes_on ↦ exchange fuel (answer acks s).0 r' (ds ++ (answer acks s).1)
        ]

  abbrev pub Completes : Bytes → Outcome (Option Bool × Session × Receiver) → Type 0
  Completes content (returned (some true, s, r)) =
      (s.state ≡ closed) × (r.out.content ≡ content) × (r.current_offset ≡ length content)
  Completes content (returned (some false, s, r)) = ⊥
  Completes content (returned (none, s, r)) = ⊥
  Completes content thrown = ⊥
  Completes content aborted = ⊥

module _ (p : Platform) (content : Bytes) (m : Transfers) where
  -- Both sides are at the same offset of the file, and its packet is on the way.
  pub record InStep (s : Session) (r : Receiver) : Type 0 where
    pub running : s.state ≡ transferring
    pub sending : IsSending p content s
    pub metadata : s.transfer_metadata ≡ m
    pub prefix : HasPrefix content r
    pub together : r.current_offset ≡ s.offset

  abbrev pub PacketOf : Session → Datagram → Type 0
  PacketOf s d = d.bytes ≡ packet_bytes p m content s.offset

module _ (p : Platform) (sha : Sha256) (q : Request) (w : p.World) (laws : CodecLaws p.codec)
    (content : Bytes) (m : Transfers) (describes : DescribesFile m content)
    (same_id : m.id ≡ q.transfer_id) where
  open p use {codec}
  open q use {peer, transfer_id, expected_hash}

  pub ack_parsed :
      (o : ℕ)
      → o ≤ length content
      → codec.control_from_string (delivered (ack_bytes codec sha q o))
        ≡ some (ack (record { transfer_id = transfer_id; next_offset = o }))
  ack_parsed o h =
      let packet = ack (record { transfer_id = transfer_id; next_offset = o }) in
      let fits : (o < 2 ^ 64) × IsText transfer_id =
        (omega (arith, describes.small), subst IsText same_id describes.text_id) in
      let short : length (ack_bytes codec sha q o) ≤ max_packet_size =
        omega (arith, laws.control_size packet fits, ap length same_id, describes.short_id) in
      rw (take_all max_packet_size (ack_bytes codec sha q o) short)
        (laws.control_round_trip packet fits)

  -- The acknowledgement that the receiver sends reaches handle_ack.
  pub answer-ack :
      (s : Session) (r : Receiver)
      → r.current_offset ≤ length content
      → answer p sha q w (ack_current codec sha q r) s
        ≡ handle_ack p (record { transfer_id = transfer_id; next_offset = r.current_offset }) s
  unfolding answer
  answer-ack s r h =
      let a : Ack = record { transfer_id = transfer_id; next_offset = r.current_offset } in
      rw (
        ack_current_lem codec sha q laws r,
        endpoint_eq_refl peer,
        handle_control_packet-ack p _ s w a (ack_parsed r.current_offset h),
        append-nil (handle_ack p a s).1,
      )

  pub parsed :
      (s : Session) (r : Receiver) (d : Datagram)
      → InStep p content m s r
      → PacketOf p content m s d
      → codec.control_from_string (delivered d.bytes)
        ≡ some (packet_for m s.offset (piece content s.offset))
  parsed s r d step same =
      let inside : s.offset ≤ length content = omega (arith, step.prefix.within, step.together) in
      rw same (packet_bytes-received p laws m content s.offset describes inside)

  pub reaction :
      (s : Session) (r r' : Receiver)
      → InStep p content m s r
      → r'.current_offset ≡ s.offset + length (piece content s.offset)
      → r'.current_offset ≤ length content
      → Reacts p content s
          (ack_reaction content s.offset (s.offset + length (piece content s.offset)))
          (answer p sha q w (ack_current codec sha q r') s)
  reaction s r r' step at inside =
      rw (answer-ack s r' inside, at)
        (handle_ack-refines p laws content s _ describes.small step.running step.sending)
