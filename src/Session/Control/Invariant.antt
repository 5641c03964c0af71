-- ===== src/Session/Control/Invariant.antt =====
-- What holds of a session after its handshake, whatever datagrams reach it.
use zapshare.Base.{
  ℕ, ◌^◌, ◌≤◌, ◌<◌, ◌≡◌, ◌≢◌, ◌∙◌, refl, sym, Bytes, List, [], length, Option, some, none, arith,
  All, subst,
}
use zapshare.Config.{Transfers, Datagram}
use zapshare.Platform.{Platform}
use zapshare.Protocol.{
  ControlPacket, get, ack, chunk, done, transfer_error, no_control_body, GetRequest, Ack,
}
use zapshare.Protocol.Codec.{CodecLaws}
use zapshare.Session.{
  Session, State, waiting_hello, authenticated, transferring, closed, send_message,
}
use zapshare.Session.Control.{
  control_body, handle_control_packet, handle_ack, handle_get_request, ack_in_state, get_in_state,
}
use zapshare.Session.Control.Chunk.{IsSending, packet_bytes}
use zapshare.Session.Control.Refines.{
  Reaction, closes, ignores, sends_at, ack_reaction, Reacts, handle_ack-refines,
  handle_get_request-repeats, handle_get_request-starts,
}

module _ (p : Platform) (content : Bytes) where
  open p use {World, codec, read_file}

  -- By state: nothing sent yet, a packet of the file out, or the end.
  abbrev pub StateInv : State → Session → Type 0
  StateInv waiting_hello s = s.offset ≡ 0
  StateInv authenticated s = s.offset ≡ 0
  StateInv transferring s = IsSending p content s
  StateInv closed s = Unit

  abbrev pub SessionInv : Session → Type 0
  SessionInv s = StateInv s.state s

  -- A datagram with the packet of the file at some offset within it.
  abbrev pub IsFilePacket : Transfers → Datagram → Type 0
  IsFilePacket t d = (o : ℕ) × (o ≤ length content) × (d.bytes ≡ packet_bytes p t content o)

  -- A handler's result: the invariant, the same metadata and path, only packets of the file, and no
  -- way back to the handshake.
  pub record IsSafe (s : Session) (r : Session × List Datagram) : Type 0 where
    pub inv : SessionInv r.0
    pub metadata : r.0.transfer_metadata ≡ s.transfer_metadata
    pub path : r.0.file_path ≡ s.file_path
    pub packets : All (IsFilePacket s.transfer_metadata) r.1
    pub behind : s.state ≢ waiting_hello → r.0.state ≢ waiting_hello

  pub quiet-IsSafe :
      (s s' : Session)
      → SessionInv s'
      → s'.transfer_metadata ≡ s.transfer_metadata
      → s'.file_path ≡ s.file_path
      → (s.state ≢ waiting_hello → s'.state ≢ waiting_hello)
      → IsSafe s (s', [])
  quiet-IsSafe s s' inv m f b = record {
    inv = inv;
    metadata = m;
    path = f;
    packets = tt;
    behind = b;
  }

  never_waits : (st : State) → st ≢ waiting_hello → (s' : State) → s' ≡ st → s' ≢ waiting_hello
  never_waits st h s' e f = h (sym e ∙ f)

  Reacts-IsSafe :
      (s : Session) (reaction : Reaction) (r : Session × List Datagram)
      → SessionInv s
      → Reacts p content s reaction r
      → IsSafe s r
  unfolding send_message
  Reacts-IsSafe s closes (s', sent) inv (e, f) =
      rw (e, f) (quiet-IsSafe s (record s { state = closed }) tt refl refl (λ h e. cc))
  Reacts-IsSafe s ignores (s', sent) inv (e, f) =
      rw (e, f) (quiet-IsSafe s s inv refl refl (λ h. h))
  Reacts-IsSafe s (sends_at o) (s', sent) inv (sending, keeps, at, f) = record {
    inv = subst (λ st. StateInv st s') (sym keeps.running) sending;
    metadata = keeps.metadata;
    path = keeps.path;
    packets = rw f ((o, omega (arith, sending.ready.within, at), refl), tt);
    behind = λ h. never_waits transferring (λ e. cc) s'.state keeps.running;
  }

  module _ (laws : CodecLaws codec) (small : length content < 2 ^ 64) (s : Session) where
    handle_ack-IsSafe : (a : Ack) → SessionInv s → IsSafe s (handle_ack p a s)
    unfolding handle_ack ack_in_state
    handle_ack-IsSafe a inv = by_state s.state refl
      where
        by_state : (st : State) → s.state ≡ st → IsSafe s (handle_ack p a s)
        by_state waiting_hello e = simp e (quiet-IsSafe s s inv refl refl (λ h. h))
        by_state authenticated e = simp e (quiet-IsSafe s s inv refl refl (λ h. h))
        by_state transferring e =
            Reacts-IsSafe s (ack_reaction content s.offset a.next_offset) (handle_ack p a s) inv
              (handle_ack-refines p laws content s a small e (subst (λ st. StateInv st s) e inv))
        by_state closed e = simp e (quiet-IsSafe s s inv refl refl (λ h. h))

    handle_get_request-IsSafe :
        (request : GetRequest) (w : World)
        → read_file s.file_path w ≡ some content
        → SessionInv s
        → IsSafe s (handle_get_request p request s w)
    unfolding handle_get_request get_in_state
    handle_get_request-IsSafe request w file inv = by_state s.state refl
      where
        by_state : (st : State) → s.state ≡ st → IsSafe s (handle_get_request p request s w)
        by_state waiting_hello e = simp e (quiet-IsSafe s s inv refl refl (λ h. h))
        by_state authenticated e =
            Reacts-IsSafe s (sends_at 0) (handle_get_request p request s w) inv (
              handle_get_request-starts p content request s w e (subst (λ st. StateInv st s) e inv)
                file)
        by_state transferring e =
            Reacts-IsSafe s (sends_at s.offset) (handle_get_request p request s w) inv (
              handle_get_request-repeats p laws content request s w e
                (subst (λ st. StateInv st s) e inv))
        by_state closed e = simp e (quiet-IsSafe s s inv refl refl (λ h. h))

    control_body-IsSafe :
        (packet : Option ControlPacket) (w : World)
        → read_file s.file_path w ≡ some content
        → SessionInv s
        → IsSafe s (control_body p packet s w)
    unfolding control_body
    control_body-IsSafe none w file inv = quiet-IsSafe s s inv refl refl (λ h. h)
    control_body-IsSafe (some (get request)) w file inv =
        handle_get_request-IsSafe request w file inv
    control_body-IsSafe (some (ack a)) w file inv = handle_ack-IsSafe a inv
    control_body-IsSafe (some (transfer_error e)) w file inv =
        quiet-IsSafe s (record s { state = closed }) tt refl refl (λ h e. cc)
    control_body-IsSafe (some (chunk c)) w file inv = quiet-IsSafe s s inv refl refl (λ h. h)
    control_body-IsSafe (some (done d)) w file inv = quiet-IsSafe s s inv refl refl (λ h. h)
    control_body-IsSafe (some no_control_body) w file inv = quiet-IsSafe s s inv refl refl (λ h. h)

    -- Whatever bytes reach a session that satisfies its invariant, handle_control_packet keeps the
    -- invariant, the metadata and the path, and sends nothing but packets of the file at offsets
    -- within it, and does not lead back to the state in front of the handshake.
    pub handle_control_packet-IsSafe :
        (bytes : Bytes) (w : World)
        → read_file s.file_path w ≡ some content
        → SessionInv s
        → IsSafe s (handle_control_packet p bytes s w)
    unfolding handle_control_packet
    handle_control_packet-IsSafe bytes w = control_body-IsSafe (codec.control_from_string bytes) w
