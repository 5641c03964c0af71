-- ===== src/CommandLine/Sender/Greeted.antt =====
-- A datagram that reaches the session in front of its handshake, as Server::do_receive of
-- cli_tool/src/server.cpp sees it.
use zapshare.Base.{◌≡◌, inl, inr, refl, ap, Bool-cases, Bytes, List, returned, Yields_at, All}
use zapshare.Config.{Datagram}
use zapshare.Platform.{Platform}
use zapshare.Protocol.{HandshakePacket, server_hello, handshake_error, ErrorCode, bad_packet}
use zapshare.Session.{
  Session, waiting_hello, closed, send_handshake_packet, send_handshake_error, send_message,
}
use zapshare.Session.Handshake.{handle_handshake_packet}
use zapshare.Session.Handshake.Authenticates.{Accepts, handle_handshake_packet-Accepts}
use zapshare.Session.Handshake.Verdicts.{
  Verdict, ignores, scolds, refuses, accepts, Obeys, handle_handshake_packet-Obeys,
}
use zapshare.CommandLine.Sender.Served.{IsHandshakePacket}

module _ (p : Platform) where
  open p use {World, codec}

  send_handshake_packet-IsHandshakePacket :
      (s : Session) (packet : HandshakePacket)
      → All (IsHandshakePacket p) (send_handshake_packet p s packet)
  unfolding send_handshake_packet send_message
  send_handshake_packet-IsHandshakePacket s packet =
      elim (Bool-cases (codec.handshake_to_string packet).0) [
        | inl e ↦ simp e ((packet, refl), tt)
        | inr e ↦ simp e tt
      ]

  send_handshake_error-IsHandshakePacket :
      (s : Session) (code : ErrorCode) (message : Bytes)
      → All (IsHandshakePacket p) (send_handshake_error p s code message)
  unfolding send_handshake_error
  send_handshake_error-IsHandshakePacket s code message =
      send_handshake_packet-IsHandshakePacket s
        (handshake_error (record { code = code; message = message }))

  -- How the session in front of the handshake leaves a datagram behind.
  pub data Left (bytes : Bytes) (s s' : Session) (w : World) : Type 0 where
    waits : s' ≡ s → Left bytes s s' w
    ends : s' ≡ record s { state = closed } → Left bytes s s' w
    lets_in : Accepts p bytes s s' w → Left bytes s s' w

  module _ (bytes : Bytes) (s s' : Session) (sent : List Datagram) (w w' : World)
      (waiting : s.state ≡ waiting_hello)
      (handled : handle_handshake_packet p bytes s w ≡ returned (s', sent, w')) where
    by_verdict :
        (v : Verdict)
        → Obeys p s v (s', sent, w')
        → All (IsHandshakePacket p) sent × Left bytes s s' w
    by_verdict ignores (same, none_sent) = (rw none_sent tt, waits same)
    by_verdict scolds (same, error) =
        (rw error (send_handshake_error-IsHandshakePacket s bad_packet _), waits same)
    by_verdict (refuses code message) (same, error) =
        (rw error (send_handshake_error-IsHandshakePacket s code message), ends same)
    by_verdict (accepts hello t) (same, (response, answers, reply)) = (
      rw reply (send_handshake_packet-IsHandshakePacket s (server_hello response)),
      lets_in (
          handle_handshake_packet-Accepts p bytes s s' sent w w' waiting handled
            (ap (λ (x : Session). x.state) same)),
    )

    pub handshake-Left : All (IsHandshakePacket p) sent × Left bytes s s' w
    handshake-Left = by_verdict _ (
        Yields_at (Obeys p s _) (handle_handshake_packet p bytes s w)
          (handle_handshake_packet-Obeys p s w bytes) handled)
