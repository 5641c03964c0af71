-- ===== src/Session/Packets/Senders.antt =====
-- What the sender of a datagram counts for in handle_packet of cli_tool/include/session.hpp.
use zapshare.Base.{◌≡◌, ◌≢◌, refl, true, Bytes, [], returned}
use zapshare.Config.{Endpoint}
use zapshare.Platform.{Platform}
use zapshare.Session.{
  Session, State, waiting_hello, authenticated, transferring, closed, is_closed, is_closed_state,
}
use zapshare.Session.Handshake.{handle_handshake_packet}
use zapshare.Session.Packets.{handle_packet, packet_in_state}

module _ (p : Platform) where
  open p use {World}

  same_result :
      (st : State) (bytes : Bytes) (a b : Endpoint) (s : Session) (w : World)
      → st ≢ waiting_hello
      → packet_in_state p st bytes a s w ≡ packet_in_state p st bytes b s w
  unfolding packet_in_state
  same_result waiting_hello bytes a b s w h = absurd (h refl)
  same_result authenticated bytes a b s w h = refl
  same_result transferring bytes a b s w h = refl
  same_result closed bytes a b s w h = refl

  -- Behind the handshake, whoever sends a datagram gets the same from the session: handle_packet does
  -- not compare the sender with the session's peer.
  pub handle_packet-ignores_sender :
      (bytes : Bytes) (a b : Endpoint) (s : Session) (w : World)
      → s.state ≢ waiting_hello
      → handle_packet p bytes a s w ≡ handle_packet p bytes b s w
  unfolding handle_packet
  handle_packet-ignores_sender bytes a b s w h = same_result s.state bytes a b s w h

  closed_result :
      (st : State) (bytes : Bytes) (sender : Endpoint) (s : Session) (w : World)
      → is_closed_state st ≡ true
      → packet_in_state p st bytes sender s w ≡ returned (s, [], w)
  unfolding packet_in_state
  closed_result closed bytes sender s w h = refl
  closed_result waiting_hello bytes sender s w h = absurd (cc)
  closed_result authenticated bytes sender s w h = absurd (cc)
  closed_result transferring bytes sender s w h = absurd (cc)

  pub handle_packet-closed :
      (bytes : Bytes) (sender : Endpoint) (s : Session) (w : World)
      → is_closed s ≡ true
      → handle_packet p bytes sender s w ≡ returned (s, [], w)
  unfolding handle_packet
  handle_packet-closed bytes sender s w h = closed_result s.state bytes sender s w h

  waiting_result :
      (st : State) (bytes : Bytes) (sender : Endpoint) (s : Session) (w : World)
      → st ≡ waiting_hello
      → packet_in_state p st bytes sender s w
        ≡ handle_handshake_packet p bytes (record s { remote_endpoint = sender }) w
  unfolding packet_in_state
  waiting_result waiting_hello bytes sender s w h = refl
  waiting_result authenticated bytes sender s w h = absurd (cc)
  waiting_result transferring bytes sender s w h = absurd (cc)
  waiting_result closed bytes sender s w h = absurd (cc)

  -- A session that waits takes whoever sends for its peer.
  pub handle_packet-waiting :
      (bytes : Bytes) (sender : Endpoint) (s : Session) (w : World)
      → s.state ≡ waiting_hello
      → handle_packet p bytes sender s w
        ≡ handle_handshake_packet p bytes (record s { remote_endpoint = sender }) w
  unfolding handle_packet
  handle_packet-waiting bytes sender s w h = waiting_result s.state bytes sender s w h
