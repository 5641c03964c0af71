-- ===== src/Session/Packets.antt =====
-- handle_packet of cli_tool/include/session.hpp: which handler a datagram goes to.
pub mod Senders
pub mod Safe
use zapshare.Base.{Bytes, List, [], Outcome, returned}
use zapshare.Config.{Endpoint, Datagram}
use zapshare.Platform.{Platform}
use zapshare.Session.{Session, State, waiting_hello, authenticated, transferring, closed}
use zapshare.Session.Control.{handle_control_packet}
use zapshare.Session.Handshake.{handle_handshake_packet}

module _ (p : Platform) where
  open p use {World}

  control_outcome : Session × List Datagram → World → Outcome (Session × List Datagram × World)
  control_outcome (s, sent) w = returned (s, sent, w)

  packet_in_state :
      State → Bytes → Endpoint → Session → World → Outcome (Session × List Datagram × World)
  unfolding control_outcome
  packet_in_state closed bytes sender s w = returned (s, [], w)
  packet_in_state waiting_hello bytes sender s w =
      handle_handshake_packet p bytes (record s { remote_endpoint = sender }) w
  packet_in_state authenticated bytes sender s w =
      control_outcome (handle_control_packet p bytes s w) w
  packet_in_state transferring bytes sender s w =
      control_outcome (handle_control_packet p bytes s w) w

  unfoldable pub handle_packet :
      Bytes → Endpoint → Session → World → Outcome (Session × List Datagram × World)
  unfolding packet_in_state
  handle_packet bytes sender s w = packet_in_state s.state bytes sender s w
