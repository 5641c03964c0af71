-- ===== src/Session/Packets/Safe.antt =====
-- handle_packet of cli_tool/include/session.hpp behind the handshake.
use zapshare.Base.{◌^◌, ◌<◌, ◌≡◌, ◌≢◌, refl, Bytes, List, some, length, Yields}
use zapshare.Config.{Datagram, Endpoint}
use zapshare.Platform.{Platform}
use zapshare.Protocol.Codec.{CodecLaws}
use zapshare.Session.{Session, State, waiting_hello, authenticated, transferring, closed}
use zapshare.Session.Control.Invariant.{
  SessionInv, IsSafe, quiet-IsSafe, handle_control_packet-IsSafe,
}
use zapshare.Session.Packets.{handle_packet, packet_in_state, control_outcome}

module _ (p : Platform) (content : Bytes) (laws : CodecLaws p.codec)
    (small : length content < 2 ^ 64) (bytes : Bytes) (sender : Endpoint) (s : Session)
    (w : p.World) (file : p.read_file s.file_path w ≡ some content)
    (inv : SessionInv p content s) where
  open p use {World}

  abbrev pub SafeResult : Session × List Datagram × World → Type 0
  SafeResult (s', sent, w') = IsSafe p content s (s', sent)

  in_state-IsSafe :
      (st : State) → st ≢ waiting_hello → Yields SafeResult (packet_in_state p st bytes sender s w)
  unfolding packet_in_state control_outcome
  in_state-IsSafe waiting_hello h = absurd (h refl)
  in_state-IsSafe authenticated h =
      handle_control_packet-IsSafe p content laws small s bytes w file inv
  in_state-IsSafe transferring h =
      handle_control_packet-IsSafe p content laws small s bytes w file inv
  in_state-IsSafe closed h = quiet-IsSafe p content s s inv refl refl (λ b. b)

  pub handle_packet-IsSafe :
      s.state ≢ waiting_hello → Yields SafeResult (handle_packet p bytes sender s w)
  unfolding handle_packet
  handle_packet-IsSafe h = in_state-IsSafe s.state h
