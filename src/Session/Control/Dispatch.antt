-- ===== src/Session/Control/Dispatch.antt =====
-- Which handler of cli_tool/include/session.hpp a control packet that parses goes to.
use zapshare.Base.{◌≡◌, Bytes, some}
use zapshare.Platform.{Platform}
use zapshare.Protocol.{GetRequest, Ack, get, ack}
use zapshare.Session.{Session}
use zapshare.Session.Control.{control_body, handle_control_packet, handle_get_request, handle_ack}

module _ (p : Platform) (bytes : Bytes) (s : Session) (w : p.World) where
  pub handle_control_packet-get :
      (request : GetRequest)
      → p.codec.control_from_string bytes ≡ some (get request)
      → handle_control_packet p bytes s w ≡ handle_get_request p request s w
  unfolding handle_control_packet control_body
  handle_control_packet-get request parsed = simp parsed

  pub handle_control_packet-ack :
      (a : Ack)
      → p.codec.control_from_string bytes ≡ some (ack a)
      → handle_control_packet p bytes s w ≡ handle_ack p a s
  unfolding handle_control_packet control_body
  handle_control_packet-ack a parsed = simp parsed
