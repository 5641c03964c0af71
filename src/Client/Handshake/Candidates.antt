-- ===== src/Client/Handshake/Candidates.antt =====
-- Where cli_tool/src/client.cpp sends its hellos, and where perform_udp_hole_punch of
-- cli_tool/include/utils.hpp sends its punches.
use zapshare.Base.{◌^◌, ◌<◌, ◌≡◌, Bytes, Outcome}
use native.Mathlib.Nat.{mod-eq_of_lt}
use zapshare.Config.{Transfers}
use zapshare.Client.Handshake.{build_peer_candidates}
use zapshare.Client.Run.{sender_endpoint}
use zapshare.Utils.Signalling.{candidates}

-- The hole punch goes to exactly the endpoints that get the hellos, in the same order, if the
-- transfer's ports are ports of UDP.
pub build_peer_candidates-candidates :
    (make_address : Bytes → Outcome Bytes) (t : Transfers)
    → t.sender_port < 2 ^ 16
    → t.sender_local_port < 2 ^ 16
    → build_peer_candidates make_address t ≡ candidates make_address (sender_endpoint t)
unfolding build_peer_candidates candidates
build_peer_candidates-candidates make_address t h k = simp (mod-eq_of_lt h, mod-eq_of_lt k)
