-- ===== src/Tests/Hellos.antt =====
-- The receiver's handshake at one run: a timeout, a datagram that is no answer, and the answer.
use zapshare.Base.{
  ◌≡◌, ◌⊎◌, refl, Bytes, codes, List, [], ◌∷◌, some, bytes_eq, Outcome, returned, arith, replicate,
}
use zapshare.Client.Handshake.{connected, handshake_rounds, build_peer_candidates}
use zapshare.Client.Handshake.Candidates.{build_peer_candidates-candidates}
use zapshare.Client.Handshake.Connects.{
  IsAnswered, IsRefused, IsMet, handshake_rounds-IsAnswered, handshake_rounds-ends,
}
use zapshare.Client.Receive.{Event, received, timeout}
use zapshare.Client.Run.{sender_endpoint}
use zapshare.Config.{Endpoint}
use zapshare.Protocol.{version_1, server_hello}
use zapshare.Protocol.Codec.{Codec}
use zapshare.Tests.Rows.{registered}
use zapshare.Tests.Wire.{wire}
use zapshare.Tests.World.{sender, receiver}
use zapshare.Utils.Signalling.{candidates}

abbrev candidate_peers : Bytes → Outcome Bytes
candidate_peers = returned

build_peer_candidates-candidates_example :
    build_peer_candidates candidate_peers registered
    ≡ candidates candidate_peers (sender_endpoint registered)
build_peer_candidates-candidates_example =
    build_peer_candidates-candidates candidate_peers registered (omega arith) (omega arith)

-- Every datagram is taken for a server hello with the datagram for its transfer's id.
abbrev pub answering : Codec
answering = record wire {
  handshake_from_string = λ bytes. some (
      server_hello (record {
        version = version_1;
        transfer_id = bytes;
        sender_nonce = [];
        sender_identity = record { long_term_public_key = []; ephemeral_public_key = [] };
        sender_signature = [];
      }));
}

abbrev peers : List Endpoint
peers = sender ∷ receiver ∷ []

abbrev events : List Event
events = timeout ∷ received receiver (codes "zz") ∷ received sender (codes "b6") ∷ timeout ∷ []

connected_sender :
    (handshake_rounds answering 20 (codes "b6") (codes "hello") peers events).0 ≡ connected sender
unfolding handshake_rounds bytes_eq
connected_sender = refl

handshake_rounds-IsAnswered_example :
    IsAnswered answering (codes "b6") (codes "hello") peers sender events
handshake_rounds-IsAnswered_example =
    handshake_rounds-IsAnswered answering (codes "b6") (codes "hello") peers 20 events sender
      connected_sender

-- Twenty timeouts.
handshake_rounds-ends_example :
    IsRefused answering
      (codes "b6")
      (codes "hello")
      peers
      20
      (replicate 20 timeout)
      (handshake_rounds answering 20 (codes "b6") (codes "hello") peers (replicate 20 timeout))
    ⊎ IsMet answering
        (codes "b6")
        (codes "hello")
        peers
        20
        (replicate 20 timeout)
        (handshake_rounds answering 20 (codes "b6") (codes "hello") peers (replicate 20 timeout))
handshake_rounds-ends_example =
    handshake_rounds-ends answering (codes "b6") (codes "hello") peers 20 (replicate 20 timeout)
      (omega arith)
