-- ===== src/Client/Run.antt =====
-- run_client_session of cli_tool/src/client.cpp: the receiver from the STUN request to the file.
pub mod Verified
use zapshare.Base.{
  Bool, false, ◌%◌, ◌^◌, Bytes, List, ◌++◌, Option, none, some, Outcome, returned, and_then,
}
use zapshare.Client.Handshake.{
  build_peer_candidates, perform_handshake, Connection, connected, gave_up, waits,
}
use zapshare.Client.Output.{Output}
use zapshare.Client.Receive.{Event, Request, Receiver, receive_file, build_get_request}
use zapshare.Config.{Transfers, Endpoint, Datagram}
use zapshare.FileHash.{Sha256}
use zapshare.Platform.{Platform}
use zapshare.Utils.Metadata.{get_transfer_metadata}
use zapshare.Utils.PublicAddress.{Net, get_public_endpoint_for_socket}
use zapshare.Utils.Signalling.{PublicEndpoint, signal_receiver_endpoint, perform_udp_hole_punch}

-- `sender_ep`
abbrev pub sender_endpoint : Transfers → PublicEndpoint
sender_endpoint t = record {
  ip = t.sender_ip;
  port = t.sender_port % 2 ^ 16;
  local_ip = t.sender_local_ip;
  local_port = t.sender_local_port % 2 ^ 16;
}

-- The returned Boolean, if the events were enough to return; the variables of receive_file, if it
-- was reached; and the datagrams sent.
pub record ClientRun (World : Type 0) : Type 0 where
  pub result : Option Bool
  pub receiver : Option Receiver
  pub sent : List Datagram
  pub world : World

module _ (p : Platform) (sha : Sha256) (net : Net p.World) where
  open p use {World, http, json, codec}

  -- Behind the handshake. The output is opened for writing, or `opened` is false.
  after_handshake :
      (token : Bytes)
      → Transfers
      → Output
      → Connection × List Datagram × List Event × World
      → Outcome (ClientRun World)
  after_handshake token t out (gave_up, sent, es, w) =
      returned (record { result = some false; receiver = none; sent = sent; world = w })
  after_handshake token t out (waits, sent, es, w) =
      returned (record { result = none; receiver = none; sent = sent; world = w })
  after_handshake token t out (connected peer, sent, es, w) =
      let q : Request = record {
        peer = peer;
        transfer_id = token;
        expected_hash = t.file_hash;
        get_bytes = build_get_request codec sha token;
      } in
      and_then (receive_file codec sha q out es) λ (result, r, later).
        returned (record { result = result; receiver = some r; sent = sent ++ later; world = w })

  with_candidates :
      (token : Bytes)
      → Transfers
      → Output
      → List Event
      → World
      → List Endpoint
      → Outcome (ClientRun World)
  unfolding after_handshake
  with_candidates token t out es w peers =
      and_then (perform_udp_hole_punch net.make_address (sender_endpoint t)) λ punched.
        and_then (perform_handshake p peers token es w) λ (result, sent, left, w').
          after_handshake token t out (result, punched ++ sent, left, w')

  with_metadata :
      (token : Bytes) → Output → List Event → Outcome Transfers × World → Outcome (ClientRun World)
  unfolding with_candidates
  with_metadata token out es (t, w) =
      and_then t λ t'.
        and_then (build_peer_candidates net.make_address t') (with_candidates token t' out es w)

  unfoldable pub run_client_session :
      Bytes → Output → List Event → World → Outcome (ClientRun World)
  unfolding with_metadata
  run_client_session token out es w =
      let (my_ep, w1) = get_public_endpoint_for_socket net w in
      and_then my_ep λ ep.
        and_then (signal_receiver_endpoint json http token ep w1)
          λ w2. with_metadata token out es (get_transfer_metadata json http token w2)
