-- ===== src/Client/Run/Verified.antt =====
-- What a success of run_client_session in cli_tool/src/client.cpp means.
use zapshare.Base.{
  ◌≡◌, refl, ap, ◌∙◌, Bool, true, false, Bytes, List, ◌++◌, Option, none, some, Outcome, returned,
  and_then, thrown, aborted, Yields, Yields-and_then, Yields_at, Yields-map,
}
use zapshare.Client.Handshake.{
  build_peer_candidates, perform_handshake, Connection, connected, gave_up, waits,
}
use zapshare.Client.Output.{Output, read_back}
use zapshare.Client.Receive.{Event, Request, Receiver, receive_file, build_get_request}
use zapshare.Client.Receive.Verified.{LoopVerified, receive_file-LoopVerified}
use zapshare.Client.Run.{
  ClientRun, after_handshake, with_candidates, with_metadata, run_client_session, sender_endpoint,
}
use zapshare.Config.{Transfers, Endpoint, Datagram}
use zapshare.FileHash.{Sha256, compute_file_hash}
use zapshare.Platform.{Platform}
use zapshare.Utils.Metadata.{get_transfer_metadata}
use zapshare.Utils.PublicAddress.{Net, get_public_endpoint_for_socket}
use zapshare.Utils.Signalling.{signal_receiver_endpoint, perform_udp_hole_punch}

module _ (p : Platform) (sha : Sha256) (net : Net p.World) where
  open p use {World, http, json, codec}

  -- The receiver has written a file under the output's name whose hash is that of the transfer.
  pub record IsFetched (t : Transfers) (run : ClientRun World) : Type 0 where
    pub receiver : Receiver
    pub reached : run.receiver ≡ some receiver
    pub verified : compute_file_hash sha (read_back receiver.out) ≡ returned t.file_hash

  -- The transfer is what the central server gave for the token.
  pub record RunVerified (token : Bytes) (run : ClientRun World) : Type 0 where
    pub transfer : Transfers
    pub asked : World
    pub given : (get_transfer_metadata json http token asked).0 ≡ returned transfer
    pub fetched : IsFetched transfer run

  -- A run that reports success has fetched the transfer.
  abbrev Fetches : Transfers → ClientRun World → Type 0
  Fetches t run = run.result ≡ some true → IsFetched t run

  received-Fetches :
      (q : Request) (t : Transfers) (w : World) (sent : List Datagram)
      (outcome : Outcome (Option Bool × Receiver × List Datagram))
      → q.expected_hash ≡ t.file_hash
      → LoopVerified codec sha q outcome
      → Yields (Fetches t) (
          and_then outcome λ (result, r, later).
            returned
              (record { result = result; receiver = some r; sent = sent ++ later; world = w }))
  received-Fetches q t w sent (returned (some true, r, later)) same verified =
      λ success. record { receiver = r; reached = refl; verified = verified ∙ ap returned same }
  received-Fetches q t w sent (returned (some false, r, later)) same verified =
      λ success. absurd (cc)
  received-Fetches q t w sent (returned (none, r, later)) same verified = λ success. absurd (cc)
  received-Fetches q t w sent thrown same verified = tt
  received-Fetches q t w sent aborted same verified = tt

  after_handshake-Fetches :
      (token : Bytes) (t : Transfers) (out : Output)
      (made : Connection × List Datagram × List Event × World)
      → Yields (Fetches t) (after_handshake p sha net token t out made)
  unfolding after_handshake
  after_handshake-Fetches token t out (gave_up, sent, es, w) = λ success. absurd (cc)
  after_handshake-Fetches token t out (waits, sent, es, w) = λ success. absurd (cc)
  after_handshake-Fetches token t out (connected peer, sent, es, w) =
      let q : Request = record {
        peer = peer;
        transfer_id = token;
        expected_hash = t.file_hash;
        get_bytes = build_get_request codec sha token;
      } in
      received-Fetches q t w sent (receive_file codec sha q out es) refl
        (receive_file-LoopVerified codec sha q out es)

  with_candidates-Fetches :
      (token : Bytes) (t : Transfers) (out : Output) (es : List Event) (w : World)
      (peers : List Endpoint)
      → Yields (Fetches t) (with_candidates p sha net token t out es w peers)
  unfolding with_candidates
  with_candidates-Fetches token t out es w peers =
      Yields-and_then (Fetches t) (perform_udp_hole_punch net.make_address (sender_endpoint t)) _
        λ punched _.
          Yields-and_then (Fetches t) (perform_handshake p peers token es w) _
            λ (result, sent, left, w') _.
              after_handshake-Fetches token t out (result, punched ++ sent, left, w')

  -- A run that reports success has fetched what the central server gave for the token.
  abbrev Good : Bytes → ClientRun World → Type 0
  Good token run = run.result ≡ some true → RunVerified token run

  run_client_session-Good :
      (token : Bytes) (out : Output) (es : List Event) (w : World)
      → Yields (Good token) (run_client_session p sha net token out es w)
  unfolding run_client_session with_metadata
  run_client_session-Good token out es w =
      Yields-and_then (Good token) (get_public_endpoint_for_socket net w).0 _ λ ep _.
        Yields-and_then (Good token)
          (signal_receiver_endpoint json http token ep (get_public_endpoint_for_socket net w).1) _
          λ w2 _.
            Yields-and_then (Good token) (get_transfer_metadata json http token w2).0 _ λ t given.
              Yields-and_then (Good token) (build_peer_candidates net.make_address t) _ λ peers _.
                Yields-map (Fetches t) (Good token)
                  (λ r fetches success. record {
                    transfer = t;
                    asked = w2;
                    given = given;
                    fetched = fetches success;
                  })
                  (with_candidates p sha net token t out es
                    (get_transfer_metadata json http token w2).1 peers)
                  (with_candidates-Fetches token t out es
                    (get_transfer_metadata json http token w2).1 peers)

  -- A fetch that reports success has written, under the output's name, a file whose hash is the one
  -- that the central server gave for the token, whatever the peer and others sent.
  pub run_client_session-RunVerified :
      (token : Bytes) (out : Output) (es : List Event) (w : World) (run : ClientRun World)
      → run_client_session p sha net token out es w ≡ returned run
      → run.result ≡ some true
      → RunVerified token run
  run_client_session-RunVerified token out es w run e =
      Yields_at (Good token) (run_client_session p sha net token out es w)
        (run_client_session-Good token out es w) e
