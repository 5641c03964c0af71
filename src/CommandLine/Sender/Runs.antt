-- ===== src/CommandLine/Sender/Runs.antt =====
-- All that the class Server of cli_tool/src/server.cpp sends, from the hole punch on.
use zapshare.Base.{
  true, ℕ, zero, suc, ◌^◌, ◌<◌, ◌≡◌, ◌⊎◌, inl, inr, refl, Bytes, codes, List, [], ◌∷◌, map, some,
  returned, thrown, aborted, Outcome, All, All-append, All-map, length, Yields, Yields-and_then,
  Yields_at,
}
use zapshare.CommandLine.Sender.{Arrival, Server, do_receive, run, run_with, with_session}
use zapshare.CommandLine.Sender.Served.{IsKnown, MaySend, IsServed}
use zapshare.CommandLine.Sender.Serves.{do_receive-IsServed}
use zapshare.Config.{Endpoint, Datagram}
use zapshare.Platform.{Platform}
use zapshare.Protocol.Codec.{CodecLaws}
use zapshare.Session.{Session, new_session, start}
use zapshare.Session.Control.Invariant.{SessionInv}
use zapshare.Utils.PublicAddress.{Net}
use zapshare.Utils.Signalling.{
  PublicEndpoint, poll_for_signal, perform_udp_hole_punch, punches, punch_to, punch_all, candidates,
}

abbrev pub IsPunch : Datagram → Type 0
IsPunch d = d.bytes ≡ codes "PUNCH"

module _ (make_address : Bytes → Outcome Bytes) where
  one_round-IsPunch : (es : List Endpoint) → All IsPunch (map (punch_to make_address) es)
  one_round-IsPunch [] = tt
  one_round-IsPunch (e ∷ es) = (refl, one_round-IsPunch es)

  punches-IsPunch : (n : ℕ) (es : List Endpoint) → All IsPunch (punches make_address n es)
  unfolding punches
  punches-IsPunch zero es = tt
  punches-IsPunch (suc n) es =
      All-append IsPunch (map (punch_to make_address) es) (punches make_address n es)
        (one_round-IsPunch es) (punches-IsPunch n es)

  all_rounds-IsPunch :
      (m : Outcome (List Endpoint)) → Yields (All IsPunch) (punch_all make_address m)
  all_rounds-IsPunch (returned es) = punches-IsPunch 5 es
  all_rounds-IsPunch thrown = tt
  all_rounds-IsPunch aborted = tt

  perform_udp_hole_punch-IsPunch :
      (peer : PublicEndpoint) → Yields (All IsPunch) (perform_udp_hole_punch make_address peer)
  unfolding perform_udp_hole_punch
  perform_udp_hole_punch-IsPunch peer = all_rounds-IsPunch (candidates make_address peer)

module _ (p : Platform) (content : Bytes) (laws : CodecLaws p.codec)
    (small : length content < 2 ^ 64) (net : Net p.World) (arrivals : List Arrival) where
  open p use {World, json, http, read_file}

  -- Every datagram is a hole punch, or one that do_receive may send.
  pub record RunServed (r : Server × List Datagram × World) : Type 0 where
    pub session : Session
    pub made : r.0.session ≡ some session
    pub inv : SessionInv p content session
    pub packets :
        All
          (λ d.
            IsPunch d ⊎ MaySend p content (IsKnown p content arrivals) session.transfer_metadata d)
          r.1

  with_session-RunServed :
      (v : Server) (w : World) (punched : List Datagram)
      → All IsPunch punched
      → ((u : World) → read_file v.file_path u ≡ some content)
      → Yields RunServed (with_session p net v arrivals w punched)
  unfolding with_session start new_session
  with_session-RunServed v w punched all file =
      let s = new_session v.remote_endpoint v.file_path in
      Yields-and_then RunServed (do_receive p arrivals s w) _ λ (s', sent, w') e.
        let (inv, may) =
          Yields_at (IsServed p content (IsKnown p content arrivals)) (do_receive p arrivals s w)
            (do_receive-IsServed p content laws small arrivals s w refl refl file) e in
        let May = MaySend p content (IsKnown p content arrivals) s'.transfer_metadata in
        let Either : Datagram → Type 0 = λ d. IsPunch d ⊎ May d in
        record {
          session = s';
          made = refl;
          inv = inv;
          packets =
              All-append Either punched sent (All-map IsPunch Either (λ d x. inl x) punched all)
                (All-map May Either (λ d x. inr x) sent may);
        }

  run_with-RunServed :
      (v : Server) (peer : Outcome PublicEndpoint) (w : World)
      → ((u : World) → read_file v.file_path u ≡ some content)
      → Yields RunServed (run_with p net v arrivals (peer, w))
  unfolding run_with
  run_with-RunServed v peer w file = Yields-and_then RunServed peer _ λ ep _.
      Yields-and_then RunServed (net.make_address ep.ip) _ λ address _.
        Yields-and_then RunServed (perform_udp_hole_punch net.make_address ep) _ λ punched e.
          with_session-RunServed
            (record v { remote_endpoint = record { address = address; port = ep.port } }) w punched
            (Yields_at (All IsPunch) (perform_udp_hole_punch net.make_address ep)
              (perform_udp_hole_punch-IsPunch net.make_address ep) e)
            file

  -- Server::run, where it returns, has sent nothing but hole punches, packets of the handshake, and
  -- packets of the file at offsets within it, the last only with the metadata that the central
  -- server gave for the token of a client hello of version 1 among what arrived; the session that
  -- it leaves satisfies its invariant. The file does not change meanwhile.
  pub run-RunServed :
      (v : Server) (transfer_id : Bytes) (w : World)
      → ((u : World) → read_file v.file_path u ≡ some content)
      → Yields RunServed (run p net v transfer_id arrivals w)
  unfolding run
  run-RunServed v transfer_id w file =
      run_with-RunServed (record v { initialized = true })
        (poll_for_signal json http transfer_id w).0 (poll_for_signal json http transfer_id w).1 file
