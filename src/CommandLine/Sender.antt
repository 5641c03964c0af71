-- ===== src/CommandLine/Sender.antt =====
-- The class Server of cli_tool/src/server.cpp: run waits for the receiver's signal, punches a hole
-- and starts the session; do_receive hands each datagram to it. What the socket brings is a list of
-- arrivals.
pub mod Stops
pub mod Served
pub mod Greeted
pub mod Behind
pub mod Serves
pub mod Runs
use zapshare.Base.{
  ℕ, ◌&&◌, Bool, true, false, Bytes, codes, List, [], ◌∷◌, ◌++◌, Option, none, some, Outcome,
  returned, thrown, aborted, and_then, is_empty, not, if◌then◌else◌,
}
use zapshare.Client.Receive.{delivered}
use zapshare.Config.{Endpoint, Datagram}
use zapshare.Platform.{Platform}
use zapshare.Session.{Session, new_session, start, is_closed}
use zapshare.Session.Packets.{handle_packet}
use zapshare.Utils.PublicAddress.{Net}
use zapshare.Utils.Signalling.{PublicEndpoint, poll_for_signal, perform_udp_hole_punch}

-- What async_receive_from completes with: a datagram, the error connection_reset, or any other error.
pub data Arrival : Type 0 where
  arrived : Endpoint → Bytes → Arrival
  reset : Arrival
  failed : Arrival

-- class Server; the socket is left out, and `none` is the null session.
pub record Server : Type 0 where
  pub initialized : Bool
  pub file_path : Bytes
  pub remote_endpoint : Endpoint
  pub session : Option Session

abbrev pub is_initialized : Server → Bool
is_initialized v = v.initialized

-- The constructor.
unfoldable pub new_server : Bytes → Server
new_server file_path = record {
  initialized = false;
  file_path = file_path;
  remote_endpoint = record { address = codes "0.0.0.0"; port = 0 };
  session = none;
}

-- What `~Server` prints, whatever became of the transfer; the line ends in the byte 10.
unfoldable pub farewell : Server → Bytes
farewell v = codes "Your file was transfered successfully" ++ (10 ∷ [])

module _ (p : Platform) where
  open p use {World, http, json}

  abbrev pub Served : Type 0
  Served = Outcome (Session × List Datagram × World)

  -- Behind a datagram: a closed session ends the receiving.
  abbrev pub serve_next : Served → (Session → World → Served) → Served
  serve_next step rest = and_then step λ (s, sent, w).
      if is_closed s
      then returned (s, sent, w)
      else and_then (rest s w) λ (s', later, w'). returned (s', sent ++ later, w')

  -- The repeated calls of do_receive. An empty datagram counts as nothing.
  unfoldable pub do_receive : List Arrival → Session → World → Served
  do_receive [] s w = returned (s, [], w)
  do_receive (failed ∷ arrivals) s w = returned (s, [], w)
  do_receive (reset ∷ arrivals) s w = do_receive arrivals s w
  do_receive (arrived sender bytes ∷ arrivals) s w =
      let ignored = do_receive arrivals s w in
      let handled =
        serve_next (handle_packet p (delivered bytes) sender s w) (do_receive arrivals) in
      if is_empty (delivered bytes) then ignored else handled

  module _ (net : Net World) where
    -- The session of `s`: the run behind its creation.
    with_session :
        Server → List Arrival → World → List Datagram → Outcome (Server × List Datagram × World)
    with_session v arrivals w punched =
        let (s, printed) = start (new_session v.remote_endpoint v.file_path) in
        and_then (do_receive arrivals s w)
          λ (s', sent, w'). returned (record v { session = some s' }, punched ++ sent, w')

    run_with :
        Server
        → List Arrival
        → Outcome PublicEndpoint × World
        → Outcome (Server × List Datagram × World)
    unfolding with_session
    run_with v arrivals (peer, w) = and_then peer λ peer_ep.
        and_then (net.make_address peer_ep.ip) λ address.
          let v' = record v {
            remote_endpoint = record { address = address; port = peer_ep.port };
          } in
          and_then (perform_udp_hole_punch net.make_address peer_ep) (with_session v' arrivals w)

    unfoldable pub run :
        Server → Bytes → List Arrival → World → Outcome (Server × List Datagram × World)
    unfolding run_with
    run v transfer_id arrivals w =
        run_with (record v { initialized = true }) arrivals
          (poll_for_signal json http transfer_id w)
