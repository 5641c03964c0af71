-- ===== src/CommandLine/Sender/Behind.antt =====
-- Server::do_receive of cli_tool/src/server.cpp behind the handshake.
use zapshare.Base.{
  ◌^◌, ◌<◌, ◌≡◌, ◌≢◌, inl, inr, ap, ◌∙◌, subst, Bool-cases, Bytes, List, [], ◌∷◌, ◌++◌, some,
  Yields, Yields_at, Yields-map, All, All-append, length, is_empty,
}
use zapshare.Client.Receive.{delivered}
use zapshare.CommandLine.Sender.{Arrival, arrived, reset, failed, do_receive}
use zapshare.Config.{Transfers, Datagram}
use zapshare.Platform.{Platform}
use zapshare.Protocol.Codec.{CodecLaws}
use zapshare.Session.{Session, waiting_hello}
use zapshare.Session.Control.Invariant.{SessionInv, IsFilePacket, IsSafe}
use zapshare.Session.Packets.{handle_packet}
use zapshare.Session.Packets.Safe.{handle_packet-IsSafe}
use zapshare.CommandLine.Sender.Served.{serve_next-Yields}

module _ (p : Platform) (content : Bytes) where
  open p use {World, json, http, codec, read_file}

  module _ (laws : CodecLaws codec) (small : length content < 2 ^ 64) where
    -- Behind the handshake: the metadata stays, and only packets of the file are sent.
    abbrev pub IsBehind : Transfers → Session × List Datagram × World → Type 0
    IsBehind t (s, sent, w) =
        SessionInv p content s × (s.transfer_metadata ≡ t) × All (IsFilePacket p content t) sent

    IsBehind-joined :
        (t : Transfers) (front : List Datagram)
        → All (IsFilePacket p content t) front
        → (r : Session × List Datagram × World) → IsBehind t r
        → IsBehind t (r.0, front ++ r.1, r.2)
    IsBehind-joined t front h (s, sent, w) (inv, known, packets) =
        (inv, known, All-append (IsFilePacket p content t) front sent h packets)

    pub do_receive-IsBehind :
        (t : Transfers) (arrivals : List Arrival) (s : Session) (w : World)
        → s.transfer_metadata ≡ t
        → s.state ≢ waiting_hello
        → ((v : World) → read_file s.file_path v ≡ some content)
        → SessionInv p content s
        → Yields (IsBehind t) (do_receive p arrivals s w)
    unfolding do_receive
    do_receive-IsBehind t [] s w known behind file inv = (inv, known, tt)
    do_receive-IsBehind t (failed ∷ arrivals) s w known behind file inv = (inv, known, tt)
    do_receive-IsBehind t (reset ∷ arrivals) s w known behind file inv =
        do_receive-IsBehind t arrivals s w known behind file inv
    do_receive-IsBehind t (arrived sender bytes ∷ arrivals) s w known behind file inv =
        elim (Bool-cases (is_empty (delivered bytes))) [
          | inl e ↦ simp e (do_receive-IsBehind t arrivals s w known behind file inv)
          | inr e ↦ simp e (
              serve_next-Yields p (IsBehind t) (handle_packet p (delivered bytes) sender s w)
                (do_receive p arrivals)
                λ s1 sent1 w1 handled.
                  let safe : IsSafe p content s (s1, sent1) =
                    Yields_at (λ r. IsSafe p content s (r.0, r.1))
                      (handle_packet p (delivered bytes) sender s w)
                      (handle_packet-IsSafe p content laws small (delivered bytes) sender s w
                        (file w) inv behind)
                      handled in
                  let known1 = safe.metadata ∙ known in
                  let packets =
                    subst (λ m. All (IsFilePacket p content m) sent1) known safe.packets in
                  let file1 = λ (v : World). ap (λ f. read_file f v) safe.path ∙ file v in
                  let rest =
                    do_receive-IsBehind t arrivals s1 w1 known1 (safe.behind behind) file1
                      safe.inv in
                  (
                    λ c. (safe.inv, known1, packets),
                    Yields-map (IsBehind t) (λ r. IsBehind t (r.0, sent1 ++ r.1, r.2))
                        (IsBehind-joined t sent1 packets) (do_receive p arrivals s1 w1) rest,
                  ))
        ]
