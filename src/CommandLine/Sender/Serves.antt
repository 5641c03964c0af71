-- ===== src/CommandLine/Sender/Serves.antt =====
-- What Server::do_receive of cli_tool/src/server.cpp sends, whatever arrives.
use zapshare.Base.{
  ◌^◌, ◌<◌, ◌≡◌, ◌≢◌, inl, inr, sym, ap, ◌∙◌, subst, true, Bool-cases, Bytes, List, [], ◌∷◌, ◌++◌,
  some, Yields, Yields-map, All, All-append, All-map, Has, append-nil, length, is_empty,
}
use zapshare.Client.Receive.{delivered}
use zapshare.CommandLine.Sender.{Arrival, arrived, reset, failed, do_receive}
use zapshare.CommandLine.Sender.Stops.{do_receive-closed}
use zapshare.Config.{Transfers, Datagram, Endpoint}
use zapshare.Platform.{Platform}
use zapshare.Protocol.Codec.{CodecLaws}
use zapshare.Session.{Session, waiting_hello, is_closed}
use zapshare.Session.Control.Invariant.{StateInv, SessionInv, IsFilePacket}
use zapshare.Session.Packets.{handle_packet}
use zapshare.Session.Packets.Senders.{handle_packet-waiting}
use zapshare.CommandLine.Sender.Served.{
  IsHandshakePacket, IsKnown, MaySend, IsServed, serve_next-Yields, IsKnown-later, only_handshake,
  IsServed-map,
}
use zapshare.CommandLine.Sender.Greeted.{Left, waits, ends, lets_in, handshake-Left}
use zapshare.CommandLine.Sender.Behind.{IsBehind, do_receive-IsBehind}

module _ (p : Platform) (content : Bytes) where
  open p use {World, json, http, codec, read_file}

  module _ (laws : CodecLaws codec) (small : length content < 2 ^ 64) where
    -- The metadata is known from the hello on.
    behind-IsServed :
        (K : Transfers → Type 0) (t : Transfers)
        → K t
        → (front : List Datagram) → All (IsHandshakePacket p) front
        → (r : Session × List Datagram × World) → IsBehind p content laws small t r
        → IsServed p content K (r.0, front ++ r.1, r.2)
    behind-IsServed K t known front h (s, sent, w) (inv, same, packets) = (
      inv,
      All-append (MaySend p content K s.transfer_metadata) front sent
          (only_handshake p content K s.transfer_metadata front h)
          (subst (λ m. All (MaySend p content K m) sent) (sym same)
            (All-map (IsFilePacket p content t) (MaySend p content K t)
              (λ d packet. inr (packet, known)) sent packets)),
    )

    waiting-SessionInv :
        (s : Session) → s.state ≡ waiting_hello → s.offset ≡ 0 → SessionInv p content s
    waiting-SessionInv s waiting at_front =
        subst (λ st. StateInv p content st s) (sym waiting) at_front

    module _ (arrivals : List Arrival) (sender : Endpoint) (bytes : Bytes) (s s1 : Session)
        (sent1 : List Datagram) (w w1 : World) (waiting : s.state ≡ waiting_hello)
        (at_front : s.offset ≡ 0) (file : (v : World) → read_file s.file_path v ≡ some content)
        (packets : All (IsHandshakePacket p) sent1) where
      abbrev KnownHere : Transfers → Type 0
      KnownHere = IsKnown p content (arrived sender bytes ∷ arrivals)

      abbrev Rest : Session × List Datagram × World → Type 0
      Rest r = IsServed p content KnownHere (r.0, sent1 ++ r.1, r.2)

      alone : SessionInv p content s1 → IsServed p content KnownHere (s1, sent1, w1)
      alone inv = (inv, only_handshake p content KnownHere s1.transfer_metadata sent1 packets)

      -- What follows a datagram that reached a session that waits.
      after_waiting :
          ((v : Session) (u : World)
            → v.state ≡ waiting_hello
            → v.offset ≡ 0
            → ((x : World) → read_file v.file_path x ≡ some content)
            → Yields (IsServed p content (IsKnown p content arrivals)) (do_receive p arrivals v u))
          → Left p (delivered bytes) (record s { remote_endpoint = sender }) s1 w
          → (is_closed s1 ≡ true → IsServed p content KnownHere (s1, sent1, w1))
            × Yields Rest (do_receive p arrivals s1 w1)
      after_waiting again (waits same) =
          let waiting1 = ap (λ (x : Session). x.state) same ∙ waiting in
          let at_front1 = ap (λ (x : Session). x.offset) same ∙ at_front in
          let file1 = λ (v : World). ap (λ (x : Session). read_file x.file_path v) same ∙ file v in
          (
            λ c. alone (waiting-SessionInv s1 waiting1 at_front1),
            Yields-map (IsServed p content (IsKnown p content arrivals)) Rest
                (IsServed-map p content (IsKnown p content arrivals) KnownHere
                  (IsKnown-later p content (arrived sender bytes) arrivals) sent1 packets)
                (do_receive p arrivals s1 w1) (again s1 w1 waiting1 at_front1 file1),
          )
      after_waiting again (ends same) =
          let inv = subst (SessionInv p content) (sym same) tt in
          let closed1 = ap (λ (x : Session). is_closed x) same in
          (
            λ c. alone inv,
            subst (Yields Rest) (sym (do_receive-closed p arrivals s1 w1 closed1))
                (inv, rw (append-nil sent1) (alone inv).1),
          )
      after_waiting again (lets_in (hello, t, parsed, accepted, same)) =
          let state1 = ap (λ (x : Session). x.state) same in
          let known = ap (λ (x : Session). x.transfer_metadata) same in
          let behind : s1.state ≢ waiting_hello = λ e. let both = sym state1 ∙ e in absurd (cc) in
          let inv = subst (SessionInv p content) (sym same) at_front in
          let file1 = λ (v : World). ap (λ (x : Session). read_file x.file_path v) same ∙ file v in
          let k : KnownHere t = record {
            sender = sender;
            bytes = bytes;
            came = Has.first;
            hello = hello;
            parsed = parsed;
            asked = w;
            accepted = accepted;
          } in
          (
            λ c. alone inv,
            Yields-map (IsBehind p content laws small t) Rest
                (behind-IsServed KnownHere t k sent1 packets) (do_receive p arrivals s1 w1)
                (do_receive-IsBehind p content laws small t arrivals s1 w1 known behind file1 inv),
          )

    -- What the sender's server sends, whatever arrives and whoever sends it, from a session that
    -- waits for its hello: packets of the handshake, and packets of the file at offsets within it,
    -- these with the metadata that the central server gave for the token of a client hello of
    -- version 1 among what arrived. The session that is left satisfies its invariant. This holds
    -- where the receiving returns, and the file does not change.
    pub do_receive-IsServed :
        (arrivals : List Arrival) (s : Session) (w : World)
        → s.state ≡ waiting_hello
        → s.offset ≡ 0
        → ((v : World) → read_file s.file_path v ≡ some content)
        → Yields (IsServed p content (IsKnown p content arrivals)) (do_receive p arrivals s w)
    unfolding do_receive
    do_receive-IsServed [] s w waiting at_front file = (waiting-SessionInv s waiting at_front, tt)
    do_receive-IsServed (failed ∷ arrivals) s w waiting at_front file =
        (waiting-SessionInv s waiting at_front, tt)
    do_receive-IsServed (reset ∷ arrivals) s w waiting at_front file =
        Yields-map (IsServed p content (IsKnown p content arrivals))
          (IsServed p content (IsKnown p content (reset ∷ arrivals)))
          (IsServed-map p content (IsKnown p content arrivals)
            (IsKnown p content (reset ∷ arrivals)) (IsKnown-later p content reset arrivals) [] tt)
          (do_receive p arrivals s w) (do_receive-IsServed arrivals s w waiting at_front file)
    do_receive-IsServed (arrived sender bytes ∷ arrivals) s w waiting at_front file =
        let a = arrived sender bytes in
        let K = IsKnown p content arrivals in
        let L = IsKnown p content (a ∷ arrivals) in
        let more = IsKnown-later p content a arrivals in
        elim (Bool-cases (is_empty (delivered bytes))) [
          | inl e ↦ simp e (
              Yields-map (IsServed p content K) (IsServed p content L)
                (IsServed-map p content K L more [] tt) (do_receive p arrivals s w)
                (do_receive-IsServed arrivals s w waiting at_front file))
          | inr e ↦ simp e (
              serve_next-Yields p (IsServed p content L)
                (handle_packet p (delivered bytes) sender s w) (do_receive p arrivals)
                λ s1 sent1 w1 handled.
                  let greeted =
                    sym (handle_packet-waiting p (delivered bytes) sender s w waiting) ∙ handled in
                  let (packets, left) =
                    handshake-Left p (delivered bytes) (record s { remote_endpoint = sender }) s1
                      sent1 w w1 waiting greeted in
                  after_waiting arrivals sender bytes s s1 sent1 w w1 waiting at_front file packets
                    (do_receive-IsServed arrivals) left)
        ]
