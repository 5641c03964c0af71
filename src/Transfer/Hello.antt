-- ===== src/Transfer/Hello.antt =====
-- The receiver's hello (cli_tool/src/client.cpp) against the sender's session
-- (cli_tool/include/session.hpp).
use zapshare.Base.{
  ◌+◌, ◌≤◌, ◌≡◌, refl, sym, ap, ◌∙◌, subst, true, false, Bytes, List, [], ◌∷◌, some, length,
  Outcome, returned, arith, is_empty, take_all, bytes_eq, bytes_eq_refl,
}
use zapshare.Client.Handshake.{
  Connection, connected, build_client_hello, perform_handshake, handshake_rounds, send_all,
  is_answer,
}
use zapshare.Client.Handshake.Connects.{handshake_rounds-answers}
use zapshare.Client.Handshake.Hello.{IsHello, build_client_hello-IsHello}
use zapshare.Client.Receive.{Event, received, delivered}
use zapshare.Config.{Transfers, Endpoint, Datagram, max_packet_size, max_retries}
use zapshare.Crypto.Libsodium.{SodiumLaws}
use zapshare.Crypto.Working.{IsWorking, hello_keys}
use zapshare.Platform.{Platform}
use zapshare.Protocol.{ClientHello, ServerHello, HandshakePacket, client_hello, server_hello}
use zapshare.Protocol.Codec.{HandshakeLaws, IsText, handshake_overhead}
use zapshare.Session.{Session, waiting_hello, authenticated, send_handshake_packet}
use zapshare.Session.Handshake.Answers.{
  IsAnswerable, handle_handshake_packet-returns, response-size,
}
use zapshare.Session.Handshake.Verdicts.{IsResponse, Obeys, accepts, judge}
use zapshare.Session.Packets.{handle_packet}
use zapshare.Session.Packets.Senders.{handle_packet-waiting}
use zapshare.Utils.Metadata.{get_transfer_metadata}

module _ (p : Platform) where
  open p use {World, sodium, http, json, codec}

  abbrev pub hello_bytes : ClientHello → Bytes
  hello_bytes hello = (codec.handshake_to_string (client_hello hello)).1

  abbrev pub greeted : Session → Endpoint → Transfers → Session
  greeted s receiver t = record s {
    remote_endpoint = receiver;
    transfer_metadata = t;
    state = authenticated;
  }

  -- What a hello from `receiver` makes of the session: the one datagram that it answers with.
  pub record Greets (s : Session) (receiver : Endpoint) (t : Transfers) (hello : ClientHello)
      (w : World) : Type 0 where
    pub response : ServerHello
    pub answers : IsResponse p hello response
    pub reply : Datagram
    pub bytes : reply.bytes ≡ (codec.handshake_to_string (server_hello response)).1
    pub to : reply.to ≡ receiver
    pub after : World
    pub handled :
        handle_packet p (delivered (hello_bytes hello)) receiver s w
        ≡ returned (greeted s receiver t, reply ∷ [], after)

  module _ (laws : SodiumLaws sodium) (works : IsWorking sodium) (wire : HandshakeLaws codec)
      (token : Bytes) (text : IsText token) (there : is_empty token ≡ false)
      (room : length token + (length token + hello_keys sodium) + handshake_overhead
        ≤ max_packet_size) where
    hello_arrives :
        (hello : ClientHello)
        → IsHello p token hello
        → codec.handshake_from_string (delivered (hello_bytes hello)) ≡ some (client_hello hello)
    hello_arrives hello made =
        let short : length (hello_bytes hello) ≤ max_packet_size =
          omega (arith, room, made.size, wire.handshake_size (client_hello hello)) in
        rw (take_all max_packet_size (hello_bytes hello) short) (
          wire.client_hello_round_trip hello made.version (subst IsText (sym made.transfer_id) text)
            (subst IsText (sym made.same_token) text))

    reply_arrives :
        (hello : ClientHello) (response : ServerHello)
        → IsHello p token hello
        → IsResponse p hello response
        → codec.handshake_from_string
            (delivered (codec.handshake_to_string (server_hello response)).1)
          ≡ some (server_hello response)
    reply_arrives hello response made answers =
        let bytes = (codec.handshake_to_string (server_hello response)).1 in
        let same = answers.transfer_id ∙ made.transfer_id in
        let short : length bytes ≤ max_packet_size = omega (
          arith,
          room,
          response-size p laws works hello response answers,
          ap length made.transfer_id,
          wire.handshake_size (server_hello response),
        ) in
        rw (take_all max_packet_size bytes short)
          (wire.server_hello_round_trip response answers.version (subst IsText (sym same) text))

    accepted :
        (hello : ClientHello) (t : Transfers) (w : World)
        → IsHello p token hello
        → (get_transfer_metadata json http token w).0 ≡ returned t
        → judge (some (client_hello hello)) (λ secret. (get_transfer_metadata json http secret w).0)
          ≡ accepts hello t
    accepted hello t w made known = simp (made.version, made.same_token, there, known)

    answerable :
        (hello : ClientHello) (t : Transfers) (w : World)
        → IsHello p token hello
        → (get_transfer_metadata json http token w).0 ≡ returned t
        → IsAnswerable p w (codec.handshake_from_string (delivered (hello_bytes hello)))
    answerable hello t w made known other parsed failed =
        let same : other ≡ hello = let both = sym parsed ∙ hello_arrives hello made in cc in
        let at_token = ap (λ (h : ClientHello). h.token) same ∙ made.same_token in
        let never =
          sym (ap (λ k. (get_transfer_metadata json http k w).0) at_token ∙ known) ∙ failed in
        absurd (cc)

    returned_eq :
        {s s' : Session} {ds ds' : List Datagram} {w : World}
        → s ≡ s'
        → ds ≡ ds'
        → ◌≡◌ {A = Outcome (Session × List Datagram × World)}
            (returned (s, ds, w))
            (returned (s', ds', w))
    returned_eq e f = cc

    sent_packet :
        (s : Session) (packet : HandshakePacket)
        → send_handshake_packet p s packet
          ≡ record { to = s.remote_endpoint; bytes = (codec.handshake_to_string packet).1 } ∷ []
    unfolding send_handshake_packet
    sent_packet s packet = simp (wire.handshake_serializes packet)

    greeting :
        (hello : ClientHello) (s : Session) (receiver : Endpoint) (t : Transfers) (w : World)
        → IsHello p token hello
        → s.state ≡ waiting_hello
        → (get_transfer_metadata json http token w).0 ≡ returned t
        → Greets s receiver t hello w
    greeting hello s receiver t w made waiting known =
        let s0 = record s { remote_endpoint = receiver } in
        let bytes = delivered (hello_bytes hello) in
        let ((s', sent, w'), e, obeys) =
          handle_handshake_packet-returns p laws works s0 w bytes
            (answerable hello t w made known) in
        let verdict =
          ap (λ packet. judge packet λ secret. (get_transfer_metadata json http secret w).0)
            (hello_arrives hello made)
          ∙ accepted hello t w made known in
        let (same, (response, answers, replied)) =
          subst (λ v. Obeys p s0 v (s', sent, w')) verdict obeys in
        let reply : Datagram = record {
          to = receiver;
          bytes = (codec.handshake_to_string (server_hello response)).1;
        } in
        let one : sent ≡ reply ∷ [] = replied ∙ sent_packet s0 (server_hello response) in
        record {
          response = response;
          answers = answers;
          reply = reply;
          bytes = refl;
          to = refl;
          after = w';
          handled = handle_packet-waiting p bytes receiver s w waiting ∙ (e ∙ returned_eq same one);
        }

    handshake_made :
        (peers : List Endpoint) (es : List Event) (w : World) (hello : ClientHello) (w' : World)
        → build_client_hello p token w ≡ returned (hello, w')
        → perform_handshake p peers token es w ≡ (
            let rounds = handshake_rounds codec max_retries token (hello_bytes hello) peers es in
            returned (rounds.0, rounds.1, rounds.2, w'))
    unfolding perform_handshake
    handshake_made peers es w hello w' built = rw built

    -- Where libsodium works, protobuf reads what it wrote, and the ids leave room in a packet: a
    -- receiver makes its hello for any token; a session that waits answers it with one datagram to
    -- where it came from, and is authenticated with the metadata that the central server gives for
    -- the token; and the receiver whose next event is this answer is connected, with its hello sent
    -- once to each peer.
    pub perform_handshake-connects :
        (s : Session) (receiver sender : Endpoint) (t : Transfers) (w wc : World)
        (peers : List Endpoint) (es : List Event)
        → s.state ≡ waiting_hello
        → (get_transfer_metadata json http token w).0 ≡ returned t
        → (hello : ClientHello) × (wc' : World) × (g : Greets s receiver t hello w)
          × (perform_handshake p peers token (received sender g.reply.bytes ∷ es) wc
              ≡ returned (connected sender, send_all (hello_bytes hello) peers, es, wc'))
    perform_handshake-connects s receiver sender t w wc peers es waiting known =
        let ((hello, wc'), built, made) = build_client_hello-IsHello p laws works token wc in
        let g = greeting hello s receiver t w made waiting known in
        let parsed =
          ap (λ b. codec.handshake_from_string (delivered b)) g.bytes
          ∙ reply_arrives hello g.response made g.answers in
        let same : bytes_eq g.response.transfer_id token ≡ true =
          ap (λ i. bytes_eq i token) (g.answers.transfer_id ∙ made.transfer_id)
          ∙ bytes_eq_refl token in
        let first =
          handshake_rounds-answers codec token (hello_bytes hello) peers 19
            (received sender g.reply.bytes) es (ap (is_answer token) parsed ∙ same) in
        (
          hello,
          wc',
          g,
          handshake_made peers (received sender g.reply.bytes ∷ es) wc hello wc' built
              ∙ ap (λ (r : Connection × List Datagram × List Event). returned (r.0, r.1, r.2, wc'))
                  first,
        )
