-- ===== src/Session/Handshake/Authenticates.antt =====
-- Who gets past the handshake of cli_tool/include/session.hpp, and what the others are told.
use zapshare.Base.{
  ◌≡◌, refl, sym, ap, ◌∙◌, true, false, Bytes, List, Option, none, some, Outcome, returned, aborted,
  and_then-eq_returned, Outcome-cases, returns, throws, aborts, is_empty, Bool-cases, inl, inr,
  arith,
}
use zapshare.Config.{Transfers, Datagram}
use zapshare.Platform.{Platform}
use zapshare.Protocol.{
  ClientHello, HandshakePacket, client_hello, server_hello, handshake_finish, handshake_error,
  no_handshake_body,
}
use zapshare.Session.{Session, waiting_hello, authenticated, closed}
use zapshare.Session.Handshake.{
  is_version_1, validate_token, build_server_hello, accept, handle_client_hello, handshake_body,
  handle_handshake_packet,
}
use zapshare.Utils.Metadata.{get_transfer_metadata}

module _ (p : Platform) where
  open p use {World, http, json, codec}

  -- A hello that the session takes: the protocol's version, and a token for which the central server
  -- gave metadata.
  pub record IsAccepted (hello : ClientHello) (t : Transfers) (w : World) : Type 0 where
    pub version : is_version_1 hello.version ≡ true
    pub token : is_empty hello.token ≡ false
    pub metadata : (get_transfer_metadata json http hello.token w).0 ≡ returned t

  accept_inv :
      (hello : ClientHello) (s s' : Session) (sent : List Datagram) (w w' : World)
      → accept p hello s w ≡ returned (s', sent, w')
      → s' ≡ record s { state = authenticated }
  unfolding accept
  accept_inv hello s s' sent w w' e =
      let (a, _, f) = and_then-eq_returned (build_server_hello p hello w) _ e in ground (arith, f)

  refused {ℓ} :
      {A : Type ℓ} (s s' : Session) (w w' : World) (sent sent' : List Datagram)
      → ◌≡◌ {A = Outcome (Session × List Datagram × World)}
          (returned (record s { state = closed }, sent, w))
          (returned (s', sent', w'))
      → s'.state ≡ authenticated
      → A
  refused s s' w w' sent sent' e auth = absurd (ground (arith, e, auth))

  hello_inv :
      (hello : ClientHello) (s s' : Session) (sent : List Datagram) (w w' : World)
      → handle_client_hello p hello s w ≡ returned (s', sent, w')
      → s'.state ≡ authenticated
      → (t : Transfers) × IsAccepted hello t w
        × (s' ≡ record s { transfer_metadata = t; state = authenticated })
  unfolding handle_client_hello validate_token
  hello_inv hello s s' sent w w' e auth = elim (Bool-cases (is_version_1 hello.version)) [
    | inl v ↦ elim (Bool-cases (is_empty hello.token)) [
      | inl n ↦ refused s s' w w' _ sent (simp (v, n) at e) auth
      | inr n ↦ elim (Outcome-cases (get_transfer_metadata json http hello.token w).0) [
        | returns t m ↦ (
          t,
          record { version = v; token = n; metadata = m },
          accept_inv hello (record s { transfer_metadata = t }) s' sent
              (get_transfer_metadata json http hello.token w).1 w' (simp (v, n, m) at e),
        )
        | throws m ↦
            refused s s' (get_transfer_metadata json http hello.token w).1 w' _ sent
              (simp (v, n, m) at e) auth
        | aborts m ↦
            let never : ◌≡◌ {A = Outcome (Session × List Datagram × World)} aborted
                (returned (s', sent, w')) =
              simp (v, n, m) at e in
            absurd (cc)
      ]
    ]
    | inr v ↦ refused s s' w w' _ sent (simp v at e) auth
  ]

  same_session :
      (s s' : Session) (w w' : World) (sent sent' : List Datagram)
      → ◌≡◌ {A = Outcome (Session × List Datagram × World)}
          (returned (s, sent, w))
          (returned (s', sent', w'))
      → s' ≡ s
  same_session s s' w w' sent sent' e = ground (arith, e)

  abbrev pub Accepts : Bytes → Session → Session → World → Type 0
  Accepts bytes s s' w =
      (hello : ClientHello) × (t : Transfers) × (codec.handshake_from_string bytes
        ≡ some (client_hello hello))
      × IsAccepted hello t w
      × (s' ≡ record s { transfer_metadata = t; state = authenticated })

  still_waiting {ℓ} :
      {A : Type ℓ} (s s' : Session)
      → s.state ≡ waiting_hello
      → s' ≡ s
      → s'.state ≡ authenticated
      → A
  still_waiting s s' waiting same auth =
      let states = ap (λ (x : Session). x.state) same in
      let contra : waiting_hello ≡ authenticated = sym waiting ∙ (sym states ∙ auth) in absurd (cc)

  by_packet :
      (bytes : Bytes) (s s' : Session) (sent : List Datagram) (w w' : World)
      → s.state ≡ waiting_hello
      → s'.state ≡ authenticated
      → (packet : Option HandshakePacket) → codec.handshake_from_string bytes ≡ packet
      → handshake_body p packet s w ≡ returned (s', sent, w')
      → Accepts bytes s s' w
  unfolding handshake_body
  by_packet bytes s s' sent w w' waiting auth none parsed f =
      still_waiting s s' waiting (same_session s s' w w' _ sent f) auth
  by_packet bytes s s' sent w w' waiting auth (some (client_hello hello)) parsed f =
      let (t, accepted, same) = hello_inv hello s s' sent w w' f auth in
      (hello, t, parsed, accepted, same)
  by_packet bytes s s' sent w w' waiting auth (some (server_hello hello)) parsed f =
      still_waiting s s' waiting (same_session s s' w w' _ sent f) auth
  by_packet bytes s s' sent w w' waiting auth (some (handshake_finish finish)) parsed f =
      still_waiting s s' waiting (same_session s s' w w' _ sent f) auth
  by_packet bytes s s' sent w w' waiting auth (some (handshake_error err)) parsed f =
      still_waiting s s' waiting (same_session s s' w w' _ sent f) auth
  by_packet bytes s s' sent w w' waiting auth (some no_handshake_body) parsed f =
      still_waiting s s' waiting (same_session s s' w w' _ sent f) auth

  -- A session that waits for a hello becomes authenticated only by a client hello of version 1 with
  -- a token for which the central server gives metadata; it then has that metadata and is otherwise
  -- as it was.
  pub handle_handshake_packet-Accepts :
      (bytes : Bytes) (s s' : Session) (sent : List Datagram) (w w' : World)
      → s.state ≡ waiting_hello
      → handle_handshake_packet p bytes s w ≡ returned (s', sent, w')
      → s'.state ≡ authenticated
      → Accepts bytes s s' w
  unfolding handle_handshake_packet
  handle_handshake_packet-Accepts bytes s s' sent w w' waiting e auth =
      by_packet bytes s s' sent w w' waiting auth (codec.handshake_from_string bytes) refl e
