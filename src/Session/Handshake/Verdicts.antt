-- ===== src/Session/Handshake/Verdicts.antt =====
-- What handle_handshake_packet of cli_tool/include/session.hpp decides, on every branch.
use zapshare.Base.{
  ◌≡◌, refl, Bytes, codes, List, [], Option, none, some, Outcome, returned, thrown, aborted, Yields,
  Yields-and_then, Yields_at, Outcome-cases, returns, throws, aborts, is_empty, Bool-cases, inl,
  inr, if◌then◌else◌,
}
use zapshare.Config.{Transfers, Datagram}
use zapshare.Crypto.{
  IdentityKeyPair, EphemeralKeyPair, generate_identity_keypair, generate_ephemeral_keypair,
  random_nonce, sign,
}
use zapshare.Platform.{Platform}
use zapshare.Protocol.{
  ErrorCode, bad_packet, invalid_token, version_1, ClientHello, ServerHello, HandshakePacket,
  client_hello, server_hello, handshake_finish, handshake_error, no_handshake_body,
}
use zapshare.Session.{Session, authenticated, closed, send_handshake_packet, send_handshake_error}
use zapshare.Session.Handshake.{
  is_version_1, validate_token, build_server_hello, accept, handle_client_hello, handshake_body,
  handle_handshake_packet, server_transcript, sign_server_hello,
}
use zapshare.Utils.Metadata.{get_transfer_metadata}

-- What becomes of a packet, by the protocol.
pub data Verdict : Type 0 where
  -- nothing changes and nothing is sent
  ignores : Verdict
  -- an error is sent and the session still waits
  scolds : Verdict
  -- an error is sent and the session is over
  refuses : ErrorCode → Bytes → Verdict
  accepts : ClientHello → Transfers → Verdict

-- What the central server's answer for the token makes of a hello. `aborted` ends the process.
abbrev pub judge_token : ClientHello → Outcome Transfers → Verdict
judge_token hello (returned t) = accepts hello t
judge_token hello thrown = refuses invalid_token (codes "Invalid Token")
judge_token hello aborted = ignores

abbrev pub judge : Option HandshakePacket → (Bytes → Outcome Transfers) → Verdict
judge none metadata = ignores
judge (some (client_hello hello)) metadata =
    if is_version_1 hello.version
    then if is_empty hello.token
      then refuses invalid_token (codes "Missing Token!")
      else judge_token hello (metadata hello.token)
    else refuses bad_packet (codes "Unsupported protocol version")
judge (some (server_hello hello)) metadata = scolds
judge (some (handshake_finish finish)) metadata = scolds
judge (some (handshake_error e)) metadata = scolds
judge (some no_handshake_body) metadata = scolds

module _ (p : Platform) where
  open p use {World, sodium, http, json, codec}

  -- A server hello that answers a client hello.
  pub record IsResponse (hello : ClientHello) (response : ServerHello) : Type 0 where
    pub version : response.version ≡ version_1
    pub transfer_id : response.transfer_id ≡ hello.transfer_id
    pub fresh_nonce :
        (v : World) × (v' : World) × (random_nonce sodium 32 v
          ≡ returned (response.sender_nonce, v'))
    pub fresh_key :
        (v : World) × (k : EphemeralKeyPair) × (v' : World) × (generate_ephemeral_keypair sodium v
          ≡ returned (k, v'))
        × (response.sender_identity.ephemeral_public_key ≡ k.public_key)
    -- signed with a fresh identity, whose public key it carries
    pub identity : IdentityKeyPair
    pub before : World
    pub after : World
    pub drawn : generate_identity_keypair sodium before ≡ returned (identity, after)
    pub key : response.sender_identity.long_term_public_key ≡ identity.public_key
    pub signature :
        sign sodium (server_transcript response) identity ≡ returned response.sender_signature

  -- The new session and the datagrams, by the verdict.
  abbrev pub Follows : Session → Verdict → Session → List Datagram → Type 0
  Follows s ignores s' sent = (s' ≡ s) × (sent ≡ [])
  Follows s scolds s' sent =
      (s' ≡ s) × (sent ≡ send_handshake_error p s bad_packet (codes "Expected client hello!"))
  Follows s (refuses code message) s' sent =
      (s' ≡ record s { state = closed }) × (sent ≡ send_handshake_error p s code message)
  Follows s (accepts hello t) s' sent =
      (s' ≡ record s { transfer_metadata = t; state = authenticated })
      × ((response : ServerHello) × IsResponse hello response
          × (sent ≡ send_handshake_packet p s (server_hello response)))

  abbrev pub Obeys : Session → Verdict → Session × List Datagram × World → Type 0
  Obeys s verdict (s', sent, w) = Follows s verdict s' sent

  build_server_hello-IsResponse :
      (hello : ClientHello) (w : World)
      → Yields (λ r. IsResponse hello r.0) (build_server_hello p hello w)
  unfolding build_server_hello sign_server_hello server_transcript
  build_server_hello-IsResponse hello w =
      let Made : ServerHello × World → Type 0 = λ r. IsResponse hello r.0 in
      Yields-and_then Made (generate_identity_keypair sodium w) _ λ (identity, w1) drawn.
        Yields-and_then Made (generate_ephemeral_keypair sodium w1) _ λ (ephemeral, w2) keyed.
          Yields-and_then Made (random_nonce sodium 32 w2) _ λ (nonce, w3) nonced.
            Yields-and_then Made (sign sodium _ identity) _ λ signature signed. record {
              version = refl;
              transfer_id = refl;
              fresh_nonce = (w2, w3, nonced);
              fresh_key = (w1, ephemeral, w2, keyed, refl);
              identity = identity;
              before = w;
              after = w1;
              drawn = drawn;
              key = refl;
              signature = signed;
            }

  module _ (s : Session) (w : World) where
    accept-Obeys :
        (hello : ClientHello) (t : Transfers) (w' : World)
        → Yields
            (Obeys s (accepts hello t))
            (accept p hello (record s { transfer_metadata = t }) w')
    unfolding accept send_handshake_packet
    accept-Obeys hello t w' =
        Yields-and_then (Obeys s (accepts hello t)) (build_server_hello p hello w') _
          λ (response, w'') made. (
            refl,
            (
              response,
              Yields_at (λ r. IsResponse hello r.0) (build_server_hello p hello w')
                  (build_server_hello-IsResponse hello w') made,
              refl,
            ),
          )

    client_hello-Obeys :
        (hello : ClientHello)
        → Yields
            (Obeys s (
              judge
                (some (client_hello hello))
                λ token. (get_transfer_metadata json http token w).0))
            (handle_client_hello p hello s w)
    unfolding handle_client_hello validate_token
    client_hello-Obeys hello = elim (Bool-cases (is_version_1 hello.version)) [
      | inl v ↦ elim (Bool-cases (is_empty hello.token)) [
        | inl n ↦ simp (v, n) (refl, refl)
        | inr n ↦ elim (Outcome-cases (get_transfer_metadata json http hello.token w).0) [
          | returns t m ↦
              simp (v, n, m)
                (accept-Obeys hello t (get_transfer_metadata json http hello.token w).1)
          | throws m ↦ simp (v, n, m) (refl, refl)
          | aborts m ↦ simp (v, n, m) tt
        ]
      ]
      | inr v ↦ simp v (refl, refl)
    ]

    handshake_body-Obeys :
        (packet : Option HandshakePacket)
        → Yields
            (Obeys s (judge packet λ token. (get_transfer_metadata json http token w).0))
            (handshake_body p packet s w)
    unfolding handshake_body
    handshake_body-Obeys none = (refl, refl)
    handshake_body-Obeys (some (client_hello hello)) = client_hello-Obeys hello
    handshake_body-Obeys (some (server_hello hello)) = (refl, refl)
    handshake_body-Obeys (some (handshake_finish finish)) = (refl, refl)
    handshake_body-Obeys (some (handshake_error e)) = (refl, refl)
    handshake_body-Obeys (some no_handshake_body) = (refl, refl)

    -- On every packet handle_handshake_packet does what the protocol's verdict says, if it returns.
    pub handle_handshake_packet-Obeys :
        (bytes : Bytes)
        → Yields
            (Obeys s (
              judge
                (codec.handshake_from_string bytes)
                λ token. (get_transfer_metadata json http token w).0))
            (handle_handshake_packet p bytes s w)
    unfolding handle_handshake_packet
    handle_handshake_packet-Obeys bytes = handshake_body-Obeys (codec.handshake_from_string bytes)
