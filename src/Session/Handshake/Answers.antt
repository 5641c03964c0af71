-- ===== src/Session/Handshake/Answers.antt =====
-- That handle_handshake_packet of cli_tool/include/session.hpp returns, where libsodium works.
use zapshare.Base.{
  ◌≡◌, ◌≢◌, refl, sym, ◌∙◌, Bool-cases, inl, inr, true, Bytes, List, Option, none, some, returned,
  aborted, Outcome-cases, returns, throws, aborts, is_empty, Yields_at, ap, ℕ, ◌+◌, length, arith,
  Returns, Returns-and_then,
}
use zapshare.Config.{Datagram}
use zapshare.Crypto.{
  verify_signature, random_nonce, sign, ensure_libsodium_initialized, generate_identity_keypair,
  generate_ephemeral_keypair,
}
use zapshare.Crypto.Keys.{
  generate_identity_keypair-IsSignPair, generate_ephemeral_keypair-IsKxPair, sign_lem,
  verify_signature-sign,
}
use zapshare.Crypto.Libsodium.{SodiumLaws}
use zapshare.Crypto.Working.{
  IsWorking, generate_identity_keypair_lem, generate_ephemeral_keypair_lem, random_nonce_lem,
  hello_keys,
}
use zapshare.Platform.{Platform}
use zapshare.Protocol.{
  ClientHello, ServerHello, HandshakePacket, client_hello, server_hello, handshake_finish,
  handshake_error, no_handshake_body,
}
use zapshare.Protocol.Codec.{handshake_texts}
use zapshare.Session.{Session}
use zapshare.Session.Handshake.{
  is_version_1, validate_token, build_server_hello, sign_server_hello, server_transcript, accept,
  handle_client_hello, handshake_body, handle_handshake_packet,
}
use zapshare.Session.Handshake.Verdicts.{IsResponse, judge, Obeys, handle_handshake_packet-Obeys}
use zapshare.Utils.Metadata.{get_transfer_metadata}

-- No failed assertion ends the call of the central server for a hello's token.
abbrev pub IsAnswerable : (p : Platform) → p.World → Option HandshakePacket → Type 0
IsAnswerable p w packet =
    (hello : ClientHello)
    → packet ≡ some (client_hello hello)
    → (get_transfer_metadata p.json p.http hello.token w).0 ≢ aborted

module _ (p : Platform) (laws : SodiumLaws p.sodium) (works : IsWorking p.sodium) where
  open p use {World, sodium, http, json, codec}

  -- The answer's signature is good under the public key that it carries.
  pub response-verifies :
      (hello : ClientHello) (response : ServerHello)
      → IsResponse p hello response
      → verify_signature sodium
          (server_transcript response)
          response.sender_signature
          response.sender_identity.long_term_public_key
        ≡ returned true
  response-verifies hello response made =
      let (signature, signed, good) =
        verify_signature-sign sodium laws works.ready (server_transcript response) made.before
          made.after made.identity made.drawn in
      let both = sym signed ∙ made.signature in
      let same : signature ≡ response.sender_signature = cc in
      let transcript = server_transcript response in
      ap (verify_signature sodium transcript response.sender_signature) made.key
      ∙ (ap (λ x. verify_signature sodium transcript x made.identity.public_key) (sym same) ∙ good)

  pub response-size :
      (hello : ClientHello) (response : ServerHello)
      → IsResponse p hello response
      → handshake_texts (server_hello response) ≡ length hello.transfer_id + hello_keys sodium
  response-size hello response made =
      let (v, v', nonced) = made.fresh_nonce in
      let (u, k, u', keyed, same_key) = made.fresh_key in
      let both = sym (random_nonce_lem sodium laws works 32 v) ∙ nonced in
      let same_nonce : (sodium.randombytes_buf 32 v).0 ≡ response.sender_nonce = cc in
      let nonce = ap length (sym same_nonce) ∙ laws.random_size 32 v in
      let kx = generate_ephemeral_keypair-IsKxPair sodium laws u u' k keyed in
      let pair =
        generate_identity_keypair-IsSignPair sodium laws made.before made.after made.identity
          made.drawn in
      let long_term = ap length made.key ∙ (laws.sign_pair_sizes _ _ pair).0 in
      let ephemeral = ap length same_key ∙ (laws.kx_pair_sizes _ _ kx).0 in
      let both_signed =
        sym (sign_lem sodium laws works.ready (server_transcript response) made.identity pair)
        ∙ made.signature in
      let same_signature : (sodium.sign_detached (server_transcript response)
            made.identity.private_key).1
          ≡ response.sender_signature =
        cc in
      let signed =
        ap length (sym same_signature) ∙ laws.sign_size (server_transcript response) _ _ pair in
      omega (arith, ap length made.transfer_id, nonce, long_term, ephemeral, signed)

  random_nonce-Returns : (size : ℕ) (w : World) → Returns (random_nonce sodium size w)
  unfolding random_nonce ensure_libsodium_initialized
  random_nonce-Returns size w = simp works.ready (_, refl)

  build_server_hello-Returns :
      (hello : ClientHello) (w : World) → Returns (build_server_hello p hello w)
  unfolding build_server_hello sign_server_hello
  build_server_hello-Returns hello w =
      Returns-and_then (generate_identity_keypair sodium w) _
        (_, generate_identity_keypair_lem sodium laws works w)
        λ (identity, w1) drawn.
          Returns-and_then (generate_ephemeral_keypair sodium w1) _
            (_, generate_ephemeral_keypair_lem sodium laws works w1)
            λ (ephemeral, w2) _.
              Returns-and_then (random_nonce sodium 32 w2) _ (random_nonce-Returns 32 w2)
                λ (nonce, w3) _.
                  Returns-and_then (sign sodium _ identity) _
                    (
                      _,
                      sign_lem sodium laws works.ready _ identity
                          (generate_identity_keypair-IsSignPair sodium laws w w1 identity drawn),
                    )
                    λ signature _. (_, refl)

  module _ (s : Session) (w : World) where
    client_hello-Returns :
        (hello : ClientHello)
        → (get_transfer_metadata json http hello.token w).0 ≢ aborted
        → Returns (handle_client_hello p hello s w)
    unfolding handle_client_hello validate_token accept
    client_hello-Returns hello answers = elim (Bool-cases (is_version_1 hello.version)) [
      | inl v ↦ elim (Bool-cases (is_empty hello.token)) [
        | inl n ↦ simp (v, n) (_, refl)
        | inr n ↦ elim (Outcome-cases (get_transfer_metadata json http hello.token w).0) [
          | returns t m ↦
              let w' = (get_transfer_metadata json http hello.token w).1 in
              simp (v, n, m)
                (Returns-and_then (build_server_hello p hello w') _
                  (build_server_hello-Returns hello w') λ made _. (_, refl))
          | throws m ↦ simp (v, n, m) (_, refl)
          | aborts m ↦ absurd (answers m)
        ]
      ]
      | inr v ↦ simp v (_, refl)
    ]

    handshake_body-Returns :
        (packet : Option HandshakePacket)
        → IsAnswerable p w packet
        → Returns (handshake_body p packet s w)
    unfolding handshake_body
    handshake_body-Returns none h = (_, refl)
    handshake_body-Returns (some (client_hello hello)) h = client_hello-Returns hello (h hello refl)
    handshake_body-Returns (some (server_hello hello)) h = (_, refl)
    handshake_body-Returns (some (handshake_finish finish)) h = (_, refl)
    handshake_body-Returns (some (handshake_error e)) h = (_, refl)
    handshake_body-Returns (some no_handshake_body) h = (_, refl)

    -- Where libsodium works and no failed assertion ends the call of the central server for a
    -- hello's token, handle_handshake_packet returns, and has done what the protocol's verdict on
    -- the packet says: nothing for what does not parse; an error for what is no client hello, with
    -- the session as it was; an error and the end of the session for another version, an empty token
    -- and a token without metadata; and otherwise a session that is authenticated with the metadata,
    -- and a signed server hello of version 1 for the hello's transfer.
    pub handle_handshake_packet-returns :
        (bytes : Bytes)
        → IsAnswerable p w (codec.handshake_from_string bytes)
        → (r : Session × List Datagram × World) × (handle_handshake_packet p bytes s w ≡ returned r)
          × Obeys p s
              (judge
                (codec.handshake_from_string bytes)
                λ token. (get_transfer_metadata json http token w).0)
              r
    unfolding handle_handshake_packet
    handle_handshake_packet-returns bytes h =
        let (r, e) = handshake_body-Returns (codec.handshake_from_string bytes) h in
        (r, e, Yields_at _ _ (handle_handshake_packet-Obeys p s w bytes) e)
