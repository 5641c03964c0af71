-- ===== src/Crypto/Keys.antt =====
-- The key pairs of shared/src/crypto/session_crypto.cpp: what the two sides of a key agreement get,
-- and what a signature made with a fresh key is good for.
use zapshare.Base.{
  ℕ, ◌≡◌, subst, Bool-cases, inl, inr, thrown, ==_iff, Bool, true, false, not, Bytes, Outcome,
  returned, ==_refl, ◌==◌,
}
use zapshare.Crypto.{
  IdentityKeyPair, EphemeralKeyPair, SessionKeys, generate_identity_keypair,
  generate_ephemeral_keypair, sign, verify_signature, derive_client_keys, derive_server_keys,
  ensure_libsodium_initialized, check, throw_if,
}
use zapshare.Crypto.Libsodium.{Sodium, SodiumLaws}

-- A generator that returned: libsodium's code was zero, and the result is its key pair.
drawn :
    {A : Type 0} (init_failed public_fits private_fits : Bool) (code : ℕ) (a a' : A)
    → throw_if init_failed
        (throw_if (not (code == 0)) (check public_fits (check private_fits (returned a))))
      ≡ returned a'
    → (code ≡ 0) × (a ≡ a')
drawn true b c code a a' e = absurd (cc)
drawn false b c code a a' e = elim (Bool-cases (code == 0)) [
  | inl z ↦ ((==_iff code 0).0 z, fits b c a a' (simp z at e))
  | inr n ↦ never a' (simp n at e)
]
  where
    never : {A C : Type 0} (x : A) → ◌≡◌ {A = Outcome A} thrown (returned x) → C
    never x h = absurd (cc)

    fits : {A : Type 0} (b c : Bool) (x y : A) → check b (check c (returned x)) ≡ returned y → x ≡ y
    fits true true x y h = cc
    fits true false x y h = absurd (cc)
    fits false c x y h = absurd (cc)

module _ {World : Type 0} (s : Sodium World) (laws : SodiumLaws s) where
  pub generate_ephemeral_keypair-IsKxPair :
      (w w' : World) (keys : EphemeralKeyPair)
      → generate_ephemeral_keypair s w ≡ returned (keys, w')
      → laws.IsKxPair keys.public_key keys.private_key
  unfolding generate_ephemeral_keypair ensure_libsodium_initialized
  generate_ephemeral_keypair-IsKxPair w w' keys e =
      let (zero_code, same) = drawn s.init_failed _ _ (s.kx_keypair w).0 _ (keys, w') e in
      subst (λ (x : EphemeralKeyPair × World). laws.IsKxPair x.0.public_key x.0.private_key) same
        (laws.kx_keypair_pair w zero_code)

  pub generate_identity_keypair-IsSignPair :
      (w w' : World) (keys : IdentityKeyPair)
      → generate_identity_keypair s w ≡ returned (keys, w')
      → laws.IsSignPair keys.public_key keys.private_key
  unfolding generate_identity_keypair ensure_libsodium_initialized
  generate_identity_keypair-IsSignPair w w' keys e =
      let (zero_code, same) = drawn s.init_failed _ _ (s.sign_keypair w).0 _ (keys, w') e in
      subst (λ (x : IdentityKeyPair × World). laws.IsSignPair x.0.public_key x.0.private_key) same
        (laws.sign_keypair_pair w zero_code)

  module _ (ready : s.init_failed ≡ false) where
    pub derive_client_keys_lem :
        (a : EphemeralKeyPair) (q l : Bytes)
        → laws.IsKxPair a.public_key a.private_key
        → laws.IsKxPair q l
        → derive_client_keys s a q
          ≡ returned (record {
            tx_key = (s.kx_client_session_keys a.public_key a.private_key q).2;
            rx_key = (s.kx_client_session_keys a.public_key a.private_key q).1;
          })
    unfolding derive_client_keys ensure_libsodium_initialized
    derive_client_keys_lem a q l ha hq =
        let (p_size, k_size) = laws.kx_pair_sizes a.public_key a.private_key ha in
        let (q_size, _) = laws.kx_pair_sizes q l hq in
        let (works, _) = laws.kx_succeeds a.public_key a.private_key q l ha hq in
        simp (
          ready,
          p_size,
          k_size,
          q_size,
          works,
          ==_refl s.kx_public_key_bytes,
          ==_refl s.kx_secret_key_bytes,
        )

    derive_server_keys_lem :
        (b : EphemeralKeyPair) (q l : Bytes)
        → laws.IsKxPair b.public_key b.private_key
        → laws.IsKxPair q l
        → derive_server_keys s b q
          ≡ returned (record {
            tx_key = (s.kx_server_session_keys b.public_key b.private_key q).2;
            rx_key = (s.kx_server_session_keys b.public_key b.private_key q).1;
          })
    unfolding derive_server_keys ensure_libsodium_initialized
    derive_server_keys_lem b q l hb hq =
        let (p_size, k_size) = laws.kx_pair_sizes b.public_key b.private_key hb in
        let (q_size, _) = laws.kx_pair_sizes q l hq in
        let (_, works) = laws.kx_succeeds b.public_key b.private_key q l hb hq in
        simp (
          ready,
          p_size,
          k_size,
          q_size,
          works,
          ==_refl s.kx_public_key_bytes,
          ==_refl s.kx_secret_key_bytes,
        )

    pub sign_lem :
        (message : Bytes) (identity : IdentityKeyPair)
        → laws.IsSignPair identity.public_key identity.private_key
        → sign s message identity ≡ returned (s.sign_detached message identity.private_key).1
    unfolding sign ensure_libsodium_initialized
    sign_lem message identity pair =
        let (_, k_size) = laws.sign_pair_sizes identity.public_key identity.private_key pair in
        let works = laws.sign_succeeds message identity.public_key identity.private_key pair in
        simp (ready, k_size, works, ==_refl s.sign_secret_key_bytes)

    pub verify_signature_lem :
        (message : Bytes) (identity : IdentityKeyPair)
        → laws.IsSignPair identity.public_key identity.private_key
        → verify_signature s message
            (s.sign_detached message identity.private_key).1
            identity.public_key
          ≡ returned true
    unfolding verify_signature ensure_libsodium_initialized
    verify_signature_lem message identity pair =
        let (p_size, _) = laws.sign_pair_sizes identity.public_key identity.private_key pair in
        let size = laws.sign_size message identity.public_key identity.private_key pair in
        let works = laws.sign_verifies message identity.public_key identity.private_key pair in
        simp (ready, p_size, size, works, ==_refl s.sign_bytes, ==_refl s.sign_public_key_bytes)

    -- Two sides that each drew an ephemeral key pair and got the other's public key both derive
    -- session keys, and what one sends with, the other receives with, in both directions.
    pub derive_client_keys-derive_server_keys :
        (w w1 v v1 : World) (client server : EphemeralKeyPair)
        → generate_ephemeral_keypair s w ≡ returned (client, w1)
        → generate_ephemeral_keypair s v ≡ returned (server, v1)
        → (c : SessionKeys) × (d : SessionKeys) × (derive_client_keys s client server.public_key
            ≡ returned c)
          × (derive_server_keys s server client.public_key ≡ returned d)
          × (c.tx_key ≡ d.rx_key)
          × (c.rx_key ≡ d.tx_key)
    derive_client_keys-derive_server_keys w w1 v v1 client server ec es =
        let hc = generate_ephemeral_keypair-IsKxPair w w1 client ec in
        let hs = generate_ephemeral_keypair-IsKxPair v v1 server es in
        let (rx_tx, tx_rx) =
          laws.kx_agrees client.public_key client.private_key server.public_key server.private_key
            hc hs in
        (
          _,
          _,
          derive_client_keys_lem client server.public_key server.private_key hc hs,
          derive_server_keys_lem server client.public_key client.private_key hs hc,
          tx_rx,
          rx_tx,
        )

    -- A message signed with an identity that generate_identity_keypair drew verifies under the
    -- identity's public key.
    pub verify_signature-sign :
        (message : Bytes) (w w1 : World) (identity : IdentityKeyPair)
        → generate_identity_keypair s w ≡ returned (identity, w1)
        → (signature : Bytes) × (sign s message identity ≡ returned signature)
          × (verify_signature s message signature identity.public_key ≡ returned true)
    verify_signature-sign message w w1 identity e =
        let pair = generate_identity_keypair-IsSignPair w w1 identity e in
        (_, sign_lem message identity pair, verify_signature_lem message identity pair)
