-- ===== src/Crypto/SelfTest.antt =====
-- The program tests/CryptoTest.cpp: `test`, its assertions as checks that stop the process.
use zapshare.Base.{
  ℕ, Bool, true, false, not, Bytes, codes, [], ◌∷◌, ◌++◌, Option, none, some, Outcome, returned,
  and_then, bytes_eq,
}
use zapshare.Crypto.{
  SessionKeys, check, generate_identity_keypair, generate_ephemeral_keypair, sign, verify_signature,
  derive_client_keys, derive_server_keys, encrypt_packet, decrypt_packet,
}
use zapshare.Crypto.Libsodium.{Sodium}

abbrev pub greeting : Bytes
greeting = codes "hello"

abbrev pub tampered : Bytes
tampered = codes "tampered"

abbrev pub plaintext : Bytes
plaintext = codes "secret packet"

-- Whether decrypt_packet gave this text.
abbrev pub gives : Bytes → Option Bytes → Bool
gives text none = false
gives text (some decrypted) = bytes_eq decrypted text

abbrev pub is_refused : Option Bytes → Bool
is_refused none = true
is_refused (some decrypted) = false

module _ {World : Type 0} (s : Sodium World) where
  -- The assertions on packets, with the sequence number 1.
  unfoldable pub test_packets : SessionKeys → SessionKeys → World → Outcome World
  test_packets client_session server_session w =
      and_then (encrypt_packet s plaintext client_session.tx_key 1 w) λ (encrypted, w').
        and_then (decrypt_packet s encrypted server_session.rx_key 1) λ decrypted.
          check (gives plaintext decrypted) (
            and_then (decrypt_packet s encrypted server_session.rx_key 2)
              λ wrong. check (is_refused wrong) (returned w'))

  -- The assertions on session keys.
  unfoldable pub test_keys : World → Outcome World
  unfolding test_packets
  test_keys w = and_then (generate_ephemeral_keypair s w) λ (client_keys, w1).
      and_then (generate_ephemeral_keypair s w1) λ (server_keys, w2).
        and_then (derive_client_keys s client_keys server_keys.public_key) λ client_session.
          and_then (derive_server_keys s server_keys client_keys.public_key) λ server_session.
            check (bytes_eq client_session.tx_key server_session.rx_key) (
              check (bytes_eq client_session.rx_key server_session.tx_key)
                (test_packets client_session server_session w2))

  -- The assertions on signatures, and the others behind them.
  unfoldable pub test : World → Outcome World
  unfolding test_keys
  test w = and_then (generate_identity_keypair s w) λ (identity, w1).
      and_then (sign s greeting identity) λ signature.
        and_then (verify_signature s greeting signature identity.public_key) λ genuine.
          check genuine (
            and_then (verify_signature s tampered signature identity.public_key)
              λ accepted. check (not accepted) (test_keys w1))

  -- main: the exit code and the text printed.
  unfoldable pub test_main : World → Outcome (ℕ × Bytes × World)
  unfolding test
  test_main w = and_then (test w) λ w'. returned (0, codes "Crypto tests passed" ++ (10 ∷ []), w')
