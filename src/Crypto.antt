-- ===== src/Crypto.antt =====
-- shared/src/crypto/session_crypto.cpp, with shared/include/crypto/session_crypto.hpp and the CHECK
-- of shared/include/utils/check.hpp. A function that draws random bytes passes the state of the
-- random generator on. The CHECK that `plaintext` is no null pointer has no counterpart: there is no
-- pointer.
pub mod Libsodium
pub mod Sequence
pub mod Sealing
pub mod Keys
pub mod Working
pub mod SelfTest
use zapshare.Base.{
  ℕ, zero, suc, ◌+◌, ◌-◌, ◌%◌, ◌/◌, Bool, true, false, ◌||◌, not, Bytes, [], ◌∷◌, ◌++◌, length,
  take, drop, Outcome, returned, thrown, aborted, and_then, ltb, ◌==◌, if◌then◌else◌, Option, none,
  some,
}
use Libsodium.{Sodium}
use Sequence.{sequence_bytes}

pub record IdentityKeyPair : Type 0 where
  pub public_key : Bytes
  pub private_key : Bytes

pub record EphemeralKeyPair : Type 0 where
  pub public_key : Bytes
  pub private_key : Bytes

pub record SessionKeys : Type 0 where
  pub tx_key : Bytes
  pub rx_key : Bytes

-- `CHECK(condition)` in front of the rest of the function.
abbrev pub check {ℓ} : {A : Type ℓ} → Bool → Outcome A → Outcome A
check true rest = rest
check false rest = aborted

-- `DCHECK(condition)`: a check in a debug build, nothing where NDEBUG is defined.
abbrev pub dcheck {ℓ} : {A : Type ℓ} → (debug condition : Bool) → Outcome A → Outcome A
dcheck true condition rest = check condition rest
dcheck false condition rest = rest

-- `if (failed) throw` in front of the rest of the function.
abbrev pub throw_if {ℓ} : {A : Type ℓ} → Bool → Outcome A → Outcome A
throw_if true rest = thrown
throw_if false rest = rest

module _ {World : Type 0} (s : Sodium World) where
  open s use {
    sign_public_key_bytes, sign_secret_key_bytes, sign_bytes, kx_public_key_bytes,
    kx_secret_key_bytes, aead_key_bytes, aead_nonce_bytes, aead_tag_bytes,
  }

  unfoldable pub ensure_libsodium_initialized : {A : Type 0} → Outcome A → Outcome A
  ensure_libsodium_initialized rest = throw_if s.init_failed rest

  unfoldable pub generate_identity_keypair : World → Outcome (IdentityKeyPair × World)
  unfolding ensure_libsodium_initialized
  generate_identity_keypair w =
      let (code, public_key, private_key, w') = s.sign_keypair w in
      ensure_libsodium_initialized (
        throw_if (not (code == 0)) (
          check (length public_key == sign_public_key_bytes) (
            check (length private_key == sign_secret_key_bytes)
              (returned (record { public_key = public_key; private_key = private_key }, w')))))

  unfoldable pub generate_ephemeral_keypair : World → Outcome (EphemeralKeyPair × World)
  unfolding ensure_libsodium_initialized
  generate_ephemeral_keypair w =
      let (code, public_key, private_key, w') = s.kx_keypair w in
      ensure_libsodium_initialized (
        throw_if (not (code == 0)) (
          check (length public_key == kx_public_key_bytes) (
            check (length private_key == kx_secret_key_bytes)
              (returned (record { public_key = public_key; private_key = private_key }, w')))))

  unfoldable pub random_nonce : ℕ → World → Outcome (Bytes × World)
  unfolding ensure_libsodium_initialized
  random_nonce size w = ensure_libsodium_initialized (returned (s.randombytes_buf size w))

  unfoldable pub sign : Bytes → IdentityKeyPair → Outcome Bytes
  unfolding ensure_libsodium_initialized
  sign message identity =
      let (code, signature) = s.sign_detached message identity.private_key in
      ensure_libsodium_initialized (
        check (length identity.private_key == sign_secret_key_bytes)
          (throw_if (not (code == 0)) (returned signature)))

  unfoldable pub verify_signature : Bytes → Bytes → Bytes → Outcome Bool
  unfolding ensure_libsodium_initialized
  verify_signature message signature public_key = ensure_libsodium_initialized (
      if not (length signature == sign_bytes) || not (length public_key == sign_public_key_bytes)
      then returned false
      else returned (s.sign_verify_detached signature message public_key == 0))

  unfoldable pub derive_client_keys : EphemeralKeyPair → Bytes → Outcome SessionKeys
  unfolding ensure_libsodium_initialized
  derive_client_keys client_key_pair server_public_key =
      let (code, rx, tx) =
        s.kx_client_session_keys client_key_pair.public_key client_key_pair.private_key
          server_public_key in
      ensure_libsodium_initialized (
        check (length client_key_pair.private_key == kx_secret_key_bytes) (
          check (length client_key_pair.public_key == kx_public_key_bytes) (
            throw_if (not (length server_public_key == kx_public_key_bytes))
              (throw_if (not (code == 0)) (returned (record { tx_key = tx; rx_key = rx }))))))

  unfoldable pub derive_server_keys : EphemeralKeyPair → Bytes → Outcome SessionKeys
  unfolding ensure_libsodium_initialized
  derive_server_keys server_key_pair client_public_key =
      let (code, rx, tx) =
        s.kx_server_session_keys server_key_pair.public_key server_key_pair.private_key
          client_public_key in
      ensure_libsodium_initialized (
        check (length server_key_pair.private_key == kx_secret_key_bytes) (
          check (length server_key_pair.public_key == kx_public_key_bytes) (
            throw_if (not (length client_public_key == kx_public_key_bytes))
              (throw_if (not (code == 0)) (returned (record { tx_key = tx; rx_key = rx }))))))

  unfoldable pub encrypt_packet : Bytes → Bytes → ℕ → World → Outcome (Bytes × World)
  unfolding ensure_libsodium_initialized
  encrypt_packet plaintext key sequence w =
      let (nonce, w') = s.randombytes_buf aead_nonce_bytes w in
      let (code, ciphertext) = s.aead_encrypt plaintext (sequence_bytes sequence) nonce key in
      ensure_libsodium_initialized (
        check (length key == aead_key_bytes)
          (throw_if (not (code == 0)) (returned (nonce ++ ciphertext, w'))))

  -- The result is `none` where the code returns false, and otherwise what it writes to `*plaintext`.
  unfoldable pub decrypt_packet : Bytes → Bytes → ℕ → Outcome (Option Bytes)
  unfolding ensure_libsodium_initialized
  decrypt_packet ciphertext key sequence =
      let nonce = take aead_nonce_bytes ciphertext in
      let encrypted_payload = drop aead_nonce_bytes ciphertext in
      let (code, decrypted_payload) =
        s.aead_decrypt encrypted_payload (sequence_bytes sequence) nonce key in
      ensure_libsodium_initialized (
        check (length key == aead_key_bytes) (
          if ltb (length ciphertext) (aead_nonce_bytes + aead_tag_bytes)
          then returned none
          else if ltb (length encrypted_payload) aead_tag_bytes
          then returned none
          else if not (code == 0)
          then returned none
          else returned (some decrypted_payload)))
