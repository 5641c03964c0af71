-- ===== src/Crypto/Libsodium.antt =====
-- libsodium, which the repository only calls: an interface over a state `World` of its random
-- generator, and the documented laws. A function that fills buffers returns their contents behind
-- its return code, and zero means success.
use zapshare.Base.{ℕ, Bool, Bytes, length, ◌+◌, ◌≡◌}

pub record Sodium (World : Type 0) : Type 0 where
  pub sign_public_key_bytes : ℕ
  pub sign_secret_key_bytes : ℕ
  pub sign_bytes : ℕ
  pub kx_public_key_bytes : ℕ
  pub kx_secret_key_bytes : ℕ
  pub aead_key_bytes : ℕ
  pub aead_nonce_bytes : ℕ
  pub aead_tag_bytes : ℕ
  -- whether the one call of `sodium_init` gave a number below zero
  pub init_failed : Bool
  -- return code, public key, secret key
  pub sign_keypair : World → ℕ × Bytes × Bytes × World
  pub kx_keypair : World → ℕ × Bytes × Bytes × World
  pub randombytes_buf : ℕ → World → Bytes × World
  -- message, secret key
  pub sign_detached : Bytes → Bytes → ℕ × Bytes
  -- signature, message, public key
  pub sign_verify_detached : Bytes → Bytes → Bytes → ℕ
  -- own public key, own secret key, public key of the peer; return code, rx, tx
  pub kx_client_session_keys : Bytes → Bytes → Bytes → ℕ × Bytes × Bytes
  pub kx_server_session_keys : Bytes → Bytes → Bytes → ℕ × Bytes × Bytes
  -- text, associated data, nonce, key
  pub aead_encrypt : Bytes → Bytes → Bytes → Bytes → ℕ × Bytes
  pub aead_decrypt : Bytes → Bytes → Bytes → Bytes → ℕ × Bytes

-- `IsSignPair` and `IsKxPair` hold of the pairs that the generators make.
pub record SodiumLaws {World : Type 0} (s : Sodium World) : Type 1 where
  pub IsSignPair : Bytes → Bytes → Type 0
  pub IsKxPair : Bytes → Bytes → Type 0
  pub sign_keypair_pair :
      (w : World) → (s.sign_keypair w).0 ≡ 0 → IsSignPair (s.sign_keypair w).1 (s.sign_keypair w).2
  pub kx_keypair_pair :
      (w : World) → (s.kx_keypair w).0 ≡ 0 → IsKxPair (s.kx_keypair w).1 (s.kx_keypair w).2
  pub sign_pair_sizes :
      (p k : Bytes)
      → IsSignPair p k
      → (length p ≡ s.sign_public_key_bytes) × (length k ≡ s.sign_secret_key_bytes)
  pub kx_pair_sizes :
      (p k : Bytes)
      → IsKxPair p k
      → (length p ≡ s.kx_public_key_bytes) × (length k ≡ s.kx_secret_key_bytes)
  pub sign_succeeds : (m p k : Bytes) → IsSignPair p k → (s.sign_detached m k).0 ≡ 0
  pub sign_size : (m p k : Bytes) → IsSignPair p k → length (s.sign_detached m k).1 ≡ s.sign_bytes
  pub sign_verifies :
      (m p k : Bytes) → IsSignPair p k → s.sign_verify_detached (s.sign_detached m k).1 m p ≡ 0
  pub kx_succeeds :
      (p k q l : Bytes)
      → IsKxPair p k
      → IsKxPair q l
      → ((s.kx_client_session_keys p k q).0 ≡ 0) × ((s.kx_server_session_keys p k q).0 ≡ 0)
  -- what one side sends with, the other receives with
  pub kx_agrees :
      (p k q l : Bytes)
      → IsKxPair p k
      → IsKxPair q l
      → ((s.kx_client_session_keys p k q).1 ≡ (s.kx_server_session_keys q l p).2)
        × ((s.kx_client_session_keys p k q).2 ≡ (s.kx_server_session_keys q l p).1)
  pub random_size : (n : ℕ) (w : World) → length (s.randombytes_buf n w).0 ≡ n
  pub encrypt_succeeds :
      (m ad n k : Bytes) → length k ≡ s.aead_key_bytes → (s.aead_encrypt m ad n k).0 ≡ 0
  pub encrypt_size :
      (m ad n k : Bytes) → length (s.aead_encrypt m ad n k).1 ≡ length m + s.aead_tag_bytes
  pub decrypt_encrypt :
      (m ad n k : Bytes)
      → length k ≡ s.aead_key_bytes
      → s.aead_decrypt (s.aead_encrypt m ad n k).1 ad n k ≡ (0, m)
