-- ===== src/Crypto/Working.antt =====
-- libsodium as it works: what the generators of shared/src/crypto/session_crypto.cpp return then.
use zapshare.Base.{ℕ, ◌+◌, ◌≡◌, false, returned, ==_refl}
use zapshare.Crypto.{
  ensure_libsodium_initialized, generate_identity_keypair, generate_ephemeral_keypair, random_nonce,
}
use zapshare.Crypto.Libsodium.{Sodium, SodiumLaws}

-- libsodium is initialised, and no generator of key pairs fails.
pub record IsWorking {World : Type 0} (s : Sodium World) : Type 0 where
  pub ready : s.init_failed ≡ false
  pub signs : (w : World) → (s.sign_keypair w).0 ≡ 0
  pub exchanges : (w : World) → (s.kx_keypair w).0 ≡ 0

-- The bytes of a hello beside its ids: the nonce, the two public keys and the signature.
abbrev pub hello_keys : {World : Type 0} → Sodium World → ℕ
hello_keys s = 32 + (s.sign_public_key_bytes + s.kx_public_key_bytes + s.sign_bytes)

module _ {World : Type 0} (s : Sodium World) (laws : SodiumLaws s) (works : IsWorking s) where
  open works use {ready, signs, exchanges}

  pub generate_identity_keypair_lem :
      (w : World)
      → generate_identity_keypair s w
        ≡ returned (
          record { public_key = (s.sign_keypair w).1; private_key = (s.sign_keypair w).2 },
          (s.sign_keypair w).3,
        )
  unfolding generate_identity_keypair ensure_libsodium_initialized
  generate_identity_keypair_lem w =
      let (p_size, k_size) = laws.sign_pair_sizes _ _ (laws.sign_keypair_pair w (signs w)) in
      simp (
        ready,
        signs w,
        p_size,
        k_size,
        ==_refl s.sign_public_key_bytes,
        ==_refl s.sign_secret_key_bytes,
      )

  pub generate_ephemeral_keypair_lem :
      (w : World)
      → generate_ephemeral_keypair s w
        ≡ returned (
          record { public_key = (s.kx_keypair w).1; private_key = (s.kx_keypair w).2 },
          (s.kx_keypair w).3,
        )
  unfolding generate_ephemeral_keypair ensure_libsodium_initialized
  generate_ephemeral_keypair_lem w =
      let (p_size, k_size) = laws.kx_pair_sizes _ _ (laws.kx_keypair_pair w (exchanges w)) in
      simp (
        ready,
        exchanges w,
        p_size,
        k_size,
        ==_refl s.kx_public_key_bytes,
        ==_refl s.kx_secret_key_bytes,
      )

  pub random_nonce_lem :
      (size : ℕ) (w : World) → random_nonce s size w ≡ returned (s.randombytes_buf size w)
  unfolding random_nonce ensure_libsodium_initialized
  random_nonce_lem size w = rw ready
