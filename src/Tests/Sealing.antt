-- ===== src/Tests/Sealing.antt =====
-- A toy of libsodium that keeps its laws, and the cryptography at one run of it. The tag is the
-- front of the associated data, a public key is its secret key, and a signature the
-- secret key with the length of the message.
use zapshare.Base.{
  ℕ, zero, suc, ◌+◌, ◌≡◌, refl, sym, ap, ◌∙◌, true, false, Bytes, codes, [], ◌∷◌, ◌++◌, length,
  take, drop, replicate, bytes_eq, bytes_eq_refl, some, returned, arith, if◌then◌else◌,
  length-append, length-take, take-append_length, drop-append_length,
}
use zapshare.Crypto.{
  generate_ephemeral_keypair, generate_identity_keypair, encrypt_packet, decrypt_packet, sign,
  verify_signature, derive_client_keys, derive_server_keys, SessionKeys, EphemeralKeyPair,
  IdentityKeyPair,
}
use zapshare.Crypto.Keys.{derive_client_keys-derive_server_keys, verify_signature-sign}
use zapshare.Crypto.Working.{IsWorking}
use zapshare.Crypto.Libsodium.{Sodium, SodiumLaws}
use zapshare.Crypto.Sequence.{sequence_bytes}
use zapshare.Crypto.SelfTest.{test, test_keys, test_packets}
use zapshare.Crypto.Sealing.{decrypt_packet-encrypt_packet}

-- Sixteen bytes.
abbrev tag : Bytes → Bytes
tag ad = take 16 (ad ++ replicate 16 0)

abbrev opened : Bytes → Bytes → Bytes → ℕ × Bytes
opened text given ad = if bytes_eq given (tag ad) then (0, text) else (1, [])

-- Two bytes.
abbrev key_text : Bytes → Bytes
key_text s = take 2 (s ++ replicate 2 0)

abbrev pub toy_sodium : Sodium ℕ
toy_sodium = record {
  sign_public_key_bytes = 1;
  sign_secret_key_bytes = 1;
  sign_bytes = 2;
  kx_public_key_bytes = 1;
  kx_secret_key_bytes = 1;
  aead_key_bytes = 2;
  aead_nonce_bytes = 4;
  aead_tag_bytes = 16;
  init_failed = false;
  sign_keypair = λ w. (0, w ∷ [], w ∷ [], w + 1);
  kx_keypair = λ w. (0, w ∷ [], w ∷ [], w + 1);
  randombytes_buf = λ n w. (replicate n w, w + 1);
  sign_detached = λ m k. (0, k ++ (length m ∷ []));
  sign_verify_detached = λ s m p. if bytes_eq s (p ++ (length m ∷ [])) then 0 else 1;
  kx_client_session_keys = λ p k q. (0, key_text (q ++ p), key_text (p ++ q));
  kx_server_session_keys = λ p k q. (0, key_text (q ++ p), key_text (p ++ q));
  aead_encrypt = λ m ad n k. (0, tag ad ++ m);
  aead_decrypt = λ c ad n k. opened (drop 16 c) (take 16 c) ad;
}

length-replicate : (n b : ℕ) → length (replicate n b) ≡ n
length-replicate zero b = refl
length-replicate (suc n) b = omega (arith, length-replicate n b)

tag_size : (ad : Bytes) → length (tag ad) ≡ 16
tag_size ad =
    omega (arith, length-take 16 (ad ++ replicate 16 0), length-append ad (replicate 16 0))

toy_decrypt :
    (g m ad : Bytes)
    → length g ≡ 16
    → opened (drop 16 (g ++ m)) (take 16 (g ++ m)) ad ≡ opened m g ad
toy_decrypt g m ad h =
    let front : take 16 (g ++ m) ≡ g = ap (λ k. take k (g ++ m)) (sym h) ∙ take-append_length g m in
    let behind : drop 16 (g ++ m) ≡ m =
      ap (λ k. drop k (g ++ m)) (sym h) ∙ drop-append_length g m in
    simp (front, behind)

opened_self : (m ad : Bytes) → opened m (tag ad) ad ≡ (0, m)
opened_self m ad = ap (λ b. if b then (0, m) else (1, [])) (bytes_eq_refl (tag ad))

-- A pair of the toy.
abbrev ToyPair : Bytes → Bytes → Type 0
ToyPair p k = (p ≡ k) × (length p ≡ 1)

signature_size : (m p k : Bytes) → ToyPair p k → length (k ++ (length m ∷ [])) ≡ 2
signature_size m p k h = omega (arith, length-append k (length m ∷ []), ap length (sym h.0) ∙ h.1)

verifies :
    (m p k : Bytes) → ToyPair p k → toy_sodium.sign_verify_detached (k ++ (length m ∷ [])) m p ≡ 0
verifies m p k h =
    let same = ap (λ x. bytes_eq (k ++ (length m ∷ [])) (x ++ (length m ∷ []))) h.0 in
    ap (λ b. if b then 0 else 1) (same ∙ bytes_eq_refl (k ++ (length m ∷ [])))

pub toy_sodium-laws : SodiumLaws toy_sodium
toy_sodium-laws = record {
  IsSignPair = ToyPair;
  IsKxPair = ToyPair;
  sign_keypair_pair = λ w h. (refl, refl);
  kx_keypair_pair = λ w h. (refl, refl);
  sign_pair_sizes = λ p k h. (h.1, ap length (sym h.0) ∙ h.1);
  kx_pair_sizes = λ p k h. (h.1, ap length (sym h.0) ∙ h.1);
  sign_succeeds = λ m p k h. refl;
  sign_size = λ m p k h. signature_size m p k h;
  sign_verifies = λ m p k h. verifies m p k h;
  kx_succeeds = λ p k q l hp hq. (refl, refl);
  kx_agrees = λ p k q l hp hq. (refl, refl);
  random_size = λ n w. length-replicate n w;
  encrypt_succeeds = λ m ad n k h. refl;
  encrypt_size = λ m ad n k. omega (arith, length-append (tag ad) m, tag_size ad);
  decrypt_encrypt = λ m ad n k h. toy_decrypt (tag ad) m ad (tag_size ad) ∙ opened_self m ad;
}

pub toy_sodium-IsWorking : IsWorking toy_sodium
toy_sodium-IsWorking = record { ready = refl; signs = λ w. refl; exchanges = λ w. refl }

abbrev key : Bytes
key = 8 ∷ 8 ∷ []

decrypt_packet-encrypt_packet_example :
    (c : Bytes) × (w : ℕ) × (encrypt_packet toy_sodium (codes "hi") key 300 5 ≡ returned (c, w))
    × (decrypt_packet toy_sodium c key 300 ≡ returned (some (codes "hi")))
decrypt_packet-encrypt_packet_example =
    decrypt_packet-encrypt_packet toy_sodium toy_sodium-laws refl key refl (codes "hi") 300 5

abbrev client_keys : EphemeralKeyPair
client_keys = record { public_key = 5 ∷ []; private_key = 5 ∷ [] }

abbrev server_keys : EphemeralKeyPair
server_keys = record { public_key = 9 ∷ []; private_key = 9 ∷ [] }

drawn_keys :
    (generate_ephemeral_keypair toy_sodium 5 ≡ returned (client_keys, 6))
    × (generate_ephemeral_keypair toy_sodium 9 ≡ returned (server_keys, 10))
unfolding generate_ephemeral_keypair
drawn_keys = (refl, refl)

derive_client_keys-derive_server_keys_example :
    (c : SessionKeys) × (d : SessionKeys) × (derive_client_keys toy_sodium client_keys (9 ∷ [])
      ≡ returned c)
    × (derive_server_keys toy_sodium server_keys (5 ∷ []) ≡ returned d)
    × (c.tx_key ≡ d.rx_key)
    × (c.rx_key ≡ d.tx_key)
derive_client_keys-derive_server_keys_example =
    derive_client_keys-derive_server_keys toy_sodium toy_sodium-laws refl 5 6 9 10 client_keys
      server_keys drawn_keys.0 drawn_keys.1

abbrev identity : IdentityKeyPair
identity = record { public_key = 5 ∷ []; private_key = 5 ∷ [] }

drawn_identity : generate_identity_keypair toy_sodium 5 ≡ returned (identity, 6)
unfolding generate_identity_keypair
drawn_identity = refl

verify_signature-sign_example :
    (signature : Bytes) × (sign toy_sodium (codes "hi") identity ≡ returned signature)
    × (verify_signature toy_sodium (codes "hi") signature (5 ∷ []) ≡ returned true)
verify_signature-sign_example =
    verify_signature-sign toy_sodium toy_sodium-laws refl (codes "hi") 5 6 identity drawn_identity

-- The assertions of tests/CryptoTest.cpp at one run.
test_run : (w : ℕ) × (test toy_sodium 5 ≡ returned w)
unfolding test test_keys test_packets generate_identity_keypair generate_ephemeral_keypair sign
    verify_signature derive_client_keys derive_server_keys encrypt_packet decrypt_packet bytes_eq
    sequence_bytes
test_run = (_, refl)
