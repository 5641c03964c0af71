-- ===== src/Crypto/Sealing.antt =====
-- encrypt_packet and decrypt_packet of shared/src/crypto/session_crypto.cpp together.
use zapshare.Base.{
  ℕ, ◌+◌, ◌≤◌, ◌≡◌, ◌≢◌, refl, sym, ◌∙◌, ap, Bool, true, false, Bytes, ◌++◌, length, take, drop,
  Option, some, none, Outcome, returned, arith, ==_refl, ◌==◌, ltb, length-append,
  take-append_length, drop-append_length, not, if◌then◌else◌,
}
use zapshare.Crypto.{encrypt_packet, decrypt_packet, ensure_libsodium_initialized}
use zapshare.Crypto.Libsodium.{Sodium, SodiumLaws}
use zapshare.Crypto.Sequence.{sequence_bytes}

ltb_ge : (a b : ℕ) → b ≤ a → ltb a b ≡ false
ltb_ge a b h = ground (arith, h)

eq_0 : (n : ℕ) → n ≢ 0 → (n == 0) ≡ false
eq_0 n h = ground (arith, h)

returned-injective :
    {A B : Type 0} {a a' : A} {b b' : B}
    → ◌≡◌ {A = Outcome (A × B)} (returned (a, b)) (returned (a', b'))
    → (a ≡ a') × (b ≡ b')
returned-injective e = (cc, cc)

opened :
    (b : Bool) (text : Bytes)
    → ◌≡◌ {A = Outcome (Option Bytes)}
        (if not b then returned none else returned (some text))
        (returned (if b then some text else none))
opened true text = refl
opened false text = refl

module _ {World : Type 0} (s : Sodium World) (laws : SodiumLaws s) where
  -- What encrypt_packet writes behind the nonce.
  abbrev sealed : Bytes → Bytes → ℕ → World → Bytes
  sealed plaintext key sequence w =
      (s.aead_encrypt plaintext (sequence_bytes sequence) (s.randombytes_buf s.aead_nonce_bytes w).0
        key).1

  abbrev pub packet : Bytes → Bytes → ℕ → World → Bytes
  packet plaintext key sequence w =
      (s.randombytes_buf s.aead_nonce_bytes w).0 ++ sealed plaintext key sequence w

  module _ (ready : s.init_failed ≡ false) (key : Bytes)
      (sized : length key ≡ s.aead_key_bytes) where
    pub encrypt_packet_lem :
        (plaintext : Bytes) (sequence : ℕ) (w : World)
        → encrypt_packet s plaintext key sequence w
          ≡ returned (packet plaintext key sequence w, (s.randombytes_buf s.aead_nonce_bytes w).1)
    unfolding encrypt_packet ensure_libsodium_initialized
    encrypt_packet_lem plaintext sequence w = simp (
      ready,
      sized,
      ==_refl s.aead_key_bytes,
      laws.encrypt_succeeds plaintext (sequence_bytes sequence)
          (s.randombytes_buf s.aead_nonce_bytes w).0 key sized,
    )

    -- What the AEAD gives for a packet, opened under another sequence number.
    decrypt_code :
        (plaintext : Bytes) (sequence other : ℕ) (w : World) (code : ℕ) (text : Bytes)
        → s.aead_decrypt
            (sealed plaintext key sequence w)
            (sequence_bytes other)
            (s.randombytes_buf s.aead_nonce_bytes w).0
            key
          ≡ (code, text)
        → decrypt_packet s (packet plaintext key sequence w) key other
          ≡ returned (if code == 0 then some text else none)
    unfolding decrypt_packet ensure_libsodium_initialized
    decrypt_code plaintext sequence other w code text e =
        let nonce = (s.randombytes_buf s.aead_nonce_bytes w).0 in
        let c = sealed plaintext key sequence w in
        let n : length nonce ≡ s.aead_nonce_bytes = laws.random_size s.aead_nonce_bytes w in
        let front : take s.aead_nonce_bytes (nonce ++ c) ≡ nonce =
          ap (λ k. take k (nonce ++ c)) (sym n) ∙ take-append_length nonce c in
        let behind : drop s.aead_nonce_bytes (nonce ++ c) ≡ c =
          ap (λ k. drop k (nonce ++ c)) (sym n) ∙ drop-append_length nonce c in
        let size : length c ≡ length plaintext + s.aead_tag_bytes =
          laws.encrypt_size plaintext (sequence_bytes sequence) nonce key in
        let long : ltb (length (nonce ++ c)) (s.aead_nonce_bytes + s.aead_tag_bytes) ≡ false =
          ltb_ge _ _ (omega (arith, length-append nonce c, n, size)) in
        let tagged : ltb (length c) s.aead_tag_bytes ≡ false = ltb_ge _ _ (omega (arith, size)) in
        simp (ready, sized, ==_refl s.aead_key_bytes, front, behind, long, tagged, e)
          (opened (code == 0) text)

    -- With a key of the right size, any text encrypts, and the packet decrypts to the text under the
    -- same key and sequence number, whatever random nonce it was given.
    pub decrypt_packet-encrypt_packet :
        (plaintext : Bytes) (sequence : ℕ) (w : World)
        → (c : Bytes) × (w' : World) × (encrypt_packet s plaintext key sequence w
            ≡ returned (c, w'))
          × (decrypt_packet s c key sequence ≡ returned (some plaintext))
    decrypt_packet-encrypt_packet plaintext sequence w = (
      _,
      _,
      encrypt_packet_lem plaintext sequence w,
      decrypt_code plaintext sequence sequence w 0 plaintext (
          laws.decrypt_encrypt plaintext (sequence_bytes sequence)
            (s.randombytes_buf s.aead_nonce_bytes w).0 key sized),
    )
