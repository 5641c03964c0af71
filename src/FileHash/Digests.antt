-- ===== src/FileHash/Digests.antt =====
-- What the printed hash of cli_tool/include/crypto.hpp says of the digest.
use zapshare.Base.{
  ℕ, ◌/◌, ◌%◌, ◌<◌, ◌≡◌, ◌↔◌, refl, sym, ap, ◌∙◌, Bytes, [], ◌∷◌, some, Outcome, returned, All,
  arith,
}
use zapshare.FileHash.{Sha256, Sha256Laws, to_hex, hex_digit, compute_file_hash}
use zapshare.FileHash.Correct.{compute_file_hash_lem}

abbrev pub IsByte : ℕ → Type 0
IsByte b = b < 256

hex_digit-injective : (c d : ℕ) → c < 16 → d < 16 → hex_digit c ≡ hex_digit d → c ≡ d
hex_digit-injective c d hc hd e = ground (arith, e)

same_byte : (a b : ℕ) → IsByte a → IsByte b → a / 16 % 16 ≡ b / 16 % 16 → a % 16 ≡ b % 16 → a ≡ b
same_byte a b ha hb high low = omega (arith, high, low)

same_head : {a b : ℕ} {s t : Bytes} → ◌≡◌ {A = Bytes} (a ∷ s) (b ∷ t) → (a ≡ b) × (s ≡ t)
same_head e = (cc, cc)

pub to_hex-injective : (s t : Bytes) → All IsByte s → All IsByte t → to_hex s ≡ to_hex t → s ≡ t
unfolding to_hex
to_hex-injective [] [] hs ht e = refl
to_hex-injective [] (b ∷ t) hs ht e = absurd (cc)
to_hex-injective (a ∷ s) [] hs ht e = absurd (cc)
to_hex-injective (a ∷ s) (b ∷ t) hs ht e =
    let (high, rest) = same_head e in
    let (low, tail) = same_head rest in
    let same =
      same_byte a b hs.0 ht.0
        (hex_digit-injective (a / 16 % 16) (b / 16 % 16) (omega arith) (omega arith) high)
        (hex_digit-injective (a % 16) (b % 16) (omega arith) (omega arith) low) in
    let behind = to_hex-injective s t hs.1 ht.1 tail in
    ap (λ x. x ∷ s) same ∙ ap (λ x. b ∷ x) behind

module _ (h : Sha256) (laws : Sha256Laws h) (bytes : (c : h.Context) → All IsByte (h.final c)) where
  open h use {init, update, final}

  -- The digest of a file in one update.
  abbrev pub digest : Bytes → Bytes
  digest content = final (update init content)

  same_text : {s t : Bytes} → ◌≡◌ {A = Outcome Bytes} (returned s) (returned t) → s ≡ t
  same_text e = cc

  -- Two files have the same printed hash exactly when SHA-256 gives them the same digest, whose
  -- bytes are below 256; so to compare the printed hashes is to compare the digests.
  pub compute_file_hash-eq :
      (a b : Bytes)
      → (compute_file_hash h (some a) ≡ compute_file_hash h (some b)) ↔ (digest a ≡ digest b)
  compute_file_hash-eq a b = (
    λ e.
        let ea = compute_file_hash_lem h laws a in
        let eb = compute_file_hash_lem h laws b in
        to_hex-injective (digest a) (digest b) (bytes (update init a)) (bytes (update init b))
          (same_text (sym ea ∙ (e ∙ eb))),
    λ e.
        compute_file_hash_lem h laws a
        ∙ (ap (λ d. returned (to_hex d)) e ∙ sym (compute_file_hash_lem h laws b)),
  )
