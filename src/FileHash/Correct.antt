-- ===== src/FileHash/Correct.antt =====
-- The loop of compute_file_hash hashes the whole file.
use zapshare.Base.{
  ℕ, zero, suc, ◌*◌, ◌≤◌, ◌<◌, ◌≡◌, refl, sym, ap, Bytes, [], ◌∷◌, length, drop, arith, some,
  returned, Bool-cases, inl, inr, ltb, if◌then◌else◌, false, length-drop, take-append-drop,
}
use zapshare.FileHash.{
  Sha256, Sha256Laws, hash_loop, hash_content, compute_file_hash, to_hex, buffer_size,
}

-- A file that is there is hashed without an exception.
pub compute_file_hash-some :
    (h : Sha256) (content : Bytes)
    → compute_file_hash h (some content) ≡ returned (hash_content h content)
unfolding compute_file_hash
compute_file_hash-some h content = refl

module _ (h : Sha256) (laws : Sha256Laws h) where
  open h use {Context, init, update, final}

  short_update :
      (c : Context) (rest : Bytes)
      → (if ltb 0 (length rest) then update c rest else c) ≡ update c rest
  short_update c [] = sym (laws.update-nil c)
  short_update c (b ∷ rest) = ground arith

  hash_loop_all :
      (fuel : ℕ) (c : Context) (rest : Bytes)
      → length rest < fuel
      → hash_loop h fuel c rest ≡ update c rest
  unfolding hash_loop
  hash_loop_all zero c rest h = elim h [ ]
  hash_loop_all (suc fuel) c rest lt = elim (Bool-cases (ltb (length rest) buffer_size)) [
    | inl e ↦ rw e (short_update c rest)
    | inr e ↦ rw (
      e,
      hash_loop_all fuel _ (drop buffer_size rest)
          (omega (arith, length-drop buffer_size rest, big e)),
      laws.update-append,
      take-append-drop buffer_size rest,
    )
  ]
    where
      big : ltb (length rest) buffer_size ≡ false → buffer_size ≤ length rest
      big e = ground arith

  -- The hash that compute_file_hash prints is that of all the bytes of the file in one update,
  -- whatever the file's size.
  pub compute_file_hash_lem :
      (content : Bytes)
      → compute_file_hash h (some content) ≡ returned (to_hex (final (update init content)))
  unfolding compute_file_hash hash_content
  compute_file_hash_lem content =
      ap (λ c. returned (to_hex (final c)))
        (hash_loop_all (suc (length content)) init content (omega arith))

pub length-to_hex : (s : Bytes) → length (to_hex s) ≡ 2 * length s
unfolding to_hex
length-to_hex [] = refl
length-to_hex (b ∷ s) = omega (arith, length-to_hex s)
