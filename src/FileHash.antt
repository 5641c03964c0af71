-- ===== src/FileHash.antt =====
-- cli_tool/include/crypto.hpp: compute_file_hash. SHA-256 of OpenSSL is an interface.
pub mod Correct
pub mod Digests
use zapshare.Base.{
  ℕ, zero, suc, ◌+◌, ◌-◌, ◌/◌, ◌%◌, ◌≡◌, Bytes, [], ◌∷◌, ◌++◌, length, take, drop, Bool, true,
  false, Option, none, some, Outcome, returned, thrown, ltb, if◌then◌else◌,
}

-- `SHA256_Init`, `SHA256_Update` and `SHA256_Final`.
pub record Sha256 : Type 1 where
  pub Context : Type 0
  pub init : Context
  pub update : Context → Bytes → Context
  pub final : Context → Bytes

-- Updates are a stream: where the pieces are cut does not matter.
pub record Sha256Laws (h : Sha256) : Type 0 where
  pub update-nil : (c : h.Context) → h.update c [] ≡ c
  pub update-append :
      (c : h.Context) (s t : Bytes) → h.update (h.update c s) t ≡ h.update c (s ++ t)

abbrev buffer_size : ℕ
buffer_size = 4096

-- Nothing calls it.
abbrev pub generate_token : Bytes
generate_token = []

-- One hexadecimal digit, as `std::hex` prints it.
abbrev pub hex_digit : ℕ → ℕ
hex_digit d = if ltb d 10 then b'0' + d else b'a' + d - 10

-- Two digits for each byte.
unfoldable pub to_hex : Bytes → Bytes
to_hex [] = []
to_hex (b ∷ s) = hex_digit (b / 16 % 16) ∷ hex_digit (b % 16) ∷ to_hex s

module _ (h : Sha256) where
  open h use {Context, init, update, final}

  -- `while (file.read(...))` with the update behind it. A read that comes short ends the loop; the
  -- fuel bounds the rounds.
  hash_loop : ℕ → Context → Bytes → Context
  hash_loop zero c rest = c
  hash_loop (suc fuel) c rest =
      let next = hash_loop fuel (update c (take buffer_size rest)) (drop buffer_size rest) in
      if ltb (length rest) buffer_size
      then (if ltb 0 (length rest) then update c rest else c)
      else next

  -- Every round but the last takes bytes off, so one round more than bytes is enough.
  unfoldable pub hash_content : Bytes → Bytes
  unfolding hash_loop
  hash_content content = to_hex (final (hash_loop (suc (length content)) init content))

  -- On what the file system has under the path.
  unfoldable pub compute_file_hash : Option Bytes → Outcome Bytes
  compute_file_hash (some content) = returned (hash_content content)
  compute_file_hash none = thrown
