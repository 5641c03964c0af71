-- ===== src/Crypto/Sequence.antt =====
-- The associated data of a packet: the eight bytes of the `uint64_t` sequence number in memory, low
-- byte first, as on every little-endian target.
use zapshare.Base.{
  ℕ, zero, suc, ◌+◌, ◌*◌, ◌/◌, ◌%◌, ◌^◌, ◌<◌, ◌≡◌, refl, Bytes, [], ◌∷◌, arith, length, ap,
}

pub little_endian : ℕ → ℕ → Bytes
little_endian zero n = []
little_endian (suc k) n = (n % 256) ∷ little_endian k (n / 256)

-- `std::string(reinterpret_cast<const char*>(&sequence), sizeof(sequence))`
unfoldable pub sequence_bytes : ℕ → Bytes
unfolding little_endian
sequence_bytes n = little_endian 8 n

from_bytes : Bytes → ℕ
from_bytes [] = 0
from_bytes (b ∷ s) = b + 256 * from_bytes s

pub sequence_bytes-length : (n : ℕ) → length (sequence_bytes n) ≡ 8
unfolding sequence_bytes
sequence_bytes-length n = refl

from_bytes-sequence_bytes : (n : ℕ) → n < 2 ^ 64 → from_bytes (sequence_bytes n) ≡ n
unfolding sequence_bytes from_bytes
from_bytes-sequence_bytes n h = omega arith

-- Different sequence numbers have different associated data.
pub sequence_bytes-injective :
    (m n : ℕ) → m < 2 ^ 64 → n < 2 ^ 64 → sequence_bytes m ≡ sequence_bytes n → m ≡ n
sequence_bytes-injective m n hm hn e =
    omega (arith, from_bytes-sequence_bytes m hm, from_bytes-sequence_bytes n hn, ap from_bytes e)
