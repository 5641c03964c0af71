-- ===== src/Utils/Token.antt =====
-- generate_uuid_token of cli_tool/include/utils.hpp. What the generator draws, six numbers of 32
-- bits, is the argument.
pub mod Routable
use zapshare.Base.{ℕ, zero, suc, ◌+◌, ◌*◌, ◌/◌, ◌%◌, ◌^◌, Bytes, codes, [], ◌∷◌, ◌++◌}
use zapshare.FileHash.{hex_digit}

pub record Draws : Type 0 where
  pub first : ℕ
  pub second : ℕ
  pub third : ℕ
  pub fourth : ℕ
  pub fifth : ℕ
  pub sixth : ℕ

-- `std::setw(width)` with zeros in front, of a number with at most so many hexadecimal digits.
unfoldable pub hex_padded : ℕ → ℕ → Bytes
hex_padded zero n = []
hex_padded (suc width) n = hex_padded width (n / 16) ++ (hex_digit (n % 16) ∷ [])

-- `(x & 0x0FFF) | 0x4000`: no bit is in both.
abbrev pub version_4 : ℕ → ℕ
version_4 x = x % 0x1000 + 0x4000

-- `(x & 0x3FFF) | 0x8000`
abbrev pub variant : ℕ → ℕ
variant x = x % 0x4000 + 0x8000

unfoldable pub generate_uuid_token : Draws → Bytes
generate_uuid_token d =
    hex_padded 8 (d.first % 2 ^ 32)
    ++ (codes "-"
        ++ (hex_padded 4 (d.second % 2 ^ 16)
            ++ (codes "-"
                ++ (hex_padded 4 (version_4 d.third)
                    ++ (codes "-"
                        ++ (hex_padded 4 (variant d.fourth)
                            ++ (codes "-"
                                ++ (hex_padded 8 (d.fifth % 2 ^ 32)
                                    ++ hex_padded 8 (d.sixth % 2 ^ 32)))))))))
