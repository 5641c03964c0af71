-- ===== src/Utils/Text.antt =====
-- The string functions of the C++ library that utils.hpp uses: `find` of one character, `substr`,
-- `std::to_string` of an unsigned number and `std::stoi`.
pub mod RoundTrip
pub mod Bounds
use zapshare.Base.{
  ℕ, zero, suc, ◌+◌, ◌-◌, ◌*◌, ◌/◌, ◌%◌, ◌^◌, ◌<◌, ◌≡◌, Bool, true, false, ◌||◌, ◌&&◌, Bytes, List,
  [], ◌∷◌, ◌++◌, Option, none, some, Outcome, returned, thrown, ltb, leb, ◌==◌, if◌then◌else◌, drop,
}

abbrev pub shift : Option ℕ → Option ℕ
shift none = none
shift (some i) = some (suc i)

-- The position of the first `c`; `none` is `npos`.
unfoldable pub find : ℕ → Bytes → Option ℕ
find c [] = none
find c (b ∷ s) = if b == c then some 0 else shift (find c s)

-- Decimal digits, the last one in front of `out`; the fuel is at least the number of digits.
pub emit : ℕ → ℕ → Bytes → Bytes
emit zero n out = out
emit (suc fuel) n out =
    let d = (b'0' + n % 10) ∷ out in let rest = emit fuel (n / 10) d in if ltb n 10 then d else rest

-- A number below 2 ^ 64 has at most 20 digits.
pub to_string : ℕ → Bytes
unfolding emit
to_string n = emit 20 n []

abbrev pub is_digit : ℕ → Bool
is_digit c = leb b'0' c && leb c b'9'

abbrev pub max_int : ℕ
max_int = 2147483647

-- The digits at the front of a text, read behind the value `n`; reading stops at the first other
-- character.
pub scan : Bytes → ℕ → ℕ
scan [] n = n
scan (c ∷ s) n = if is_digit c then scan s (n * 10 + (c - b'0')) else n

abbrev pub is_space : ℕ → Bool
is_space c = (c == 32) || (leb 9 c && leb c 13)

pub skip_spaces : Bytes → Bytes
skip_spaces [] = []
skip_spaces (c ∷ s) = if is_space c then skip_spaces s else c ∷ s

abbrev pub starts_with_digit : Bytes → Bool
starts_with_digit [] = false
starts_with_digit (c ∷ s) = is_digit c

-- What is behind the sign: `std::stoi` throws where no digit follows or the value leaves `int`.
-- The bound is the largest magnitude.
pub magnitude : ℕ → Bytes → Outcome ℕ
unfolding scan
magnitude bound s =
    if starts_with_digit s
    then (if ltb bound (scan s 0) then thrown else returned (scan s 0))
    else thrown

-- `static_cast<uint32_t>` of minus `n`.
abbrev pub negate_32 : ℕ → ℕ
negate_32 n = (2 ^ 32 - n % 2 ^ 32) % 2 ^ 32

abbrev pub map_outcome : (ℕ → ℕ) → Outcome ℕ → Outcome ℕ
map_outcome f (returned n) = returned (f n)
map_outcome f thrown = thrown
map_outcome f Outcome.aborted = Outcome.aborted

pub signed : Bytes → Outcome ℕ
unfolding magnitude
signed [] = thrown
signed (c ∷ s) =
    if c == b'-'
    then map_outcome negate_32 (magnitude (max_int + 1) s)
    else if c == b'+'
    then magnitude max_int s
    else magnitude max_int (c ∷ s)

-- `std::stoi`, its `int` converted to `uint32_t` as at the place of the call.
pub stoi_to_u32 : Bytes → Outcome ℕ
unfolding skip_spaces signed
stoi_to_u32 s = signed (skip_spaces s)
