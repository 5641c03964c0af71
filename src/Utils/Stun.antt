-- ===== src/Utils/Stun.antt =====
-- The answer of a STUN server: the loop of get_public_endpoint_for_socket in
-- cli_tool/include/utils.hpp. `buf` is the array of 1024 bytes and `n` the number of bytes received.
-- Reading behind the array is undefined in C++; the model stops there.
pub mod Parses
use zapshare.Base.{
  ℕ, zero, suc, ◌+◌, ◌-◌, ◌*◌, ◌/◌, ◌%◌, ◌^◌, Bool, ◌&&◌, Bytes, codes, [], ◌∷◌, ◌++◌, Outcome,
  returned, thrown, aborted, leb, ◌==◌, if◌then◌else◌, drop, bit_xor,
}
use zapshare.Utils.Text.{to_string}

-- The two fields of `my_ep` that the loop sets.
pub record MappedAddress : Type 0 where
  pub ip : Bytes
  pub port : ℕ

-- Type and length of an attribute, and what is behind them.
pub record Attribute : Type 0 where
  pub t : ℕ
  pub l : ℕ
  pub body : Bytes

-- `(a << 8) | b` of two bytes.
abbrev pub word_16 : ℕ → ℕ → ℕ
word_16 a b = a * 256 + b

abbrev pub magic_cookie : ℕ
magic_cookie = 0x2112A442

-- The loop reads a header only where eight more bytes were received.
abbrev pub read_header : Bytes → Attribute
read_header (t1 ∷ t0 ∷ l1 ∷ l0 ∷ body) = record {
  t = word_16 t1 t0;
  l = word_16 l1 l0;
  body = body;
}
read_header s = record { t = 0; l = 0; body = [] }

unfoldable pub dotted : ℕ → Bytes
dotted a =
    to_string (a / 2 ^ 24)
    ++ (codes "."
        ++ (to_string (a / 2 ^ 16 % 256)
            ++ (codes "." ++ (to_string (a / 2 ^ 8 % 256) ++ (codes "." ++ to_string (a % 256))))))

-- From two bytes of the body on: the port and the address, under the cookie.
unfoldable pub mapped_address : Bytes → Outcome MappedAddress
mapped_address (r ∷ f ∷ p1 ∷ p0 ∷ a3 ∷ a2 ∷ a1 ∷ a0 ∷ behind) = returned (record {
  ip = dotted (bit_xor (word_16 a3 a2 * 2 ^ 16 + word_16 a1 a0) magic_cookie);
  port = bit_xor (word_16 p1 p0) (magic_cookie / 2 ^ 16);
})
mapped_address s = aborted

abbrev pub step_over : ℕ → ℕ
step_over l = 4 + l + (4 - l % 4) % 4

unfoldable pub parse_attributes : ℕ → Bytes → ℕ → ℕ → Outcome MappedAddress
parse_attributes zero buf n i = thrown
parse_attributes (suc fuel) buf n i =
    let a = read_header (drop i buf) in
    let rest = parse_attributes fuel buf n (i + step_over a.l) in
    if leb (i + 8) n
    then (if (a.t == 32) && leb 8 a.l then mapped_address a.body else rest)
    else thrown

-- The attributes begin behind the header of 20 bytes. Every round goes on by four bytes at least.
unfoldable pub parse_stun : Bytes → ℕ → Outcome MappedAddress
parse_stun buf n = parse_attributes (suc n) buf n 20
