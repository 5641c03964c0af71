-- ===== src/Utils/Token/Routable.antt =====
-- The tokens of generate_uuid_token in the routes of the central server, which take a secret of one
-- or more of the characters [A-Za-z0-9\-].
use zapshare.Base.{
  ℕ, zero, suc, ◌+◌, ◌/◌, ◌%◌, ◌^◌, ◌<◌, ◌≡◌, refl, Bool, true, ◌&&◌, ◌||◌, leb, ◌==◌, Bytes, codes,
  [], ◌∷◌, ◌++◌, length, length-append, All, All-append, arith,
}
use zapshare.FileHash.{hex_digit}
use zapshare.Utils.Token.{Draws, hex_padded, version_4, variant, generate_uuid_token}

abbrev pub route_char : ℕ → Bool
route_char c =
    (leb b'A' c && leb c b'Z')
    || ((leb b'a' c && leb c b'z') || ((leb b'0' c && leb c b'9') || (c == b'-')))

abbrev pub IsRouteChar : ℕ → Type 0
IsRouteChar c = route_char c ≡ true

hex_digit-IsRouteChar : (d : ℕ) → d < 16 → IsRouteChar (hex_digit d)
hex_digit-IsRouteChar d h = ground (arith, h)

hex_padded-IsRouteChar : (width n : ℕ) → All IsRouteChar (hex_padded width n)
unfolding hex_padded
hex_padded-IsRouteChar zero n = tt
hex_padded-IsRouteChar (suc width) n =
    All-append IsRouteChar (hex_padded width (n / 16)) (hex_digit (n % 16) ∷ [])
      (hex_padded-IsRouteChar width (n / 16)) (hex_digit-IsRouteChar (n % 16) (omega arith), tt)

hex_padded-length : (width n : ℕ) → length (hex_padded width n) ≡ width
unfolding hex_padded
hex_padded-length zero n = refl
hex_padded-length (suc width) n = omega (
  arith,
  length-append (hex_padded width (n / 16)) (hex_digit (n % 16) ∷ []),
  hex_padded-length width (n / 16),
)

-- A group of digits, a dash, and the rest.
group-IsRouteChar :
    (width n : ℕ) (rest : Bytes)
    → All IsRouteChar rest
    → All IsRouteChar (hex_padded width n ++ (codes "-" ++ rest))
group-IsRouteChar width n rest h =
    All-append IsRouteChar (hex_padded width n) (codes "-" ++ rest) (hex_padded-IsRouteChar width n)
      (refl, h)

group-length :
    (width n : ℕ) (rest : Bytes)
    → length (hex_padded width n ++ (codes "-" ++ rest)) ≡ width + suc (length rest)
group-length width n rest =
    omega (arith, length-append (hex_padded width n) (codes "-" ++ rest), hex_padded-length width n)

-- Whatever is drawn, a token has only characters that the routes of the central server take, and it
-- has 40 of them, where a UUID has 36.
pub generate_uuid_token-IsRouteChar :
    (d : Draws) → All IsRouteChar (generate_uuid_token d) × (length (generate_uuid_token d) ≡ 40)
unfolding generate_uuid_token
generate_uuid_token-IsRouteChar d =
    let fifth = hex_padded 8 (d.fifth % 2 ^ 32) in
    let sixth = hex_padded 8 (d.sixth % 2 ^ 32) in
    let fourth_on = hex_padded 4 (variant d.fourth) ++ (codes "-" ++ (fifth ++ sixth)) in
    let third_on = hex_padded 4 (version_4 d.third) ++ (codes "-" ++ fourth_on) in
    let second_on = hex_padded 4 (d.second % 2 ^ 16) ++ (codes "-" ++ third_on) in
    (
      group-IsRouteChar 8 (d.first % 2 ^ 32) second_on (
          group-IsRouteChar 4 (d.second % 2 ^ 16) third_on (
            group-IsRouteChar 4 (version_4 d.third) fourth_on (
              group-IsRouteChar 4 (variant d.fourth) (fifth ++ sixth) (
                All-append IsRouteChar fifth sixth (hex_padded-IsRouteChar 8 (d.fifth % 2 ^ 32))
                  (hex_padded-IsRouteChar 8 (d.sixth % 2 ^ 32)))))),
      omega (
        arith,
        group-length 8 (d.first % 2 ^ 32) second_on,
        group-length 4 (d.second % 2 ^ 16) third_on,
        group-length 4 (version_4 d.third) fourth_on,
        group-length 4 (variant d.fourth) (fifth ++ sixth),
        length-append fifth sixth,
        hex_padded-length 8 (d.fifth % 2 ^ 32),
        hex_padded-length 8 (d.sixth % 2 ^ 32),
      ),
    )
