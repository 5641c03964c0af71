-- ===== src/Tests/Stun.antt =====
-- An answer of a STUN server: a header, a SOFTWARE attribute, and the mapped address.
use zapshare.Base.{◌≡◌, refl, Bytes, codes, List, [], ◌∷◌, ◌++◌, returned, replicate, arith}
use zapshare.Utils.Stun.{dotted, parse_stun}
use zapshare.Utils.Stun.Parses.{Encoded, attributes_bytes, mapped_bytes, parse_stun-finds}

abbrev header : Bytes
header = replicate 20 1

abbrev others : List Encoded
others = record { kind = 32802; value = codes "stund" } ∷ []

-- 203.0.113.9 and port 54321; twelve bytes of the array are left over.
abbrev pub answer : Bytes
answer = header ++ (attributes_bytes others ++ (mapped_bytes 3405803785 54321 ++ replicate 12 0))

parse_stun-finds_example :
    parse_stun answer 44 ≡ returned (record { ip = dotted 3405803785; port = 54321 })
parse_stun-finds_example =
    parse_stun-finds others 3405803785 54321 44 header (replicate 12 0) refl
      ((λ e. omega (arith, e)), tt) (omega arith)
