-- ===== src/Utils/Stun/Parses.antt =====
-- What the STUN loop of get_public_endpoint_for_socket finds.
use zapshare.Base.{
  ℕ, zero, suc, ◌+◌, ◌-◌, ◌*◌, ◌/◌, ◌%◌, ◌^◌, ◌≤◌, ◌<◌, ◌≡◌, ◌≢◌, refl, sym, ap, ◌∙◌, true, false,
  Bytes, List, [], ◌∷◌, ◌++◌, Outcome, returned, length, drop, replicate, arith, leb, ◌==◌, bit_xor,
  bit_xor_twice, drop-append_length, length-append, append_assoc, All,
}
use zapshare.Utils.Stun.{
  MappedAddress, word_16, magic_cookie, read_header, dotted, mapped_address, step_over,
  parse_attributes, parse_stun,
}

-- How a server writes an attribute: type, length, and the value with its padding.
pub record Encoded : Type 0 where
  pub kind : ℕ
  pub value : Bytes

abbrev pub attribute_bytes : Encoded → Bytes
attribute_bytes e =
    (e.kind / 256)
    ∷ (e.kind % 256)
    ∷ (length e.value / 256)
    ∷ (length e.value % 256)
    ∷ (e.value ++ replicate ((4 - length e.value % 4) % 4) 0)

abbrev pub attributes_bytes : List Encoded → Bytes
attributes_bytes [] = []
attributes_bytes (e ∷ es) = attribute_bytes e ++ attributes_bytes es

-- The attribute that is looked for: family and port, and the address, both under the cookie.
abbrev pub mapped_bytes : ℕ → ℕ → Bytes
mapped_bytes a p =
    let port = bit_xor p (magic_cookie / 2 ^ 16) in
    let address = bit_xor a magic_cookie in
    0
    ∷ 32
    ∷ 0
    ∷ 8
    ∷ 0
    ∷ 1
    ∷ (port / 256)
    ∷ (port % 256)
    ∷ (address / 2 ^ 24)
    ∷ (address / 2 ^ 16 % 256)
    ∷ (address / 2 ^ 8 % 256)
    ∷ (address % 256)
    ∷ []

abbrev pub mapped : ℕ → ℕ → Outcome MappedAddress
mapped a p = returned (record { ip = dotted a; port = p })

mapped_address-mapped_bytes :
    (a p : ℕ) (behind : Bytes) → mapped_address (drop 4 (mapped_bytes a p ++ behind)) ≡ mapped a p
unfolding mapped_address
mapped_address-mapped_bytes a p behind =
    let port = bit_xor p (magic_cookie / 2 ^ 16) in
    let address = bit_xor a magic_cookie in
    let whole_port : word_16 (port / 256) (port % 256) ≡ port = omega arith in
    let whole_address : word_16 (address / 2 ^ 24) (address / 2 ^ 16 % 256) * 2 ^ 16
          + word_16 (address / 2 ^ 8 % 256) (address % 256)
        ≡ address =
      omega arith in
    simp (
      whole_port,
      whole_address,
      bit_xor_twice p (magic_cookie / 2 ^ 16),
      bit_xor_twice a magic_cookie,
    )

leb_le : (a b : ℕ) → a ≤ b → leb a b ≡ true
leb_le a b h = ground (arith, h)

eq_ne : (a b : ℕ) → a ≢ b → (a == b) ≡ false
eq_ne a b h = ground (arith, h)

round_mapped :
    (fuel : ℕ) (buf behind : Bytes) (n i a p : ℕ)
    → drop i buf ≡ mapped_bytes a p ++ behind
    → i + 8 ≤ n
    → parse_attributes (suc fuel) buf n i ≡ mapped a p
unfolding parse_attributes
round_mapped fuel buf behind n i a p at' h =
    simp (at', leb_le (i + 8) n h) (mapped_address-mapped_bytes a p behind)

round_other :
    (fuel : ℕ) (buf behind : Bytes) (n i : ℕ) (e : Encoded)
    → drop i buf ≡ attribute_bytes e ++ behind
    → e.kind ≢ 32
    → i + 8 ≤ n
    → parse_attributes (suc fuel) buf n i
      ≡ parse_attributes fuel buf n (i + step_over (length e.value))
unfolding parse_attributes
round_other fuel buf behind n i e at' other h =
    let kind : word_16 (e.kind / 256) (e.kind % 256) ≡ e.kind = omega arith in
    let size : word_16 (length e.value / 256) (length e.value % 256) ≡ length e.value =
      omega arith in
    let header : read_header (attribute_bytes e ++ behind) ≡ record {
      t = e.kind;
      l = length e.value;
      body = (e.value ++ replicate ((4 - length e.value % 4) % 4) 0) ++ behind;
    } =
      simp (kind, size) in
    simp (ap read_header at' ∙ header, leb_le (i + 8) n h, eq_ne e.kind 32 other)

length-replicate : (n b : ℕ) → length (replicate n b) ≡ n
length-replicate zero b = refl
length-replicate (suc n) b = omega (arith, length-replicate n b)

attribute_size : (e : Encoded) → length (attribute_bytes e) ≡ step_over (length e.value)
attribute_size e =
    let pad = (4 - length e.value % 4) % 4 in
    omega (arith, length-append e.value (replicate pad 0), length-replicate pad 0)

finds :
    (es : List Encoded) (fuel a p n : ℕ) (front behind : Bytes)
    → All (λ e. e.kind ≢ 32) es
    → n < fuel + length front
    → length front + length (attributes_bytes es) + 12 ≤ n
    → parse_attributes fuel
        (front ++ (attributes_bytes es ++ (mapped_bytes a p ++ behind)))
        n
        (length front)
      ≡ mapped a p
finds es zero a p n front behind others enough within = absurd (omega (arith, enough, within))
finds [] (suc fuel) a p n front behind others enough within =
    round_mapped fuel (front ++ (mapped_bytes a p ++ behind)) behind n (length front) a p
      (drop-append_length front (mapped_bytes a p ++ behind)) (omega (arith, within))
finds (e ∷ es) (suc fuel) a p n front behind others enough within =
    let rest = mapped_bytes a p ++ behind in
    let later = attributes_bytes es ++ rest in
    let here = attribute_bytes e in
    let size : length (front ++ here) ≡ length front + step_over (length e.value) =
      length-append front here ∙ ap (λ k. length front + k) (attribute_size e) in
    let all_size = length-append here (attributes_bytes es) in
    let ih =
      finds es fuel a p n (front ++ here) behind others.1 (omega (arith, enough, size))
        (omega (arith, within, size, all_size, attribute_size e)) in
    ap (λ x. parse_attributes (suc fuel) (front ++ x) n (length front))
      (append_assoc here (attributes_bytes es) rest)
    ∙ round_other fuel (front ++ (here ++ later)) later n (length front) e
        (drop-append_length front (here ++ later)) others.0
        (omega (arith, within, all_size, attribute_size e))
    ∙ ap (λ x. parse_attributes fuel x n (length front + step_over (length e.value)))
        (sym (append_assoc front here later))
    ∙ ap (λ k. parse_attributes fuel ((front ++ here) ++ later) n k) (sym size)
    ∙ ih

-- Of an answer with a header of 20 bytes, any other padded attributes and then the
-- XOR-MAPPED-ADDRESS attribute of an address and a port, parse_stun finds that address, in dotted
-- form, and that port, if the received bytes reach to the attribute's end.
pub parse_stun-finds :
    (es : List Encoded) (a p n : ℕ) (header behind : Bytes)
    → length header ≡ 20
    → All (λ e. e.kind ≢ 32) es
    → 32 + length (attributes_bytes es) ≤ n
    → parse_stun (header ++ (attributes_bytes es ++ (mapped_bytes a p ++ behind))) n
      ≡ returned (record { ip = dotted a; port = p })
unfolding parse_stun
parse_stun-finds es a p n header behind size others within =
    ap
      (parse_attributes (suc n) (header ++ (attributes_bytes es ++ (mapped_bytes a p ++ behind))) n)
      (sym size)
    ∙ finds es (suc n) a p n header behind others (omega arith) (omega (arith, size, within))
