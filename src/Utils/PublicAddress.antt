-- ===== src/Utils/PublicAddress.antt =====
-- get_public_endpoint_for_socket of cli_tool/include/utils.hpp around the parsing of the answer: the
-- request, the exchange with the STUN server and the local endpoint. The exchange is a parameter.
use zapshare.Base.{codes, ℕ, zero, suc, ◌%◌, Bytes, [], ◌∷◌, Outcome, returned, and_then}
use zapshare.Utils.Signalling.{PublicEndpoint}
use zapshare.Utils.Stun.{parse_stun}

pub record Net (World : Type 0) : Type 0 where
  -- `rand()`
  pub rand : World → ℕ × World
  -- resolves a host and a port, sends there a request and waits for one datagram: the array of 1024 bytes
  -- after it, and the number of bytes received
  pub stun_exchange : Bytes → Bytes → Bytes → World → Outcome (Bytes × ℕ) × World
  -- the port of the socket
  pub local_port : World → ℕ
  -- resolves a host and a port, connects a UDP socket to the first result, and gives the socket's
  -- own address
  pub local_address_towards : Bytes → Bytes → World → Outcome Bytes
  -- asio::ip::make_address
  pub make_address : Bytes → Outcome Bytes

abbrev pub stun_endpoint : Bytes
stun_endpoint = codes "stun.l.google.com"

abbrev pub stun_port : Bytes
stun_port = codes "19302"

module _ {World : Type 0} (net : Net World) where
  unfoldable pub get_local_ip_address : World → Outcome Bytes
  get_local_ip_address w = net.local_address_towards (codes "8.8.8.8") (codes "53") w

  -- `req[i] = rand()`, cut to a byte.
  unfoldable pub random_bytes : ℕ → World → Bytes × World
  random_bytes zero w = ([], w)
  random_bytes (suc n) w =
      let (r, w1) = net.rand w in let (rest, w2) = random_bytes n w1 in ((r % 256) ∷ rest, w2)

  unfoldable pub stun_request : World → Bytes × World
  unfolding random_bytes
  stun_request w =
      let (tail, w') = random_bytes 12 w in (0 ∷ 1 ∷ 0 ∷ 0 ∷ 0x21 ∷ 0x12 ∷ 0xA4 ∷ 0x42 ∷ tail, w')

  abbrev endpoint_of : Outcome (Bytes × ℕ) → World → Outcome PublicEndpoint
  endpoint_of answer w = and_then answer λ (buf, n). and_then (get_local_ip_address w) λ local_ip.
      and_then (parse_stun buf n) λ mapped. returned (record {
        ip = mapped.ip;
        port = mapped.port;
        local_ip = local_ip;
        local_port = net.local_port w;
      })

  unfoldable pub get_public_endpoint_for_socket : World → Outcome PublicEndpoint × World
  unfolding stun_request
  get_public_endpoint_for_socket w =
      let (req, w1) = stun_request w in
      let (answer, w2) = net.stun_exchange stun_endpoint stun_port req w1 in
      (endpoint_of answer w2, w2)

  -- On a socket of its own.
  unfoldable pub get_public_endpoint : World → Outcome PublicEndpoint × World
  get_public_endpoint w = get_public_endpoint_for_socket w
