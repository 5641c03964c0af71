-- ===== src/CommandLine/Sender/Served.antt =====
-- What the sender's server may send, and to whom (cli_tool/src/server.cpp).
use zapshare.Base.{
  ◌≡◌, ◌⊎◌, inl, inr, true, Bool-cases, Bytes, List, ◌∷◌, ◌++◌, some, returned, Yields,
  Yields-and_then, Yields_at, All, All-append, All-map, Has,
}
use zapshare.Client.Receive.{delivered}
use zapshare.CommandLine.Sender.{Arrival, arrived, serve_next, Served}
use zapshare.Config.{Transfers, Datagram, Endpoint}
use zapshare.Platform.{Platform}
use zapshare.Protocol.{ClientHello, HandshakePacket, client_hello}
use zapshare.Session.{Session, is_closed}
use zapshare.Session.Control.Invariant.{SessionInv, IsFilePacket}
use zapshare.Session.Handshake.Authenticates.{IsAccepted}

module _ (p : Platform) where
  open p use {World, codec}

  abbrev pub IsHandshakePacket : Datagram → Type 0
  IsHandshakePacket d =
      (packet : HandshakePacket) × (d.bytes ≡ (codec.handshake_to_string packet).1)

  -- What a step and what follows make of a property of the whole.
  pub serve_next-Yields :
      (Q : Session × List Datagram × World → Type 0) (step : Served p)
      (rest : Session → World → Served p)
      → ((s : Session) (sent : List Datagram) (w : World)
          → step ≡ returned (s, sent, w)
          → (is_closed s ≡ true → Q (s, sent, w))
            × Yields (λ r. Q (r.0, sent ++ r.1, r.2)) (rest s w))
      → Yields Q (serve_next p step rest)
  serve_next-Yields Q step rest h = Yields-and_then Q step _ λ (s, sent, w) e.
      elim (Bool-cases (is_closed s)) [
        | inl c ↦ simp c ((h s sent w e).0 c)
        | inr c ↦ simp c (
            Yields-and_then Q (rest s w) _
              λ r f. Yields_at (λ r. Q (r.0, sent ++ r.1, r.2)) (rest s w) (h s sent w e).1 f)
      ]

module _ (p : Platform) (content : Bytes) where
  open p use {World, codec, read_file}

  -- Somebody sent a client hello of version 1 with a token for which the central server gave `t`.
  pub record IsKnown (arrivals : List Arrival) (t : Transfers) : Type 0 where
    pub sender : Endpoint
    pub bytes : Bytes
    pub came : Has (arrived sender bytes) arrivals
    pub hello : ClientHello
    pub parsed : codec.handshake_from_string (delivered bytes) ≡ some (client_hello hello)
    pub asked : World
    pub accepted : IsAccepted p hello t asked

  -- A packet of the handshake, or one of the file for somebody who is known.
  abbrev pub MaySend : (Transfers → Type 0) → Transfers → Datagram → Type 0
  MaySend K t d = IsHandshakePacket p d ⊎ (IsFilePacket p content t d × K t)

  abbrev pub IsServed : (Transfers → Type 0) → Session × List Datagram × World → Type 0
  IsServed K (s, sent, w) = SessionInv p content s × All (MaySend K s.transfer_metadata) sent

  pub IsKnown-later :
      (a : Arrival) (arrivals : List Arrival) (t : Transfers)
      → IsKnown arrivals t
      → IsKnown (a ∷ arrivals) t
  IsKnown-later a arrivals t k = record {
    sender = k.sender;
    bytes = k.bytes;
    came = Has.later k.came;
    hello = k.hello;
    parsed = k.parsed;
    asked = k.asked;
    accepted = k.accepted;
  }

  pub only_handshake :
      (K : Transfers → Type 0) (t : Transfers) (ds : List Datagram)
      → All (IsHandshakePacket p) ds
      → All (MaySend K t) ds
  only_handshake K t ds h = All-map (IsHandshakePacket p) (MaySend K t) (λ d x. inl x) ds h

  pub IsServed-map :
      (K L : Transfers → Type 0)
      → ((t : Transfers) → K t → L t)
      → (front : List Datagram) → All (IsHandshakePacket p) front
      → (r : Session × List Datagram × World) → IsServed K r
      → IsServed L (r.0, front ++ r.1, r.2)
  IsServed-map K L f front h (s, sent, w) (inv, may) = (
    inv,
    All-append (MaySend L s.transfer_metadata) front sent
        (only_handshake L s.transfer_metadata front h)
        (All-map (MaySend K s.transfer_metadata) (MaySend L s.transfer_metadata)
          (λ d. elim_may d s.transfer_metadata) sent may),
  )
    where
      elim_may : (d : Datagram) (t : Transfers) → MaySend K t d → MaySend L t d
      elim_may d t (inl x) = inl x
      elim_may d t (inr (packet, k)) = inr (packet, f t k)
