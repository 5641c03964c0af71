-- ===== src/Client/Handshake/Connects.antt =====
-- The loop of perform_handshake in cli_tool/src/client.cpp: what connects it, and that it ends.
use zapshare.Base.{
  ℕ, zero, suc, ◌≤◌, ◌<◌, ◌≡◌, ◌⊎◌, refl, sym, ap, true, false, Bytes, List, [], ◌∷◌, ◌++◌, map,
  take, drop, length, Option, some, none, All, Has, Bool-cases, inl, inr, arith, append-nil,
  bytes_eq_sound,
}
use zapshare.Client.Handshake.{
  Connection, connected, gave_up, handshake_rounds, answers, is_answer, sender_of, send_all,
}
use zapshare.Client.Receive.{Event, received, timeout, delivered}
use zapshare.Config.{Endpoint, Datagram}
use zapshare.Protocol.{
  ServerHello, HandshakePacket, client_hello, server_hello, handshake_finish, handshake_error,
  no_handshake_body,
}
use zapshare.Protocol.Codec.{Codec}

module _ (codec : Codec) (token bytes : Bytes) (peers : List Endpoint) where
  -- What came from the endpoint: a server hello with the token.
  pub record IsAnswered (sender : Endpoint) (es : List Event) : Type 0 where
    pub answer : Bytes
    pub hello : ServerHello
    pub came : Has (received sender answer) es
    pub parsed : codec.handshake_from_string (delivered answer) ≡ some (server_hello hello)
    pub same_id : hello.transfer_id ≡ token

  answer_lem :
      (packet : Option HandshakePacket)
      → is_answer token packet ≡ true
      → (hello : ServerHello) × (packet ≡ some (server_hello hello)) × (hello.transfer_id ≡ token)
  answer_lem (some (server_hello hello)) h = (hello, refl, bytes_eq_sound hello.transfer_id token h)
  answer_lem (some (client_hello hello)) h = absurd (cc)
  answer_lem (some (handshake_finish finish)) h = absurd (cc)
  answer_lem (some (handshake_error e)) h = absurd (cc)
  answer_lem (some no_handshake_body) h = absurd (cc)
  answer_lem none h = absurd (cc)

  later-IsAnswered :
      (sender : Endpoint) (e : Event) (es : List Event)
      → IsAnswered sender es
      → IsAnswered sender (e ∷ es)
  later-IsAnswered sender e es a = record {
    answer = a.answer;
    hello = a.hello;
    came = Has.later a.came;
    parsed = a.parsed;
    same_id = a.same_id;
  }

  first-IsAnswered :
      (sender : Endpoint) (e : Event) (es : List Event)
      → answers codec token e ≡ true
      → sender_of codec e ≡ connected sender
      → IsAnswered sender (e ∷ es)
  first-IsAnswered sender timeout es h c = absurd (cc)
  first-IsAnswered sender (received other answer) es h c =
      let (hello, parsed, same) = answer_lem (codec.handshake_from_string (delivered answer)) h in
      let e : other ≡ sender = cc in
      record {
        answer = answer;
        hello = hello;
        came = rw e Has.first;
        parsed = parsed;
        same_id = same;
      }

  -- The first event answers.
  pub handshake_rounds-answers :
      (n : ℕ) (e : Event) (es : List Event)
      → answers codec token e ≡ true
      → handshake_rounds codec (suc n) token bytes peers (e ∷ es)
        ≡ (sender_of codec e, send_all bytes peers, es)
  unfolding handshake_rounds
  handshake_rounds-answers n e es h = simp h

  -- perform_handshake connects only to an endpoint that sent a server hello with the token.
  pub handshake_rounds-IsAnswered :
      (n : ℕ) (es : List Event) (sender : Endpoint)
      → (handshake_rounds codec n token bytes peers es).0 ≡ connected sender
      → IsAnswered sender es
  unfolding handshake_rounds
  handshake_rounds-IsAnswered zero es sender h = absurd (cc)
  handshake_rounds-IsAnswered (suc n) [] sender h = absurd (cc)
  handshake_rounds-IsAnswered (suc n) (e ∷ es) sender h =
      elim (Bool-cases (answers codec token e)) [
        | inl a ↦ first-IsAnswered sender e es a (simp a at h)
        | inr a ↦
            later-IsAnswered sender e es (handshake_rounds-IsAnswered n es sender (simp a at h))
      ]

  abbrev pub IsSilent : Event → Type 0
  IsSilent e = answers codec token e ≡ false

  -- The hello to every peer, in their order, so many times over.
  abbrev pub hellos : ℕ → List Datagram
  hellos zero = []
  hellos (suc k) = map (λ p. record { to = p; bytes = bytes }) peers ++ hellos k

  -- No event of the rounds answered.
  pub record IsRefused (n : ℕ) (es : List Event) (r : Connection × List Datagram × List Event)
      : Type 0 where
    pub result : r.0 ≡ gave_up
    pub sent : r.1 ≡ hellos n
    pub left : r.2 ≡ drop n es
    pub silent : All IsSilent (take n es)

  -- The first event that answers, with what stands before and behind it.
  pub record IsMet (n : ℕ) (es : List Event) (r : Connection × List Datagram × List Event)
      : Type 0 where
    pub before : List Event
    pub sender : Endpoint
    pub answer : Bytes
    pub after : List Event
    pub events : es ≡ before ++ (received sender answer ∷ after)
    pub soon : length before < n
    pub silent : All IsSilent before
    pub answered : answers codec token (received sender answer) ≡ true
    pub result : r.0 ≡ connected sender
    pub sent : r.1 ≡ hellos (suc (length before))
    pub left : r.2 ≡ after

  first-IsMet :
      (n : ℕ) (e : Event) (es : List Event)
      → answers codec token e ≡ true
      → IsMet (suc n) (e ∷ es) (sender_of codec e, send_all bytes peers, es)
  first-IsMet n timeout es h = absurd (cc)
  first-IsMet n (received sender answer) es h = record {
    before = [];
    sender = sender;
    answer = answer;
    after = es;
    events = refl;
    soon = omega arith;
    silent = tt;
    answered = h;
    result = refl;
    sent = sym (append-nil (send_all bytes peers));
    left = refl;
  }

  later-IsMet :
      (n : ℕ) (e : Event) (es : List Event) (r : Connection × List Datagram × List Event)
      → IsSilent e
      → IsMet n es r
      → IsMet (suc n) (e ∷ es) (r.0, send_all bytes peers ++ r.1, r.2)
  later-IsMet n e es r h m = record {
    before = e ∷ m.before;
    sender = m.sender;
    answer = m.answer;
    after = m.after;
    events = ap (λ l. e ∷ l) m.events;
    soon = omega (arith, m.soon);
    silent = (h, m.silent);
    answered = m.answered;
    result = m.result;
    sent = ap (λ l. send_all bytes peers ++ l) m.sent;
    left = m.left;
  }

  later-IsRefused :
      (n : ℕ) (e : Event) (es : List Event) (r : Connection × List Datagram × List Event)
      → IsSilent e
      → IsRefused n es r
      → IsRefused (suc n) (e ∷ es) (r.0, send_all bytes peers ++ r.1, r.2)
  later-IsRefused n e es r h g = record {
    result = g.result;
    sent = ap (λ l. send_all bytes peers ++ l) g.sent;
    left = g.left;
    silent = (h, g.silent);
  }

  -- Where there is an event for each of its rounds, the loop of perform_handshake ends. It gives up
  -- if no event of the rounds answers, and has then sent the hello to every peer once in each round.
  -- Otherwise it is connected to the sender of the first answer, has sent the hello to every peer
  -- once in each round up to that one, and leaves the events behind the answer.
  pub handshake_rounds-ends :
      (n : ℕ) (es : List Event)
      → n ≤ length es
      → IsRefused n es (handshake_rounds codec n token bytes peers es)
        ⊎ IsMet n es (handshake_rounds codec n token bytes peers es)
  unfolding handshake_rounds
  handshake_rounds-ends zero es h =
      inl (record { result = refl; sent = refl; left = refl; silent = tt })
  handshake_rounds-ends (suc n) [] h = absurd (omega (arith, h))
  handshake_rounds-ends (suc n) (e ∷ es) h =
      let later = handshake_rounds codec n token bytes peers es in
      elim (Bool-cases (answers codec token e)) [
        | inl a ↦ simp a (inr (first-IsMet n e es a))
        | inr a ↦ simp a (elim (handshake_rounds-ends n es (omega (arith, h))) [
          | inl g ↦ inl (later-IsRefused n e es later a g)
          | inr m ↦ inr (later-IsMet n e es later a m)
        ])
      ]
