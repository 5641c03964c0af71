-- ===== src/Client/Receive/Safety.antt =====
-- receive_file, round by round: its file stays a prefix of the sender's, and success is reported only
-- with all of it.
use zapshare.Base.{
  ℕ, ◌+◌, ◌^◌, ◌<◌, ◌≡◌, ap, subst, ◌∙◌, Bool, true, false, Bytes, List, [], ◌∷◌, ◌++◌, Option,
  none, some, length, take, drop, Outcome, returned, thrown, aborted, and_then, bytes_eq,
  bytes_eq_sound, ◌==◌, ==_iff, arith, Bool-cases, inl, inr, All, ltb, take_all,
}
use zapshare.Config.{Datagram, endpoint_eq, max_retries}
use zapshare.FileHash.{Sha256, compute_file_hash, hash_content}
use zapshare.FileHash.Correct.{compute_file_hash-some}
use zapshare.Protocol.{
  ControlPacket, get, ack, chunk, done, transfer_error, no_control_body, DataChunk, Done,
}
use zapshare.Protocol.Codec.{Codec}
use zapshare.Client.Output.{read_back}
use zapshare.Client.Receive.Prefix.{IsOf, HasPrefix, take_payload-HasPrefix}
use zapshare.Client.Receive.{
  Event, received, timeout, Request, Receiver, Progress, goes_on, finishes, Round, delivered,
  handle_data, check_hash, handle_done, packet_round, timeout_round, receive_round, after_round,
  receive_loop,
}

-- The round returns, and its result has the property.
abbrev pub Ensures : (Progress → Receiver → Type 0) → Round → Type 0
Ensures P (returned (g, r, sent)) = P g r
Ensures P thrown = ⊥
Ensures P aborted = ⊥

module _ (sha : Sha256) (expected_hash content : Bytes) where
  -- The whole file, with the hash that was expected.
  pub record IsComplete (r : Receiver) : Type 0 where
    pub whole : r.out.content ≡ content
    pub verified : compute_file_hash sha (some r.out.content) ≡ returned expected_hash

  abbrev pub Good : Progress → Receiver → Type 0
  Good (finishes true) r = HasPrefix content r × IsComplete r
  Good (finishes false) r = HasPrefix content r
  Good goes_on r = HasPrefix content r

module _ (codec : Codec) (sha : Sha256) (q : Request) (content : Bytes) where
  open q use {peer, transfer_id, expected_hash}

  abbrev pub Safe : Round → Type 0
  Safe = Ensures (Good sha expected_hash content)

  handle_data-Safe :
      (c : DataChunk) (r : Receiver)
      → length content < 2 ^ 64
      → IsOf content (some (chunk c))
      → HasPrefix content r
      → Safe (handle_data codec sha q c r)
  unfolding handle_data
  handle_data-Safe c r small part h = elim (Bool-cases (bytes_eq c.transfer_id transfer_id)) [
    | inl e ↦ elim (Bool-cases (c.offset == r.current_offset)) [
      | inl f ↦
          let at = (==_iff c.offset r.current_offset).0 f in
          let same =
            subst (λ o. c.payload ≡ take (length c.payload) (drop o content)) at
              (part (omega (arith, at, h.within))) in
          simp (e, f) (take_payload-HasPrefix content c.payload r small h same)
      | inr f ↦ elim (Bool-cases (ltb c.offset r.current_offset)) [
        | inl g ↦ simp (e, f, g) h
        | inr g ↦ simp (e, f, g) h
      ]
    ]
    | inr e ↦ simp e h
  ]

  check_hash-Safe :
      (r : Receiver)
      → r.current_offset ≡ length content
      → HasPrefix content r
      → Safe (check_hash codec sha q r)
  unfolding check_hash read_back
  check_hash-Safe r at_end h =
      let hash = hash_content sha r.out.content in
      let hashed = compute_file_hash-some sha r.out.content in
      elim (Bool-cases (bytes_eq hash expected_hash)) [
        | inl e ↦
            simp (h.opened, hashed, e)
              (
                h,
                record {
                  whole =
                      h.prefix
                      ∙ (ap (λ n. take n content) at_end
                          ∙ take_all (length content) content (omega arith));
                  verified = hashed ∙ ap returned (bytes_eq_sound hash expected_hash e);
                },
              )
        | inr e ↦ simp (h.opened, hashed, e) h
      ]

  handle_done-Safe :
      (d : Done) (r : Receiver)
      → d.final_size ≡ length content
      → HasPrefix content r
      → Safe (handle_done codec sha q d r)
  unfolding handle_done
  handle_done-Safe d r size h = elim (Bool-cases (bytes_eq d.transfer_id transfer_id)) [
    | inl e ↦ elim (Bool-cases (r.current_offset == d.final_size)) [
      | inl f ↦ simp (e, f) (check_hash-Safe r ((==_iff _ _).0 f ∙ size) h)
      | inr f ↦ simp (e, f) h
    ]
    | inr e ↦ simp e h
  ]

  packet_round-Safe :
      (packet : Option ControlPacket) (r : Receiver)
      → length content < 2 ^ 64
      → IsOf content packet
      → HasPrefix content r
      → Safe (packet_round codec sha q packet r)
  unfolding packet_round
  packet_round-Safe none r small part h = h
  packet_round-Safe (some (chunk c)) r small part h = handle_data-Safe c r small part h
  packet_round-Safe (some (done d)) r small size h = handle_done-Safe d r size h
  packet_round-Safe (some (transfer_error e)) r small part h = h
  packet_round-Safe (some (get g)) r small part h = h
  packet_round-Safe (some (ack a)) r small part h = h
  packet_round-Safe (some no_control_body) r small part h = h

  -- What the peer sends is of the file; what others send is not constrained.
  abbrev pub IsHonest : Event → Type 0
  IsHonest timeout = Unit
  IsHonest (received sender bytes) =
      endpoint_eq sender peer ≡ true → IsOf content (codec.control_from_string (delivered bytes))

  pub retried :
      (n : ℕ) {r : Receiver} → HasPrefix content r → HasPrefix content (record r { retries = n })
  retried n h = record { opened = h.opened; within = h.within; prefix = h.prefix }

  timeout_round-HasPrefix :
      {r : Receiver} → HasPrefix content r → HasPrefix content (timeout_round codec sha q r).0
  unfolding timeout_round
  timeout_round-HasPrefix {r} h = elim (Bool-cases (r.current_offset == 0)) [
    | inl e ↦ simp e (retried (r.retries + 1) h)
    | inr e ↦ simp e (retried (r.retries + 1) h)
  ]

  pub receive_round-Safe :
      (e : Event) (r : Receiver)
      → length content < 2 ^ 64
      → IsHonest e
      → HasPrefix content r
      → Safe (receive_round codec sha q e r)
  unfolding receive_round
  receive_round-Safe timeout r small honest h = timeout_round-HasPrefix h
  receive_round-Safe (received sender bytes) r small honest h =
      elim (Bool-cases (endpoint_eq sender peer)) [
        | inl e ↦ simp e (
            packet_round-Safe (codec.control_from_string (delivered bytes))
              (record r { retries = 0 }) small (honest e) (retried 0 h))
        | inr e ↦ simp e h
      ]

  -- The loop returns; its file is a prefix, and all of it with the expected hash on success.
  abbrev pub LoopSafe : Outcome (Option Bool × Receiver × List Datagram) → Type 0
  LoopSafe (returned (none, r, sent)) = HasPrefix content r
  LoopSafe (returned (some result, r, sent)) = Good sha expected_hash content (finishes result) r
  LoopSafe thrown = ⊥
  LoopSafe aborted = ⊥

  later_sends :
      (sent : List Datagram) (rest : Outcome (Option Bool × Receiver × List Datagram))
      → LoopSafe rest
      → LoopSafe (and_then rest λ (result, r, later). returned (result, r, sent ++ later))
  later_sends sent (returned (none, r, later)) h = h
  later_sends sent (returned (some result, r, later)) h = h
  later_sends sent thrown h = h
  later_sends sent aborted h = h

  after_round-Safe :
      (round : Round) (rest : Receiver → Outcome (Option Bool × Receiver × List Datagram))
      → Safe round
      → ((r : Receiver) → HasPrefix content r → LoopSafe (rest r))
      → LoopSafe (after_round codec sha q round rest)
  after_round-Safe (returned (finishes result, r, sent)) rest h k = h
  after_round-Safe (returned (goes_on, r, sent)) rest h k = later_sends sent (rest r) (k r h)
  after_round-Safe thrown rest h k = h
  after_round-Safe aborted rest h k = h

  -- If what the peer sends is of the file, the loop of receive_file never ends by an exception, its
  -- file is a prefix of the sender's file, and it reports success only with the whole file under
  -- the expected hash.
  pub receive_loop-LoopSafe :
      (es : List Event) (r : Receiver)
      → length content < 2 ^ 64
      → All IsHonest es
      → HasPrefix content r
      → LoopSafe (receive_loop codec sha q es r)
  unfolding receive_loop
  receive_loop-LoopSafe [] r small honest h = elim (Bool-cases (ltb r.retries max_retries)) [
    | inl e ↦ simp e h
    | inr e ↦ simp e h
  ]
  receive_loop-LoopSafe (e ∷ es) r small honest h =
      let round = receive_round-Safe e r small honest.0 h in
      let next = λ (r' : Receiver) (h' : HasPrefix content r').
        receive_loop-LoopSafe es r' small honest.1 h' in
      elim (Bool-cases (ltb r.retries max_retries)) [
        | inl b ↦ simp b (
            after_round-Safe (receive_round codec sha q e r) (receive_loop codec sha q es) round
              next)
        | inr b ↦ simp b h
      ]
