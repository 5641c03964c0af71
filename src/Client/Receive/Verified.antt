-- ===== src/Client/Receive/Verified.antt =====
-- What a success of receive_file means, whatever the peer and others send.
use zapshare.Base.{
  ◌≡◌, ap, Bool, true, false, List, [], ◌∷◌, ◌++◌, Option, none, some, Outcome, returned, thrown,
  aborted, and_then, bytes_eq, bytes_eq_sound, ◌==◌, Bool-cases, inl, inr, ltb, Outcome-cases,
  returns, throws, aborts,
}
use zapshare.Config.{Datagram, endpoint_eq, max_retries}
use zapshare.FileHash.{Sha256, compute_file_hash}
use zapshare.Protocol.{
  ControlPacket, get, ack, chunk, done, transfer_error, no_control_body, DataChunk, Done,
}
use zapshare.Protocol.Codec.{Codec}
use zapshare.Client.Output.{Output, read_back}
use zapshare.Client.Receive.{
  Event, received, timeout, Request, Receiver, goes_on, finishes, Round, delivered, handle_data,
  check_hash, handle_done, packet_round, receive_round, after_round, receive_loop, receive_file,
}

module _ (codec : Codec) (sha : Sha256) (q : Request) where
  open q use {peer, transfer_id, expected_hash}

  -- What a reader finds under the output's name has the expected hash.
  abbrev pub IsVerified : Receiver → Type 0
  IsVerified r = compute_file_hash sha (read_back r.out) ≡ returned expected_hash

  abbrev RoundVerified : Round → Type 0
  RoundVerified (returned (finishes true, r, sent)) = IsVerified r
  RoundVerified (returned (finishes false, r, sent)) = Unit
  RoundVerified (returned (goes_on, r, sent)) = Unit
  RoundVerified thrown = Unit
  RoundVerified aborted = Unit

  check_hash-RoundVerified : (r : Receiver) → RoundVerified (check_hash codec sha q r)
  unfolding check_hash
  check_hash-RoundVerified r = elim (Outcome-cases (compute_file_hash sha (read_back r.out))) [
    | returns hash e ↦ elim (Bool-cases (bytes_eq hash expected_hash)) [
      | inl b ↦ simp (e, b) (ap returned (bytes_eq_sound hash expected_hash b))
      | inr b ↦ simp (e, b) tt
    ]
    | throws e ↦ simp e tt
    | aborts e ↦ simp e tt
  ]

  handle_data-RoundVerified :
      (c : DataChunk) (r : Receiver) → RoundVerified (handle_data codec sha q c r)
  unfolding handle_data
  handle_data-RoundVerified c r = elim (Bool-cases (bytes_eq c.transfer_id transfer_id)) [
    | inl e ↦ elim (Bool-cases (c.offset == r.current_offset)) [
      | inl f ↦ simp (e, f) tt
      | inr f ↦ elim (Bool-cases (ltb c.offset r.current_offset)) [
        | inl g ↦ simp (e, f, g) tt
        | inr g ↦ simp (e, f, g) tt
      ]
    ]
    | inr e ↦ simp e tt
  ]

  handle_done-RoundVerified :
      (d : Done) (r : Receiver) → RoundVerified (handle_done codec sha q d r)
  unfolding handle_done
  handle_done-RoundVerified d r = elim (Bool-cases (bytes_eq d.transfer_id transfer_id)) [
    | inl e ↦ elim (Bool-cases (r.current_offset == d.final_size)) [
      | inl f ↦ simp (e, f) (check_hash-RoundVerified r)
      | inr f ↦ simp (e, f) tt
    ]
    | inr e ↦ simp e tt
  ]

  packet_round-RoundVerified :
      (packet : Option ControlPacket) (r : Receiver)
      → RoundVerified (packet_round codec sha q packet r)
  unfolding packet_round
  packet_round-RoundVerified none r = tt
  packet_round-RoundVerified (some (chunk c)) r = handle_data-RoundVerified c r
  packet_round-RoundVerified (some (done d)) r = handle_done-RoundVerified d r
  packet_round-RoundVerified (some (transfer_error e)) r = tt
  packet_round-RoundVerified (some (get g)) r = tt
  packet_round-RoundVerified (some (ack a)) r = tt
  packet_round-RoundVerified (some no_control_body) r = tt

  receive_round-RoundVerified :
      (e : Event) (r : Receiver) → RoundVerified (receive_round codec sha q e r)
  unfolding receive_round
  receive_round-RoundVerified timeout r = tt
  receive_round-RoundVerified (received sender bytes) r =
      elim (Bool-cases (endpoint_eq sender peer)) [
        | inl e ↦ simp e (
            packet_round-RoundVerified (codec.control_from_string (delivered bytes))
              (record r { retries = 0 }))
        | inr e ↦ simp e tt
      ]

  abbrev pub LoopVerified : Outcome (Option Bool × Receiver × List Datagram) → Type 0
  LoopVerified (returned (some true, r, sent)) = IsVerified r
  LoopVerified (returned (some false, r, sent)) = Unit
  LoopVerified (returned (none, r, sent)) = Unit
  LoopVerified thrown = Unit
  LoopVerified aborted = Unit

  later_sends :
      (sent : List Datagram) (rest : Outcome (Option Bool × Receiver × List Datagram))
      → LoopVerified rest
      → LoopVerified (and_then rest λ (result, r, later). returned (result, r, sent ++ later))
  later_sends sent (returned (none, r, later)) h = h
  later_sends sent (returned (some true, r, later)) h = h
  later_sends sent (returned (some false, r, later)) h = h
  later_sends sent thrown h = h
  later_sends sent aborted h = h

  after_round-LoopVerified :
      (round : Round) (rest : Receiver → Outcome (Option Bool × Receiver × List Datagram))
      → RoundVerified round
      → ((r : Receiver) → LoopVerified (rest r))
      → LoopVerified (after_round codec sha q round rest)
  after_round-LoopVerified (returned (finishes true, r, sent)) rest h k = h
  after_round-LoopVerified (returned (finishes false, r, sent)) rest h k = h
  after_round-LoopVerified (returned (goes_on, r, sent)) rest h k = later_sends sent (rest r) (k r)
  after_round-LoopVerified thrown rest h k = h
  after_round-LoopVerified aborted rest h k = h

  receive_loop-LoopVerified :
      (es : List Event) (r : Receiver) → LoopVerified (receive_loop codec sha q es r)
  unfolding receive_loop
  receive_loop-LoopVerified [] r = elim (Bool-cases (ltb r.retries max_retries)) [
    | inl e ↦ simp e tt
    | inr e ↦ simp e tt
  ]
  receive_loop-LoopVerified (e ∷ es) r = elim (Bool-cases (ltb r.retries max_retries)) [
    | inl b ↦ simp b (
        after_round-LoopVerified (receive_round codec sha q e r) (receive_loop codec sha q es)
          (receive_round-RoundVerified e r) (receive_loop-LoopVerified es))
    | inr b ↦ simp b tt
  ]

  -- receive_file reports success only with a file of the expected hash.
  pub receive_file-LoopVerified :
      (out : Output) (es : List Event) → LoopVerified (receive_file codec sha q out es)
  unfolding receive_file
  receive_file-LoopVerified out es =
      resent (receive_loop codec sha q es (record { out = out; current_offset = 0; retries = 0 }))
        (receive_loop-LoopVerified es (record { out = out; current_offset = 0; retries = 0 }))
    where
      resent :
          (run : Outcome (Option Bool × Receiver × List Datagram))
          → LoopVerified run
          → LoopVerified (
              and_then run λ (result, r, sent).
                returned (result, r, record { to = peer; bytes = q.get_bytes } ∷ sent))
      resent (returned (none, r, sent)) h = h
      resent (returned (some true, r, sent)) h = h
      resent (returned (some false, r, sent)) h = h
      resent thrown h = h
      resent aborted h = h
