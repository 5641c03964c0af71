-- ===== src/Client/Receive/Timeouts.antt =====
-- receive_file while nothing comes: it retries `MAX_RETRIES` times and gives up.
use zapshare.Base.{
  ℕ, zero, suc, ◌+◌, ◌≤◌, ◌≡◌, refl, Bool, true, false, List, [], ◌∷◌, ◌++◌, Option, some, none,
  Outcome, returned, thrown, aborted, and_then, ltb, arith, Bool-cases, inl, inr, ◌==◌,
  if◌then◌else◌, replicate,
}
use zapshare.Config.{Datagram, max_retries}
use zapshare.FileHash.{Sha256}
use zapshare.Protocol.Codec.{Codec}
use zapshare.Client.Receive.{
  timeout, Request, Receiver, timeout_round, receive_round, receive_loop, ack_current,
}

-- The loop has given up, and the file and the offset are those of `r`.
abbrev pub GivesUp : Receiver → Outcome (Option Bool × Receiver × List Datagram) → Type 0
GivesUp r (returned (some false, r', sent)) =
    (r'.out ≡ r.out) × (r'.current_offset ≡ r.current_offset)
GivesUp r (returned (some true, r', sent)) = ⊥
GivesUp r (returned (none, r', sent)) = ⊥
GivesUp r thrown = ⊥
GivesUp r aborted = ⊥

module _ (codec : Codec) (sha : Sha256) (q : Request) where
  open q use {peer, get_bytes}

  -- A timeout counts a retry, and repeats the request before the first byte and the last
  -- acknowledgement behind it.
  pub timeout_round_lem :
      (r : Receiver)
      → timeout_round codec sha q r ≡ (
        record r { retries = r.retries + 1 },
        if r.current_offset == 0
            then record { to = peer; bytes = get_bytes } ∷ []
            else ack_current codec sha q r,
      )
  unfolding timeout_round
  timeout_round_lem r = ground arith

  later-GivesUp :
      (r r' : Receiver) (sent : List Datagram)
      (rest : Outcome (Option Bool × Receiver × List Datagram))
      → r'.out ≡ r.out
      → r'.current_offset ≡ r.current_offset
      → GivesUp r' rest
      → GivesUp r (and_then rest λ (result, r'', later). returned (result, r'', sent ++ later))
  later-GivesUp r r' sent (returned (some false, r'', later)) e f (g, h) = (cc, cc)
  later-GivesUp r r' sent (returned (some true, r'', later)) e f h = h
  later-GivesUp r r' sent (returned (none, r'', later)) e f h = h
  later-GivesUp r r' sent thrown e f h = h
  later-GivesUp r r' sent aborted e f h = h

  -- From any point of a transfer, as many timeouts in a row as retries are left end the loop of
  -- receive_file with failure, the file and the offset unchanged.
  pub receive_loop-GivesUp :
      (n : ℕ) (r : Receiver)
      → max_retries ≤ r.retries + n
      → GivesUp r (receive_loop codec sha q (replicate n timeout) r)
  unfolding receive_loop receive_round
  receive_loop-GivesUp zero r h = elim (Bool-cases (ltb r.retries max_retries)) [
    | inl e ↦ absurd (ground (arith, e))
    | inr e ↦ simp e (refl, refl)
  ]
  receive_loop-GivesUp (suc n) r h = elim (Bool-cases (ltb r.retries max_retries)) [
    | inl e ↦
        let r' = record r { retries = r.retries + 1 } in
        simp (e, timeout_round_lem r)
          (later-GivesUp r r' _ (receive_loop codec sha q (replicate n timeout) r') refl refl
            (receive_loop-GivesUp n r' (omega arith)))
    | inr e ↦ simp e (refl, refl)
  ]
