-- ===== src/Transfer/Exchange/LostDone.antt =====
-- The loss of the one datagram that the protocol cannot lose: the done packet.
use zapshare.Base.{
  ℕ, ◌≡◌, ◌≢◌, ap, subst, true, false, Bytes, [], length, arith, ◌==◌, ==_iff, replicate,
}
use zapshare.Config.{Transfers, max_retries}
use zapshare.Platform.{Platform}
use zapshare.FileHash.{Sha256}
use zapshare.Protocol.Codec.{CodecLaws}
use zapshare.Session.{Session, closed}
use zapshare.Session.Control.Chunk.{piece}
use zapshare.Session.Control.Refines.{Reacts, ack_reaction_last}
use zapshare.Client.Receive.{Request, Receiver, timeout, timeout_round, receive_loop, ack_current}
use zapshare.Client.Receive.Timeouts.{GivesUp, timeout_round_lem, receive_loop-GivesUp}
use zapshare.Transfer.Exchange.{answer, InStep, reaction}
use zapshare.Transfer.Packets.{DescribesFile}

module _ (p : Platform) (sha : Sha256) (q : Request) (w : p.World) (laws : CodecLaws p.codec)
    (content : Bytes) (m : Transfers) (describes : DescribesFile m content)
    (same_id : m.id ≡ q.transfer_id) where
  open p use {codec}

  nonzero_test : (n : ℕ) → n ≢ 0 → (n == 0) ≡ false
  nonzero_test n h = ground arith

  -- When the done packet of a nonempty file is lost, the receiver's repeated acknowledgement closes
  -- the session with nothing sent, and the receiver, hearing nothing more, reports failure.
  pub lost_done-fails :
      (s : Session) (r : Receiver)
      → InStep p content m s r
      → (length (piece content s.offset) == 0) ≡ true
      → r.current_offset ≢ 0
      → let reply = answer p sha q w (timeout_round codec sha q r).1 s in
        (reply.0.state ≡ closed)
        × (reply.1 ≡ [])
        × GivesUp r (receive_loop codec sha q (replicate max_retries timeout) r)
  lost_done-fails s r step last nonempty =
      let test = nonzero_test r.current_offset nonempty in
      let no_more = (==_iff (length (piece content s.offset)) 0).0 last in
      let react =
        reaction p sha q w laws content m describes same_id s r r step
          (omega (arith, no_more, step.together)) step.prefix.within in
      let ends =
        subst (λ x. Reacts p content s x (answer p sha q w (ack_current codec sha q r) s))
          (ack_reaction_last content s.offset last) react in
      let repeated : (timeout_round codec sha q r).1 ≡ ack_current codec sha q r =
        rw (timeout_round_lem codec sha q r, test) in
      rw repeated (
        ap (λ (t : Session). t.state) ends.0,
        ends.1,
        receive_loop-GivesUp codec sha q max_retries r (omega arith),
      )
