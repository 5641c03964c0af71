-- ===== src/Transfer/Exchange/Lossless.antt =====
-- A transfer over a network that loses nothing and keeps the order: it ends, and with the file.
use zapshare.Base.{
  take-length-take, ℕ, zero, suc, ◌+◌, ◌-◌, ◌<◌, ◌≡◌, sym, ap, subst, ◌∙◌, true, false, Bytes, [],
  ◌∷◌, some, length, take, drop, returned, arith, Bool-cases, inl, inr, ◌==◌, ==_iff, take_all,
  length-take, length-drop,
}
use zapshare.Config.{Transfers, Datagram, payload_size}
use zapshare.Platform.{Platform}
use zapshare.FileHash.{Sha256, hash_content}
use zapshare.Protocol.Codec.{CodecLaws}
use zapshare.Session.{Session, send_message}
use zapshare.Session.Control.Chunk.{piece, packet_bytes}
use zapshare.Session.Control.Refines.{sends_at, Reacts, ack_reaction_last, ack_reaction_more}
use zapshare.Client.Receive.{
  received, Request, Receiver, goes_on, receive_round, take_payload, ack_current,
}
use zapshare.Client.Receive.Prefix.{HasPrefix, take_payload-HasPrefix, take_payload-current_offset}
use zapshare.Client.Receive.Rounds.{heard, receive_round-chunk, receive_round-done}
use zapshare.Transfer.Exchange.{answer, exchange, Completes, InStep, PacketOf, parsed, reaction}
use zapshare.Transfer.Packets.{DescribesFile, packet_for_last, packet_for_more}

module _ (p : Platform) (sha : Sha256) (q : Request) (w : p.World) (laws : CodecLaws p.codec)
    (content : Bytes) (m : Transfers) (describes : DescribesFile m content)
    (same_id : m.id ≡ q.transfer_id) (hash : hash_content sha content ≡ q.expected_hash) where
  open p use {codec}
  open q use {peer, transfer_id, expected_hash}

  -- The last packet: the receiver has all, and its acknowledgement ends the session.
  finish :
      (fuel : ℕ) (s : Session) (r : Receiver) (d : Datagram)
      → InStep p content m s r
      → PacketOf p content m s d
      → (length (piece content s.offset) == 0) ≡ true
      → Completes p sha q w content (exchange p sha q w (suc fuel) s r (d ∷ []))
  unfolding exchange
  finish fuel s r d step same last =
      let no_more = (==_iff (length (piece content s.offset)) 0).0 last in
      let at_end : r.current_offset ≡ length content = omega (
        arith,
        no_more,
        length-take payload_size (drop s.offset content),
        length-drop s.offset content,
        step.prefix.within,
        step.together,
      ) in
      let whole : r.out.content ≡ content =
        step.prefix.prefix
        ∙ (ap (λ n. take n content) at_end ∙ take_all (length content) content (omega arith)) in
      let round =
        receive_round-done codec sha q d.bytes
          (record { transfer_id = m.id; final_size = m.file_size; file_hash = m.file_hash }) r
          (parsed p sha q w laws content m describes same_id s r d step same
            ∙ ap some (packet_for_last m s.offset _ last))
          same_id (omega (arith, describes.file_size, at_end)) step.prefix.opened
          (ap (hash_content sha) whole ∙ hash) in
      let react =
        reaction p sha q w laws content m describes same_id s r (heard codec sha q r) step
          (omega (arith, no_more, step.together)) step.prefix.within in
      let ends =
        subst
          (λ x.
            Reacts p content s x
              (answer p sha q w (ack_current codec sha q (heard codec sha q r)) s))
          (ack_reaction_last content s.offset last) react in
      rw round (ap (λ (t : Session). t.state) ends.0, whole, at_end)

  record Advanced (s : Session) (r : Receiver) (d : Datagram) : Type 0 where
    receiver : Receiver
    reply : Datagram
    round :
        receive_round codec sha q (received peer d.bytes) r
        ≡ returned (goes_on, receiver, ack_current codec sha q receiver)
    replies : (answer p sha q w (ack_current codec sha q receiver) s).1 ≡ reply ∷ []
    step : InStep p content m (answer p sha q w (ack_current codec sha q receiver) s).0 receiver
    same : PacketOf p content m (answer p sha q w (ack_current codec sha q receiver) s).0 reply
    grows : s.offset < (answer p sha q w (ack_current codec sha q receiver) s).0.offset

  -- A piece: the receiver's file grows by it, and the session sends the next packet.
  advance :
      (s : Session) (r : Receiver) (d : Datagram)
      → InStep p content m s r
      → PacketOf p content m s d
      → (length (piece content s.offset) == 0) ≡ false
      → Advanced s r d
  unfolding send_message
  advance s r d step same more =
      let payload = piece content s.offset in
      let o' = s.offset + length payload in
      let h : HasPrefix content (heard codec sha q r) = record {
        opened = step.prefix.opened;
        within = step.prefix.within;
        prefix = step.prefix.prefix;
      } in
      let part : payload ≡ take (length payload) (drop r.current_offset content) =
        subst (λ o. payload ≡ take (length payload) (drop o content)) (sym step.together)
          (sym (take-length-take payload_size (drop s.offset content))) in
      let r' = take_payload payload (heard codec sha q r) in
      let h' =
        take_payload-HasPrefix content payload (heard codec sha q r) describes.small h part in
      let at : r'.current_offset ≡ o' = omega (
        arith,
        take_payload-current_offset content payload (heard codec sha q r) describes.small h part,
        step.together,
      ) in
      let react : Reacts p content s (sends_at o')
          (answer p sha q w (ack_current codec sha q r') s) =
        subst (λ x. Reacts p content s x (answer p sha q w (ack_current codec sha q r') s))
          (ack_reaction_more content s.offset more)
          (reaction p sha q w laws content m describes same_id s r r' step at h'.within) in
      let (sending, keeps, at', sent) = react in
      let positive : 0 < length payload = ground (arith, more) in
      record {
        receiver = r';
        reply = record {
          to = s.remote_endpoint;
          bytes = packet_bytes p s.transfer_metadata content o';
        };
        round =
            receive_round-chunk codec sha q d.bytes
              (record { transfer_id = m.id; offset = s.offset; payload = payload }) r
              (parsed p sha q w laws content m describes same_id s r d step same
                ∙ ap some (packet_for_more m s.offset payload more))
              same_id (sym step.together);
        replies = sent;
        step = record {
          running = keeps.running;
          sending = sending;
          metadata = keeps.metadata ∙ step.metadata;
          prefix = h';
          together = at ∙ sym at';
        };
        same =
            ap (λ t. packet_bytes p t content o') step.metadata
            ∙ ap (λ o. packet_bytes p m content o) (sym at');
        grows = omega (arith, at', positive);
      }

  pub exchange-Completes :
      (fuel : ℕ) (s : Session) (r : Receiver) (d : Datagram)
      → InStep p content m s r
      → PacketOf p content m s d
      → length content - s.offset < fuel
      → Completes p sha q w content (exchange p sha q w fuel s r (d ∷ []))
  unfolding exchange
  exchange-Completes zero s r d step same enough = elim enough [ ]
  exchange-Completes (suc fuel) s r d step same enough =
      elim (Bool-cases (length (piece content s.offset) == 0)) [
        | inl last ↦ finish fuel s r d step same last
        | inr more ↦
            let a = advance s r d step same more in
            let s' = (answer p sha q w (ack_current codec sha q a.receiver) s).0 in
            let rest =
              exchange-Completes fuel s' a.receiver a.reply a.step a.same
                (omega (arith, a.grows, enough, a.step.prefix.within, a.step.together)) in
            rw a.round (
              subst (λ ds. Completes p sha q w content (exchange p sha q w fuel s' a.receiver ds))
                (sym a.replies) rest)
      ]
