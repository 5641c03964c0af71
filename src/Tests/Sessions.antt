-- ===== src/Tests/Sessions.antt =====
-- The handshake at an accepted hello, and the loss of the done packet.
use zapshare.Base.{◌≡◌, refl, Bytes, codes, List, [], ◌∷◌, replicate, some, returned, arith}
use zapshare.Config.{Datagram}
use zapshare.Crypto.{generate_identity_keypair, generate_ephemeral_keypair, random_nonce, sign}
use zapshare.Session.{
  Session, new_session, waiting_hello, authenticated, transferring, send_handshake_packet,
}
use zapshare.Session.Handshake.{handle_handshake_packet}
use zapshare.Session.Handshake.Authenticates.{Accepts, handle_handshake_packet-Accepts}
use zapshare.CommandLine.Sender.{arrived, reset, failed, do_receive}
use zapshare.CommandLine.Sender.Stops.{do_receive-stops}
use zapshare.Session.Control.{handle_control_packet, ack_compare}
use zapshare.Protocol.{ack}
use zapshare.Session.{closed}
use zapshare.Session.Packets.{handle_packet}
use zapshare.Session.Packets.Senders.{handle_packet-ignores_sender}
use zapshare.Session.Stream.{open_stream}
use zapshare.Session.Stream.Reads.{IsReadyAt}
use zapshare.Session.Control.Chunk.{sent_at, sent_at-IsSending}
use zapshare.Client.Receive.{receive_loop, timeout_round, timeout}
use zapshare.Client.Receive.Timeouts.{GivesUp}
use zapshare.Transfer.Exchange.{answer, InStep}
use zapshare.Transfer.Exchange.LostDone.{lost_done-fails}
use zapshare.Tests.Wire.{wire-laws}
use zapshare.Tests.Inputs.{metadata, request, received_all, describes}
use zapshare.Utils.Metadata.{get_transfer_metadata}
use zapshare.Utils.Text.{find}
use zapshare.Tests.World.{platform, sha, file_bytes, sender, receiver, plain_metadata}

abbrev waiting : Session
waiting = new_session receiver (codes "note.txt")

abbrev accepted : Session
accepted = record waiting { state = authenticated; transfer_metadata = plain_metadata }

waiting_state : waiting.state ≡ waiting_hello
unfolding new_session
waiting_state = refl

hello_accepted :
    (sent : List Datagram) × (handle_handshake_packet platform (9 ∷ codes "abc") waiting tt
      ≡ returned (accepted, sent, tt))
unfolding handle_handshake_packet generate_identity_keypair generate_ephemeral_keypair random_nonce
    sign get_transfer_metadata find send_handshake_packet
hello_accepted = (_, refl)

handle_handshake_packet-Accepts_example : Accepts platform (9 ∷ codes "abc") waiting accepted tt
handle_handshake_packet-Accepts_example =
    handle_handshake_packet-Accepts platform (9 ∷ codes "abc") waiting accepted hello_accepted.0 tt
      tt waiting_state hello_accepted.1 refl

-- The receiver has the whole file, and the session's done packet is lost.
abbrev all_sent : Session
all_sent = record (new_session receiver (codes "note.txt")) {
  state = transferring;
  file = open_stream (some file_bytes);
  offset = 12;
  transfer_metadata = metadata;
}

all_sent-IsReadyAt : IsReadyAt file_bytes all_sent.offset all_sent.file
unfolding open_stream
all_sent-IsReadyAt = record { opened = refl; same = refl; within = omega arith; failed = λ e. cc }

abbrev done_sent : Session
done_sent = sent_at platform file_bytes all_sent

done_sent-InStep : InStep platform file_bytes metadata done_sent received_all
done_sent-InStep = record {
  running = refl;
  sending = sent_at-IsSending platform file_bytes all_sent all_sent-IsReadyAt;
  metadata = refl;
  prefix = record { opened = refl; within = omega arith; prefix = refl };
  together = refl;
}

lost_done-fails_example :
    let reply =
      answer platform sha request tt
        (timeout_round platform.codec sha request received_all).1
        done_sent in
    (reply.0.state ≡ closed)
    × (reply.1 ≡ [])
    × GivesUp received_all
        (receive_loop platform.codec sha request (replicate 20 timeout) received_all)
lost_done-fails_example =
    lost_done-fails platform sha request tt wire-laws file_bytes metadata describes refl done_sent
      received_all done_sent-InStep refl (omega arith)

-- The last acknowledgement, from the peer or from another.
abbrev last_ack : Bytes
last_ack =
    (platform.codec.control_to_string
      (ack (record { transfer_id = metadata.id; next_offset = 12 }))).1

handle_packet-ignores_sender_example :
    handle_packet platform last_ack sender done_sent tt
    ≡ handle_packet platform last_ack receiver done_sent tt
handle_packet-ignores_sender_example =
    handle_packet-ignores_sender platform last_ack sender receiver done_sent tt (λ e. cc)

abbrev at_end : Session
at_end = record done_sent { state = closed }

acknowledged :
    do_receive platform (reset ∷ arrived sender last_ack ∷ []) done_sent tt
    ≡ returned (at_end, [], tt)
unfolding do_receive handle_packet handle_control_packet ack_compare
acknowledged = refl

do_receive-stops_example :
    do_receive platform
      (reset ∷ arrived sender last_ack ∷ arrived sender last_ack ∷ failed ∷ [])
      done_sent
      tt
    ≡ returned (at_end, [], tt)
do_receive-stops_example =
    do_receive-stops platform (reset ∷ arrived sender last_ack ∷ [])
      (arrived sender last_ack ∷ failed ∷ []) done_sent at_end [] tt tt refl acknowledged
