-- ===== src/Tests/Transfers.antt =====
-- The theorems of the transfer at one small file.
use zapshare.Base.{
  All, Has, first, later, bytes_eq, ◌≤◌, ◌≡◌, refl, true, codes, List, [], ◌∷◌, none, some, length,
  take, arith, replicate, returned,
}
use zapshare.Config.{Datagram, max_packet_size}
use zapshare.FileHash.{compute_file_hash, to_hex}
use zapshare.FileHash.Correct.{compute_file_hash_lem}
use zapshare.FileHash
use zapshare.Protocol.{Ack}
use zapshare.Session.{send_message, Session, new_session, transferring}
use zapshare.Session.Stream.{open_stream, seekg, read}
use zapshare.Session.Stream.Reads.{IsReadyAt}
use zapshare.Session.Control.{
  handle_ack, handle_control_packet, control_body, handle_get_request, get_in_state, with_file_id,
  start_transfer, send_next_chunk, send_read, send_data, send_done, ack_in_state, ack_in_transfer,
  ack_compare,
}
use zapshare.Session.Control.Chunk.{sent_at, sent_at-IsSending}
use zapshare.Session.Control.Refines.{Reacts, ack_reaction, handle_ack-refines}
use zapshare.Session.Control.Invariant.{IsSafe, handle_control_packet-IsSafe}
use zapshare.Client.Output.{open_output, write_at, overwrite, read_back}
use zapshare.Client.Receive.{
  receive_round, packet_round, handle_data, handle_done, check_hash, take_payload, ack_current,
  send_ack, Event, received, timeout, receive_loop,
}
use zapshare.Client.Receive.Safety.{LoopSafe, receive_loop-LoopSafe, IsComplete}
use zapshare.Client.Receive.Timeouts.{GivesUp, receive_loop-GivesUp}
use zapshare.Transfer.{
  System, Reach, here, step, session_gets, receiver_gets, to_session, Round, next, end,
}
use zapshare.Transfer.Packets.{handle_control_packet-fits}
use zapshare.Transfer.Safety.{start_system, transfer-prefix, transfer-IsComplete}
use zapshare.Transfer.Exchange.{Completes}
use zapshare.Transfer.Exchange.Start.{
  IsStart, run, run-Completes, start_receiver, start_receiver-HasPrefix,
}
use zapshare.Tests.Wire.{wire-laws}
use zapshare.Tests.Inputs.{metadata, request, opened, describes, received_all}
use zapshare.Tests.World.{platform, sha, sha-laws, file_bytes, sender, receiver}

opened-IsStart : IsStart platform file_bytes metadata opened
unfolding new_session
opened-IsStart = record { waiting = refl; at_front = refl; metadata = refl; file = λ w. refl }

file_hash : FileHash.hash_content sha file_bytes ≡ request.expected_hash
unfolding FileHash.hash_content FileHash.to_hex
file_hash = refl

run-Completes_example :
    Completes platform sha request tt file_bytes (run platform sha request tt 20 opened none)
run-Completes_example =
    run-Completes platform sha request tt wire-laws file_bytes metadata describes refl file_hash
      opened none 20 opened-IsStart (omega arith)

-- The first step of a run: the get request reaches the session.
abbrev after_get : System
after_get = to_session platform sha request (start_system opened none) request.get_bytes tt

first_step : Reach platform sha request (start_system opened none) after_get
first_step = step here (session_gets request.get_bytes tt)

transfer-prefix_example :
    (after_get.receiver.current_offset ≤ 12)
    × (after_get.receiver.out.content ≡ take after_get.receiver.current_offset file_bytes)
transfer-prefix_example =
    transfer-prefix platform sha request file_bytes metadata wire-laws describes opened none
      opened-IsStart first_step

-- The chunk that the session answers with, and the done packet behind its acknowledgement.
abbrev chunk_datagram : Datagram
chunk_datagram = record { to = receiver; bytes = 2 ∷ 0 ∷ 2 ∷ codes "7fhello, world" }

abbrev done_datagram : Datagram
done_datagram = record { to = receiver; bytes = 3 ∷ 12 ∷ 2 ∷ codes "7f68656c6c6f2c20776f726c64" }

abbrev after_chunk : System
after_chunk = record after_get { receiver = received_all }

abbrev after_ack : System
after_ack = to_session platform sha request after_chunk (1 ∷ 12 ∷ codes "7f") tt

abbrev at_end : System
at_end = record after_ack { receiver = received_all; result = some true }

chunk_round :
    Round platform sha request after_get (received sender chunk_datagram.bytes) after_chunk
unfolding receive_round packet_round handle_data take_payload write_at overwrite open_output
    bytes_eq ack_current send_ack
chunk_round = next received_all _ refl

chunk_sent : Has chunk_datagram after_get.sent
unfolding handle_control_packet control_body handle_get_request get_in_state with_file_id
    start_transfer send_next_chunk send_read send_data send_message seekg read open_stream
    new_session
chunk_sent = first

done_round : Round platform sha request after_ack (received sender done_datagram.bytes) at_end
unfolding receive_round packet_round handle_done check_hash read_back compute_file_hash
    FileHash.hash_content FileHash.to_hex bytes_eq ack_current send_ack
done_round = end true received_all _ refl

done_sent : Has done_datagram after_ack.sent
unfolding handle_control_packet control_body handle_get_request get_in_state with_file_id
    start_transfer send_next_chunk send_read send_data send_done send_message seekg read open_stream
    new_session handle_ack ack_in_state ack_in_transfer ack_compare
done_sent = later first

whole_run : Reach platform sha request (start_system opened none) at_end
whole_run =
    step
      (step (step first_step (receiver_gets chunk_datagram refl chunk_sent chunk_round))
        (session_gets (1 ∷ 12 ∷ codes "7f") tt))
      (receiver_gets done_datagram refl done_sent done_round)

transfer-IsComplete_example : IsComplete sha request.expected_hash file_bytes received_all
transfer-IsComplete_example =
    transfer-IsComplete platform sha request file_bytes metadata wire-laws describes opened none
      opened-IsStart whole_run refl

abbrev sending : Session
sending = record (new_session receiver (codes "note.txt")) {
  state = transferring;
  file = open_stream (some file_bytes);
  transfer_metadata = metadata;
}

sending-IsReadyAt : IsReadyAt file_bytes sending.offset sending.file
unfolding new_session open_stream
sending-IsReadyAt = record { opened = refl; same = refl; within = omega arith; failed = λ e. cc }

abbrev first_sent : Session
first_sent = sent_at platform file_bytes sending

abbrev acknowledgement : Ack
acknowledgement = record { transfer_id = codes "7f"; next_offset = 12 }

handle_ack-refines_example :
    Reacts platform file_bytes first_sent
      (ack_reaction file_bytes first_sent.offset acknowledgement.next_offset)
      (handle_ack platform acknowledgement first_sent)
handle_ack-refines_example =
    handle_ack-refines platform wire-laws file_bytes first_sent acknowledgement (omega arith) refl
      (sent_at-IsSending platform file_bytes sending sending-IsReadyAt)

handle_control_packet-IsSafe_example :
    IsSafe platform file_bytes first_sent
      (handle_control_packet platform (1 ∷ 12 ∷ codes "7f") first_sent tt)
handle_control_packet-IsSafe_example =
    handle_control_packet-IsSafe platform file_bytes wire-laws (omega arith) first_sent
      (1 ∷ 12 ∷ codes "7f") tt refl
      (sent_at-IsSending platform file_bytes sending sending-IsReadyAt)

handle_control_packet-fits_example :
    All
      (λ d. length d.bytes ≤ max_packet_size)
      (handle_control_packet platform (1 ∷ 12 ∷ codes "7f") first_sent tt).1
handle_control_packet-fits_example =
    handle_control_packet-fits platform wire-laws file_bytes first_sent (1 ∷ 12 ∷ codes "7f") tt
      describes refl (sent_at-IsSending platform file_bytes sending sending-IsReadyAt)

-- The whole file in one chunk, and the done packet.
abbrev events : List Event
events =
    timeout
    ∷ received receiver (5 ∷ [])
    ∷ received sender (2 ∷ 0 ∷ 2 ∷ codes "7fhello, world")
    ∷ received sender (3 ∷ 12 ∷ 2 ∷ codes "7f68656c6c6f2c20776f726c64")
    ∷ []

receive_loop-LoopSafe_example :
    LoopSafe platform.codec sha request file_bytes
      (receive_loop platform.codec sha request events (start_receiver none))
receive_loop-LoopSafe_example =
    receive_loop-LoopSafe platform.codec sha request file_bytes events (start_receiver none)
      (omega arith) (tt, ((λ e. tt), ((λ e h. refl), ((λ e. refl), tt))))
      (start_receiver-HasPrefix file_bytes none)

receive_loop-GivesUp_example :
    GivesUp
      (start_receiver none)
      (receive_loop platform.codec sha request (replicate 20 timeout) (start_receiver none))
receive_loop-GivesUp_example =
    receive_loop-GivesUp platform.codec sha request 20 (start_receiver none) (omega arith)

compute_file_hash_lem_example :
    compute_file_hash sha (some file_bytes) ≡ returned (to_hex file_bytes)
compute_file_hash_lem_example = compute_file_hash_lem sha sha-laws file_bytes
