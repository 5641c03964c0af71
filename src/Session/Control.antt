-- ===== src/Session/Control.antt =====
-- The control packets of cli_tool/include/session.hpp: get requests, acknowledgements, and the chunks
-- that they make the session send.
pub mod Chunk
pub mod Refines
pub mod Invariant
pub mod Dispatch
use zapshare.Base.{
  ℕ, ◌+◌, ◌%◌, Bool, true, false, not, Bytes, codes, List, [], Option, none, some, length, is_empty,
  ◌==◌, if◌then◌else◌,
}
use zapshare.Config.{Datagram, payload_size, size_modulus}
use zapshare.Platform.{Platform}
use zapshare.Protocol.{
  transfer_not_found, GetRequest, Ack, ControlPacket, get, ack, chunk, done, transfer_error,
  no_control_body,
}
use zapshare.Session.{
  Session, State, waiting_hello, authenticated, transferring, closed, send_message,
  send_control_error,
}
use zapshare.Session.Stream.{Stream, open_stream, seekg, read}

module _ (p : Platform) where
  open p use {World, codec, read_file}

  abbrev done_packet : Session → ControlPacket
  done_packet s = done (record {
    transfer_id = s.transfer_metadata.id;
    final_size = s.transfer_metadata.file_size;
    file_hash = s.transfer_metadata.file_hash;
  })

  abbrev data_packet : Session → Bytes → ControlPacket
  data_packet s payload =
      chunk (record { transfer_id = s.transfer_metadata.id; offset = s.offset; payload = payload })

  -- The two ways on from the read: nothing was read, or a payload.
  unfoldable pub send_done : Session → Session × List Datagram
  send_done s =
      let bytes = (codec.control_to_string (done_packet s)).1 in
      (
        record s { last_packet_cache = bytes; last_chunk_done = true; last_chunk_size = 0 },
        send_message p s bytes,
      )

  unfoldable pub send_data : Session → Bytes → Session × List Datagram
  send_data s payload =
      let bytes = (codec.control_to_string (data_packet s payload)).1 in
      (
        record s {
          last_chunk_size = length payload;
          last_chunk_done = false;
          last_packet_cache = bytes;
        },
        send_message p s bytes,
      )

  unfoldable pub send_read : Session → Bytes → Session × List Datagram
  unfolding send_done send_data
  send_read s payload = if length payload == 0 then send_done s else send_data s payload

  unfoldable pub send_next_chunk : Session → Session × List Datagram
  unfolding send_read
  send_next_chunk s =
      let (payload, file) = read payload_size (seekg s.offset s.file) in
      if not s.file.is_open then (s, []) else send_read (record s { file = file }) payload

  unfoldable pub resend_current_chunk : Session → Session × List Datagram
  resend_current_chunk s =
      if is_empty s.last_packet_cache
      then send_next_chunk s
      else (s, send_message p s s.last_packet_cache)

  -- The request in the state `Authenticated`: `m_file` is opened anew.
  unfoldable pub start_transfer : Session → Stream → Bytes → Session × List Datagram
  start_transfer s file transfer_id =
      if not file.is_open
      then (
        record s { file = file; state = closed },
        send_control_error p s transfer_id transfer_not_found (codes "Failed to open file"),
      )
      else send_next_chunk (record s { file = file; state = transferring })

  unfoldable pub with_file_id : Session → Session
  with_file_id s = record s {
    file_id =
        if is_empty s.transfer_metadata.id
        then s.transfer_metadata.file_name
        else s.transfer_metadata.id;
  }

  unfoldable pub get_in_state : State → GetRequest → Session → World → Session × List Datagram
  get_in_state authenticated request s w =
      start_transfer (with_file_id s) (open_stream (read_file s.file_path w)) request.transfer_id
  get_in_state transferring request s w = resend_current_chunk s
  get_in_state waiting_hello request s w = (s, [])
  get_in_state closed request s w = (s, [])

  unfoldable pub handle_get_request : GetRequest → Session → World → Session × List Datagram
  unfolding get_in_state
  handle_get_request request s w = get_in_state s.state request s w

  -- The acknowledgement in the state `Transferring`: whether the final packet is out, the offset
  -- behind the last packet, and the acknowledged offset.
  unfoldable pub ack_compare : Bool → ℕ → ℕ → Session → Session × List Datagram
  ack_compare last_chunk_done expected_offset ack_offset s =
      if ack_offset == expected_offset
      then (if last_chunk_done
          then (record s { state = closed }, [])
          else send_next_chunk (record s { offset = expected_offset }))
      else if ack_offset == s.offset
      then resend_current_chunk s
      else (s, [])

  unfoldable pub ack_in_transfer : ℕ → Session → Session × List Datagram
  ack_in_transfer ack_offset s =
      ack_compare s.last_chunk_done ((s.offset + s.last_chunk_size) % size_modulus) ack_offset s

  unfoldable pub ack_in_state : State → Ack → Session → Session × List Datagram
  unfolding ack_in_transfer
  ack_in_state transferring a s = ack_in_transfer a.next_offset s
  ack_in_state waiting_hello a s = (s, [])
  ack_in_state authenticated a s = (s, [])
  ack_in_state closed a s = (s, [])

  unfoldable pub handle_ack : Ack → Session → Session × List Datagram
  unfolding ack_in_state
  handle_ack a s = ack_in_state s.state a s

  unfoldable pub control_body : Option ControlPacket → Session → World → Session × List Datagram
  unfolding handle_get_request handle_ack
  control_body none s w = (s, [])
  control_body (some (get request)) s w = handle_get_request request s w
  control_body (some (ack a)) s w = handle_ack a s
  control_body (some (transfer_error e)) s w = (record s { state = closed }, [])
  control_body (some (chunk c)) s w = (s, [])
  control_body (some (done d)) s w = (s, [])
  control_body (some no_control_body) s w = (s, [])

  unfoldable pub handle_control_packet : Bytes → Session → World → Session × List Datagram
  unfolding control_body
  handle_control_packet bytes s w = control_body (codec.control_from_string bytes) s w
