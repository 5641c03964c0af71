-- ===== src/Client/Receive.antt =====
-- receive_file of cli_tool/src/client.cpp. What recv_with_timeout gives is the input: a list of
-- events, each a datagram with its sender or a timeout. Prints are left out.
pub mod Prefix
pub mod Safety
pub mod Rounds
pub mod Timeouts
pub mod Verified
use zapshare.Base.{
  ℕ, ◌+◌, ◌%◌, Bool, true, false, not, Bytes, List, [], ◌∷◌, ◌++◌, Option, none, some, length, take,
  Outcome, returned, and_then, bytes_eq, ltb, ◌==◌, if◌then◌else◌,
}
use zapshare.Config.{Endpoint, Datagram, endpoint_eq, max_packet_size, max_retries, size_modulus}
use zapshare.FileHash.{Sha256, compute_file_hash}
use zapshare.Protocol.{
  ControlPacket, get, ack, chunk, done, transfer_error, no_control_body, DataChunk, Done,
}
use zapshare.Protocol.Codec.{Codec}
use zapshare.Client.Output.{Output, write_at, read_back}

-- One call of recv_with_timeout: a datagram within the time, or none.
pub data Event : Type 0 where
  received : Endpoint → Bytes → Event
  timeout : Event

-- The buffer has `MAX_PACKET_SIZE` bytes: of a longer datagram the rest is lost.
abbrev pub delivered : Bytes → Bytes
delivered bytes = take max_packet_size bytes

-- The arguments of receive_file that stay the same.
pub record Request : Type 0 where
  pub peer : Endpoint
  pub transfer_id : Bytes
  pub expected_hash : Bytes
  pub get_bytes : Bytes

-- Its variables.
pub record Receiver : Type 0 where
  pub out : Output
  pub current_offset : ℕ
  pub retries : ℕ

pub data Progress : Type 0 where
  goes_on : Progress
  finishes : Bool → Progress

-- The progress, the variables and the datagrams sent; an exception ends the loop otherwise.
abbrev pub Round : Type 0
Round = Outcome (Progress × Receiver × List Datagram)

-- The chunk continues the file.
unfoldable pub take_payload : Bytes → Receiver → Receiver
take_payload payload r = record r {
  out = write_at r.current_offset payload r.out;
  current_offset = (r.current_offset + length payload) % size_modulus;
}

module _ (codec : Codec) (sha : Sha256) where
  unfoldable pub build_get_request : Bytes → Bytes
  build_get_request transfer_id =
      (codec.control_to_string (get (record { transfer_id = transfer_id }))).1

  -- The result `false` of send_ack, when nothing is sent, is not looked at.
  unfoldable pub send_ack : Endpoint → Bytes → ℕ → List Datagram
  send_ack peer transfer_id next_offset =
      let (fine, bytes) =
        codec.control_to_string
          (ack (record { transfer_id = transfer_id; next_offset = next_offset })) in
      if fine then record { to = peer; bytes = bytes } ∷ [] else []

  module _ (q : Request) where
    open q use {peer, transfer_id, expected_hash, get_bytes}

    unfoldable pub ack_current : Receiver → List Datagram
    ack_current r = send_ack peer transfer_id r.current_offset

    abbrev continue_with : Receiver → List Datagram → Round
    continue_with r sent = returned (goes_on, r, sent)

    unfoldable pub handle_data : DataChunk → Receiver → Round
    handle_data data' r =
        if not (bytes_eq data'.transfer_id transfer_id)
        then continue_with r []
        else if data'.offset == r.current_offset
        then (let r' = take_payload data'.payload r in continue_with r' (ack_current r'))
        else if ltb data'.offset r.current_offset
        then continue_with r (ack_current r)
        else continue_with r []

    -- Behind the checks of a done packet: the file is closed, hashed and compared.
    unfoldable pub check_hash : Receiver → Round
    check_hash r = and_then (compute_file_hash sha (read_back r.out)) λ file_hash.
        if not (bytes_eq file_hash expected_hash)
        then returned (finishes false, r, [])
        else returned (finishes true, r, ack_current r)

    unfoldable pub handle_done : Done → Receiver → Round
    handle_done done' r =
        if not (bytes_eq done'.transfer_id transfer_id)
        then continue_with r []
        else if not (r.current_offset == done'.final_size)
        then continue_with r []
        else check_hash r

    unfoldable pub packet_round : Option ControlPacket → Receiver → Round
    packet_round none r = continue_with r []
    packet_round (some (chunk c)) r = handle_data c r
    packet_round (some (done d)) r = handle_done d r
    packet_round (some (transfer_error e)) r = returned (finishes false, r, [])
    packet_round (some (get g)) r = continue_with r []
    packet_round (some (ack a)) r = continue_with r []
    packet_round (some no_control_body) r = continue_with r []

    -- Nothing came in time: the request or the last acknowledgement is repeated.
    pub timeout_round : Receiver → Receiver × List Datagram
    timeout_round r =
        let r' = record r { retries = r.retries + 1 } in
        if r.current_offset == 0
        then (r', record { to = peer; bytes = get_bytes } ∷ [])
        else (r', ack_current r)

    -- One round of the loop.
    unfoldable pub receive_round : Event → Receiver → Round
    receive_round timeout r = let (r', sent) = timeout_round r in continue_with r' sent
    receive_round (received sender bytes) r =
        if not (endpoint_eq sender peer)
        then continue_with r []
        else packet_round (codec.control_from_string (delivered bytes)) (record r { retries = 0 })

    -- What follows a round: the end, or the rest of the loop with its datagrams behind.
    abbrev pub after_round :
        Round
        → (Receiver → Outcome (Option Bool × Receiver × List Datagram))
        → Outcome (Option Bool × Receiver × List Datagram)
    after_round round rest = and_then round λ (progress, r', sent). elim progress [
      | finishes result ↦ returned (some result, r', sent)
      | goes_on ↦ and_then (rest r') λ (result, r'', later). returned (result, r'', sent ++ later)
    ]

    -- The loop over the events that come; `none` means that it still runs when they end.
    unfoldable pub receive_loop :
        List Event → Receiver → Outcome (Option Bool × Receiver × List Datagram)
    receive_loop [] r =
        if ltb r.retries max_retries then returned (none, r, []) else returned (some false, r, [])
    receive_loop (e ∷ es) r =
        let round = after_round (receive_round e r) (receive_loop es) in
        if ltb r.retries max_retries then round else returned (some false, r, [])

    -- The variables in front of the loop; the get request has been sent.
    unfoldable pub receive_file :
        Output → List Event → Outcome (Option Bool × Receiver × List Datagram)
    receive_file out es =
        and_then (receive_loop es (record { out = out; current_offset = 0; retries = 0 }))
          λ (result, r, sent). returned (result, r, record { to = peer; bytes = get_bytes } ∷ sent)
