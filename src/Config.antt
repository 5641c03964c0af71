-- ===== src/Config.antt =====
-- cli_tool/include/types.h: the transfer limits, the commands and the transfer's metadata.
use zapshare.Base.{ℕ, ◌-◌, Bytes, codes, [], Bool, bytes_eq, ◌&&◌, ◌==◌}

-- `size_t` has 64 bits.
abbrev pub size_modulus : ℕ
size_modulus = 0x10000000000000000

abbrev pub max_packet_size : ℕ
max_packet_size = 1400

abbrev pub header_size : ℕ
header_size = 128

abbrev pub payload_size : ℕ
payload_size = max_packet_size - header_size

abbrev pub retry_timeout_ms : ℕ
retry_timeout_ms = 200

abbrev pub max_retries : ℕ
max_retries = 20

abbrev pub send_command : Bytes
send_command = codes "send"

abbrev pub get_command : Bytes
get_command = codes "get"

pub record Transfers : Type 0 where
  pub id : Bytes
  pub sender_ip : Bytes
  pub sender_port : ℕ
  pub sender_local_ip : Bytes
  pub sender_local_port : ℕ
  pub protocol : Bytes
  pub file_name : Bytes
  pub file_size : ℕ
  pub file_hash : Bytes
  pub token : Bytes

-- `TRANSFERS t{}`: every string empty, every number zero.
abbrev pub no_transfers : Transfers
no_transfers = record {
  id = [];
  sender_ip = [];
  sender_port = 0;
  sender_local_ip = [];
  sender_local_port = 0;
  protocol = [];
  file_name = [];
  file_size = 0;
  file_hash = [];
  token = [];
}

-- A UDP endpoint: the address in its printed form, and the port.
pub record Endpoint : Type 0 where
  pub address : Bytes
  pub port : ℕ

-- `operator==` of two endpoints.
abbrev pub endpoint_eq : Endpoint → Endpoint → Bool
endpoint_eq a b = bytes_eq a.address b.address && (a.port == b.port)

pub record Datagram : Type 0 where
  pub to : Endpoint
  pub bytes : Bytes
