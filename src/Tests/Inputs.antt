-- ===== src/Tests/Inputs.antt =====
-- One small file, its metadata and the two sides of its transfer.
use zapshare.Base.{refl, true, codes, [], ◌∷◌, none, arith}
use zapshare.Config.{Transfers}
use zapshare.Session.{Session, new_session, authenticated}
use zapshare.Client.Receive.{Request, Receiver}
use zapshare.Transfer.Packets.{DescribesFile}
use zapshare.Tests.World.{file_bytes, sender, receiver}

abbrev pub metadata : Transfers
metadata = record {
  id = codes "7f";
  sender_ip = codes "10.0.0.2";
  sender_port = 5173;
  sender_local_ip = [];
  sender_local_port = 0;
  protocol = codes "udp";
  file_name = codes "note.txt";
  file_size = 12;
  file_hash = codes "68656c6c6f2c20776f726c64";
  token = codes "7f";
}

abbrev pub request : Request
request = record {
  peer = sender;
  transfer_id = codes "7f";
  expected_hash = codes "68656c6c6f2c20776f726c64";
  get_bytes = 0 ∷ codes "7f";
}

abbrev pub opened : Session
opened = record (new_session receiver (codes "note.txt")) {
  state = authenticated;
  transfer_metadata = metadata;
}

pub describes : DescribesFile metadata file_bytes
describes = record {
  file_size = refl;
  small = omega arith;
  short_id = omega arith;
  short_hash = omega arith;
  text_id = omega arith;
  text_hash = omega arith;
}

-- The receiver with the whole file.
abbrev pub received_all : Receiver
received_all = record {
  out = record { opened = true; content = file_bytes; stale = none };
  current_offset = 12;
  retries = 0;
}
