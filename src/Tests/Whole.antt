-- ===== src/Tests/Whole.antt =====
-- A whole transfer of a file of seven bytes, from the hello on.
use zapshare.Base.{
  ◌+◌, ◌^◌, ◌<◌, thrown, length, ℕ, ◌≡◌, refl, Bytes, codes, [], ◌∷◌, none, some, arith, returned,
  aborted, ◌≢◌, sym, ◌∙◌, ◌++◌, List, Yields,
}
use zapshare.Client.Receive.{timeout}
use zapshare.CommandLine.Sender.{Arrival, arrived, reset, failed, run, new_server}
use zapshare.CommandLine.Sender.Runs.{RunServed, run-RunServed}
use zapshare.Utils.PublicAddress.{Net}
use zapshare.Config.{Transfers, Datagram}
use zapshare.FileHash.{hash_content, to_hex}
use zapshare.Platform.{Platform}
use zapshare.Session.{Session, new_session, waiting_hello}
use zapshare.Session.Handshake.{handle_handshake_packet}
use zapshare.Session.Handshake.Answers.{handle_handshake_packet-returns}
use zapshare.Protocol.{ClientHello, version_1}
use zapshare.Session.Handshake.Unverified.{handle_handshake_packet-ignores_signature}
use zapshare.Session.Handshake.Verdicts.{Obeys, judge}
use zapshare.Transfer.Packets.{DescribesFile}
use zapshare.Transfer.Whole.{IsWhole, perform_handshake-IsWhole}
use zapshare.Utils.Libraries.{Http}
use zapshare.Utils.Metadata.{get_transfer_metadata}
use zapshare.Utils.Text.{find}
use zapshare.Tests.Greetings.{greeting_wire, greeting_wire-laws, greeting_wire-control}
use zapshare.Tests.Sealing.{toy_sodium, toy_sodium-laws, toy_sodium-IsWorking}
use zapshare.Tests.World.{plain_json, sha, sender, receiver}

abbrev content : Bytes
content = codes "zzzzzzz"

-- The token, and what every text of the metadata is: the file's hash.
abbrev token : Bytes
token = codes "7a7a7a7a7a7a7a"

abbrev http : Http ℕ
http = record {
  http_get = λ path w. (some (record { status = 200; body = token }), w);
  http_post = λ path body w. (some (record { status = 201; body = [] }), w);
}

abbrev greeting_platform : Platform
greeting_platform = record {
  World = ℕ;
  sodium = toy_sodium;
  http = http;
  json = plain_json;
  codec = greeting_wire;
  read_file = λ path w. some content;
}

abbrev metadata : Transfers
metadata = record {
  id = token;
  sender_ip = token;
  sender_port = 7;
  sender_local_ip = [];
  sender_local_port = 0;
  protocol = token;
  file_name = token;
  file_size = 7;
  file_hash = token;
  token = token;
}

describes : DescribesFile metadata content
describes = record {
  file_size = refl;
  small = omega arith;
  short_id = omega arith;
  short_hash = omega arith;
  text_id = omega arith;
  text_hash = omega arith;
}

hash : hash_content sha content ≡ metadata.file_hash
unfolding hash_content to_hex
hash = refl

abbrev fresh : Session
fresh = new_session receiver (codes "note.txt")

fresh_lem : (fresh.state ≡ waiting_hello) × (fresh.offset ≡ 0)
unfolding new_session
fresh_lem = (refl, refl)

known : (get_transfer_metadata plain_json http token 3).0 ≡ returned metadata
unfolding get_transfer_metadata find
known = refl

perform_handshake-IsWhole_example :
    IsWhole greeting_platform sha content token fresh receiver sender metadata 3 5
      (sender ∷ [])
      (timeout ∷ [])
      none
      8
perform_handshake-IsWhole_example =
    perform_handshake-IsWhole greeting_platform sha toy_sodium-laws toy_sodium-IsWorking
      greeting_wire-laws greeting_wire-control token content (omega arith) refl (omega arith)
      metadata describes refl hash fresh receiver sender 3 5 (sender ∷ []) (timeout ∷ []) none 8
      fresh_lem.0 fresh_lem.1 (λ v. refl) known (omega arith)

known_all :
    (secret : Bytes) → (get_transfer_metadata plain_json http secret 3).0 ≡ returned metadata
unfolding get_transfer_metadata find
known_all secret = refl

never_aborted : (secret : Bytes) → (get_transfer_metadata plain_json http secret 3).0 ≢ aborted
never_aborted secret e = let both = sym (known_all secret) ∙ e in absurd (cc)

-- A hello with nothing but a token.
abbrev hello_bytes : Bytes
hello_bytes = 0 ∷ 1 ∷ 0 ∷ 2 ∷ codes "k7" ++ (0 ∷ 0 ∷ 0 ∷ [])

handle_handshake_packet-returns_example :
    (r : Session × List Datagram × ℕ) × (handle_handshake_packet greeting_platform hello_bytes fresh
        3
      ≡ returned r)
    × Obeys greeting_platform fresh
        (judge
          (greeting_wire.handshake_from_string hello_bytes)
          λ secret. (get_transfer_metadata plain_json http secret 3).0)
        r
handle_handshake_packet-returns_example =
    handle_handshake_packet-returns greeting_platform toy_sodium-laws toy_sodium-IsWorking fresh 3
      hello_bytes (λ hello e. never_aborted hello.token)

-- A hello, a get request, and somebody's bytes.
abbrev arrivals : List Arrival
arrivals =
    arrived receiver hello_bytes
    ∷ reset
    ∷ arrived receiver (0 ∷ token)
    ∷ arrived sender (9 ∷ 9 ∷ [])
    ∷ failed
    ∷ []

small : length content < 2 ^ 64
small = omega arith

abbrev net : Net ℕ
net = record {
  rand = λ w. (300, w + 1);
  stun_exchange = λ host port request w. (thrown, w);
  local_port = λ w. 5173;
  local_address_towards = λ host port w. returned (codes "10.0.0.2");
  make_address = returned;
}

run-RunServed_example :
    Yields
      (RunServed greeting_platform content greeting_wire-control small net arrivals)
      (run greeting_platform net (new_server (codes "note.txt")) token arrivals 3)
run-RunServed_example =
    run-RunServed greeting_platform content greeting_wire-control small net arrivals
      (new_server (codes "note.txt")) token 3 (λ v. refl)

-- The same hello with another nonce and a signature.
abbrev signed_bytes : Bytes
signed_bytes = 0 ∷ 1 ∷ 0 ∷ 2 ∷ codes "k7" ++ (1 ∷ 5 ∷ 0 ∷ 0 ∷ 7 ∷ [])

abbrev bare_hello : ClientHello
bare_hello = record {
  version = version_1;
  transfer_id = [];
  token = codes "k7";
  receiver_nonce = [];
  receiver_identity = record { long_term_public_key = []; ephemeral_public_key = [] };
  receiver_signature = [];
}

handle_handshake_packet-ignores_signature_example :
    handle_handshake_packet greeting_platform hello_bytes fresh 3
    ≡ handle_handshake_packet greeting_platform signed_bytes fresh 3
handle_handshake_packet-ignores_signature_example =
    handle_handshake_packet-ignores_signature greeting_platform hello_bytes signed_bytes bare_hello
      (5 ∷ []) (7 ∷ []) (record { long_term_public_key = []; ephemeral_public_key = [] }) fresh 3
      refl refl
