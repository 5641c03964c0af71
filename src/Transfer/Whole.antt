-- ===== src/Transfer/Whole.antt =====
-- A whole transfer, from the receiver's hello to the last byte: perform_handshake and receive_file of
-- cli_tool/src/client.cpp against the session of cli_tool/include/session.hpp.
use zapshare.Base.{
  ℕ, ◌+◌, ◌≤◌, ◌<◌, ◌≡◌, refl, false, Bytes, List, ◌∷◌, Option, some, length, returned, is_empty,
}
use zapshare.Client.Handshake.{connected, perform_handshake, send_all}
use zapshare.Client.Receive.{Event, received, Request, build_get_request}
use zapshare.Config.{Transfers, Endpoint, max_packet_size}
use zapshare.Crypto.Libsodium.{SodiumLaws}
use zapshare.Crypto.Working.{IsWorking, hello_keys}
use zapshare.FileHash.{Sha256, hash_content}
use zapshare.Platform.{Platform}
use zapshare.Protocol.{ClientHello}
use zapshare.Protocol.Codec.{CodecLaws, HandshakeLaws, IsText, handshake_overhead}
use zapshare.Session.{Session, waiting_hello}
use zapshare.Transfer.Exchange.{Completes}
use zapshare.Transfer.Exchange.Start.{IsStart, run, run-Completes}
use zapshare.Transfer.Hello.{hello_bytes, greeted, Greets, perform_handshake-connects}
use zapshare.Transfer.Packets.{DescribesFile}
use zapshare.Utils.Metadata.{get_transfer_metadata}

module _ (p : Platform) (sha : Sha256) where
  open p use {World, sodium, http, json, codec, read_file}

  -- What run_client_session asks for behind the handshake.
  abbrev pub request_for : Endpoint → Bytes → Transfers → Request
  request_for sender token t = record {
    peer = sender;
    transfer_id = token;
    expected_hash = t.file_hash;
    get_bytes = build_get_request codec sha token;
  }

  -- From the hello to the last byte, for a receiver at `receiver` and a session `s` at `sender`.
  pub record IsWhole (content token : Bytes) (s : Session) (receiver sender : Endpoint)
      (t : Transfers) (w wc : World) (peers : List Endpoint) (es : List Event)
      (stale : Option Bytes) (fuel : ℕ) : Type 0 where
    pub hello : ClientHello
    pub greets : Greets p s receiver t hello w
    pub after : World
    pub connects :
        perform_handshake p peers token (received sender greets.reply.bytes ∷ es) wc
        ≡ returned (connected sender, send_all (hello_bytes p hello) peers, es, after)
    pub completes :
        Completes p sha
          (request_for sender token t)
          greets.after
          content
          (run p sha (request_for sender token t) greets.after fuel (greeted p s receiver t) stale)

  module _ (laws : SodiumLaws sodium) (works : IsWorking sodium) (hellos : HandshakeLaws codec)
      (packets : CodecLaws codec) (token content : Bytes) (text : IsText token)
      (there : is_empty token ≡ false)
      (room : length token + (length token + hello_keys sodium) + handshake_overhead
        ≤ max_packet_size)
      (t : Transfers) (describes : DescribesFile t content) (same_id : t.id ≡ token)
      (hash : hash_content sha content ≡ t.file_hash) where
    -- Where libsodium works, protobuf reads what it wrote and the ids leave room in a packet, a
    -- whole transfer succeeds over a network that loses nothing: the receiver makes a hello for its
    -- token; the session that waits answers it with one datagram and is authenticated with the
    -- metadata of the central server; the receiver, whose next event is that answer, is connected;
    -- and its get request and all that follows end with success for the receiver, with the whole
    -- file on its side and the session closed. The token is ASCII and not empty, and is the
    -- metadata's id; the metadata describes the file and has its hash; the file does not change;
    -- and the two sides may take one round more than the file has bytes.
    pub perform_handshake-IsWhole :
        (s : Session) (receiver sender : Endpoint) (w wc : World) (peers : List Endpoint)
        (es : List Event) (stale : Option Bytes) (fuel : ℕ)
        → s.state ≡ waiting_hello
        → s.offset ≡ 0
        → ((v : World) → read_file s.file_path v ≡ some content)
        → (get_transfer_metadata json http token w).0 ≡ returned t
        → length content < fuel
        → IsWhole content token s receiver sender t w wc peers es stale fuel
    perform_handshake-IsWhole s receiver sender w wc peers es stale fuel waiting at_front file known
          enough =
        let (hello, wc', g, connects) =
          perform_handshake-connects p laws works hellos token text there room s receiver sender t w
            wc peers es waiting known in
        let start : IsStart p content t (greeted p s receiver t) = record {
          waiting = refl;
          at_front = at_front;
          metadata = refl;
          file = file;
        } in
        record {
          hello = hello;
          greets = g;
          after = wc';
          connects = connects;
          completes =
              run-Completes p sha (request_for sender token t) g.after packets content t describes
                same_id hash (greeted p s receiver t) stale fuel start enough;
        }
