-- ===== src/Transfer/Exchange/Start.antt =====
-- A whole transfer from the receiver's get request on.
use zapshare.Base.{
  ℕ, ◌≤◌, ◌<◌, ◌≡◌, refl, sym, ap, subst, ◌∙◌, true, Bytes, [], ◌∷◌, Option, some, length, Outcome,
  arith, take_all, append-nil, Bool,
}
use zapshare.Config.{Transfers, Datagram, max_packet_size}
use zapshare.Platform.{Platform}
use zapshare.FileHash.{Sha256, hash_content}
use zapshare.Protocol.{GetRequest, get}
use zapshare.Protocol.Codec.{CodecLaws, IsText}
use zapshare.Session.{Session, authenticated, send_message}
use zapshare.Session.Control.{handle_get_request}
use zapshare.Session.Control.Chunk.{packet_bytes}
use zapshare.Session.Control.Refines.{Reacts, sends_at, handle_get_request-starts}
use zapshare.Session.Control.Dispatch.{handle_control_packet-get}
use zapshare.Client.Output.{open_output}
use zapshare.Client.Receive.{Request, Receiver, delivered, build_get_request}
use zapshare.Client.Receive.Prefix.{HasPrefix}
use zapshare.Client.Receive.Rounds.{endpoint_eq_refl}
use zapshare.Transfer.Exchange.{answer, exchange, Completes, InStep}
use zapshare.Transfer.Exchange.Lossless.{exchange-Completes}
use zapshare.Transfer.Packets.{DescribesFile}

-- The session behind an accepted hello: authenticated, nothing sent, the file still there.
pub record IsStart (p : Platform) (content : Bytes) (m : Transfers) (s : Session) : Type 0 where
  pub waiting : s.state ≡ authenticated
  pub at_front : s.offset ≡ 0
  pub metadata : s.transfer_metadata ≡ m
  pub file : (w : p.World) → p.read_file s.file_path w ≡ some content

-- The variables of receive_file in front of its loop, on a new output file.
abbrev pub start_receiver : Option Bytes → Receiver
start_receiver stale = record { out = open_output true stale; current_offset = 0; retries = 0 }

pub start_receiver-HasPrefix :
    (content : Bytes) (stale : Option Bytes) → HasPrefix content (start_receiver stale)
unfolding open_output
start_receiver-HasPrefix content stale = record {
  opened = refl;
  within = omega arith;
  prefix = refl;
}

module _ (p : Platform) (sha : Sha256) (q : Request) (w : p.World) where
  abbrev pub get_datagram : Datagram
  get_datagram = record { to = q.peer; bytes = build_get_request p.codec sha q.transfer_id }

  -- The get request reaches the session, and the two sides answer one another.
  pub run : ℕ → Session → Option Bytes → Outcome (Option Bool × Session × Receiver)
  run fuel s stale =
      exchange p sha q w fuel (answer p sha q w (get_datagram ∷ []) s).0 (start_receiver stale)
        (answer p sha q w (get_datagram ∷ []) s).1

module _ (p : Platform) (sha : Sha256) (q : Request) (w : p.World) (laws : CodecLaws p.codec)
    (content : Bytes) (m : Transfers) (describes : DescribesFile m content)
    (same_id : m.id ≡ q.transfer_id) where
  open p use {codec}
  open q use {transfer_id}

  abbrev request : GetRequest
  request = record { transfer_id = transfer_id }

  get_parsed :
      codec.control_from_string (delivered (build_get_request codec sha transfer_id))
      ≡ some (get request)
  unfolding build_get_request
  get_parsed =
      let bytes = (codec.control_to_string (get request)).1 in
      let text = subst IsText same_id describes.text_id in
      let short : length bytes ≤ max_packet_size =
        omega
          (arith, laws.control_size (get request) text, ap length same_id, describes.short_id) in
      rw (take_all max_packet_size bytes short) (laws.control_round_trip (get request) text)

  answer-get :
      (s : Session)
      → answer p sha q w (get_datagram p sha q w ∷ []) s ≡ handle_get_request p request s w
  unfolding answer
  answer-get s = rw (
    endpoint_eq_refl q.peer,
    handle_control_packet-get p _ s w request get_parsed,
    append-nil (handle_get_request p request s w).1,
  )

  start :
      (s : Session)
      → IsStart p content m s
      → Reacts p content s (sends_at 0) (answer p sha q w (get_datagram p sha q w ∷ []) s)
  start s b =
      rw (answer-get s)
        (handle_get_request-starts p content request s w b.waiting b.at_front (b.file w))

  -- Over a network that loses nothing, a transfer of any file below 2 ^ 64 bytes ends with success
  -- for the receiver, with the whole file on its side and the session closed, if the receiver asks
  -- for the metadata's id, the metadata has the file's size and a short ASCII id and hash, and the
  -- file's hash is the expected one; one round more than bytes is enough.
  pub run-Completes :
      hash_content sha content ≡ q.expected_hash
      → (s : Session) (stale : Option Bytes) (fuel : ℕ) → IsStart p content m s
      → length content < fuel
      → Completes p sha q w content (run p sha q w fuel s stale)
  unfolding run send_message
  run-Completes hash s stale fuel b enough =
      let (sending, keeps, at, sent) = start s b in
      let s' = (answer p sha q w (get_datagram p sha q w ∷ []) s).0 in
      let step : InStep p content m s' (start_receiver stale) = record {
        running = keeps.running;
        sending = sending;
        metadata = keeps.metadata ∙ b.metadata;
        prefix = start_receiver-HasPrefix content stale;
        together = sym at;
      } in
      let d : Datagram = record {
        to = s.remote_endpoint;
        bytes = packet_bytes p s.transfer_metadata content 0;
      } in
      let same : d.bytes ≡ packet_bytes p m content s'.offset =
        ap (λ t. packet_bytes p t content 0) b.metadata
        ∙ ap (λ o. packet_bytes p m content o) (sym at) in
      subst
        (λ ds. Completes p sha q w content (exchange p sha q w fuel s' (start_receiver stale) ds))
        (sym sent)
        (exchange-Completes p sha q w laws content m describes same_id hash fuel s'
          (start_receiver stale) d step same (omega (arith, at, enough)))
