-- ===== src/Transfer/Safety.antt =====
-- What no network and no third party can break.
use zapshare.Base.{
  take, ◌≤◌, ◌≡◌, sym, subst, ◌∙◌, Bool, true, false, Bytes, [], Option, none, some, length, All,
  All-append, All-Has,
}
use zapshare.Config.{Transfers, Datagram}
use zapshare.Platform.{Platform}
use zapshare.FileHash.{Sha256}
use zapshare.Protocol.Codec.{CodecLaws}
use zapshare.Session.{Session}
use zapshare.Session.Control.{handle_control_packet}
use zapshare.Session.Control.Invariant.{
  SessionInv, StateInv, IsFilePacket, handle_control_packet-IsSafe,
}
use zapshare.Client.Receive.{Event, received, timeout, Request, Receiver, finishes}
use zapshare.Client.Receive.Prefix.{HasPrefix}
use zapshare.Client.Receive.Safety.{IsComplete, Good, Ensures, IsHonest, receive_round-Safe}
use zapshare.Transfer.{
  System, Step, Round, Reach, next, end, here, step, session_gets, receiver_gets, receiver_hears,
  receiver_waits, to_session,
}
use zapshare.Transfer.Exchange.Start.{IsStart, start_receiver, start_receiver-HasPrefix}
use zapshare.Transfer.Packets.{DescribesFile, packet_bytes-IsOf}

abbrev pub start_system : Session → Option Bytes → System
start_system s stale = record {
  session = s;
  sent = [];
  receiver = start_receiver stale;
  result = none;
}

module _ (p : Platform) (sha : Sha256) (q : Request) (content : Bytes) (m : Transfers) where
  open p use {World, codec, read_file}

  abbrev ResultOk : Option Bool → Receiver → Type 0
  ResultOk none r = Unit
  ResultOk (some false) r = Unit
  ResultOk (some true) r = IsComplete sha q.expected_hash content r

  -- The invariant of the whole system.
  pub record SystemInv (t : System) : Type 0 where
    pub session : SessionInv p content t.session
    pub metadata : t.session.transfer_metadata ≡ m
    pub path : (w : World) → read_file t.session.file_path w ≡ some content
    pub sent : All (IsFilePacket p content m) t.sent
    pub receiver : HasPrefix content t.receiver
    pub result : ResultOk t.result t.receiver

  module _ (laws : CodecLaws codec) (describes : DescribesFile m content) where
    file_packet-IsHonest :
        (d : Datagram)
        → IsFilePacket p content m d
        → IsHonest codec sha q content (received q.peer d.bytes)
    file_packet-IsHonest d (o, within, same) _ =
        rw same (packet_bytes-IsOf p laws m content o describes within)

    with_receiver :
        {t : System} (o : Option Bool) (r : Receiver)
        → SystemInv t
        → HasPrefix content r
        → ResultOk o r
        → SystemInv (record t { receiver = r; result = o })
    with_receiver o r inv h ok = record {
      session = inv.session;
      metadata = inv.metadata;
      path = inv.path;
      sent = inv.sent;
      receiver = h;
      result = ok;
    }

    finished :
        {t : System} (b : Bool) (r : Receiver)
        → SystemInv t
        → Good sha q.expected_hash content (finishes b) r
        → SystemInv (record t { receiver = r; result = some b })
    finished true r inv (h, complete) = with_receiver (some true) r inv h complete
    finished false r inv h = with_receiver (some false) r inv h tt

    Round-SystemInv :
        {t u : System} (e : Event)
        → IsHonest codec sha q content e
        → t.result ≡ none
        → SystemInv t
        → Round p sha q t e u
        → SystemInv u
    Round-SystemInv {t} e honest running inv (next r acks returns) =
        let safe =
          receive_round-Safe codec sha q content e t.receiver describes.small honest inv.receiver in
        with_receiver t.result r inv
          (subst (Ensures (Good sha q.expected_hash content)) returns safe)
          (subst (λ o. ResultOk o r) (sym running) tt)
    Round-SystemInv {t} e honest running inv (end b r acks returns) =
        let safe =
          receive_round-Safe codec sha q content e t.receiver describes.small honest inv.receiver in
        finished b r inv (subst (Ensures (Good sha q.expected_hash content)) returns safe)

    session_gets-SystemInv :
        (t : System) (bytes : Bytes) (w : World)
        → SystemInv t
        → SystemInv (to_session p sha q t bytes w)
    session_gets-SystemInv t bytes w inv =
        let safe =
          handle_control_packet-IsSafe p content laws describes.small t.session bytes w (inv.path w)
            inv.session in
        record {
          session = safe.inv;
          metadata = safe.metadata ∙ inv.metadata;
          path = λ w'. subst (λ f. read_file f w' ≡ some content) (sym safe.path) (inv.path w');
          sent = All-append (IsFilePacket p content m) t.sent _ inv.sent (
              subst
                (λ n. All (IsFilePacket p content n) (handle_control_packet p bytes t.session w).1)
                inv.metadata safe.packets);
          receiver = inv.receiver;
          result = inv.result;
        }

    Step-SystemInv : {t u : System} → SystemInv t → Step p sha q t u → SystemInv u
    Step-SystemInv {t} inv (session_gets bytes w) = session_gets-SystemInv t bytes w inv
    Step-SystemInv inv (receiver_gets d running has round) =
        Round-SystemInv (received q.peer d.bytes)
          (file_packet-IsHonest d (All-Has (IsFilePacket p content m) has inv.sent)) running inv
          round
    Step-SystemInv inv (receiver_hears other bytes running strange round) =
        Round-SystemInv (received other bytes)
          (λ e. let contra : true ≡ false = sym e ∙ strange in absurd (cc)) running inv round
    Step-SystemInv inv (receiver_waits running round) = Round-SystemInv timeout tt running inv round

    Reach-SystemInv : {t u : System} → SystemInv t → Reach p sha q t u → SystemInv u
    Reach-SystemInv inv here = inv
    Reach-SystemInv inv (step r st) = Step-SystemInv (Reach-SystemInv inv r) st

    start-SystemInv :
        (s : Session) (stale : Option Bytes)
        → IsStart p content m s
        → SystemInv (start_system s stale)
    start-SystemInv s stale b = record {
      session = subst (λ st. StateInv p content st s) (sym b.waiting) b.at_front;
      metadata = b.metadata;
      path = b.file;
      sent = tt;
      receiver = start_receiver-HasPrefix content stale;
      result = tt;
    }

    -- Whatever the network loses, repeats or reorders and whatever others send to the session, at
    -- any time the receiver's file is the front of the sender's file, of the length received.
    pub transfer-prefix :
        (s : Session) (stale : Option Bytes) {u : System}
        → IsStart p content m s
        → Reach p sha q (start_system s stale) u
        → (u.receiver.current_offset ≤ length content)
          × (u.receiver.out.content ≡ take u.receiver.current_offset content)
    transfer-prefix s stale b r =
        let inv = Reach-SystemInv (start-SystemInv s stale b) r in
        (inv.receiver.within, inv.receiver.prefix)

    -- Whatever the network loses, repeats or reorders and whatever others send to the session, a
    -- receiver that reports success has the whole file of the sender, and its hash is the one that
    -- was expected; the session starts authenticated at offset 0 with metadata that describes the
    -- file.
    pub transfer-IsComplete :
        (s : Session) (stale : Option Bytes) {u : System}
        → IsStart p content m s
        → Reach p sha q (start_system s stale) u
        → u.result ≡ some true
        → IsComplete sha q.expected_hash content u.receiver
    transfer-IsComplete s stale {u} b r success =
        let inv = Reach-SystemInv (start-SystemInv s stale b) r in
        subst (λ o. ResultOk o u.receiver) success inv.result
