-- ===== src/Transfer.antt =====
-- A transfer after the handshake: the sender's session (cli_tool/include/session.hpp), the receiver's
-- loop (cli_tool/src/client.cpp) and the UDP network between them, which may lose, repeat, delay and
-- reorder datagrams, and on which anybody may send to either side.
pub mod Packets
pub mod Hello
pub mod Whole
pub mod Safety
pub mod Exchange
use zapshare.Base.{
  ℕ, Bool, true, false, Bytes, List, [], ◌++◌, Option, none, some, ◌≡◌, returned, Has,
}
use zapshare.Config.{Endpoint, Datagram, endpoint_eq}
use zapshare.Platform.{Platform}
use zapshare.FileHash.{Sha256}
use zapshare.Session.{Session}
use zapshare.Session.Control.{handle_control_packet}
use zapshare.Client.Receive.{
  Event, received, timeout, Request, Receiver, Progress, goes_on, finishes, receive_round,
}

-- `sent` is all that the session ever sent; any of it may reach the receiver, at any time and again.
pub record System : Type 0 where
  pub session : Session
  pub sent : List Datagram
  pub receiver : Receiver
  pub result : Option Bool

module _ (p : Platform) (sha : Sha256) (q : Request) where
  open p use {World, codec}
  open q use {peer}

  abbrev pub to_session : System → Bytes → World → System
  to_session t bytes w =
      let (session, sent) = handle_control_packet p bytes t.session w in
      record t { session = session; sent = t.sent ++ sent }

  -- What a round of the receiver does to the system; its own datagrams are among those that may
  -- reach the session, since any may.
  pub data Round (t : System) (e : Event) : System → Type 0 where
    next :
        (r : Receiver) (acks : List Datagram)
        → receive_round codec sha q e t.receiver ≡ returned (goes_on, r, acks)
        → Round t e (record t { receiver = r })
    end :
        (b : Bool) (r : Receiver) (acks : List Datagram)
        → receive_round codec sha q e t.receiver ≡ returned (finishes b, r, acks)
        → Round t e (record t { receiver = r; result = some b })

  pub data Step (t : System) : System → Type 0 where
    -- a datagram with any content, from the receiver or not, reaches the session
    session_gets : (bytes : Bytes) (w : World) → Step t (to_session t bytes w)
    -- a datagram of the session reaches the receiver
    receiver_gets :
        {u : System} (d : Datagram)
        → t.result ≡ none
        → Has d t.sent
        → Round t (received peer d.bytes) u
        → Step t u
    -- another one's datagram does
    receiver_hears :
        {u : System} (other : Endpoint) (bytes : Bytes)
        → t.result ≡ none
        → endpoint_eq other peer ≡ false
        → Round t (received other bytes) u
        → Step t u
    receiver_waits : {u : System} → t.result ≡ none → Round t timeout u → Step t u

  pub data Reach (t : System) : System → Type 0 where
    here : Reach t t
    step : {u v : System} → Reach t u → Step u v → Reach t v
