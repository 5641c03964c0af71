-- ===== src/CommandLine/Sender/Stops.antt =====
-- When the loop of do_receive in cli_tool/src/server.cpp stops.
use zapshare.Base.{
  ◌≡◌, refl, ap, ◌∙◌, true, List, [], ◌∷◌, ◌++◌, returned, thrown, aborted, and_then-eq_returned,
  is_empty, Bool-cases, inl, inr,
}
use zapshare.Client.Receive.{delivered}
use zapshare.CommandLine.Sender.{Arrival, arrived, reset, failed, do_receive, serve_next, Served}
use zapshare.Config.{Datagram}
use zapshare.Platform.{Platform}
use zapshare.Session.{Session, is_closed}
use zapshare.Session.Packets.{handle_packet}
use zapshare.Session.Packets.Senders.{handle_packet-closed}

module _ (p : Platform) where
  open p use {World}

  pub do_receive-closed :
      (arrivals : List Arrival) (s : Session) (w : World)
      → is_closed s ≡ true
      → do_receive p arrivals s w ≡ returned (s, [], w)
  unfolding do_receive
  do_receive-closed [] s w h = refl
  do_receive-closed (failed ∷ arrivals) s w h = refl
  do_receive-closed (reset ∷ arrivals) s w h = do_receive-closed arrivals s w h
  do_receive-closed (arrived sender bytes ∷ arrivals) s w h =
      elim (Bool-cases (is_empty (delivered bytes))) [
        | inl e ↦ simp e (do_receive-closed arrivals s w h)
        | inr e ↦ simp (e, handle_packet-closed p (delivered bytes) sender s w h, h)
      ]

  rejoined :
      (x : Session × List Datagram × World) (front : List Datagram) (s : Session)
      (sent : List Datagram) (w : World)
      → ◌≡◌ {A = Served p} (returned (x.0, front ++ x.1, x.2)) (returned (s, sent, w))
      → (◌≡◌ {A = Served p} (returned x) (returned (s, x.1, w))) × (front ++ x.1 ≡ sent)
  rejoined (s1, sent1, w1) front s sent w h = (cc, cc)

  serve_next-append :
      (step : Served p) (f g : Session → World → Served p) (s' : Session) (sent : List Datagram)
      (w' : World)
      → ((s1 : Session) (sent1 : List Datagram) (w1 : World)
          → f s1 w1 ≡ returned (s', sent1, w')
          → g s1 w1 ≡ returned (s', sent1, w'))
      → serve_next p step f ≡ returned (s', sent, w')
      → serve_next p step g ≡ returned (s', sent, w')
  serve_next-append thrown f g s' sent w' same h = absurd (cc)
  serve_next-append aborted f g s' sent w' same h = absurd (cc)
  serve_next-append (returned (s1, sent1, w1)) f g s' sent w' same h =
      elim (Bool-cases (is_closed s1)) [
        | inl e ↦ simp e (simp e at h)
        | inr e ↦
            let (x, first, second) = and_then-eq_returned (f s1 w1) _ (simp e at h) in
            let (whole, joined) = rejoined x sent1 s' sent w' second in
            let next = same s1 x.1 w1 (first ∙ whole) in simp (e, next, joined)
      ]

  same_state :
      (s s' : Session) (sent : List Datagram) (w w' : World)
      → ◌≡◌ {A = Served p} (returned (s, [], w)) (returned (s', sent, w'))
      → is_closed s' ≡ true
      → is_closed s ≡ true
  same_state s s' sent w w' h c = let e : s ≡ s' = cc in ap is_closed e ∙ c

  -- Once the session is closed, nothing that still arrives is handled: neither the session nor what
  -- was sent nor the outside changes any more.
  pub do_receive-stops :
      (arrivals more : List Arrival) (s s' : Session) (sent : List Datagram) (w w' : World)
      → is_closed s' ≡ true
      → do_receive p arrivals s w ≡ returned (s', sent, w')
      → do_receive p (arrivals ++ more) s w ≡ returned (s', sent, w')
  unfolding do_receive
  do_receive-stops [] more s s' sent w w' c h =
      do_receive-closed more s w (same_state s s' sent w w' h c) ∙ h
  do_receive-stops (failed ∷ arrivals) more s s' sent w w' c h = h
  do_receive-stops (reset ∷ arrivals) more s s' sent w w' c h =
      do_receive-stops arrivals more s s' sent w w' c h
  do_receive-stops (arrived sender bytes ∷ arrivals) more s s' sent w w' c h =
      elim (Bool-cases (is_empty (delivered bytes))) [
        | inl e ↦ simp e (do_receive-stops arrivals more s s' sent w w' c (simp e at h))
        | inr e ↦ simp e (
            serve_next-append (handle_packet p (delivered bytes) sender s w) (do_receive p arrivals)
              (do_receive p (arrivals ++ more)) s' sent w'
              (λ s1 sent1 w1 h1. do_receive-stops arrivals more s1 s' sent1 w1 w' c h1)
              (simp e at h))
      ]
