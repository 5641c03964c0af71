-- ===== src/Utils/Signalling.antt =====
-- PublicEndpoint, signal_receiver_endpoint, poll_for_signal and perform_udp_hole_punch of
-- cli_tool/include/utils.hpp. Prints and sleeps are left out. A datagram whose sending fails counts
-- as sent: the code ignores the error.
use zapshare.Base.{
  ℕ, zero, suc, ◌^◌, not, ◌&&◌, Bytes, codes, List, [], ◌∷◌, ◌++◌, map, Option, none, some, Outcome,
  returned, thrown, aborted, and_then, is_empty, ◌==◌, if◌then◌else◌,
}
use zapshare.Config.{Endpoint, Datagram}
use zapshare.Utils.Libraries.{JsonLib, Http, Reply}
use zapshare.Utils.Metadata.{string_entry, unsigned_entry}

pub record PublicEndpoint : Type 0 where
  pub ip : Bytes
  pub port : ℕ
  pub local_ip : Bytes
  pub local_port : ℕ

module _ (j : JsonLib) where
  open j use {Json, string, number, object, contains, dump, parse}

  unfoldable pub signal_fields : PublicEndpoint → List (Bytes × Json)
  signal_fields endpoint =
      (codes "public_ip", string endpoint.ip)
      ∷ (codes "public_port", number endpoint.port)
      ∷ (codes "local_ip", string endpoint.local_ip)
      ∷ (codes "local_port", number endpoint.local_port)
      ∷ []

  -- What poll_for_signal reads.
  unfoldable pub endpoint_from_json : Json → Outcome PublicEndpoint
  endpoint_from_json data' = and_then (string_entry j data' (codes "public_ip")) λ ip.
      and_then (unsigned_entry j (2 ^ 16) data' (codes "public_port")) λ port.
        and_then
          (if contains data' (codes "local_ip")
            then string_entry j data' (codes "local_ip")
            else returned [])
          λ local_ip.
            and_then
              (if contains data' (codes "local_port")
                then unsigned_entry j (2 ^ 16) data' (codes "local_port")
                else returned 0)
              λ local_port.
                returned
                  (record { ip = ip; port = port; local_ip = local_ip; local_port = local_port })

  module _ {World : Type 0} (http : Http World) where
    -- A failure of the POST is only printed.
    unfoldable pub signal_receiver_endpoint : Bytes → PublicEndpoint → World → Outcome World
    unfolding signal_fields
    signal_receiver_endpoint id endpoint w =
        and_then (dump (object (signal_fields endpoint)))
          λ body. returned (http.http_post (codes "/signal/" ++ id) body w).1

    -- One reply: the endpoint, or `none` for another round. Every exception is caught.
    abbrev pub caught_endpoint : Outcome PublicEndpoint → Outcome (Option PublicEndpoint)
    caught_endpoint (returned endpoint) = returned (some endpoint)
    caught_endpoint thrown = returned none
    caught_endpoint aborted = aborted

    unfoldable pub poll_reply : Option Reply → Outcome (Option PublicEndpoint)
    poll_reply none = returned none
    poll_reply (some reply) =
        if reply.status == 200
        then caught_endpoint (and_then (parse reply.body) endpoint_from_json)
        else returned none

    abbrev pub poll_next :
        Outcome (Option PublicEndpoint)
        → World
        → Outcome PublicEndpoint × World
        → Outcome PublicEndpoint × World
    poll_next (returned (some endpoint)) w rest = (returned endpoint, w)
    poll_next (returned none) w rest = rest
    poll_next thrown w rest = (thrown, w)
    poll_next aborted w rest = (aborted, w)

    unfoldable pub poll_rounds : ℕ → Bytes → World → Outcome PublicEndpoint × World
    poll_rounds zero id w = (thrown, w)
    poll_rounds (suc n) id w =
        let (reply, w') = http.http_get (codes "/signal/" ++ id) w in
        poll_next (poll_reply reply) w' (poll_rounds n id w')

    -- The source tries 30 times, a second apart.
    unfoldable pub poll_for_signal : Bytes → World → Outcome PublicEndpoint × World
    poll_for_signal id w = poll_rounds 30 id w

-- `make_address` gives the address in its printed form, or throws.
module _ (make_address : Bytes → Outcome Bytes) where
  -- The public endpoint, and the local one where there is one.
  unfoldable pub candidates : PublicEndpoint → Outcome (List Endpoint)
  candidates peer = and_then (make_address peer.ip) λ public'.
      if not (is_empty peer.local_ip) && not (peer.local_port == 0)
      then (and_then (make_address peer.local_ip) λ local'. returned (
          record { address = public'; port = peer.port }
          ∷ record { address = local'; port = peer.local_port }
          ∷ []))
      else returned (record { address = public'; port = peer.port } ∷ [])

  abbrev pub punch_to : Endpoint → Datagram
  punch_to e = record { to = e; bytes = codes "PUNCH" }

  -- So many rounds over all candidates.
  unfoldable pub punches : ℕ → List Endpoint → List Datagram
  punches zero es = []
  punches (suc n) es = map punch_to es ++ punches n es

  abbrev pub punch_all : Outcome (List Endpoint) → Outcome (List Datagram)
  punch_all (returned es) = returned (punches 5 es)
  punch_all thrown = returned []
  punch_all aborted = aborted

  -- An exception is caught and printed.
  unfoldable pub perform_udp_hole_punch : PublicEndpoint → Outcome (List Datagram)
  unfolding punches
  perform_udp_hole_punch peer = punch_all (candidates peer)
