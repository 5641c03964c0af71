-- ===== src/Server/Routes/Signalling.antt =====
-- The receiver's signal on its way to the sender: signal_receiver_endpoint and poll_for_signal of
-- cli_tool/include/utils.hpp against the routes of central_server/main.cpp.
use zapshare.Base.{
  ℕ, suc, ◌^◌, ◌<◌, ◌≡◌, refl, true, Bytes, codes, [], ◌++◌, none, some, returned, arith, bytes_eq,
}
use zapshare.Server.Handlers.{Shared, assign, fresh, content}
use zapshare.Server.Handlers.Signals.{lookup-assign, post_signal_lem, get_signal_lem}
use zapshare.Server.Routes.{
  behind_prefix, is_secret, capture, get_route, post_route, answered, central_server,
}
use zapshare.Server.Sql.{Sql}
use zapshare.Utils.Libraries.{JsonLib, JsonLaws}
use zapshare.Utils.Metadata.Fields.{string_entry-object, unsigned_entry-object}
use zapshare.Utils.Signalling.{
  PublicEndpoint, signal_fields, endpoint_from_json, signal_receiver_endpoint, poll_reply,
  poll_rounds, poll_for_signal,
}

capture_signal :
    (id : Bytes)
    → is_secret id ≡ true
    → capture (codes "/signal/") (codes "/signal/" ++ id) ≡ some id
unfolding capture behind_prefix
capture_signal id h = simp h

no_other_route :
    (id : Bytes)
    → (capture (codes "/lookup/") (codes "/signal/" ++ id) ≡ none)
      × (capture (codes "/getfile/") (codes "/signal/" ++ id) ≡ none)
unfolding capture behind_prefix
no_other_route id = (refl, refl)

module _ (j : JsonLib) (laws : JsonLaws j) where
  endpoint_from_json-signal_fields :
      (ep : PublicEndpoint)
      → ep.port < 2 ^ 16
      → ep.local_port < 2 ^ 16
      → endpoint_from_json j (j.object (signal_fields j ep)) ≡ returned ep
  unfolding endpoint_from_json signal_fields bytes_eq
  endpoint_from_json-signal_fields ep h k =
      let kvs = signal_fields j ep in
      simp (
        string_entry-object j laws kvs (codes "public_ip") ep.ip refl,
        unsigned_entry-object j laws (2 ^ 16) kvs (codes "public_port") ep.port refl h
            (omega arith),
        laws.contains-object kvs (codes "local_ip"),
        string_entry-object j laws kvs (codes "local_ip") ep.local_ip refl,
        laws.contains-object kvs (codes "local_port"),
        unsigned_entry-object j laws (2 ^ 16) kvs (codes "local_port") ep.local_port refl k
            (omega arith),
      )

  module _ {Db : Type 0} (sql : Sql Db) (what : Bytes) (id : Bytes) (fits : is_secret id ≡ true)
      (ep : PublicEndpoint) (s : Shared sql j) (body : Bytes)
      (printed : j.dump (j.object (signal_fields j ep)) ≡ returned body)
      (port_fits : ep.port < 2 ^ 16) (local_fits : ep.local_port < 2 ^ 16) where
    signalled : Shared sql j
    signalled = record s { signal_store = assign id (j.object (signal_fields j ep)) s.signal_store }

    signal_lem : signal_receiver_endpoint j (central_server sql j what) id ep s ≡ returned signalled
    unfolding signal_receiver_endpoint central_server post_route signalled
    signal_lem =
        let v = j.object (signal_fields j ep) in
        simp (
          printed,
          capture_signal id fits,
          post_signal_lem sql j id body body v s (laws.parse-dump v body printed) printed,
        )

    get_route-signalled :
        get_route sql j (codes "/signal/" ++ id) signalled
        ≡ (returned (content body fresh), signalled)
    unfolding get_route signalled
    get_route-signalled =
        let v = j.object (signal_fields j ep) in
        let (no_lookup, no_getfile) = no_other_route id in
        simp (
          no_lookup,
          no_getfile,
          capture_signal id fits,
          get_signal_lem sql j id body v (record s { signal_store = assign id v s.signal_store })
              (lookup-assign id v s.signal_store) printed,
        )

    first_poll :
        (n : ℕ)
        → poll_rounds j (central_server sql j what) (suc n) id signalled ≡ (returned ep, signalled)
    unfolding poll_rounds central_server poll_reply answered
    first_poll n = simp (
      get_route-signalled,
      laws.parse-dump (j.object (signal_fields j ep)) body printed,
      endpoint_from_json-signal_fields ep port_fits local_fits,
    )

    posted_lem :
        (central_server sql j what).http_post (codes "/signal/" ++ id) body s
        ≡ (some (record { status = 200; body = [] }), signalled)
    unfolding central_server post_route answered signalled
    posted_lem =
        let v = j.object (signal_fields j ep) in
        simp (
          capture_signal id fits,
          post_signal_lem sql j id body body v s (laws.parse-dump v body printed) printed,
        )

    -- A receiver's signal for a secret that the routes take reaches the sender through the central
    -- server, if the signal's JSON prints and its ports have 16 bits: the POST that
    -- signal_receiver_endpoint makes has status 200, and on the store that it leaves poll_for_signal
    -- gives the same endpoint, as does its loop with any number of tries but none, one try included.
    pub poll_for_signal-signal_receiver_endpoint :
        (n : ℕ)
        → (s' : Shared sql j) × (signal_receiver_endpoint j (central_server sql j what) id ep s
            ≡ returned s')
          × ((central_server sql j what).http_post (codes "/signal/" ++ id) body s
              ≡ (some (record { status = 200; body = [] }), s'))
          × (poll_for_signal j (central_server sql j what) id s' ≡ (returned ep, s'))
          × (poll_rounds j (central_server sql j what) (suc n) id s' ≡ (returned ep, s'))
    unfolding poll_for_signal
    poll_for_signal-signal_receiver_endpoint n =
        (signalled, signal_lem, posted_lem, first_poll 29, first_poll n)
