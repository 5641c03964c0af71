-- ===== src/Tests/Central.antt =====
-- The central server at one run: a transfer that is registered over an older one and fetched, and a
-- signal that is posted and polled.
use zapshare.Base.{
  Outcome, aborted, sym, ap, All, bytes_eq, false, ◌∙◌, List, ◌^◌, ◌<◌, ◌≡◌, ◌≢◌, refl, true, Bytes,
  codes, [], ◌∷◌, some, none, returned, arith,
}
use zapshare.Server.Handlers.{Shared, fresh, content, with_status, post_signal, get_signal}
use zapshare.Server.Handlers.Signals.{get_signal-post_signal}
use zapshare.Server.Main.{HttpRequest, get, post, serve}
use zapshare.Server.Main.Claimed.{IsClaimed, serve-IsClaimed}
use zapshare.Server.Main.Keeps.{Spares}
use zapshare.Server.Main.Retrievable.{IsOther, get_transfer_metadata-serve}
use zapshare.Server.Printed.{LoggedRequest}
use zapshare.Server.Routes.{central_server, all_route_chars, is_secret}
use zapshare.Server.Routes.Registration.{get_transfer_metadata-register_transfer}
use zapshare.Server.Routes.Signalling.{poll_for_signal-signal_receiver_endpoint}
use zapshare.Server.Rows.{transfer_row_from_json}
use zapshare.Server.Rows.RoundTrip.{payload_of}
use zapshare.Server.Sql.{SqlRow}
use zapshare.Tests.Json.{search, text_json, text_json-laws}
use zapshare.Tests.Rows.{registered, registered-IsRegistrable}
use zapshare.Tests.Tables.{
  Rows, row_sql, row_sql-laws, row_sql-answers, row_sql-find, stored, numbers_fit-FitsColumns,
}
use zapshare.Utils.Libraries.{lookup}
use zapshare.Utils.Metadata.{string_at, register_transfer, look_up, get_transfer_metadata}
use zapshare.Utils.Signalling.{
  PublicEndpoint, signal_receiver_endpoint, poll_for_signal, poll_rounds, signal_fields,
}

is_secret_b6d1 : is_secret (codes "b6d1") ≡ true
unfolding all_route_chars
is_secret_b6d1 = refl

abbrev older : SqlRow
older = record {
  id = codes "b6d1";
  sender_ip = codes "192.0.2.1";
  sender_port = 1;
  protocol = codes "udp";
  file_name = none;
  file_size = some 3;
  file_hash = none;
  token = codes "b6d1";
  claimed = some true;
  created_at = none;
  port_fits = omega arith;
  size_fits = omega arith;
}

abbrev table : Rows
table = (codes "b6d1", older) ∷ []

abbrev shared : Shared row_sql text_json
shared = record { connection = some table; signal_store = (codes "a0", codes "old") ∷ [] }

abbrev http_message : Bytes
http_message = codes "bad row"

-- The table behind the registration.
abbrev newer : Rows
newer = stored (payload_of registered) (numbers_fit-FitsColumns (payload_of registered) refl) table

-- A server that is started anew over it.
abbrev restarted : Shared row_sql text_json
restarted = record { connection = some newer; signal_store = [] }

get_transfer_metadata-register_transfer_example :
    (register_transfer text_json (central_server row_sql text_json http_message) registered shared
      ≡ returned (record shared { connection = some newer }))
    × (look_up text_json (central_server row_sql text_json http_message) (codes "b6d1") restarted
        ≡ (true, restarted))
    × ((get_transfer_metadata text_json
          (central_server row_sql text_json http_message)
          (codes "b6d1")
          restarted).0
        ≡ returned registered)
    × (40123 < 2 ^ 31)
get_transfer_metadata-register_transfer_example =
    get_transfer_metadata-register_transfer row_sql row_sql-laws text_json text_json-laws
      http_message registered registered-IsRegistrable table newer refl is_secret_b6d1
      (row_sql-answers (codes "b6d1")) _ _ shared restarted refl refl refl refl refl

abbrev endpoint : PublicEndpoint
endpoint = record {
  ip = codes "203.0.113.9";
  port = 54321;
  local_ip = codes "10.0.0.7";
  local_port = 40000;
}

poll_for_signal-signal_receiver_endpoint_example :
    (s' : Shared row_sql text_json) × (signal_receiver_endpoint text_json
        (central_server row_sql text_json http_message)
        (codes "b6d1")
        endpoint
        shared
      ≡ returned s')
    × ((central_server row_sql text_json http_message).http_post
          (codes "/signal/b6d1")
          (text_json.object (signal_fields text_json endpoint))
          shared
        ≡ (some (record { status = 200; body = [] }), s'))
    × (poll_for_signal text_json (central_server row_sql text_json http_message) (codes "b6d1") s'
        ≡ (returned endpoint, s'))
    × (poll_rounds text_json (central_server row_sql text_json http_message) 1 (codes "b6d1") s'
        ≡ (returned endpoint, s'))
poll_for_signal-signal_receiver_endpoint_example =
    poll_for_signal-signal_receiver_endpoint text_json text_json-laws row_sql http_message
      (codes "b6d1") is_secret_b6d1 endpoint shared _ refl (omega arith) (omega arith) 0

get_signal-post_signal_example :
    ((post_signal row_sql text_json (codes "a0") (codes "new") shared).0
      ≡ returned (with_status 200 fresh))
    × ((get_signal row_sql text_json
          (codes "a0")
          (post_signal row_sql text_json (codes "a0") (codes "new") shared).1).0
        ≡ returned (content (codes "new") fresh))
    × ((other : Bytes)
        → other ≢ codes "a0"
        → (get_signal row_sql text_json other
            (post_signal row_sql text_json (codes "a0") (codes "new") shared).1).0
          ≡ (get_signal row_sql text_json other shared).0)
get_signal-post_signal_example =
    get_signal-post_signal row_sql text_json (codes "a0") (codes "new") (codes "new") (codes "new")
      shared refl refl

abbrev asked : Bytes → Bytes → LoggedRequest
asked method path = record {
  method = method;
  path = path;
  version = [];
  forwarded_for = [];
  host = [];
}

-- A lookup, a fetch, and a registration that is no transfer's JSON: it stops the process.
abbrev requests : List HttpRequest
requests =
    get (asked (codes "GET") (codes "/lookup/b6d1"))
    ∷ get (asked (codes "GET") (codes "/getfile/b6d1"))
    ∷ post (asked (codes "POST") (codes "/register")) []
    ∷ []

-- The same row before it is fetched.
abbrev unclaimed : SqlRow
unclaimed = record older { claimed = some false }

abbrev unclaimed_table : Rows
unclaimed_table = (codes "b6d1", unclaimed) ∷ []

abbrev before : Shared row_sql text_json
before = record { connection = some unclaimed_table; signal_store = [] }

in_table : lookup (codes "b6d1") unclaimed_table ≡ some unclaimed
unfolding bytes_eq
in_table = refl

serve-IsClaimed_example :
    IsClaimed row_sql row_sql-laws text_json
      (codes "b6d1")
      (serve row_sql text_json http_message
        (get (asked (codes "GET") (codes "/getfile/b6d1")) ∷ requests)
        before).1.connection
serve-IsClaimed_example =
    serve-IsClaimed row_sql row_sql-laws text_json (codes "b6d1") (row_sql-answers (codes "b6d1"))
      http_message (asked (codes "GET") (codes "/getfile/b6d1")) requests before unclaimed_table
      unclaimed is_secret_b6d1 refl refl (row_sql-find unclaimed_table (codes "b6d1") ∙ in_table)

no_row : transfer_row_from_json text_json [] ≡ aborted
unfolding transfer_row_from_json string_at search
no_row = refl

-- Requests that register nothing: what is posted to /register is no transfer's JSON.
spared : All (Spares text_json (IsOther text_json (codes "b6d1"))) requests
spared =
    let none_stored = λ (v : Bytes) (e : ◌≡◌ {A = Outcome Bytes} (returned []) (returned v)).
      let same : v ≡ [] = cc in ap (transfer_row_from_json text_json) same ∙ no_row in
    (tt, (tt, ((λ at v e payload f. let never = sym (none_stored v e) ∙ f in absurd (cc)), tt)))

-- A server over what the requests leave of `newer`.
abbrev afterwards : Shared row_sql text_json
afterwards = record {
  connection = (serve row_sql text_json http_message requests restarted).1.connection;
  signal_store = [];
}

get_transfer_metadata-serve_example :
    (get_transfer_metadata text_json
      (central_server row_sql text_json http_message)
      (codes "b6d1")
      afterwards).0
    ≡ returned registered
get_transfer_metadata-serve_example =
    get_transfer_metadata-serve row_sql row_sql-laws text_json text_json-laws http_message
      registered registered-IsRegistrable table newer refl is_secret_b6d1
      (row_sql-answers (codes "b6d1")) _ requests restarted afterwards refl refl spared refl
