-- ===== src/Server/Handlers.antt =====
-- central_server/main.cpp: the handlers of the HTTP routes, over the database and the signal store.
-- A request runs alone: the handlers of the signal store hold a lock, and the pool's other
-- interleavings are not modelled. Prints and loggers are left out.
pub mod Signals
pub mod Registered
use zapshare.Base.{
  ℕ, Bool, true, false, Bytes, codes, List, [], ◌∷◌, ◌++◌, Option, none, some, Outcome, returned,
  thrown, aborted, and_then, bytes_eq, if◌then◌else◌,
}
use zapshare.Server.Database.{lookup_transfer, get_transfers_metadata, register_transfers}
use zapshare.Server.Rows.{TransferRow, transfer_row_to_json}
use zapshare.Server.Sql.{Sql}
use zapshare.Utils.Libraries.{JsonLib, lookup, has_key}
use zapshare.Utils.Text.{to_string}

-- `httplib::Response`: `none` is a status that no one has set.
pub record Response : Type 0 where
  pub status : Option ℕ
  pub body : Bytes

abbrev pub fresh : Response
fresh = record { status = none; body = [] }

-- `set_content`
abbrev pub content : Bytes → Response → Response
content body res = record res { body = body }

-- `res.status = status`
abbrev pub with_status : ℕ → Response → Response
with_status status res = record res { status = some status }

-- The handler that httplib calls for a status of 400 and above.
unfoldable pub error_handler : ℕ → Response → Response
error_handler status res = content (codes "Error Status: " ++ to_string status) res

-- The handler of an exception that left a route's handler; `what` is its message, if it has one. The
-- buffer of BUFSIZ bytes is taken to be long enough.
unfoldable pub exception_handler : Option Bytes → Response → Response
exception_handler none res = with_status 500 (content (codes "Error 500: Unknown Exception") res)
exception_handler (some what) res = with_status 500 (content (codes "Error 500: " ++ what) res)

-- `signal_store[id] = data`
unfoldable pub assign {ℓ} : {A : Type ℓ} → Bytes → A → List (Bytes × A) → List (Bytes × A)
assign k a [] = (k, a) ∷ []
assign k a ((l, b) ∷ kvs) =
    let rest = assign k a kvs in if bytes_eq l k then (l, a) ∷ kvs else (l, b) ∷ rest

module _ {Db : Type 0} (sql : Sql Db) (j : JsonLib) where
  open j use {Json, dump, parse}

  -- What the handlers share: the connection and the static map.
  pub record Shared : Type 0 where
    pub connection : Option Db
    pub signal_store : List (Bytes × Json)

  abbrev pub Handled : Type 0
  Handled = Outcome Response × Shared

  -- What follows a `catch` around a part that gave no response.
  abbrev answer_lookup : Outcome Bool → Outcome Response
  answer_lookup found =
      and_then found λ b. returned (content (if b then codes "True" else codes "False") fresh)

  unfoldable pub get_lookup : Bytes → Shared → Handled
  get_lookup secret s = (answer_lookup (lookup_transfer sql secret s.connection), s)

  -- The `catch` only prints: the response stays as it was.
  abbrev caught : Outcome Response → Outcome Response
  caught (returned res) = returned res
  caught thrown = returned fresh
  caught aborted = aborted

  abbrev answer_row : Outcome TransferRow → Outcome Response
  answer_row row = caught (
      and_then row λ r.
        and_then (dump (transfer_row_to_json j r))
          λ data'. returned (with_status 200 (content data' fresh)))

  unfoldable pub get_getfile : Bytes → Shared → Handled
  get_getfile secret s =
      let (row, c) = get_transfers_metadata sql secret s.connection in
      (answer_row row, record s { connection = c })

  abbrev answer_registered : Outcome (Unit {0}) → Outcome Response
  answer_registered done = caught (and_then done λ _. returned (with_status 201 fresh))

  abbrev pub register_parsed : Outcome Json → Shared → Handled
  register_parsed (returned data') s =
      let (done, c) = register_transfers sql j data' s.connection in
      (answer_registered done, record s { connection = c })
  register_parsed thrown s = (returned fresh, s)
  register_parsed aborted s = (aborted, s)

  unfoldable pub post_register : Bytes → Shared → Handled
  post_register body s = register_parsed (parse body) s

  -- The message that is printed dumps the data too, and can throw behind the assignment.
  abbrev signal_status : Outcome Bytes → Outcome Response
  signal_status (returned printed) = returned (with_status 200 fresh)
  signal_status thrown = returned (with_status 400 fresh)
  signal_status aborted = aborted

  abbrev pub signal_parsed : Bytes → Outcome Json → Shared → Handled
  signal_parsed id (returned data') s =
      (signal_status (dump data'), record s { signal_store = assign id data' s.signal_store })
  signal_parsed id thrown s = (returned (with_status 400 fresh), s)
  signal_parsed id aborted s = (aborted, s)

  unfoldable pub post_signal : Bytes → Bytes → Shared → Handled
  post_signal id body s = signal_parsed id (parse body) s

  abbrev answer_signal : Option Json → Outcome Response
  answer_signal none = returned (with_status 404 fresh)
  answer_signal (some data') = and_then (dump data') λ d. returned (content d fresh)

  unfoldable pub get_signal : Bytes → Shared → Handled
  get_signal id s = (answer_signal (lookup id s.signal_store), s)

  unfoldable pub get_health : Shared → Handled
  get_health s = (
    returned (
        content
          (codes
            "Your Server is healthy and running just fine brother!\nYou've come to right place!")
          fresh),
    s,
  )
