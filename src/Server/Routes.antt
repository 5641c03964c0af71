-- ===== src/Server/Routes.antt =====
-- The routes of central_server/main.cpp: which handler a request goes to, and how httplib answers.
-- Its documented part in this: a path must match a whole pattern; a status that no one has set is
-- 200 (404 without a route); an exception goes to the exception handler; and for a status of 400 and
-- above the error handler writes the body.
pub mod Signalling
pub mod Registration
use zapshare.Base.{
  ℕ, Bool, true, false, not, ◌&&◌, Bytes, codes, List, [], ◌∷◌, ◌++◌, Option, none, some, Outcome,
  returned, thrown, aborted, and_then, is_empty, ltb, ◌==◌, if◌then◌else◌,
}
use zapshare.Server.Handlers.{
  Response, fresh, with_status, error_handler, exception_handler, Shared, Handled, get_lookup,
  get_getfile, post_register, post_signal, get_signal, get_health,
}
use zapshare.Server.Database.{init, create_tables}
use zapshare.Server.Sql.{Sql}
use zapshare.Utils.Libraries.{JsonLib, Http, Reply}
use zapshare.Utils.Token.Routable.{route_char}

-- What is behind a prefix.
unfoldable pub behind_prefix : Bytes → Bytes → Option Bytes
behind_prefix [] s = some s
behind_prefix (c ∷ prefix) [] = none
behind_prefix (c ∷ prefix) (b ∷ s) =
    let rest = behind_prefix prefix s in if c == b then rest else none

unfoldable pub all_route_chars : Bytes → Bool
all_route_chars [] = true
all_route_chars (c ∷ s) = route_char c && all_route_chars s

-- `([A-Za-z0-9\-]+)` on the whole of a text.
abbrev pub is_secret : Bytes → Bool
is_secret s = not (is_empty s) && all_route_chars s

abbrev pub captured : Option Bytes → Option Bytes
captured none = none
captured (some s) = if is_secret s then some s else none

-- The group that `prefix([A-Za-z0-9\-]+)` captures in a path.
unfoldable pub capture : Bytes → Bytes → Option Bytes
unfolding behind_prefix
capture prefix path = captured (behind_prefix prefix path)

module _ {Db : Type 0} (sql : Sql Db) (j : JsonLib) where
  abbrev Kept : Type 0
  Kept = Shared sql j

  abbrev Answer : Type 0
  Answer = Handled sql j

  abbrev not_found : Kept → Answer
  not_found s = (returned (with_status 404 fresh), s)

  -- The patterns of the GET routes exclude one another.
  abbrev pub get_other : Option Bytes → Bytes → Kept → Answer
  get_other (some []) path s = get_health sql j s
  get_other (some (b ∷ rest)) path s = not_found s
  get_other none path s = not_found s

  abbrev pub get_signal_or : Option Bytes → Bytes → Kept → Answer
  get_signal_or (some id) path s = get_signal sql j id s
  get_signal_or none path s = get_other (behind_prefix (codes "/health") path) path s

  abbrev pub get_getfile_or : Option Bytes → Bytes → Kept → Answer
  get_getfile_or (some secret) path s = get_getfile sql j secret s
  get_getfile_or none path s = get_signal_or (capture (codes "/signal/") path) path s

  abbrev pub get_lookup_or : Option Bytes → Bytes → Kept → Answer
  get_lookup_or (some secret) path s = get_lookup sql j secret s
  get_lookup_or none path s = get_getfile_or (capture (codes "/getfile/") path) path s

  unfoldable pub get_route : Bytes → Kept → Answer
  get_route path s = get_lookup_or (capture (codes "/lookup/") path) path s

  abbrev pub post_register_or : Option Bytes → Bytes → Kept → Answer
  post_register_or (some []) body s = post_register sql j body s
  post_register_or (some (b ∷ rest)) body s = not_found s
  post_register_or none body s = not_found s

  abbrev pub post_signal_or : Option Bytes → Bytes → Bytes → Kept → Answer
  post_signal_or (some id) path body s = post_signal sql j id body s
  post_signal_or none path body s = post_register_or (behind_prefix (codes "/register") path) body s

  unfoldable pub post_route : Bytes → Bytes → Kept → Answer
  post_route path body s = post_signal_or (capture (codes "/signal/") path) path body s

  abbrev status_of : Option ℕ → ℕ
  status_of none = 200
  status_of (some status) = status

  abbrev reply_of : ℕ → Response → Reply
  reply_of status res =
      if ltb status 400
      then record { status = status; body = res.body }
      else record { status = status; body = (error_handler status res).body }

  -- `what` is the message of an exception.
  unfoldable pub answered : Bytes → Outcome Response → Option Reply
  answered what (returned res) = some (reply_of (status_of res.status) res)
  answered what thrown = some (reply_of 500 (exception_handler (some what) fresh))
  answered what aborted = none

  -- The server as its clients see it over a connection that does not break.
  unfoldable pub central_server : Bytes → Http Kept
  unfolding get_route post_route answered
  central_server what = record {
    http_get = λ path s. let (res, s') = get_route path s in (answered what res, s');
    http_post = λ path body s. let (res, s') = post_route path body s in (answered what res, s');
  }

  -- The start of main: the connection, the table, and an empty signal store. An exception ends it.
  unfoldable pub startup : (Bytes → Outcome (Bool × Db)) → Option Bytes → Outcome Kept
  startup connect url = and_then (init sql connect url) λ c.
      and_then (create_tables sql c) λ c'. returned (record { connection = c'; signal_store = [] })
