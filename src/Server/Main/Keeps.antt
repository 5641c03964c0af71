-- ===== src/Server/Main/Keeps.antt =====
-- What a property of the database connection takes to outlast all requests to
-- central_server/main.cpp.
use zapshare.Base.{
  All, ◌≡◌, refl, sym, subst, Bytes, codes, List, [], ◌∷◌, Option, some, none, Outcome, returned,
  thrown, aborted, and_then, and_then-eq_returned,
}
use zapshare.Server.Database.{
  conn, mark_transfer_claimed, get_transfers_metadata, register_transfers, claim_selected, after,
  begun, no_return,
}
use zapshare.Server.Handlers.{
  Shared, get_lookup, get_getfile, post_register, register_parsed, post_signal, signal_parsed,
  get_signal, get_health,
}
use zapshare.Server.Main.{HttpRequest, Answered, get, post, serve_request, serve, behind}
use zapshare.Server.Routes.{
  get_route, post_route, get_other, get_signal_or, get_getfile_or, get_lookup_or, post_register_or,
  post_signal_or, central_server, capture, behind_prefix,
}
use zapshare.Server.Rows.{transfer_row_from_json}
use zapshare.Server.Sql.{TransferPayload, Sql}
use zapshare.Utils.Libraries.{JsonLib, Reply}

-- A property of the connection that the two changing operations keep, a registration only of
-- certain values.
pub record Keeps {Db : Type 0} (sql : Sql Db) (j : JsonLib) (I : Option Db → Type 0)
    (Stored : j.Json → Type 0) : Type 0 where
  pub marks : (secret : Bytes) (c : Option Db) → I c → I (mark_transfer_claimed sql secret c).1
  pub stores : (v : j.Json) (c : Option Db) → Stored v → I c → I (register_transfers sql j v c).1

-- A request that registers such a value if it registers one.
abbrev pub Spares : (j : JsonLib) → (j.Json → Type 0) → HttpRequest → Type 0
Spares j Stored (get req) = Unit
Spares j Stored (post req body) =
    behind_prefix (codes "/register") req.path ≡ some []
    → (v : j.Json) → j.parse body ≡ returned v
    → Stored v

pub Spares-all :
    (j : JsonLib) (Stored : j.Json → Type 0)
    → ((v : j.Json) → Stored v)
    → (rs : List HttpRequest) → All (Spares j Stored) rs
Spares-all j Stored h [] = tt
Spares-all j Stored h (get req ∷ rs) = (tt, Spares-all j Stored h rs)
Spares-all j Stored h (post req body ∷ rs) = (λ at v e. h v, Spares-all j Stored h rs)

module _ {Db : Type 0} (sql : Sql Db) (j : JsonLib) (I : Option Db → Type 0)
    (Stored : j.Json → Type 0) (keeps : Keeps sql j I Stored) where
  open keeps use {marks, stores}

  getfile-keeps :
      (secret : Bytes) (s : Shared sql j)
      → I s.connection
      → I (get_getfile sql j secret s).1.connection
  unfolding get_getfile get_transfers_metadata
  getfile-keeps secret s h = selected _
    where
      selected : (m : Outcome _) → I (claim_selected sql secret s.connection m).1
      selected (returned rows) = marks secret s.connection h
      selected thrown = h
      selected aborted = h

  register-keeps :
      (m : Outcome j.Json)
      → ((v : j.Json) → m ≡ returned v → Stored v)
      → (s : Shared sql j) → I s.connection
      → I (register_parsed sql j m s).1.connection
  register-keeps (returned v) fits s h = stores v s.connection (fits v refl) h
  register-keeps thrown fits s h = h
  register-keeps aborted fits s h = h

  signal-keeps :
      (id : Bytes) (m : Outcome j.Json) (s : Shared sql j)
      → I s.connection
      → I (signal_parsed sql j id m s).1.connection
  signal-keeps id (returned v) s h = h
  signal-keeps id thrown s h = h
  signal-keeps id aborted s h = h

  module _ (path : Bytes) (s : Shared sql j) (h : I s.connection) where
    other-keeps : (o : Option Bytes) → I (get_other sql j o path s).1.connection
    unfolding get_health
    other-keeps (some []) = h
    other-keeps (some (b ∷ rest)) = h
    other-keeps none = h

    signal_route-keeps : (o : Option Bytes) → I (get_signal_or sql j o path s).1.connection
    unfolding get_signal
    signal_route-keeps (some id) = h
    signal_route-keeps none = other-keeps (behind_prefix (codes "/health") path)

    getfile_route-keeps : (o : Option Bytes) → I (get_getfile_or sql j o path s).1.connection
    getfile_route-keeps (some secret) = getfile-keeps secret s h
    getfile_route-keeps none = signal_route-keeps (capture (codes "/signal/") path)

    lookup_route-keeps : (o : Option Bytes) → I (get_lookup_or sql j o path s).1.connection
    unfolding get_lookup
    lookup_route-keeps (some secret) = h
    lookup_route-keeps none = getfile_route-keeps (capture (codes "/getfile/") path)

    register_route-keeps :
        (o : Option Bytes) (body : Bytes)
        → (o ≡ some [] → (v : j.Json) → j.parse body ≡ returned v → Stored v)
        → I (post_register_or sql j o body s).1.connection
    unfolding post_register
    register_route-keeps (some []) body fits = register-keeps (j.parse body) (fits refl) s h
    register_route-keeps (some (b ∷ rest)) body fits = h
    register_route-keeps none body fits = h

    post_route-keeps :
        (o : Option Bytes) (body : Bytes)
        → (behind_prefix (codes "/register") path ≡ some []
            → (v : j.Json) → j.parse body ≡ returned v
            → Stored v)
        → I (post_signal_or sql j o path body s).1.connection
    unfolding post_signal
    post_route-keeps (some id) body fits = signal-keeps id (j.parse body) s h
    post_route-keeps none body fits =
        register_route-keeps (behind_prefix (codes "/register") path) body fits

  serve_request-keeps :
      (what : Bytes) (r : HttpRequest) (s : Shared sql j)
      → Spares j Stored r
      → I s.connection
      → I (serve_request sql j what r s).1.connection
  unfolding serve_request central_server get_route post_route
  serve_request-keeps what (get req) s fits h =
      lookup_route-keeps req.path s h (capture (codes "/lookup/") req.path)
  serve_request-keeps what (post req body) s fits h =
      post_route-keeps req.path s h (capture (codes "/signal/") req.path) body fits

  behind-keeps :
      (what : Bytes) (reply : Option Reply) (a : Answered) (s : Shared sql j)
      (rest : List Answered × Shared sql j)
      → I s.connection
      → I rest.1.connection
      → I (behind sql j what reply a s rest).1.connection
  behind-keeps what none a s rest h k = h
  behind-keeps what (some reply) a s rest h k = k

  -- The property holds behind the requests, also where one stops the process.
  pub serve-keeps :
      (what : Bytes) (rs : List HttpRequest) (s : Shared sql j)
      → All (Spares j Stored) rs
      → I s.connection
      → I (serve sql j what rs s).1.connection
  unfolding serve
  serve-keeps what [] s fits h = h
  serve-keeps what (r ∷ rs) s fits h =
      let kept = serve_request-keeps what r s fits.0 h in
      behind-keeps what _ _ _ _ kept
        (serve-keeps what rs (serve_request sql j what r s).1 fits.1 kept)

  -- It is enough that the first request brings it about.
  pub serve_first-keeps :
      (what : Bytes) (r : HttpRequest) (rs : List HttpRequest) (s : Shared sql j)
      → All (Spares j Stored) rs
      → I (serve_request sql j what r s).1.connection
      → I (serve sql j what (r ∷ rs) s).1.connection
  unfolding serve
  serve_first-keeps what r rs s fits h =
      behind-keeps what _ _ _ _ h (serve-keeps what rs (serve_request sql j what r s).1 fits h)

-- A property of the table that an UPDATE keeps if it succeeds, and an INSERT of certain values.
module _ {Db : Type 0} (sql : Sql Db) (j : JsonLib) (H : Db → Type 0) (Stored : j.Json → Type 0)
    (claims : (secret : Bytes) (d d' : Db) → sql.set_claimed secret d ≡ returned d' → H d → H d')
    (stores : (v : j.Json) (payload : TransferPayload) (d d' : Db)
      → Stored v
      → transfer_row_from_json j v ≡ returned payload
      → sql.upsert payload d ≡ returned d'
      → H d
      → H d') where
  abbrev pub OfTable : Option Db → Type 0
  OfTable c = (d : Db) × (c ≡ some d) × H d

  after-OfTable :
      (d : Db) (m : Outcome Db)
      → H d
      → ((d' : Db) → m ≡ returned d' → H d')
      → OfTable (after sql (some d) m).1
  after-OfTable d (returned d') h then' = (d', refl, then' d' refl)
  after-OfTable d thrown h then' = (d, refl, h)
  after-OfTable d aborted h then' = (d, refl, h)

  begun-same : (d d' : Db) → begun sql (some d) ≡ returned d' → d ≡ d'
  unfolding conn
  begun-same d d' e = let (_, _, f) = and_then-eq_returned (sql.begin d) (λ _. returned d) e in cc

  no_return-OfTable :
      (r : Outcome (Unit {0}) × Option Db) → OfTable r.1 → OfTable (no_return sql r).1
  no_return-OfTable (returned done, c) h = h
  no_return-OfTable (thrown, c) h = h
  no_return-OfTable (aborted, c) h = h

  marks-OfTable :
      (secret : Bytes) (d : Db) → H d → OfTable (mark_transfer_claimed sql secret (some d)).1
  unfolding mark_transfer_claimed
  marks-OfTable secret d h =
      after-OfTable d (and_then (begun sql (some d)) (sql.set_claimed secret)) h λ d' e.
        let (d1, begins, f) =
          and_then-eq_returned (begun sql (some d)) (sql.set_claimed secret) e in
        claims secret d1 d' f (subst H (begun-same d d1 begins) h)

  stores-OfTable :
      (v : j.Json) (d : Db) → Stored v → H d → OfTable (register_transfers sql j v (some d)).1
  unfolding register_transfers
  stores-OfTable v d fits h =
      let parse_and_store : Db → Outcome Db =
        λ d1. and_then (transfer_row_from_json j v) λ payload. sql.upsert payload d1 in
      no_return-OfTable (after sql (some d) (and_then (begun sql (some d)) parse_and_store)) (
        after-OfTable d (and_then (begun sql (some d)) parse_and_store) h λ d' e.
          let (d1, begins, f) = and_then-eq_returned (begun sql (some d)) parse_and_store e in
          let (payload, parsed, g) =
            and_then-eq_returned (transfer_row_from_json j v) (λ payload. sql.upsert payload d1)
              f in
          stores v payload d1 d' fits parsed g (subst H (begun-same d d1 begins) h))

  pub table-Keeps : Keeps sql j OfTable Stored
  table-Keeps = record {
    marks = λ secret c (d, same, h).
        subst (λ x. OfTable (mark_transfer_claimed sql secret x).1) (sym same)
          (marks-OfTable secret d h);
    stores = λ v c fits (d, same, h).
        subst (λ x. OfTable (register_transfers sql j v x).1) (sym same)
          (stores-OfTable v d fits h);
  }
