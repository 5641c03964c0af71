-- ===== src/Server/Main/Retrievable.antt =====
-- That a registered transfer can be fetched later, whatever else the clients of
-- central_server/main.cpp request in between.
use zapshare.Base.{
  ◌≡◌, ◌≢◌, sym, ap, ◌∙◌, true, Bool, bytes-cases, inl, inr, All, Bytes, List, [], Option, some,
  Outcome, returned,
}
use zapshare.Config.{Transfers}
use zapshare.Server.Database.{or_else}
use zapshare.Server.Handlers.{Shared}
use zapshare.Server.Main.{HttpRequest, serve}
use zapshare.Server.Main.Keeps.{Keeps, Spares, serve-keeps, table-Keeps}
use zapshare.Server.Routes.{central_server, is_secret}
use zapshare.Server.Routes.Registration.{found, get_transfer_metadata_lem}
use zapshare.Server.Rows.{transfer_row_from_json, transfer_row_to_json}
use zapshare.Server.Rows.RoundTrip.{IsRegistrable, payload_of, row_of}
use zapshare.Server.Sql.{TransferPayload, SqlRow, Sql, SqlLaws, SqlAnswers, merged, claim_row}
use zapshare.Utils.Libraries.{JsonLib, JsonLaws}
use zapshare.Utils.Metadata.{get_transfer_metadata}

-- What a registration stores is of another transfer.
abbrev pub IsOther : (j : JsonLib) → Bytes → j.Json → Type 0
IsOther j id v =
    (payload : TransferPayload) → transfer_row_from_json j v ≡ returned payload → payload.id ≢ id

module _ {Db : Type 0} (sql : Sql Db) (tables : SqlLaws sql) (j : JsonLib) (id : Bytes)
    (row : SqlRow) where
  open tables use {find, claim, store}

  -- The table has the row under `id`, claimed or not.
  abbrev HasRow : Db → Type 0
  HasRow d = (c : Option Bool) × (find d id ≡ some (record row { claimed = c }))

  abbrev IsStored : Option Db → Type 0
  IsStored c = (d : Db) × (c ≡ some d) × HasRow d

  claim-HasRow :
      (secret : Bytes) (d d' : Db) → sql.set_claimed secret d ≡ returned d' → HasRow d → HasRow d'
  claim-HasRow secret d d' e (c, there) = elim (bytes-cases id secret) [
    | inl same ↦ (
      some true,
      ap (find d') same ∙ ((claim secret d d' e).0 ∙ ap claim_row (ap (find d) (sym same) ∙ there)),
    )
    | inr other ↦ (c, (claim secret d d' e).1 id other ∙ there)
  ]

  store-HasRow :
      (v : j.Json) (payload : TransferPayload) (d d' : Db)
      → IsOther j id v
      → transfer_row_from_json j v ≡ returned payload
      → sql.upsert payload d ≡ returned d'
      → HasRow d
      → HasRow d'
  store-HasRow v payload d d' other parsed e (c, there) =
      (c, (store payload d d' e).1 id (λ same. other payload parsed (sym same)) ∙ there)

  HasRow-Keeps : Keeps sql j IsStored (IsOther j id)
  HasRow-Keeps = table-Keeps sql j HasRow (IsOther j id) claim-HasRow store-HasRow

module _ {Db : Type 0} (sql : Sql Db) (tables : SqlLaws sql) (j : JsonLib) (laws : JsonLaws j)
    (what : Bytes) (t : Transfers) (h : IsRegistrable t) (d d1 : Db)
    (stored : sql.upsert (payload_of t) d ≡ returned d1) (fits : is_secret t.id ≡ true)
    (answers : SqlAnswers sql t.id) where
  -- A transfer with a packable address and an id that the routes take stays retrievable once its
  -- registration has changed the table `d` to `d1`: after any requests to a server that is connected
  -- to `d1`, if they register nothing else under the id, and whether they end or one of them stops
  -- the process, a server over the table that they leave answers get_transfer_metadata with the
  -- same transfer. The statements about the id succeed, and the row's JSON prints.
  pub get_transfer_metadata-serve :
      (printed : Bytes) (rs : List HttpRequest) (s s' : Shared sql j)
      → j.dump (
          transfer_row_to_json j (
            row_of (payload_of t) true (
              or_else []
                (merged
                  (tables.now d)
                  (tables.find d t.id)
                  (payload_of t)
                  (tables.fits (payload_of t) d d1 stored)).created_at)))
        ≡ returned printed
      → s.connection ≡ some d1
      → All (Spares j (IsOther j t.id)) rs
      → s'.connection ≡ (serve sql j what rs s).1.connection
      → (get_transfer_metadata j (central_server sql j what) t.id s').0 ≡ returned t
  get_transfer_metadata-serve printed rs s s' e connected spares again =
      let row =
        merged (tables.now d) (tables.find d t.id) (payload_of t)
          (tables.fits (payload_of t) d d1 stored) in
      let there = found sql tables j laws what t h d d1 stored in
      let (d', connected', (c, kept)) =
        serve-keeps sql j (IsStored sql tables j t.id row) (IsOther j t.id)
          (HasRow-Keeps sql tables j t.id row) what rs s spares
          (d1, connected, (row.claimed, there)) in
      ap (λ (r : Outcome Transfers × Shared sql j). r.0)
        (get_transfer_metadata_lem sql tables j laws what t h d d1 stored fits answers printed s' d'
          c e (again ∙ connected') kept)
