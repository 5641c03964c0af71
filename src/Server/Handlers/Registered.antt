-- ===== src/Server/Handlers/Registered.antt =====
-- Registration and lookup in central_server/main.cpp where the statements succeed.
use zapshare.Base.{◌≡◌, subst, true, Bytes, codes, some, returned, aborted}
use zapshare.Server.Database.{
  conn, lookup_transfer, mark_transfer_claimed, get_transfers_metadata, register_transfers,
  to_transfer_row,
}
use zapshare.Server.Handlers.{
  fresh, content, with_status, Shared, get_lookup, get_getfile, post_register,
}
use zapshare.Server.Rows.{transfer_row_from_json, transfer_row_to_json}
use zapshare.Server.Sql.{TransferPayload, SqlRow, Sql, SqlLaws, SqlAnswers, rows_of}
use zapshare.Utils.Libraries.{JsonLib}

module _ {Db : Type 0} (sql : Sql Db) (laws : SqlLaws sql) (j : JsonLib) where
  open laws use {find, select-rows}

  -- The row is committed, and the end of register_transfers is undefined.
  pub post_register_lem :
      (body : Bytes) (v : j.Json) (payload : TransferPayload) (s : Shared sql j) (d d' : Db)
      → j.parse body ≡ returned v
      → transfer_row_from_json j v ≡ returned payload
      → s.connection ≡ some d
      → sql.begin d ≡ returned tt
      → sql.upsert payload d ≡ returned d'
      → post_register sql j body s ≡ (aborted, record s { connection = some d' })
  unfolding post_register register_transfers conn
  post_register_lem body v payload s d d' e f c b u = simp (e, c, b, f, u)

  module _ (secret : Bytes) (answers : SqlAnswers sql secret) where
    open answers use {begins, selects, claims}

    pub selected : (d : Db) → sql.select secret d ≡ returned (rows_of (find d secret))
    selected d =
        let (rows, e) = selects d in
        subst (λ r. sql.select secret d ≡ returned r) (select-rows secret d rows e) e

    pub get_lookup_lem :
        (row : SqlRow) (s : Shared sql j) (d : Db)
        → s.connection ≡ some d
        → find d secret ≡ some row
        → get_lookup sql j secret s ≡ (returned (content (codes "True") fresh), s)
    unfolding get_lookup lookup_transfer conn
    get_lookup_lem row s d c f = simp (c, begins d, selected d, f)

    pub get_getfile_lem :
        (printed : Bytes) (row : SqlRow) (s : Shared sql j) (d : Db)
        → s.connection ≡ some d
        → find d secret ≡ some row
        → j.dump (transfer_row_to_json j (record (to_transfer_row row) { claimed = true }))
          ≡ returned printed
        → get_getfile sql j secret s ≡ (
          returned (with_status 200 (content printed fresh)),
          record s { connection = some (claims d).0 },
        )
    unfolding get_getfile get_transfers_metadata mark_transfer_claimed conn
    get_getfile_lem printed row s d c f e = simp (c, begins d, selected d, f, (claims d).1, e)
